-- ===== src/Whip/Peer/Gathering.antt =====
-- The wait for ICE gathering: when it ends, and what its answer says of the callbacks that came.
use skai_edge_native.Common.{
  ℕ, zero, suc, ◌+◌, ◌≤◌, ◌<◌, ◌≡◌, refl, some, Bool, true, false, not, ◌&&◌, arith, Bool-cases,
  inl, inr, List, ◌++◌, ◌||◌, leb, ◌∙◌,
}
use skai_edge_native.Whip.Peer.History.{
  Callback, state_after, any_gathering, any_failure, has_gathered-state_after,
  has_failed-state_after,
}
use skai_edge_native.Whip.Peer.{Look, goes_on, times_out, answer, wait_loop, wait_for_gathering}

-- A round after which the loop goes on waiting.
abbrev waits : ℕ → Look → Bool
waits deadline l = goes_on l && not (times_out deadline l)

-- The first `n` rounds all go on waiting.
abbrev all_wait : ℕ → (ℕ → Look) → ℕ → Bool
all_wait deadline looks zero = true
all_wait deadline looks (suc n) =
    waits deadline (looks 0) && all_wait deadline (λ k. looks (suc k)) n

-- The round `m` is the first that ends the wait.
abbrev is_end : ℕ → (ℕ → Look) → ℕ → Bool
is_end deadline looks m = all_wait deadline looks m && not (waits deadline (looks m))

no_wait_late : (deadline : ℕ) (l : Look) → deadline ≤ l.now_after → waits deadline l ≡ false
no_wait_late deadline l h = ground arith

wait_loop-ends :
    (deadline : ℕ) (looks : ℕ → Look) (n fuel : ℕ)
    → deadline ≤ (looks n).now_after
    → n < fuel
    → (m : ℕ) × (m ≤ n)
      × (is_end deadline looks m ≡ true)
      × (wait_loop deadline looks fuel ≡ some (answer (looks m)))
unfolding wait_loop
wait_loop-ends deadline looks n zero late h = absurd (omega arith)
wait_loop-ends deadline looks zero (suc fuel) late h =
    let now : waits deadline (looks 0) ≡ false = no_wait_late deadline (looks 0) late in
    (0, omega arith, rw now refl, rw now refl)
wait_loop-ends deadline looks (suc n) (suc fuel) late h =
    elim (Bool-cases (waits deadline (looks 0))) [
      | inl more ↦
          let (m, le, ends, result) =
            wait_loop-ends deadline (λ k. looks (suc k)) n fuel late (omega arith) in
          (suc m, omega arith, rw more ends, rw more result)
      | inr over ↦ (0, omega arith, rw over refl, rw over refl)
    ]

all_wait-last :
    (deadline : ℕ) (looks : ℕ → Look) (m : ℕ)
    → all_wait deadline looks (suc m) ≡ (all_wait deadline looks m && waits deadline (looks m))
all_wait-last deadline looks zero = ground arith
all_wait-last deadline looks (suc m) = ground (arith, all_wait-last deadline (λ k. looks (suc k)) m)

-- What a round of the wait sees but for the callbacks.
pub record Glance : Type 0 where
  pub stops : Bool
  pub stops_at_return : Bool
  pub now : ℕ
  pub now_after : ℕ

-- The callbacks that have come by a round, from those that come before each round.
abbrev pub calls_by : (ℕ → List Callback) → ℕ → List Callback
calls_by arriving zero = arriving 0
calls_by arriving (suc k) = arriving (suc k) ++ calls_by arriving k

abbrev pub look_at : (ℕ → List Callback) → (ℕ → Glance) → ℕ → Look
look_at arriving glances k = record {
  state = state_after (calls_by arriving k);
  stops = (glances k).stops;
  stops_at_return = (glances k).stops_at_return;
  now = (glances k).now;
  now_after = (glances k).now_after;
}

-- In a round there is something to return for: gathering is complete or has failed, the service
-- stops, or the deadline has passed, or 100 ms between the two readings of the clock.
abbrev pub has_news : ℕ → (ℕ → List Callback) → (ℕ → Glance) → ℕ → Bool
has_news deadline arriving glances k =
    any_gathering (calls_by arriving k)
    || (any_failure (calls_by arriving k)
        || ((glances k).stops
            || (leb deadline (glances k).now_after
                || leb ((glances k).now + 100_000_000) (glances k).now_after)))

abbrev pub no_news : ℕ → (ℕ → List Callback) → (ℕ → Glance) → ℕ → Bool
no_news deadline arriving glances zero = true
no_news deadline arriving glances (suc m) =
    no_news deadline arriving glances m && not (has_news deadline arriving glances m)

module _ (arriving : ℕ → List Callback) (glances : ℕ → Glance) where
  waits-news :
      (deadline k : ℕ)
      → waits deadline (look_at arriving glances k) ≡ not (has_news deadline arriving glances k)
  waits-news deadline k = ground (
    arith,
    has_gathered-state_after (calls_by arriving k),
    has_failed-state_after (calls_by arriving k),
  )

  all_wait-news :
      (deadline m : ℕ)
      → all_wait deadline (look_at arriving glances) m ≡ no_news deadline arriving glances m
  all_wait-news deadline zero = refl
  all_wait-news deadline (suc m) =
      all_wait-last deadline (look_at arriving glances) m
      ∙ rw (all_wait-news deadline m, waits-news deadline m) refl

  -- A wait whose clock reaches the deadline by its round `n` returns, given more rounds than `n`, in
  -- the first round by which gathering is complete or has failed, or in which the service stops, the
  -- deadline has passed, or 100 ms have between its two readings of the clock. The answer is true exactly when by that round the callback
  -- for complete gathering has come and none for a failure, and the service does not stop.
  pub wait_for_gathering-ends :
      (start timeout n fuel : ℕ)
      → start + timeout ≤ (glances n).now_after
      → n < fuel
      → (m : ℕ) × (m ≤ n)
        × (no_news (start + timeout) arriving glances m ≡ true)
        × (has_news (start + timeout) arriving glances m ≡ true)
        × (wait_for_gathering start timeout (look_at arriving glances) fuel
            ≡ some (
                any_gathering (calls_by arriving m)
                && (not (any_failure (calls_by arriving m)) && not (glances m).stops_at_return)))
  unfolding wait_for_gathering
  wait_for_gathering-ends start timeout n fuel late h =
      let (m, le, ends, result) =
        wait_loop-ends (start + timeout) (look_at arriving glances) n fuel late h in
      (
        m,
        le,
        ground (arith, ends, all_wait-news (start + timeout) m),
        ground (arith, ends, waits-news (start + timeout) m),
        result
            ∙ rw
                (
                  has_gathered-state_after (calls_by arriving m),
                  has_failed-state_after (calls_by arriving m),
                )
                refl,
      )
