-- ===== src/RtspRecovery/History.antt =====
-- The policy over whole histories of calls: its invariant, and what a failure in a history does.
use skai_edge_native.Common.{
  ℕ, ◌+◌, ◌*◌, ◌^◌, ◌≤◌, ◌<◌, ◌≡◌, refl, ap, ◌∙◌, List, [], ◌∷◌, Option, none, some, true, false,
  min, arith, leb, inl, inr, is_some, if◌then◌else◌, ltb, inc64, Option-cases, length, ◌++◌,
}
use skai_edge_native.RtspRecovery.{
  Recovery, connecting, degraded, stalled, ms, make, begin, frame, packet_loss, check_stall,
  streaming, fail, retry, retry_due, stop, step, run, Call, begins, frames, losses, checks, fails,
  retries, stops,
}
use skai_edge_native.RtspRecovery.Backoff.{fail-delay}

-- A stream that runs, or that stalled, has a last frame; a degraded one has an end of degradation;
-- the configured durations are those of the start.
pub record IsValid (stall delay limit : ℕ) (r : Recovery) : Type 0 where
  pub timeout_kept : r.stall_timeout ≡ stall
  pub delay_kept : r.reconnect_delay ≡ delay
  pub limit_kept : r.max_reconnect_delay ≡ limit
  pub tracked : streaming r.health ≡ true → is_some r.last_frame ≡ true
  pub stalled_tracked : r.health ≡ stalled → is_some r.last_frame ≡ true
  pub dated : r.health ≡ degraded → is_some r.degraded_until ≡ true

module _ {stall delay limit : ℕ} where
  pub make-IsValid : IsValid stall delay limit (make stall delay limit)
  unfolding make
  make-IsValid = ground arith

  -- Every call keeps the policy valid.
  pub step-IsValid :
      (c : Call) (r : Recovery) → IsValid stall delay limit r → IsValid stall delay limit (step c r)
  unfolding step begin frame packet_loss check_stall fail retry retry_due stop
  step-IsValid begins r v = ground arith
  step-IsValid (frames now) r v = ground arith
  step-IsValid (losses now) r v = ground arith
  step-IsValid (checks now) r v = ground arith
  step-IsValid (fails now) r v = ground arith
  step-IsValid (retries now) r v = ground arith
  step-IsValid stops r v = ground arith

  pub run-IsValid :
      (cs : List Call) (r : Recovery)
      → IsValid stall delay limit r
      → IsValid stall delay limit (run cs r)
  unfolding run
  run-IsValid [] r v = v
  run-IsValid (c ∷ cs) r v = run-IsValid cs (step c r) (step-IsValid c r v)

-- The specification of the streak: the failures since the last frame or `begin`, counted on from
-- `n`.
abbrev pub failures : ℕ → List Call → ℕ
failures n [] = n
failures n (begins ∷ cs) = failures 0 cs
failures n (frames now ∷ cs) = failures 0 cs
failures n (losses now ∷ cs) = failures n cs
failures n (checks now ∷ cs) = failures n cs
failures n (fails now ∷ cs) = failures (n + 1) cs
failures n (retries now ∷ cs) = failures n cs
failures n (stops ∷ cs) = failures n cs

run-append : (cs ds : List Call) (r : Recovery) → run (cs ++ ds) r ≡ run ds (run cs r)
unfolding run
run-append [] ds r = refl
run-append (c ∷ cs) ds r = run-append cs ds (step c r)

failures-le : (n : ℕ) (cs : List Call) → failures n cs ≤ n + length cs
failures-le n [] = omega arith
failures-le n (begins ∷ cs) = omega (arith, failures-le 0 cs)
failures-le n (frames now ∷ cs) = omega (arith, failures-le 0 cs)
failures-le n (losses now ∷ cs) = omega (arith, failures-le n cs)
failures-le n (checks now ∷ cs) = omega (arith, failures-le n cs)
failures-le n (fails now ∷ cs) = omega (arith, failures-le (n + 1) cs)
failures-le n (retries now ∷ cs) = omega (arith, failures-le n cs)
failures-le n (stops ∷ cs) = omega (arith, failures-le n cs)

step-streak :
    (c : Call) (r : Recovery)
    → r.failure_streak + 1 < 2 ^ 32
    → (step c r).failure_streak ≡ failures r.failure_streak (c ∷ [])
unfolding step begin frame packet_loss check_stall fail retry retry_due stop
step-streak begins r h = refl
step-streak (frames now) r h = refl
step-streak (losses now) r h = ground arith
step-streak (checks now) r h = ground arith
step-streak (fails now) r h = ground arith
step-streak (retries now) r h = ground arith
step-streak stops r h = refl

failures-cons :
    (n : ℕ) (c : Call) (cs : List Call) → failures n (c ∷ cs) ≡ failures (failures n (c ∷ [])) cs
failures-cons n begins cs = refl
failures-cons n (frames now) cs = refl
failures-cons n (losses now) cs = refl
failures-cons n (checks now) cs = refl
failures-cons n (fails now) cs = refl
failures-cons n (retries now) cs = refl
failures-cons n stops cs = refl

run-streak :
    (cs : List Call) (r : Recovery)
    → r.failure_streak + length cs < 2 ^ 32
    → (run cs r).failure_streak ≡ failures r.failure_streak cs
unfolding run
run-streak [] r h = refl
run-streak (c ∷ cs) r h =
    run-streak cs (step c r) (rw e (omega (arith, failures-le r.failure_streak (c ∷ []))))
    ∙ rw (e, failures-cons r.failure_streak c cs)
  where
    e : (step c r).failure_streak ≡ failures r.failure_streak (c ∷ [])
    e = step-streak c r (omega arith)

run-fails :
    (now : ℕ) (r : Recovery)
    → r.failure_streak + 1 < 2 ^ 32
    → (run (fails now ∷ []) r).next_retry
      ≡ now + ms (min (r.reconnect_delay * 2 ^ r.failure_streak) r.max_reconnect_delay)
unfolding run step
run-fails now r h = (fail-delay now r h).2

-- A failure after any history of fewer than 2 ^ 32 - 1 calls on a fresh policy schedules the next
-- attempt by the number n of failures since the last frame or `begin` before it: after
-- min (delay * 2 ^ n) limit milliseconds.
pub run-fail_delay :
    (stall delay limit : ℕ) (cs : List Call) (now : ℕ)
    → length cs + 1 < 2 ^ 32
    → (run (cs ++ fails now ∷ []) (make stall delay limit)).next_retry
      ≡ now + ms (min (delay * 2 ^ failures 0 cs) limit)
run-fail_delay stall delay limit cs now h =
    let r : Recovery = run cs (make stall delay limit) in
    let v : IsValid stall delay limit r = run-IsValid cs (make stall delay limit) make-IsValid in
    let e : r.failure_streak ≡ failures 0 cs =
      run-streak cs (make stall delay limit) (rw streak-make (omega arith))
      ∙ ap (λ n. failures n cs) streak-make in
    rw run-append
      (run-fails now r (omega (arith, e, failures-le 0 cs)) ∙ rw (e, v.delay_kept, v.limit_kept))
  where
    streak-make : (make stall delay limit).failure_streak ≡ 0
    streak-make = unfold make in refl

-- In any history from a fresh policy, a source that streams has a last frame, at some time t, and
-- `check_stall` reports a stall exactly when the frame is at least the timeout old; then the
-- source is stalled, and otherwise nothing changes.
pub run-check_stall :
    (stall delay limit : ℕ) (cs : List Call) (now : ℕ)
    → streaming (run cs (make stall delay limit)).health ≡ true
    → (t : ℕ) × ((run cs (make stall delay limit)).last_frame ≡ some t)
      × (check_stall now (run cs (make stall delay limit)) ≡ (
          if leb (t + ms stall) now
          then (true, record (run cs (make stall delay limit)) { health = stalled })
          else (false, run cs (make stall delay limit))))
unfolding check_stall
run-check_stall stall delay limit cs now h =
    let r : Recovery = run cs (make stall delay limit) in
    let v : IsValid stall delay limit r = run-IsValid cs (make stall delay limit) make-IsValid in
    elim (Option-cases r.last_frame) [
      | inl e ↦ absurd (lost r.last_frame e (v.tracked h))
      | inr (t, e) ↦ (t, e, rw (h, e, v.timeout_kept))
    ]
  where
    lost : (o : Option ℕ) → o ≡ none → is_some o ≡ true → ⊥
    lost o e s = ground arith

-- An attempt is made only when it is due: before the scheduled time `retry` changes nothing, and
-- from then on it starts connecting and counts one reconnection.
pub fail-retry :
    (failed now : ℕ) (r : Recovery)
    → retry now (fail failed r) ≡ (
        if ltb now (fail failed r).next_retry then fail failed r else record (fail failed r) {
          health = connecting;
          reconnect_count = inc64 r.reconnect_count;
        })
unfolding retry retry_due fail
fail-retry failed now r = ground arith
