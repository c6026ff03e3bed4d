-- ===== src/RtspRecovery/Backoff.antt =====
-- The retry delay: the loop of `fail` against its closed form.
use Prim.Native.Nat.pow
use native.Mathlib.Decide.{dec_le}
use skai_edge_native.Common.{
  ℕ, zero, suc, ◌+◌, ◌-◌, ◌*◌, ◌^◌, ◌≤◌, ◌<◌, ◌≡◌, refl, min, arith, leb, inc32, Bool-cases, inl,
  inr,
}
use skai_edge_native.RtspRecovery.{Recovery, ms, backoff, fail, reconnecting}

pow-pos : (k : ℕ) → 1 ≤ 2 ^ k
pow-pos zero = omega arith
pow-pos (suc k) = rw pow.suc (omega (arith, pow-pos k))

pow-double : (d k : ℕ) → d * 2 ^ suc k ≡ d * 2 * 2 ^ k
pow-double d k = rw pow.suc (omega arith)

le-mul_pos : (a p : ℕ) → 1 ≤ p → a ≤ a * p
le-mul_pos a p h = grind arith

min-mul : (a p limit : ℕ) → 1 ≤ p → min (min a limit * p) limit ≡ min (a * p) limit
min-mul a p limit h = elim (dec_le a limit) [
  | yes low ↦ rw (capped low) refl
  | no high ↦
      let e : min a limit ≡ limit = omega arith in
      rw e (omega (arith, le-mul_pos limit p h, le-mul_pos a p h))
]
  where
    capped : a ≤ limit → min a limit ≡ a
    capped low = omega arith

-- The doubling loop with its early exit, capped, is the capped power of two.
pub backoff-min : (k d limit : ℕ) → min (backoff k d limit) limit ≡ min (d * 2 ^ k) limit
unfolding backoff
backoff-min zero d limit = omega arith
backoff-min (suc k) d limit = elim (Bool-cases (leb limit (min (d * 2) limit))) [
  | inl full ↦
      let reached : limit ≤ d * 2 = ground arith in
      rw full (omega (arith, pow-double d k, le-mul_pos (d * 2) (2 ^ k) (pow-pos k)))
  | inr short ↦ rw (
    short,
    backoff-min k (min (d * 2) limit) limit,
    min-mul (d * 2) (2 ^ k) limit (pow-pos k),
    pow-double d k,
  )
]

-- After a failure that is the n-th in a row (n below 2 ^ 32), the source is reconnecting and the
-- next attempt is due after the capped exponential delay
-- min (reconnect_delay * 2 ^ (n - 1)) max_reconnect_delay.
pub fail-delay :
    (now : ℕ) (r : Recovery)
    → r.failure_streak + 1 < 2 ^ 32
    → ((fail now r).health ≡ reconnecting)
      × ((fail now r).failure_streak ≡ r.failure_streak + 1)
      × ((fail now r).next_retry
          ≡ now + ms (min (r.reconnect_delay * 2 ^ r.failure_streak) r.max_reconnect_delay))
unfolding fail
fail-delay now r h =
    let e : inc32 r.failure_streak - 1 ≡ r.failure_streak = omega arith in
    (
      refl,
      omega arith,
      rw (e, backoff-min r.failure_streak r.reconnect_delay r.max_reconnect_delay),
    )
