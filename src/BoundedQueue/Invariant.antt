-- ===== src/BoundedQueue/Invariant.antt =====
-- Bounds and accounting of the queue.
use skai_edge_native.Common.{
  is_some, true, ℕ, suc, ◌+◌, ◌<◌, ◌≤◌, ◌%◌, ◌^◌, ◌≡◌, List, [], ◌∷◌, ◌++◌, some, length,
  length-append, arith, ap, refl,
}
use skai_edge_native.BoundedQueue.{
  BoundedQueue, make, push, pop, pop_for, shutdown, discard_all, reset, take_front, take_from, trim,
  Call, pushes, pops, pops_for, shuts_down, discards, resets, step, run,
}

pub is_some-make {ℓ} : (T : Type ℓ) (n : ℕ) → 1 ≤ n → is_some (make {T = T} n) ≡ true
unfolding make
is_some-make T n h = ground arith

module _ {ℓ} {T : Type ℓ} where
  -- Positive capacity, size within it, the high-water mark between the two; every value that was
  -- pushed is buffered or counted once as popped, dropped or discarded (mod 2 ^ 64).
  pub record IsValid (q : BoundedQueue T) : Type 0 where
    pub positive : 0 < q.capacity
    pub fits : length q.items ≤ q.capacity
    pub marked : length q.items ≤ q.stats.high_water_mark
    pub mark_fits : q.stats.high_water_mark ≤ q.capacity
    pub accounted :
        q.stats.pushed
        ≡ (q.stats.popped + q.stats.dropped + q.stats.discarded + length q.items) % 2 ^ 64

  pub make-IsValid : (n : ℕ) {q : BoundedQueue T} → make n ≡ some q → IsValid q
  unfolding make
  make-IsValid n e = ground arith

  trim_lem :
      (cap : ℕ) (xs : List T) (x : T) (d : ℕ)
      → length xs ≤ cap
      → (length (trim cap (xs ++ x ∷ []) d).0 ≤ cap)
        × (length (trim cap (xs ++ x ∷ []) d).0 ≤ suc (length xs))
        × ((length (trim cap (xs ++ x ∷ []) d).0 + (trim cap (xs ++ x ∷ []) d).1) % 2 ^ 64
            ≡ (length xs + d + 1) % 2 ^ 64)
  unfolding trim
  trim_lem cap [] x d h = ground arith
  trim_lem cap (y ∷ ys) x d h = ground (arith, length-append ys (x ∷ []))

  push-IsValid : (x : T) (q : BoundedQueue T) → IsValid q → IsValid (push x q).1
  unfolding push
  push-IsValid x q v = ground (arith, trim_lem q.capacity q.items x q.stats.dropped v.fits)

  take_from-IsValid :
      (xs : List T) (q : BoundedQueue T) → q.items ≡ xs → IsValid q → IsValid (take_from xs q).1
  unfolding take_from
  take_from-IsValid [] q e v = v
  take_from-IsValid (x ∷ xs) q e v = ground (arith, ap length e)

  take_front-IsValid : (q : BoundedQueue T) → IsValid q → IsValid (take_front q).1
  unfolding take_front
  take_front-IsValid q v = take_from-IsValid q.items q refl v

  -- Every call keeps the queue valid.
  pub step-IsValid : (c : Call T) (q : BoundedQueue T) → IsValid q → IsValid (step c q).1
  unfolding step pop pop_for shutdown discard_all reset
  step-IsValid (pushes x) q v = push-IsValid x q v
  step-IsValid pops q v = ground (arith, take_front-IsValid q v)
  step-IsValid pops_for q v = ground (arith, take_front-IsValid q v)
  step-IsValid shuts_down q v = ground arith
  step-IsValid discards q v = ground arith
  step-IsValid resets q v = ground arith

  -- After any interleaving of calls on a queue that the constructor made, the size and the
  -- high-water mark are within the capacity, and the counters account for every pushed value.
  pub run-IsValid : (cs : List (Call T)) (q : BoundedQueue T) → IsValid q → IsValid (run cs q).1
  unfolding run
  run-IsValid [] q v = v
  run-IsValid (c ∷ cs) q v = run-IsValid cs (step c q).1 (step-IsValid c q v)
