-- ===== src/BoundedQueue/Fifo.antt =====
-- Order of delivery: the queue as a lossy FIFO, and its end after shutdown.
use mathlib.Core.List.{Sublist, sublist-append_left}
use mathlib.Core.List.Sublist
use skai_edge_native.Common.{
  ℕ, ◌+◌, ◌-◌, ◌<◌, ◌≤◌, ◌≡◌, refl, ap, List, [], ◌∷◌, ◌++◌, Option, none, some, true, false,
  length, drop, arith, append_assoc, append-nil, length-append, inc64, ltb, Bool-cases, inl, inr,
}
use skai_edge_native.BoundedQueue.{
  BoundedQueue, push, pop, pop_for, shutdown, discard_all, reset, take_front, take_from, trim,
  ready, Call, pushes, pops, pops_for, shuts_down, discards, resets, step, run, opt_cons,
}
use skai_edge_native.BoundedQueue.Invariant.{IsValid}

module _ {ℓ} {T : Type ℓ} where
  -- The values that a history offers to the queue, in order.
  abbrev pub offered : List (Call T) → List T
  offered [] = []
  offered (pushes x ∷ cs) = x ∷ offered cs
  offered (pops ∷ cs) = offered cs
  offered (pops_for ∷ cs) = offered cs
  offered (shuts_down ∷ cs) = offered cs
  offered (discards ∷ cs) = offered cs
  offered (resets ∷ cs) = offered cs

  drop_one-sublist : (xs : List T) → Sublist (drop 1 xs) xs
  drop_one-sublist [] = Sublist.refl []
  drop_one-sublist (x ∷ xs) = Sublist.cons x (Sublist.refl xs)

  push-sublist : (x : T) (q : BoundedQueue T) → Sublist (push x q).1.items (q.items ++ x ∷ [])
  unfolding push trim
  push-sublist x q = elim (Bool-cases q.is_shutdown) [
    | inl e ↦ rw e (sublist-append_left q.items (x ∷ []))
    | inr e ↦ rw e (elim (Bool-cases (ltb q.capacity (length (q.items ++ x ∷ [])))) [
      | inl full ↦ rw full (drop_one-sublist (q.items ++ x ∷ []))
      | inr room ↦ rw room (Sublist.refl (q.items ++ x ∷ []))
    ])
  ]

  take_from-items :
      (xs : List T) (q : BoundedQueue T)
      → q.items ≡ xs
      → opt_cons (take_from xs q).0 (take_from xs q).1.items ≡ xs
  unfolding take_from
  take_from-items [] q e = e
  take_from-items (x ∷ xs) q e = refl

  take_front-items :
      (q : BoundedQueue T) → opt_cons (take_front q).0 (take_front q).1.items ≡ q.items
  unfolding take_front
  take_front-items q = take_from-items q.items q refl

  nil-sublist : (xs : List T) → Sublist [] xs
  nil-sublist [] = Sublist.refl []
  nil-sublist (x ∷ xs) = Sublist.cons x (nil-sublist xs)

  -- One call: what it hands out, then what stays, is in order among what was there and offered.
  step-sublist :
      (c : Call T) (q : BoundedQueue T)
      → Sublist (opt_cons (step c q).0 (step c q).1.items) (q.items ++ offered (c ∷ []))
  unfolding step pop pop_for shutdown discard_all reset
  step-sublist (pushes x) q = push-sublist x q
  step-sublist pops q = rw append-nil (elim (Bool-cases (ready q)) [
    | inl e ↦ simp (e, take_front-items) (Sublist.refl q.items)
    | inr e ↦ simp e (Sublist.refl q.items)
  ])
  step-sublist pops_for q = rw append-nil (elim (Bool-cases (ready q)) [
    | inl e ↦ simp (e, take_front-items) (Sublist.refl q.items)
    | inr e ↦ simp e (Sublist.refl q.items)
  ])
  step-sublist shuts_down q = sublist-append_left q.items []
  step-sublist discards q = nil-sublist _
  step-sublist resets q = nil-sublist _

  opt_cons-sublist :
      (o : Option T) {xs ys : List T} → Sublist xs ys → Sublist (opt_cons o xs) (opt_cons o ys)
  opt_cons-sublist none h = h
  opt_cons-sublist (some x) h = Sublist.cons-cons x h

  opt_cons-append : (o : Option T) (xs ys : List T) → opt_cons o xs ++ ys ≡ opt_cons o (xs ++ ys)
  opt_cons-append none xs ys = refl
  opt_cons-append (some x) xs ys = refl

  offered-cons :
      (c : Call T) (cs : List (Call T)) → offered (c ∷ []) ++ offered cs ≡ offered (c ∷ cs)
  offered-cons (pushes x) cs = refl
  offered-cons pops cs = refl
  offered-cons pops_for cs = refl
  offered-cons shuts_down cs = refl
  offered-cons discards cs = refl
  offered-cons resets cs = refl

  -- In any history, the values handed to consumers followed by those still buffered are a
  -- sublist, in order, of the values buffered at first followed by those offered by the producers:
  -- nothing is duplicated, invented or reordered.
  pub run-sublist :
      (cs : List (Call T)) (q : BoundedQueue T)
      → Sublist ((run cs q).0 ++ (run cs q).1.items) (q.items ++ offered cs)
  unfolding run
  run-sublist [] q = sublist-append_left q.items []
  run-sublist (c ∷ cs) q =
      rw (opt_cons-append, ← offered-cons c cs, ← append_assoc)
        (Sublist.trans (opt_cons-sublist (step c q).0 (run-sublist cs (step c q).1))
          (rw (← opt_cons-append) (Sublist.append (step-sublist c q) (Sublist.refl (offered cs)))))

  trim_newest :
      (cap : ℕ) (xs : List T) (d : ℕ)
      → 0 < cap
      → length xs ≤ cap + 1
      → (trim cap xs d).0 ≡ drop (length xs - cap) xs
  unfolding trim
  trim_newest cap xs d p h = elim (Bool-cases (ltb cap (length xs))) [
    | inl full ↦ rw full (ap (λ k. drop k xs) (excess full))
    | inr room ↦ rw room (ap (λ k. drop k xs) (within room))
  ]
    where
      excess : ltb cap (length xs) ≡ true → 1 ≡ length xs - cap
      excess e = ground arith

      within : ltb cap (length xs) ≡ false → 0 ≡ length xs - cap
      within e = ground arith

  -- A push on a valid queue that is not shut down is accepted; it keeps the newest values, as many
  -- as the capacity allows, in order: exactly the oldest one is dropped, and only when the queue
  -- was full.
  pub push-newest :
      (x : T) (q : BoundedQueue T)
      → IsValid q
      → q.is_shutdown ≡ false
      → ((push x q).0 ≡ true)
        × ((push x q).1.items ≡ drop (length q.items + 1 - q.capacity) (q.items ++ x ∷ []))
  unfolding push
  push-newest x q v e = (
    ground arith,
    ground (
      arith,
      trim_newest q.capacity (q.items ++ x ∷ []) q.stats.dropped v.positive,
      length-append q.items (x ∷ []),
    ),
  )

  -- As many calls of `pop` as a list has values.
  abbrev pub pops_for_each : List T → List (Call T)
  pops_for_each [] = []
  pops_for_each (x ∷ xs) = pops ∷ pops_for_each xs

  -- After shutdown, as many calls of `pop` as there are buffered values hand out exactly those, in
  -- order; then a further `pop` returns the empty optional without waiting, and a push is refused
  -- and changes nothing.
  pub shutdown-drain :
      (y : T) (xs : List T) (q : BoundedQueue T)
      → q.items ≡ xs
      → q.is_shutdown ≡ true
      → ((run (pops_for_each xs) q).0 ≡ xs)
        × ((run (pops_for_each xs) q).1.items ≡ [])
        × (pop (run (pops_for_each xs) q).1 ≡ some (none, (run (pops_for_each xs) q).1))
        × (push y (run (pops_for_each xs) q).1 ≡ (false, (run (pops_for_each xs) q).1))
  unfolding run step pop take_front take_from push
  shutdown-drain y [] q e s = (refl, e, ground arith, ground arith)
  shutdown-drain y (x ∷ xs) q e s =
      let rest =
        shutdown-drain y xs
          (record q { items = xs; stats = record q.stats { popped = inc64 q.stats.popped } }) refl
          s in
      ground (arith, rest)
