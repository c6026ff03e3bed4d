-- ===== src/Inference/Suppression/Kept.antt =====
-- What the suppression keeps.
use skai_edge_native.Common.{
  ℕ, ◌<◌, ◌≤◌, ◌≡◌, refl, arith, List, [], ◌∷◌, ◌++◌, length, length-append, Bool, true, false, not,
  ◌&&◌, ◌||◌, ◌==◌, subst, sym, append-nil, append_assoc, Bool-cases, inl, inr,
}
use skai_edge_native.Inference.Suppression.{Candidate, is_suppressed, suppress}

module _ {B : Type 0} (overlap : B → B → Bool) (is_visible : B → Bool) where
  -- No candidate is suppressed by those before it, and each is visible, from the ones at hand on.
  abbrev pub are_apart : List (Candidate B) → List (Candidate B) → Bool
  are_apart before [] = true
  are_apart before (candidate ∷ rest) =
      not (is_suppressed overlap is_visible candidate before)
      && (is_visible candidate.box && are_apart (before ++ candidate ∷ []) rest)

  are_apart-append :
      (before kept : List (Candidate B)) (candidate : Candidate B)
      → are_apart before kept ≡ true
      → is_suppressed overlap is_visible candidate (before ++ kept) ≡ false
      → is_visible candidate.box ≡ true
      → are_apart before (kept ++ candidate ∷ []) ≡ true
  are_apart-append before [] candidate a s v =
      let alone : is_suppressed overlap is_visible candidate before ≡ false =
        subst (λ xs. is_suppressed overlap is_visible candidate xs ≡ false) (append-nil before) s in
      ground arith
  are_apart-append before (k ∷ kept) candidate a s v =
      let later : is_suppressed overlap is_visible candidate ((before ++ k ∷ []) ++ kept) ≡ false =
        subst (λ xs. is_suppressed overlap is_visible candidate xs ≡ false)
          (sym (append_assoc before (k ∷ []) kept)) s in
      ground (arith, are_apart-append (before ++ k ∷ []) kept candidate (ground arith) later v)

  suppress_lem :
      (max_detections : ℕ) (kept candidates : List (Candidate B))
      → length kept < max_detections
      → are_apart [] kept ≡ true
      → (length (suppress overlap is_visible max_detections kept candidates) ≤ max_detections)
        × (are_apart [] (suppress overlap is_visible max_detections kept candidates) ≡ true)
  unfolding suppress
  suppress_lem max_detections kept [] l a = (omega arith, a)
  suppress_lem max_detections kept (c ∷ cs) l a =
      elim (Bool-cases (is_suppressed overlap is_visible c kept || not (is_visible c.box))) [
        | inl e ↦ ground (arith, e, suppress_lem max_detections kept cs l a)
        | inr e ↦
            let more : are_apart [] (kept ++ c ∷ []) ≡ true =
              are_apart-append [] kept c a (ground arith) (ground arith) in
            elim (Bool-cases (length (kept ++ c ∷ []) == max_detections)) [
              | inl full ↦ ground (arith, e, full, more)
              | inr room ↦ ground (
                arith,
                e,
                room,
                suppress_lem max_detections (kept ++ c ∷ []) cs
                    (ground (arith, length-append kept (c ∷ []))) more,
              )
            ]
      ]

  -- Whatever the boxes, with a positive number of detections: at most that many candidates are
  -- kept, each of them is visible, and none overlaps too much with one of its class kept before it.
  pub are_apart-suppress :
      (max_detections : ℕ) (candidates : List (Candidate B))
      → 0 < max_detections
      → (length (suppress overlap is_visible max_detections [] candidates) ≤ max_detections)
        × (are_apart [] (suppress overlap is_visible max_detections [] candidates) ≡ true)
  are_apart-suppress max_detections candidates h = suppress_lem max_detections [] candidates h refl
