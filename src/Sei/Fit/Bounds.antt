-- ===== src/Sei/Fit/Bounds.antt =====
-- What fits: the size of the NAL unit, and that no more could have been kept.
use skai_edge_native.Common.{
  ℕ, zero, suc, ◌+◌, ◌-◌, ◌/◌, ◌^◌, ◌≤◌, ◌<◌, ◌≡◌, refl, ap, sym, ◌∙◌, ℤ, List, [], ◌∷◌, Bool, true,
  false, ◌==◌, ◌||◌, not, ◌&&◌, length, drop, arith, ltb, leb, Bool-cases, inl, inr, ◌⊎◌,
}
use skai_edge_native.Sei.Nal.Size.{length-encode}
use skai_edge_native.Sei.Json.{detection_sei_json, SeiBox, SeiResult}
use skai_edge_native.Sei.Json.Size.{length-no_result, length-empty_result}
use skai_edge_native.Sei.Sort.{stable_sort, length-stable_sort}
use skai_edge_native.Sei.Fit.{
  detection_sei_uuid, encode_results, is_too_large, shrink, search, cut_to, scores_more, cut, fit,
}

module _ {D : Type 0} (scaled : D → ℤ) where
  -- A result without boxes always fits.
  empty_result-fits :
      (r : SeiResult D) → r.dt < 2 ^ 32 → is_too_large scaled (cut_to 0 r.boxes r ∷ []) ≡ false
  unfolding is_too_large encode_results
  empty_result-fits r h =
      let bare : SeiResult D = record { dt = r.dt; boxes = [] } in
      ground (
        arith,
        length-encode detection_sei_uuid (detection_sei_json scaled (bare ∷ [])),
        length-empty_result scaled r.dt h,
      )

  abbrev pub is_bound : List (SeiBox D) → SeiResult D → ℕ → Bool
  is_bound boxes r k = k == length boxes || is_too_large scaled (cut_to k boxes r ∷ [])

  -- With `k` boxes the result fits, and with one more it does not or it has all of them.
  abbrev pub is_edge : List (SeiBox D) → SeiResult D → ℕ → Bool
  is_edge boxes r k = not (is_too_large scaled (cut_to k boxes r ∷ [])) && is_bound boxes r (suc k)

  search_lem :
      (fuel fits too_many : ℕ) (boxes : List (SeiBox D)) (r : SeiResult D)
      → fits < too_many
      → too_many ≤ fits + suc fuel
      → is_too_large scaled (cut_to fits boxes r ∷ []) ≡ false
      → is_bound boxes r too_many ≡ true
      → (is_edge boxes r (search scaled fuel fits too_many boxes r) ≡ true)
        × (search scaled fuel fits too_many boxes r < too_many)
  unfolding search
  search_lem zero fits too_many boxes r lt enough ok bad =
      let next : suc fits ≡ too_many = omega arith in (rw (ok, next, bad) refl, lt)
  search_lem (suc fuel) fits too_many boxes r lt enough ok bad =
      elim (Bool-cases (ltb (fits + 1) too_many)) [
        | inl further ↦
            let count = (fits + too_many) / 2 in
            (elim (Bool-cases (is_too_large scaled (cut_to count boxes r ∷ []))) [
              | inl large ↦
                  let (edge, below) =
                    search_lem fuel fits count boxes r (ground arith) (ground arith) ok
                      (ground arith) in
                  rw (further, large) (edge, omega arith)
              | inr small ↦
                  rw (further, small)
                    (search_lem fuel count too_many boxes r (ground arith) (ground arith) small bad)
            ])
        | inr closed ↦
            let next : suc fits ≡ too_many = ground arith in rw closed (rw (ok, next, bad) refl, lt)
      ]

  -- The lists from which the first result was erased were all too large.
  abbrev pub all_too_large : ℕ → List (SeiResult D) → Bool
  all_too_large zero rs = true
  all_too_large (suc n) rs = is_too_large scaled rs && all_too_large n (drop 1 rs)

  abbrev pub is_settled : List (SeiResult D) → Bool
  is_settled rs = not (is_too_large scaled rs) || leb (length rs) 1

  shrink_lem :
      (rs : List (SeiResult D))
      → ((shrink scaled rs).0 ≡ drop (shrink scaled rs).1 rs)
        × (all_too_large (shrink scaled rs).1 rs ≡ true)
        × (is_settled (shrink scaled rs).0 ≡ true)
  unfolding shrink
  shrink_lem [] = (refl, refl, ground arith)
  shrink_lem (r ∷ []) = (refl, refl, ground arith)
  shrink_lem (r ∷ next ∷ rs) = elim (Bool-cases (is_too_large scaled (r ∷ next ∷ rs))) [
    | inl large ↦
        let (left, all, settled) = shrink_lem (next ∷ rs) in rw large (left, rw large all, settled)
    | inr small ↦ rw small (refl, refl, rw small refl)
  ]

  abbrev pub dts_fit : List (SeiResult D) → Bool
  dts_fit [] = true
  dts_fit (r ∷ rs) = ltb r.dt (2 ^ 32) && dts_fit rs

  -- No result at all fits.
  no_result-fits : is_too_large scaled [] ≡ false
  unfolding is_too_large encode_results
  no_result-fits = ground (
    arith,
    length-encode detection_sei_uuid (detection_sei_json scaled []),
    length-no_result scaled,
  )

  dts_fit-drop : (n : ℕ) (rs : List (SeiResult D)) → dts_fit rs ≡ true → dts_fit (drop n rs) ≡ true
  dts_fit-drop zero rs h = h
  dts_fit-drop (suc n) [] h = refl
  dts_fit-drop (suc n) (r ∷ rs) h = dts_fit-drop n rs (ground arith)

module _ {D : Type 0} (scaled : D → ℤ) (greater : D → D → Bool) where
  -- The boxes with the highest scores first.
  abbrev pub best_first : SeiResult D → List (SeiBox D)
  best_first r = stable_sort (scores_more greater) r.boxes

  has_boxes :
      (dt : ℕ) (boxes : List (SeiBox D))
      → dt < 2 ^ 32
      → is_too_large scaled (record { dt = dt; boxes = boxes } ∷ []) ≡ true
      → 0 < length boxes
  has_boxes dt [] h large =
      let bare : SeiResult D = record { dt = dt; boxes = [] } in
      absurd (ground (arith, empty_result-fits scaled bare h))
  has_boxes dt (b ∷ bs) h large = omega arith

  cut_lem :
      (r : SeiResult D)
      → r.dt < 2 ^ 32
      → is_too_large scaled (r ∷ []) ≡ true
      → (k : ℕ) × (cut scaled greater (r ∷ [])
          ≡ (cut_to k (best_first r) r ∷ [], length (best_first r) - k))
        × (is_edge scaled (best_first r) r k ≡ true)
  unfolding cut
  cut_lem r h large =
      let n = length (best_first r) in
      let found =
        search_lem scaled n 0 n (best_first r) r
          (omega (
            arith,
            has_boxes r.dt r.boxes h large,
            length-stable_sort (scores_more greater) r.boxes,
          ))
          (omega arith) (empty_result-fits scaled r h) (ground arith) in
      (search scaled n 0 n (best_first r) r, refl, found.0)

  -- What `fit` may send of the results `rs`, of which `erased` are erased: the others, or the
  -- first boxes of the last result by score, as many as fit.
  abbrev pub Sends : List (SeiResult D) → List (SeiResult D) × ℕ × ℕ → Type 0
  Sends rs (sent, erased, boxes_dropped) =
      (sent ≡ drop erased rs) × (boxes_dropped ≡ 0)
      ⊎ ((r : SeiResult D) × (k : ℕ) × (drop erased rs ≡ r ∷ [])
          × (is_too_large scaled (r ∷ []) ≡ true)
          × (sent ≡ cut_to k (best_first r) r ∷ [])
          × (is_edge scaled (best_first r) r k ≡ true)
          × (boxes_dropped ≡ length (best_first r) - k))

  single :
      (rs : List (SeiResult D))
      → dts_fit scaled rs ≡ true
      → is_settled scaled rs ≡ true
      → is_too_large scaled rs ≡ true
      → (r : SeiResult D) × (rs ≡ r ∷ []) × (r.dt < 2 ^ 32)
  single [] h settled large = absurd (ground (arith, no_result-fits scaled))
  single (r ∷ []) h settled large = (r, refl, ground arith)
  single (r ∷ next ∷ rs) h settled large = absurd (ground arith)

  pub fit_lem :
      (rs : List (SeiResult D))
      → dts_fit scaled rs ≡ true
      → (is_too_large scaled (fit scaled greater rs).0 ≡ false)
        × (all_too_large scaled (fit scaled greater rs).1 rs ≡ true)
        × Sends rs (fit scaled greater rs)
  unfolding fit
  fit_lem rs h = elim (Bool-cases (is_too_large scaled (shrink scaled rs).0)) [
    | inl large ↦
        let (left, all, settled) = shrink_lem scaled rs in
        let fine : dts_fit scaled (shrink scaled rs).0 ≡ true =
          rw left (dts_fit-drop scaled (shrink scaled rs).1 rs h) in
        let (r, one, dt) = single (shrink scaled rs).0 fine settled large in
        let large_one : is_too_large scaled (r ∷ []) ≡ true =
          ap (is_too_large scaled) (sym one) ∙ large in
        let (k, cut_down, edge) = cut_lem r dt large_one in
        rw (large, one, cut_down)
          (ground arith, all, inr (r, k, sym left ∙ one, large_one, refl, edge, refl))
    | inr small ↦
        let (left, all, settled) = shrink_lem scaled rs in rw small (small, all, inl (left, refl))
  ]

  -- `fit` keeps or erases each result.
  length-shrink :
      (rs : List (SeiResult D)) → length (shrink scaled rs).0 + (shrink scaled rs).1 ≡ length rs
  unfolding shrink
  length-shrink [] = refl
  length-shrink (r ∷ []) = refl
  length-shrink (r ∷ next ∷ rs) = ground (arith, length-shrink (next ∷ rs))

  length-cut : (rs : List (SeiResult D)) → length (cut scaled greater rs).0 ≡ length rs
  unfolding cut
  length-cut [] = refl
  length-cut (r ∷ rs) = refl

  pub length-fit :
      (rs : List (SeiResult D))
      → length (fit scaled greater rs).0 + (fit scaled greater rs).1 ≡ length rs
  unfolding fit
  length-fit rs = ground (arith, length-shrink rs, length-cut (shrink scaled rs).0)

  -- The NAL unit of what `fit` sends has at most 1024 bytes.
  pub length-encode_fit :
      (rs : List (SeiResult D))
      → dts_fit scaled rs ≡ true
      → length (encode_results scaled (fit scaled greater rs).0) ≤ 1024
  unfolding is_too_large
  length-encode_fit rs h = ground (arith, fit_lem rs h)
