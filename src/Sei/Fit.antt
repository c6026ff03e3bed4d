-- ===== src/Sei/Fit.antt =====
-- How `SeiResultSelector::take_for` of src/webrtc/detection_sei.cpp makes its results fit into a
-- NAL unit. `scaled` is explained at the JSON payload; `greater` is the comparison of two scores.
pub mod Bounds
use skai_edge_native.Common.{
  ℕ, zero, suc, ◌+◌, ◌-◌, ◌*◌, ◌/◌, ◌%◌, ◌^◌, ℤ, List, [], ◌∷◌, ◌++◌, Bool, true, false, not, ◌&&◌,
  ◌||◌, Option, some, none, length, take, drop, ltb, leb, ◌==◌, if◌then◌else◌, add64, inc64,
}
use skai_edge_native.Sei.Nal.{encode_user_data_sei_nal}
use skai_edge_native.Sei.Json.{SeiBox, SeiResult, detection_sei_json}
use skai_edge_native.Sei.Sort.{stable_sort}

-- `kDetectionSeiUuid`.
abbrev pub detection_sei_uuid : List ℕ
detection_sei_uuid =
    0x19 ∷ 0x7c ∷ 0x65 ∷ 0xee ∷ 0xa1 ∷ 0x32 ∷ 0x4f ∷ 0x53 ∷ 0x85 ∷ 0xa0 ∷ 0x8a ∷ 0xf9 ∷ 0xad ∷ 0x15
    ∷ 0x3c ∷ 0x4b ∷ []

abbrev pub max_detection_sei_bytes : ℕ
max_detection_sei_bytes = 1024

abbrev pub scores_more : {D : Type 0} → (D → D → Bool) → SeiBox D → SeiBox D → Bool
scores_more greater a b = greater a.score b.score

abbrev pub cut_to : {D : Type 0} → ℕ → List (SeiBox D) → SeiResult D → SeiResult D
cut_to count boxes r = record r { boxes = take count boxes }

module _ {D : Type 0} (scaled : D → ℤ) where
  pub encode_results : List (SeiResult D) → List ℕ
  encode_results results =
      encode_user_data_sei_nal detection_sei_uuid (detection_sei_json scaled results)

  pub is_too_large : List (SeiResult D) → Bool
  is_too_large results = ltb max_detection_sei_bytes (length (encode_results results))

  -- The loop that erases the oldest result: what is left, and how many were erased.
  pub shrink : List (SeiResult D) → List (SeiResult D) × ℕ
  shrink [] = ([], 0)
  shrink (r ∷ []) = (r ∷ [], 0)
  shrink (r ∷ next ∷ rs) =
      let (left, erased) = shrink (next ∷ rs) in
      if is_too_large (r ∷ next ∷ rs) then (left, suc erased) else (r ∷ next ∷ rs, 0)

  -- The binary search for the number of boxes; the first argument is fuel.
  pub search : ℕ → ℕ → ℕ → List (SeiBox D) → SeiResult D → ℕ
  search zero fits too_many boxes r = fits
  search (suc fuel) fits too_many boxes r =
      let count = (fits + too_many) / 2 in
      let above = search fuel count too_many boxes r in
      let below = search fuel fits count boxes r in
      if ltb (fits + 1) too_many
      then (if is_too_large (cut_to count boxes r ∷ []) then below else above)
      else fits

module _ {D : Type 0} (scaled : D → ℤ) (greater : D → D → Bool) where
  -- The branch for a NAL unit that is still too large: the results, and the boxes dropped. The
  -- interval of the search is at most half as long after a round, so one round per box is enough.
  pub cut : List (SeiResult D) → List (SeiResult D) × ℕ
  cut [] = ([], 0)
  cut (r ∷ rs) =
      let sorted = stable_sort (scores_more greater) r.boxes in
      let fits = search scaled (length sorted) 0 (length sorted) sorted r in
      (cut_to fits sorted r ∷ rs, length sorted - fits)

  -- The results of `take_for` for the due ones, with the results erased and the boxes dropped.
  pub fit : List (SeiResult D) → List (SeiResult D) × ℕ × ℕ
  fit results =
      let (left, erased) = shrink scaled results in
      let (smaller, boxes) = cut left in
      if is_too_large scaled left then (smaller, erased, boxes) else (left, erased, 0)
