-- ===== src/Inference/Suppression.antt =====
-- The loop of `postprocess_yolo` of src/inference/yolo_postprocess.cpp over the candidates, which are
-- sorted by then. `B` is the type of their boxes; the comparison of the overlap of two boxes with the
-- threshold and the test of the clamped box are floating-point arithmetic, and arguments.
pub mod Kept
mod Tests
use skai_edge_native.Common.{
  ℕ, suc, List, [], ◌∷◌, ◌++◌, Bool, true, false, not, ◌&&◌, ◌||◌, ◌==◌, if◌then◌else◌, length,
}

-- `Candidate`; a class that passes the test before is not negative.
pub record Candidate (B : Type 0) : Type 0 where
  pub class_id : ℕ
  pub box : B

module _ {B : Type 0} (overlap : B → B → Bool) (is_visible : B → Bool) where
  -- The inner loop: whether a kept candidate of the same class overlaps too much.
  pub is_suppressed : Candidate B → List (Candidate B) → Bool
  is_suppressed candidate [] = false
  is_suppressed candidate (kept ∷ rest) =
      (candidate.class_id == kept.class_id && overlap candidate.box kept.box)
      || is_suppressed candidate rest

  -- The loop, with the candidates kept so far.
  pub suppress : ℕ → List (Candidate B) → List (Candidate B) → List (Candidate B)
  suppress max_detections kept [] = kept
  suppress max_detections kept (candidate ∷ rest) =
      let more = kept ++ candidate ∷ [] in
      let without = suppress max_detections kept rest in
      let along = suppress max_detections more rest in
      if is_suppressed candidate kept || not (is_visible candidate.box)
      then without
      else if length more == max_detections
      then more
      else along
