-- ===== src/Inference.antt =====
-- The detector of src/inference: the suppression of overlapping boxes.
pub mod Suppression
