-- ===== src/Sei/Selector/Tests.antt =====
-- Concrete selectors, whose numbers are ten-thousandths, and instances of the theorems on them.
use skai_edge_native.Common.{ℕ, ◌≤◌, ◌≡◌, refl, ℤ, pos, ltb_ℤ, List, [], ◌∷◌, Bool, length, codes}
use skai_edge_native.Sei.Json.{SeiBox, SeiResult}
use skai_edge_native.Sei.Selector.{
  SeiSourceResult, SeiResultSelector, add, erase_oldest, oldest_from, partition, place, fate,
  take_for,
}
use skai_edge_native.Sei.Selector.Bound.{length-take_for}
use skai_edge_native.Sei.Selector.Account.{Call, adds, takes, run, accounted, run-accounted}

abbrev exact : ℤ → ℤ
exact n = n

abbrev greater : ℤ → ℤ → Bool
greater a b = ltb_ℤ b a

abbrev box : SeiBox ℤ
box = record {
  x = pos 1;
  y = pos 2;
  w = pos 3;
  h = pos 4;
  class_name = codes "car";
  score = pos 9000;
}

abbrev at : ℕ → ℕ → SeiSourceResult ℤ
at pts generation = record { source_pts_ns = pts; source_generation = generation; boxes = box ∷ [] }

abbrev two_waiting : SeiResultSelector ℤ
two_waiting = record {
  max_pending = 2;
  pending = at 5 1 ∷ at 3 1 ∷ [];
  recent_dt = [];
  next_dt = 0;
  stats = record { sei_units = 0; results_attached = 0; results_dropped = 0; boxes_dropped = 0 };
}

add_erases_oldest : (add (at 9 1) two_waiting).pending ≡ at 5 1 ∷ at 9 1 ∷ []
unfolding add erase_oldest oldest_from
add_erases_oldest = refl

partition_by_unit :
    partition 4 1 (at 5 1 ∷ at 3 1 ∷ at 2 0 ∷ at 0 2 ∷ []) ≡ (at 3 1 ∷ [], at 0 2 ∷ [], 2)
unfolding partition place fate
partition_by_unit = refl

length-take_for_example : length (take_for exact greater 7 1 two_waiting).0 ≤ 1024
length-take_for_example = length-take_for exact greater 7 1 two_waiting

abbrev calls : List (Call ℤ)
calls = adds (at 9 1) ∷ takes 7 1 ∷ adds (at 2 2) ∷ []

run-accounted_example : accounted (run exact greater calls two_waiting) ≡ 4
run-accounted_example = run-accounted exact greater calls two_waiting

abbrev results : List (SeiResult ℤ)
results = record { dt = 7; boxes = box ∷ box ∷ [] } ∷ record { dt = 0; boxes = box ∷ [] } ∷ []
