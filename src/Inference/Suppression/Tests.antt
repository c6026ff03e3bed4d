-- ===== src/Inference/Suppression/Tests.antt =====
-- Concrete boxes, and an instance of the theorem on them. A box is its place here.
use skai_edge_native.Common.{
  ℕ, ◌≤◌, ◌+◌, ◌≡◌, refl, arith, List, [], ◌∷◌, Bool, true, ltb, ◌&&◌, length,
}
use skai_edge_native.Inference.Suppression.{Candidate, is_suppressed, suppress}
use skai_edge_native.Inference.Suppression.Kept.{are_apart, are_apart-suppress}

abbrev overlap : ℕ → ℕ → Bool
overlap a b = ltb a (b + 3) && ltb b (a + 3)

abbrev is_visible : ℕ → Bool
is_visible a = ltb a 100

abbrev at : ℕ → ℕ → Candidate ℕ
at class_id box = record { class_id = class_id; box = box }

abbrev candidates : List (Candidate ℕ)
candidates = at 1 10 ∷ at 1 12 ∷ at 2 12 ∷ at 1 200 ∷ at 1 13 ∷ at 1 50 ∷ []

keeps_three : suppress overlap is_visible 3 [] candidates ≡ at 1 10 ∷ at 2 12 ∷ at 1 13 ∷ []
unfolding suppress is_suppressed
keeps_three = refl

are_apart-suppress_example :
    (length (suppress overlap is_visible 3 [] candidates) ≤ 3)
    × (are_apart overlap is_visible [] (suppress overlap is_visible 3 [] candidates) ≡ true)
are_apart-suppress_example = are_apart-suppress overlap is_visible 3 candidates (omega arith)
