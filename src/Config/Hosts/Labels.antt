-- ===== src/Config/Hosts/Labels.antt =====
-- The loop of `valid_hostname` agrees with a reading of the host name by its labels.
use skai_edge_native.Common.{
  ℕ, zero, suc, ◌≤◌, ◌≡◌, refl, arith, List, [], ◌∷◌, Option-cases, inl, inr, none, some, Bool,
  true, false, ◌&&◌, ◌==◌, if◌then◌else◌, is_some, length, length-drop, take, drop, find, codes,
  ltb,
}
use skai_edge_native.Config.Hosts.{valid_label, labels_loop, valid_hostname, all_of}

-- The parts of a text between its dots: one more than there are dots.
abbrev pub prepend : ℕ → List (List ℕ) → List (List ℕ)
prepend c [] = (c ∷ []) ∷ []
prepend c (label ∷ labels) = (c ∷ label) ∷ labels

abbrev pub split_dots : List ℕ → List (List ℕ)
split_dots [] = [] ∷ []
split_dots (c ∷ cs) = if c == 46 then [] ∷ split_dots cs else prepend c (split_dots cs)

abbrev pub all_valid : List (List ℕ) → Bool
all_valid [] = true
all_valid (label ∷ labels) = valid_label label && all_valid labels

split_dots-none : (xs : List ℕ) → find 46 xs ≡ none → split_dots xs ≡ xs ∷ []
unfolding find
split_dots-none [] h = refl
split_dots-none (x ∷ xs) h = ground (arith, split_dots-none xs)

split_dots-some :
    (xs : List ℕ) (i : ℕ)
    → find 46 xs ≡ some i
    → split_dots xs ≡ take i xs ∷ split_dots (drop (suc i) xs)
unfolding find
split_dots-some [] i h = ground arith
split_dots-some (x ∷ xs) zero h = ground arith
split_dots-some (x ∷ xs) (suc i) h = ground (arith, split_dots-some xs i)

labels_loop-split_dots :
    (fuel : ℕ) (xs : List ℕ) → length xs ≤ fuel → labels_loop fuel xs ≡ all_valid (split_dots xs)
unfolding labels_loop valid_label
labels_loop-split_dots zero [] h = refl
labels_loop-split_dots zero (x ∷ xs) h = absurd (omega arith)
labels_loop-split_dots (suc fuel) [] h = refl
labels_loop-split_dots (suc fuel) (x ∷ xs) h = elim (Option-cases (find 46 (x ∷ xs))) [
  | inl e ↦ ground (arith, e, split_dots-none (x ∷ xs))
  | inr (i, e) ↦ ground (
    arith,
    e,
    split_dots-some (x ∷ xs) i,
    length-drop i xs,
    labels_loop-split_dots fuel (drop i xs),
  )
]

-- A host name of at most 253 bytes is accepted exactly when `inet_pton` takes it, if it has a dot
-- and otherwise only digits and dots, and else when each of the parts between its dots is a label
-- of 1 to 63 letters, digits and dashes that neither begins nor ends with a dash.
pub valid_hostname_lem :
    (inet_pton4 : List ℕ → Bool) (host : List ℕ)
    → valid_hostname inet_pton4 host ≡ (
        if ltb 253 (length host)
        then false
        else if is_some (find 46 host) && all_of (codes "0123456789.") host
        then inet_pton4 host
        else all_valid (split_dots host))
unfolding valid_hostname valid_label find
valid_hostname_lem inet_pton4 [] = refl
valid_hostname_lem inet_pton4 (c ∷ cs) =
    ground (arith, labels_loop-split_dots (length (c ∷ cs)) (c ∷ cs))
