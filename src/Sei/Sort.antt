-- ===== src/Sei/Sort.antt =====
-- `std::stable_sort`, as src/webrtc/detection_sei.cpp uses it.
use skai_edge_native.Common.{
  suc, ◌≡◌, refl, ap, ◌∙◌, length, arith, Bool, List, [], ◌∷◌, if◌then◌else◌,
}

-- The stable sort of a list, `before` saying that an element has to stand before another.
insert_sorted : {A : Type 0} → (A → A → Bool) → A → List A → List A
insert_sorted before x [] = x ∷ []
insert_sorted before x (y ∷ ys) =
    let rest = insert_sorted before x ys in if before y x then y ∷ rest else x ∷ y ∷ ys

pub stable_sort : {A : Type 0} → (A → A → Bool) → List A → List A
unfolding insert_sorted
stable_sort before [] = []
stable_sort before (x ∷ xs) = insert_sorted before x (stable_sort before xs)

length-insert_sorted :
    {A : Type 0} (before : A → A → Bool) (x : A) (ys : List A)
    → length (insert_sorted before x ys) ≡ suc (length ys)
unfolding insert_sorted
length-insert_sorted before x [] = refl
length-insert_sorted before x (y ∷ ys) = ground (arith, length-insert_sorted before x ys)

pub length-stable_sort :
    {A : Type 0} (before : A → A → Bool) (xs : List A) → length (stable_sort before xs) ≡ length xs
unfolding stable_sort
length-stable_sort before [] = refl
length-stable_sort before (x ∷ xs) =
    length-insert_sorted before x (stable_sort before xs) ∙ ap suc (length-stable_sort before xs)
