-- ===== src/Common/Bytes.antt =====
-- `std::string` as the list of its bytes, with the searches the sources use; `none` is `npos`.
use Prim.Native.Nat.{ℕ, suc, ◌+◌}
use Prim.Native.Char.{code}
use Prim.Native.String.{String}
use mathlib.Core.Path.{◌≡◌, refl}
use mathlib.Core.Logic.{inl, inr}
use mathlib.Core.Bool.{Bool, true, false, ◌&&◌}
use mathlib.Core.Option.{Option, none, some}
use mathlib.Core.List.{List, [], ◌∷◌, ◌++◌}
use native.Mathlib.Omega.{arith}
use skai_edge_native.Common.Tests.{◌==◌, if◌then◌else◌, Bool-cases, Option-cases}
use skai_edge_native.Common.Lists.{length, take, drop}

-- The bytes of an ASCII literal.
abbrev pub codes : String → List ℕ
codes String.[] = []
codes (String.◌∷◌ c s) = code c ∷ codes s

abbrev next_index : Option ℕ → Option ℕ
next_index none = none
next_index (some i) = some (suc i)

abbrev pub shift_by : ℕ → Option ℕ → Option ℕ
shift_by n none = none
shift_by n (some i) = some (n + i)

-- `s.find(c)`.
unfoldable pub find : ℕ → List ℕ → Option ℕ
find c [] = none
find c (x ∷ xs) = if x == c then some 0 else next_index (find c xs)

-- `s.find(c, pos)`.
unfoldable pub find_at : ℕ → ℕ → List ℕ → Option ℕ
unfolding find
find_at c pos xs = shift_by pos (find c (drop pos xs))

-- `s.find_last_of(c)`.
unfoldable pub find_last : ℕ → List ℕ → Option ℕ
find_last c [] = none
find_last c (x ∷ xs) = elim (find_last c xs) [
  | some i ↦ some (suc i)
  | none ↦ if x == c then some 0 else none
]

-- `s.rfind(prefix, 0) == 0`.
unfoldable pub starts_with : List ℕ → List ℕ → Bool
starts_with [] xs = true
starts_with (p ∷ ps) [] = false
starts_with (p ∷ ps) (x ∷ xs) = p == x && starts_with ps xs

-- `a == b` on strings.
unfoldable pub eqb : List ℕ → List ℕ → Bool
eqb [] [] = true
eqb [] (y ∷ ys) = false
eqb (x ∷ xs) [] = false
eqb (x ∷ xs) (y ∷ ys) = x == y && eqb xs ys

pub starts_with-append : (ps xs : List ℕ) → starts_with ps (ps ++ xs) ≡ true
unfolding starts_with
starts_with-append [] xs = refl
starts_with-append (p ∷ ps) xs = ground (arith, starts_with-append ps xs)

pub starts_with-decompose :
    (ps xs : List ℕ) → starts_with ps xs ≡ true → xs ≡ ps ++ drop (length ps) xs
unfolding starts_with
starts_with-decompose [] xs h = refl
starts_with-decompose (p ∷ ps) [] h = ground arith
starts_with-decompose (p ∷ ps) (x ∷ xs) h = ground (arith, starts_with-decompose ps xs)

pub eqb→eq : (xs ys : List ℕ) → eqb xs ys ≡ true → xs ≡ ys
unfolding eqb
eqb→eq [] [] h = refl
eqb→eq [] (y ∷ ys) h = ground arith
eqb→eq (x ∷ xs) [] h = ground arith
eqb→eq (x ∷ xs) (y ∷ ys) h = ground (arith, eqb→eq xs ys)

pub eqb_refl : (xs : List ℕ) → eqb xs xs ≡ true
unfolding eqb
eqb_refl [] = refl
eqb_refl (x ∷ xs) = ground (arith, eqb_refl xs)

-- Where `find` finds its byte, the text splits there.
pub find-split :
    (c : ℕ) (xs : List ℕ) (i : ℕ) → find c xs ≡ some i → xs ≡ take i xs ++ c ∷ drop (suc i) xs
unfolding find
find-split c [] i h = ground arith
find-split c (x ∷ xs) i h = elim (Option-cases (find c xs)) [
  | inl e ↦ ground (arith, e)
  | inr (j, e) ↦ elim (Bool-cases (x == c)) [
    | inl here ↦ ground arith
    | inr later ↦ ground (arith, find-split c xs j e)
  ]
]

pub find-none-append :
    (c : ℕ) (xs ys : List ℕ)
    → find c xs ≡ none
    → find c (xs ++ ys) ≡ shift_by (length xs) (find c ys)
unfolding find
find-none-append c [] ys h = ground arith
find-none-append c (x ∷ xs) ys h = ground (arith, find-none-append c xs ys)

pub find_last-none : (c : ℕ) (xs : List ℕ) → find c xs ≡ none → find_last c xs ≡ none
unfolding find find_last
find_last-none c [] h = refl
find_last-none c (x ∷ xs) h = ground (arith, find_last-none c xs)

-- A byte that a text lacks is in none of its prefixes.
pub find-prefix :
    (c : ℕ) (ps xs : List ℕ) → starts_with ps xs ≡ true → find c xs ≡ none → find c ps ≡ none
unfolding find starts_with
find-prefix c [] xs s h = refl
find-prefix c (p ∷ ps) [] s h = ground arith
find-prefix c (p ∷ ps) (x ∷ xs) s h = ground (arith, find-prefix c ps xs)
