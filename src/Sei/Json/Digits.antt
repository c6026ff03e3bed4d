-- ===== src/Sei/Json/Digits.antt =====
-- `std::to_string` gives digits, and at least one.
use skai_edge_native.Common.{
  ℕ, zero, suc, ◌+◌, ◌/◌, ◌%◌, ◌≡◌, List, [], ◌∷◌, Bool, true, false, ◌&&◌, leb, arith,
}
use skai_edge_native.Sei.Json.{decimal_loop, decimal}

abbrev pub all_digits : List ℕ → Bool
all_digits [] = true
all_digits (c ∷ cs) = (leb 48 c && leb c 57) && all_digits cs

abbrev pub is_number : List ℕ → Bool
is_number [] = false
is_number (c ∷ cs) = all_digits (c ∷ cs)

all_digits-decimal_loop :
    (fuel n : ℕ) (ds : List ℕ) → all_digits ds ≡ true → all_digits (decimal_loop fuel n ds) ≡ true
unfolding decimal_loop
all_digits-decimal_loop zero n ds h = h
all_digits-decimal_loop (suc fuel) n ds h =
    ground (arith, all_digits-decimal_loop fuel (n / 10) ((48 + n % 10) ∷ ds))

longer :
    (fuel n c : ℕ) (ds : List ℕ)
    → all_digits (c ∷ ds) ≡ true
    → is_number (decimal_loop fuel n (c ∷ ds)) ≡ true
unfolding decimal_loop
longer zero n c ds h = h
longer (suc fuel) n c ds h = ground (arith, longer fuel (n / 10) (48 + n % 10) (c ∷ ds))

first_round : (fuel n : ℕ) → is_number (decimal_loop (suc fuel) n []) ≡ true
unfolding decimal_loop
first_round fuel n = ground (arith, longer fuel (n / 10) (48 + n % 10) [])

pub decimal-number : (n : ℕ) → is_number (decimal n) ≡ true
unfolding decimal
decimal-number n = let e : n + 1 ≡ suc n = omega arith in rw e (first_round n n)
