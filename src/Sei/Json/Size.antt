-- ===== src/Sei/Json/Size.antt =====
-- How long the texts of numbers and of a result without boxes can be.
use skai_edge_native.Common.{
  ℕ, zero, suc, ◌+◌, ◌*◌, ◌/◌, ◌%◌, ◌^◌, ◌≤◌, ◌<◌, ℤ, List, [], ◌∷◌, ◌++◌, length, length-append,
  codes, arith, ltb, Bool-cases, inl, inr,
}
use skai_edge_native.Sei.Json.{
  decimal_loop, decimal, joined, result_json, boxes_json, results_json, detection_sei_json,
}

-- 10 ^ (k + 1).
abbrev ten_power : ℕ → ℕ
ten_power zero = 10
ten_power (suc k) = 10 * ten_power k

div_ten : (n m : ℕ) → n < 10 * m → n / 10 < m
div_ten n m h = omega arith

length-decimal_loop :
    (k fuel n : ℕ) (digits : List ℕ)
    → n < ten_power k
    → length (decimal_loop fuel n digits) ≤ suc k + length digits
unfolding decimal_loop
length-decimal_loop k zero n digits h = omega arith
length-decimal_loop zero (suc fuel) n digits h = ground arith
length-decimal_loop (suc k) (suc fuel) n digits h =
    let more =
      length-decimal_loop k fuel (n / 10) ((48 + n % 10) ∷ digits) (div_ten n (ten_power k) h) in
    elim (Bool-cases (ltb n 10)) [
      | inl last ↦ rw last (omega arith)
      | inr longer ↦ rw longer (omega (arith, more))
    ]

-- A 32-bit number has at most ten digits.
length-decimal : (n : ℕ) → n < 2 ^ 32 → length (decimal n) ≤ 10
unfolding decimal
length-decimal n h = length-decimal_loop 9 (n + 1) n [] (omega arith)

-- The payload of one result without boxes has at most 38 bytes.
pub length-empty_result :
    {D : Type 0} (scaled : D → ℤ) (dt : ℕ)
    → dt < 2 ^ 32
    → length (detection_sei_json scaled (record { dt = dt; boxes = [] } ∷ [])) ≤ 38
unfolding detection_sei_json results_json result_json boxes_json joined
length-empty_result scaled dt h = omega (
  arith,
  length-decimal dt h,
  length-append (decimal dt) (codes ",\"b\":[]}]}"),
  length-append (decimal dt ++ codes ",\"b\":[]}") (codes "]}"),
  length-append (decimal dt) (codes ",\"b\":[]}"),
)

pub length-no_result : {D : Type 0} (scaled : D → ℤ) → length (detection_sei_json scaled []) ≤ 14
unfolding detection_sei_json results_json joined
length-no_result scaled = omega arith
