-- ===== src/Sei/Json.antt =====
-- The JSON payload of src/webrtc/detection_sei.cpp. A `double` is an element of a type `D`, and
-- `scaled` gives what `append_number` computes from it first with the C library: ten-thousandths,
-- rounded, and 0 for a value that is not finite or beyond 1e9 in size.
pub mod Size
pub mod Digits
mod Tests
use skai_edge_native.Common.{
  ℕ, zero, suc, ◌+◌, ◌-◌, ◌*◌, ◌/◌, ◌%◌, ◌^◌, ℤ, pos, negsuc, List, [], ◌∷◌, ◌++◌, Bool, true,
  false, Option, some, none, ◌||◌, ltb, leb, ◌==◌, if◌then◌else◌, codes,
}

-- `SeiBox`.
pub record SeiBox (D : Type 0) : Type 0 where
  pub x : D
  pub y : D
  pub w : D
  pub h : D
  pub class_name : List ℕ
  pub score : D

-- `SeiResult`.
pub record SeiResult (D : Type 0) : Type 0 where
  pub dt : ℕ
  pub boxes : List (SeiBox D)

-- `std::to_string`, before the digits that are there already; the first argument is fuel.
decimal_loop : ℕ → ℕ → List ℕ → List ℕ
decimal_loop zero n digits = digits
decimal_loop (suc fuel) n digits =
    let more = decimal_loop fuel (n / 10) ((48 + n % 10) ∷ digits) in
    if ltb n 10 then (48 + n) ∷ digits else more

-- A number has at most as many digits as its value, or one, so `n + 1` rounds are enough.
pub decimal : ℕ → List ℕ
unfolding decimal_loop
decimal n = decimal_loop (n + 1) n []

-- The loop that takes trailing zeros off a fraction that is not 0; with the digits left.
strip_zeros : ℕ → ℕ → ℕ × ℕ
strip_zeros zero fraction = (0, fraction)
strip_zeros (suc digits) fraction =
    let more = strip_zeros digits (fraction / 10) in
    if fraction % 10 == 0 then more else (suc digits, fraction)

-- `%0*lld`.
padded : ℕ → ℕ → List ℕ → List ℕ
padded zero n digits = digits
padded (suc width) n digits = padded width (n / 10) ((48 + n % 10) ∷ digits)

-- The end of `append_number`, at the absolute value of `scaled`.
append_scaled : ℕ → List ℕ
unfolding decimal strip_zeros padded
append_scaled scaled =
    let (digits, fraction) = strip_zeros 4 (scaled % 10000) in
    decimal (scaled / 10000)
    ++ (if scaled % 10000 == 0 then [] else b'.' ∷ padded digits fraction [])

pub append_number : ℤ → List ℕ
unfolding append_scaled
append_number (pos n) = append_scaled n
append_number (negsuc n) = b'-' ∷ append_scaled (suc n)

abbrev hex_digit : ℕ → ℕ
hex_digit d = if ltb d 10 then 48 + d else 87 + d

-- One character of `append_string`.
string_char : ℕ → List ℕ
string_char c =
    if c == 34 || c == 92
    then 92 ∷ c ∷ []
    else if ltb c 0x20
    then codes "\\u00" ++ (hex_digit (c / 16) ∷ hex_digit (c % 16) ∷ [])
    else c ∷ []

string_chars : List ℕ → List ℕ
unfolding string_char
string_chars [] = []
string_chars (c ∷ cs) = string_char c ++ string_chars cs

pub append_string : List ℕ → List ℕ
unfolding string_chars
append_string value = 34 ∷ (string_chars value ++ 34 ∷ [])

-- The pieces of a list, with commas between them.
pub joined : List (List ℕ) → List ℕ
joined [] = []
joined (text ∷ []) = text
joined (text ∷ next ∷ texts) = text ++ (b',' ∷ joined (next ∷ texts))

module _ {D : Type 0} (scaled : D → ℤ) where
  box_json : SeiBox D → List ℕ
  unfolding append_number append_string
  box_json b =
      let parts =
        append_number (scaled b.x)
        ∷ append_number (scaled b.y)
        ∷ append_number (scaled b.w)
        ∷ append_number (scaled b.h)
        ∷ append_string b.class_name
        ∷ append_number (scaled b.score)
        ∷ [] in
      b'[' ∷ (joined parts ++ b']' ∷ [])

  boxes_json : List (SeiBox D) → List (List ℕ)
  unfolding box_json
  boxes_json [] = []
  boxes_json (b ∷ bs) = box_json b ∷ boxes_json bs

  pub result_json : SeiResult D → List ℕ
  unfolding boxes_json
  result_json r =
      codes "{\"dt\":"
      ++ (decimal r.dt ++ (codes ",\"b\":[" ++ (joined (boxes_json r.boxes) ++ codes "]}")))

  results_json : List (SeiResult D) → List (List ℕ)
  results_json [] = []
  results_json (r ∷ rs) = result_json r ∷ results_json rs

  pub detection_sei_json : List (SeiResult D) → List ℕ
  unfolding results_json
  detection_sei_json results =
      codes "{\"v\":1,\"r\":[" ++ (joined (results_json results) ++ codes "]}")
