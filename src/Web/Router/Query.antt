-- ===== src/Web/Router/Query.antt =====
-- The query string of src/web/router.cpp: decoding, the parameters, and numbers.
pub mod Encoded
use skai_edge_native.Common.{
  ℕ, zero, suc, ◌+◌, ◌-◌, ◌*◌, ◌^◌, List, [], ◌∷◌, Option, none, some, Bool, true, false, not, ◌&&◌,
  ltb, leb, eqb, ◌==◌, if◌then◌else◌, length, take, drop, find, ℤ, pos, negsuc,
}
use skai_edge_native.Config.Hosts.{is_digit, is_empty, read_digits}
use skai_edge_native.Web.StaticFiles.{hex, cons_some}

-- The byte of the two digits that `std::from_chars` reads to base 16, before the rest.
pub decoded_byte : Option ℕ → Option ℕ → Option (List ℕ) → Option (List ℕ)
decoded_byte (some high) (some low) rest = cons_some (high * 16 + low) rest
decoded_byte (some high) none rest = none
decoded_byte none low rest = none

pub decode_component : List ℕ → Option (List ℕ)
unfolding decoded_byte
decode_component [] = some []
decode_component (c ∷ []) = if c == 37 then none else some (c ∷ [])
decode_component (c ∷ d ∷ []) =
    let rest = decode_component (d ∷ []) in if c == 37 then none else cons_some c rest
decode_component (c ∷ d ∷ e ∷ cs) =
    let rest = decode_component (d ∷ e ∷ cs) in
    let later = decode_component cs in
    if c == 37 then decoded_byte (hex d) (hex e) later else cons_some c rest

-- The map of the parameters; the first entry of a key counts.
abbrev pub Parameters : Type 0
Parameters = List (List ℕ × List ℕ)

pub lookup : List ℕ → Parameters → Option (List ℕ)
lookup key [] = none
lookup key ((k, value) ∷ rest) =
    let later = lookup key rest in if eqb k key then some value else later

-- A value that is decoded is put into the map before the rest of the loop.
abbrev insert_value : List ℕ → Option (List ℕ) → Parameters → Option Parameters
insert_value key none values = none
insert_value key (some value) values = some ((key, value) ∷ values)

abbrev continue : Option Parameters → (Parameters → Option Parameters) → Option Parameters
continue none next = none
continue (some values) next = next values

-- The rest of a round, by the positions of the next `=` and `&`; the last argument goes on after one.
pub take_parameter :
    List ℕ
    → Parameters
    → Option ℕ
    → Option ℕ
    → (ℕ → Parameters → Option Parameters)
    → Option Parameters
take_parameter text values none end next = some values
take_parameter text values (some equal) none next =
    insert_value (take equal text) (decode_component (drop (suc equal) text)) values
take_parameter text values (some equal) (some end) next =
    if ltb end equal
    then some values
    else continue
        (insert_value (take equal text)
          (decode_component (take (end - suc equal) (drop (suc equal) text))) values)
        (next end)

-- The loop of `query_parameters`, over the text after the current position; the first argument is
-- fuel. A round takes at least one byte, so a text of n bytes takes at most n + 1 rounds.
pub parameters_loop : ℕ → List ℕ → Parameters → Option Parameters
unfolding take_parameter
parameters_loop zero text values = some values
parameters_loop (suc fuel) text values =
    take_parameter text values (find 61 text) (find 38 text)
      (λ end. parameters_loop fuel (drop (suc end) text))

-- The parameters after the position of the question mark, if there is one.
pub parameters_after : List ℕ → Option ℕ → Option Parameters
unfolding parameters_loop
parameters_after target none = some []
parameters_after target (some position) =
    let text = drop (suc position) target in parameters_loop (suc (length text)) text []

-- `query_parameters`; `none` is `false`.
pub query_parameters : List ℕ → Option Parameters
unfolding parameters_after
query_parameters target = parameters_after target (find 63 target)

-- `parse_number` for `std::size_t`.
pub parse_size : List ℕ → Option ℕ
parse_size [] = none
parse_size (c ∷ cs) =
    let (value, rest) = read_digits 0 (c ∷ cs) in
    if is_digit c && (ltb value (2 ^ 64) && is_empty rest) then some value else none

abbrev minus : ℕ → ℤ
minus zero = pos zero
minus (suc n) = negsuc n

-- The digits after a minus sign.
pub parse_negative : List ℕ → Option ℤ
parse_negative [] = none
parse_negative (c ∷ cs) =
    let (value, rest) = read_digits 0 (c ∷ cs) in
    if is_digit c && (leb value (2 ^ 63) && is_empty rest) then some (minus value) else none

-- `parse_number` for `std::int64_t`.
pub parse_int64 : List ℕ → Option ℤ
unfolding parse_negative
parse_int64 [] = none
parse_int64 (c ∷ cs) =
    let (value, rest) = read_digits 0 (c ∷ cs) in
    if c == 45
    then parse_negative cs
    else if is_digit c && (ltb value (2 ^ 63) && is_empty rest)
    then some (pos value)
    else none
