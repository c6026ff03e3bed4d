-- ===== src/Whip/Publisher/Token.antt =====
-- `trim` and `load_token` of src/webrtc/whip_publisher.cpp, and its two HTTP callbacks. The
-- environment variable and the lines of the file `.env` are arguments.
mod Tests
use skai_edge_native.Common.{
  ℕ, suc, ◌+◌, ◌-◌, List, [], ◌∷◌, ◌++◌, Option, none, some, Bool, true, false, ◌&&◌, ◌||◌, ltb,
  leb, eqb, ◌==◌, if◌then◌else◌, codes, length, take, drop, find, starts_with, map,
}

-- One of the bytes " \t\r\n".
abbrev is_space : ℕ → Bool
is_space c = c == 32 || (c == 9 || (c == 13 || c == 10))

skip_spaces : List ℕ → List ℕ
skip_spaces [] = []
skip_spaces (c ∷ cs) = let rest = skip_spaces cs in if is_space c then rest else c ∷ cs

abbrev is_empty : List ℕ → Bool
is_empty [] = true
is_empty (c ∷ cs) = false

-- The text up to its last byte that is no space.
drop_spaces : List ℕ → List ℕ
drop_spaces [] = []
drop_spaces (c ∷ cs) =
    let rest = drop_spaces cs in if is_empty rest && is_space c then [] else c ∷ rest

pub trim : List ℕ → List ℕ
unfolding skip_spaces drop_spaces
trim value = drop_spaces (skip_spaces value)

last_is : ℕ → List ℕ → Bool
last_is q [] = false
last_is q (c ∷ cs) = let later = last_is q cs in if is_empty cs then c == q else later

-- A value in a pair of quotes loses them.
unquote : List ℕ → List ℕ
unfolding last_is
unquote value =
    if leb 2 (length value)
      && ((starts_with (34 ∷ []) value && last_is 34 value)
          || (starts_with (39 ∷ []) value && last_is 39 value))
    then take (length value - 2) (drop 1 value)
    else value

-- The value of a line that sets the token.
token_of : List ℕ → Option (List ℕ)
unfolding unquote
token_of line =
    let trimmed = trim line in
    let assignment =
      if starts_with (codes "export ") trimmed then trim (drop 7 trimmed) else trimmed in
    if starts_with (codes "WHIP_TOKEN=") assignment
    then some (unquote (trim (drop 11 assignment)))
    else none

-- The loop over the lines.
pub token_in : List (List ℕ) → List ℕ
unfolding token_of
token_in [] = []
token_in (line ∷ lines) =
    let rest = token_in lines in elim (token_of line) [ none ↦ rest | some token ↦ token ]

-- A variable that is not set is empty here.
pub load_token : List ℕ → List (List ℕ) → List ℕ
load_token variable lines = if is_empty variable then token_in lines else variable

-- `receive_body`: the bytes that it takes, and the body.
pub receive_body : List ℕ → List ℕ → ℕ × List ℕ
receive_body piece body =
    if ltb 131_072 (length body + length piece) then (0, body) else (length piece, body ++ piece)

-- `std::tolower` in the C locale.
abbrev to_lower : ℕ → ℕ
to_lower c = if leb 65 c && leb c 90 then c + 32 else c

-- `receive_header`, on the location that there is so far.
pub receive_header : List ℕ → List ℕ → List ℕ
receive_header header location = elim (find 58 header) [
  | none ↦ location
  | some separator ↦
      if eqb (map to_lower (take separator header)) (codes "location")
      then trim (drop (suc separator) header)
      else location
]
