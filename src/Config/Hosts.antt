-- ===== src/Config/Hosts.antt =====
-- The tests of src/config.cpp on ports, host names and the authority of an RTSP URL.
pub mod Labels
use skai_edge_native.Common.{
  ℕ, zero, suc, ◌+◌, ◌-◌, ◌*◌, ◌^◌, List, [], ◌∷◌, Option, none, some, is_some, Bool, true, false,
  not, ◌&&◌, ◌||◌, ltb, leb, ◌==◌, if◌then◌else◌, codes, length, take, drop, find, find_at,
  find_last, starts_with,
}

abbrev pub is_digit : ℕ → Bool
is_digit c = leb 48 c && leb c 57

-- `std::isalnum` in the C locale.
abbrev pub is_alnum : ℕ → Bool
is_alnum c = is_digit c || ((leb 65 c && leb c 90) || (leb 97 c && leb c 122))

-- The digits that `std::from_chars` reads: their value, and the rest.
unfoldable pub read_digits : ℕ → List ℕ → ℕ × List ℕ
read_digits value [] = (value, [])
read_digits value (c ∷ cs) =
    let more = read_digits (value * 10 + (c - 48)) cs in
    if is_digit c then more else (value, c ∷ cs)

-- `std::from_chars` for `unsigned int`: none when there is no digit, or the value is out of range.
unfoldable pub from_chars : List ℕ → Option (ℕ × List ℕ)
unfolding read_digits
from_chars [] = none
from_chars (c ∷ cs) =
    let parsed = read_digits 0 (c ∷ cs) in
    if is_digit c && ltb parsed.0 (2 ^ 32) then some parsed else none

abbrev pub is_empty : List ℕ → Bool
is_empty [] = true
is_empty (c ∷ cs) = false

unfoldable pub valid_port : List ℕ → Bool
valid_port text = elim (from_chars text) [
  | none ↦ false
  | some (port, rest) ↦ is_empty rest && (leb 1 port && leb port 65535)
]

pub loopback_http_endpoint : List ℕ → Bool
loopback_http_endpoint url =
    let prefix = codes "http://127.0.0.1:" in
    elim (find_at 47 (length prefix) url) [
      | none ↦ false
      | some path ↦
          starts_with prefix url
          && valid_port (take (path - length prefix) (drop (length prefix) url))
    ]

-- Whether one of the bytes is the given one; whether all bytes of a text are among some.
unfoldable pub one_of : List ℕ → ℕ → Bool
one_of [] c = false
one_of (x ∷ xs) c = x == c || one_of xs c

-- `s.find_first_of(bytes)`.
unfoldable pub find_first_of : List ℕ → List ℕ → Option ℕ
find_first_of bytes [] = none
find_first_of bytes (x ∷ xs) =
    if one_of bytes x
    then some 0
    else elim (find_first_of bytes xs) [ none ↦ none | some i ↦ some (suc i) ]

-- `s.find_first_not_of(bytes) == npos`.
unfoldable pub all_of : List ℕ → List ℕ → Bool
all_of bytes [] = true
all_of bytes (x ∷ xs) = one_of bytes x && all_of bytes xs

-- The loop over the bytes of a label.
unfoldable pub label_bytes : List ℕ → Bool
label_bytes [] = true
label_bytes (c ∷ cs) = (is_alnum c || c == 45) && label_bytes cs

-- `std::isalnum` of the first byte, and of the last one.
abbrev first_alnum : List ℕ → Bool
first_alnum [] = false
first_alnum (c ∷ cs) = is_alnum c

unfoldable pub last_alnum : List ℕ → Bool
last_alnum [] = false
last_alnum (c ∷ cs) = let last = last_alnum cs in if is_empty cs then is_alnum c else last

-- One round of the loop of `valid_hostname`.
unfoldable pub valid_label : List ℕ → Bool
unfolding label_bytes last_alnum
valid_label label =
    not (length label == 0)
    && (leb (length label) 63 && (first_alnum label && (last_alnum label && label_bytes label)))

-- The loop, on the rest of the text from `start`, with fuel.
unfoldable pub labels_loop : ℕ → List ℕ → Bool
labels_loop zero rest = false
labels_loop (suc fuel) [] = false
labels_loop (suc fuel) (c ∷ cs) = elim (find 46 (c ∷ cs)) [
  | none ↦ valid_label (c ∷ cs)
  | some i ↦ valid_label (take i (c ∷ cs)) && labels_loop fuel (drop (suc i) (c ∷ cs))
]

-- Each round consumes a byte.
unfoldable pub valid_hostname : (List ℕ → Bool) → List ℕ → Bool
valid_hostname inet_pton4 host =
    if is_empty host || ltb 253 (length host)
    then false
    else if is_some (find 46 host) && all_of (codes "0123456789.") host
    then inet_pton4 host
    else labels_loop (length host) host

-- `[address]` with its optional port.
bracketed : (List ℕ → Bool) → List ℕ → Bool
bracketed inet_pton6 host_port = elim (find 93 host_port) [
  | none ↦ false
  | some close ↦
      inet_pton6 (take (close - 1) (drop 1 host_port))
      && (close + 1 == length host_port
          || (starts_with (58 ∷ []) (drop (close + 1) host_port)
              && valid_port (drop (close + 2) host_port)))
]

-- A host with its optional port.
unfoldable pub named : (List ℕ → Bool) → List ℕ → Bool
named inet_pton4 host_port = elim (find 58 host_port) [
  | none ↦ valid_hostname inet_pton4 host_port
  | some colon ↦
      valid_hostname inet_pton4 (take colon host_port) && valid_port (drop (suc colon) host_port)
]

unfoldable pub host_port_valid : (List ℕ → Bool) → (List ℕ → Bool) → List ℕ → Bool
unfolding bracketed named
host_port_valid inet_pton4 inet_pton6 [] = false
host_port_valid inet_pton4 inet_pton6 (c ∷ cs) =
    if c == 91 then bracketed inet_pton6 (c ∷ cs) else named inet_pton4 (c ∷ cs)

-- The `@` that there may be is the only one, and not the first byte.
unfoldable pub only_at : List ℕ → ℕ → Bool
only_at authority at = elim (find 64 authority) [
  | none ↦ true
  | some first ↦ not (at == 0) && first == at
]

unfoldable pub valid_rtsp_authority : (List ℕ → Bool) → (List ℕ → Bool) → List ℕ → Bool
unfolding host_port_valid only_at
valid_rtsp_authority inet_pton4 inet_pton6 authority = elim (find_last 64 authority) [
  | none ↦ host_port_valid inet_pton4 inet_pton6 authority
  | some at ↦
      only_at authority at && host_port_valid inet_pton4 inet_pton6 (drop (suc at) authority)
]
