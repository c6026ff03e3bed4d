-- ===== src/Sei/Tests.antt =====
-- Concrete SEI units, and instances of the theorems about them.
use skai_edge_native.Common.{ℕ, ◌≡◌, refl, List, [], ◌∷◌, some, true, false, drop}
use skai_edge_native.Sei.Nal.{size_bytes, escape, encode_user_data_sei_nal}
use skai_edge_native.Sei.Nal.RoundTrip.{
  read_sei, read_sei-encode, has_start_code, has_start_code-encode,
}
use skai_edge_native.Sei.Insert.{insert_before_first_vcl}
use skai_edge_native.Sei.Insert.FirstVcl.{first_vcl, insert_before_first_vcl_lem}

abbrev uuid : List ℕ
uuid =
    0x19 ∷ 0x7c ∷ 0x65 ∷ 0xee ∷ 0xa1 ∷ 0x32 ∷ 0x4f ∷ 0x53 ∷ 0x85 ∷ 0xa0 ∷ 0x8a ∷ 0xf9 ∷ 0xad ∷ 0x15
    ∷ 0x3c ∷ 0x4b ∷ []

abbrev payload : List ℕ
payload = 0 ∷ 0 ∷ 1 ∷ 0 ∷ 0 ∷ 0 ∷ []

stuffs : escape 0 (0 ∷ 0 ∷ 1 ∷ 0 ∷ 0 ∷ 0 ∷ 9 ∷ []) ≡ 0 ∷ 0 ∷ 3 ∷ 1 ∷ 0 ∷ 0 ∷ 3 ∷ 0 ∷ 9 ∷ []
unfolding escape
stuffs = refl

long_size : size_bytes 600 ≡ 255 ∷ 255 ∷ 90 ∷ []
unfolding size_bytes
long_size = refl

read_sei-encode_example : read_sei (encode_user_data_sei_nal uuid payload) ≡ some (uuid, payload)
read_sei-encode_example = read_sei-encode uuid payload refl

has_start_code-encode_example :
    has_start_code 0 (drop 4 (encode_user_data_sei_nal uuid payload)) ≡ false
has_start_code-encode_example = has_start_code-encode uuid payload

-- A parameter set, then a slice behind a long start code.
abbrev access_unit : List ℕ
access_unit = 0 ∷ 0 ∷ 0 ∷ 1 ∷ 0x67 ∷ 5 ∷ 0 ∷ 0 ∷ 0 ∷ 1 ∷ 0x65 ∷ 8 ∷ []

insert_before_first_vcl_lem_example :
    insert_before_first_vcl access_unit (7 ∷ [])
    ≡ (true, 0 ∷ 0 ∷ 0 ∷ 1 ∷ 0x67 ∷ 5 ∷ 7 ∷ 0 ∷ 0 ∷ 0 ∷ 1 ∷ 0x65 ∷ 8 ∷ [])
unfolding first_vcl
insert_before_first_vcl_lem_example = insert_before_first_vcl_lem access_unit (7 ∷ [])
