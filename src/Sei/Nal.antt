-- ===== src/Sei/Nal.antt =====
-- `encode_user_data_sei_nal` of src/webrtc/detection_sei.cpp: the Annex-B SEI NAL unit that
-- carries a UUID and a payload. Bytes are numbers below 256.
pub mod RoundTrip
pub mod Size
use skai_edge_native.Common.{
  ℕ, zero, suc, ◌+◌, ◌-◌, ◌%◌, List, [], ◌∷◌, ◌++◌, Bool, true, false, ◌&&◌, ltb, leb, ◌==◌,
  if◌then◌else◌, length, Option, none, some, take, drop,
}

-- The `while (size >= 255)` loop and the byte after it; the first argument is fuel.
size_loop : ℕ → ℕ → List ℕ
size_loop zero size = []
size_loop (suc fuel) size =
    let more = 0xff ∷ size_loop fuel (size - 255) in if leb 255 size then more else size % 256 ∷ []

-- The payload size: each round takes 255 off, so `size + 1` rounds are enough.
unfoldable pub size_bytes : ℕ → List ℕ
unfolding size_loop
size_bytes size = size_loop (size + 1) size

-- The RBSP: payload type 5, size, UUID, payload, trailing bits.
pub rbsp : List ℕ → List ℕ → List ℕ
rbsp uuid payload =
    5 ∷ (size_bytes (length uuid + length payload) ++ (uuid ++ (payload ++ 0x80 ∷ [])))

-- The count of zeros (`zeros`) after a byte.
abbrev pub count_zero : ℕ → ℕ → ℕ
count_zero zs byte = if byte == 0 then zs + 1 else 0

-- Whether an emulation prevention byte goes before `byte`.
abbrev pub stuffed : ℕ → ℕ → Bool
stuffed zs byte = leb 2 zs && leb byte 3

-- The copying loop, with the count of zs that were written last.
unfoldable pub escape : ℕ → List ℕ → List ℕ
escape zs [] = []
escape zs (byte ∷ bytes) =
    let rest = escape (count_zero (if stuffed zs byte then 0 else zs) byte) bytes in
    if stuffed zs byte then 3 ∷ (byte ∷ rest) else byte ∷ rest

pub encode_user_data_sei_nal : List ℕ → List ℕ → List ℕ
encode_user_data_sei_nal uuid payload = 0 ∷ (0 ∷ (0 ∷ (1 ∷ (0x06 ∷ escape 0 (rbsp uuid payload)))))
