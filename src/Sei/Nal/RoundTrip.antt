-- ===== src/Sei/Nal/RoundTrip.antt =====
-- What a receiver reads from the SEI NAL unit, and that no start code hides in it.
use Prim.Native.Nat.add
use skai_edge_native.Common.{
  ℕ, zero, suc, ◌+◌, ◌-◌, ◌<◌, ◌≡◌, refl, List, [], ◌∷◌, ◌++◌, Bool, true, false, ◌&&◌, leb, ◌==◌,
  if◌then◌else◌, length, eqb, starts_with, Option, none, some, take, drop, arith,
  take-append_length, drop-append_length, inl, inr, Bool-cases,
}
use skai_edge_native.Sei.Nal.{
  size_loop, size_bytes, rbsp, count_zero, escape, encode_user_data_sei_nal,
}

-- A receiver's removal of the emulation prevention bytes.
pub unescape : ℕ → List ℕ → List ℕ
unescape zs [] = []
unescape zs (byte ∷ bytes) =
    let skipped = unescape 0 bytes in
    let kept = byte ∷ unescape (count_zero zs byte) bytes in
    if leb 2 zs && (byte == 3) then skipped else kept

-- Whether two zs are followed by a byte below 3 anywhere, after `zs` zeros.
pub has_start_code : ℕ → List ℕ → Bool
has_start_code zs [] = false
has_start_code zs (byte ∷ bytes) =
    let rest = has_start_code (count_zero zs byte) bytes in
    if leb 2 zs && leb byte 2 then true else rest

-- Removing the emulation prevention bytes gives the RBSP back.
pub unescape-escape : (zs : ℕ) (bytes : List ℕ) → unescape zs (escape zs bytes) ≡ bytes
unfolding unescape escape
unescape-escape zs [] = refl
unescape-escape zs (byte ∷ bytes) =
    ground
      (arith, unescape-escape (count_zero 0 byte) bytes, unescape-escape (count_zero zs byte) bytes)

-- The escaped bytes hold no start code and no other forbidden sequence 00 00 00-02.
pub has_start_code-escape : (zs : ℕ) (bytes : List ℕ) → has_start_code zs (escape zs bytes) ≡ false
unfolding has_start_code escape
has_start_code-escape zs [] = refl
has_start_code-escape zs (byte ∷ bytes) = ground (
  arith,
  has_start_code-escape (count_zero 0 byte) bytes,
  has_start_code-escape (count_zero zs byte) bytes,
)

abbrev add_255 : Option (ℕ × List ℕ) → Option (ℕ × List ℕ)
add_255 none = none
add_255 (some (n, rest)) = some (n + 255, rest)

-- A receiver's reading of the payload size: its value, and the bytes after it.
pub read_size : List ℕ → Option (ℕ × List ℕ)
read_size [] = none
read_size (byte ∷ bytes) = if byte == 0xff then add_255 (read_size bytes) else some (byte, bytes)

read_size-size_loop :
    (fuel n : ℕ) (rest : List ℕ) → n < fuel → read_size (size_loop fuel n ++ rest) ≡ some (n, rest)
unfolding read_size size_loop
read_size-size_loop zero n rest h = absurd (omega arith)
read_size-size_loop (suc fuel) n rest h = elim (Bool-cases (leb 255 n)) [
  | inl big ↦ rw (big, read_size-size_loop fuel (n - 255) rest (ground arith)) (ground arith)
  | inr small ↦ rw small (ground arith)
]

-- The coded size reads back, for every size, and the reader stops right after it.
pub read_size-size_bytes :
    (n : ℕ) (rest : List ℕ) → read_size (size_bytes n ++ rest) ≡ some (n, rest)
unfolding size_bytes
read_size-size_bytes n rest = read_size-size_loop (n + 1) n rest (omega arith)

-- The message body: UUID and payload, when exactly the trailing bits follow them.
read_body : Option (ℕ × List ℕ) → Option (List ℕ × List ℕ)
read_body none = none
read_body (some (n, body)) =
    if eqb (drop n body) (0x80 ∷ [])
    then some (take 16 body, take (n - 16) (drop 16 body))
    else none

read_rbsp : List ℕ → Option (List ℕ × List ℕ)
unfolding read_size read_body
read_rbsp [] = none
read_rbsp (type ∷ bytes) = if type == 5 then read_body (read_size bytes) else none

-- A receiver of the NAL unit: start code and NAL type 6, then the message without its emulation
-- prevention bytes; `none` when the unit is malformed.
pub read_sei : List ℕ → Option (List ℕ × List ℕ)
unfolding read_rbsp unescape
read_sei nal =
    if starts_with (0 ∷ (0 ∷ (0 ∷ (1 ∷ (6 ∷ []))))) nal
    then read_rbsp (unescape 0 (drop 5 nal))
    else none

drop-add : (m k : ℕ) (xs : List ℕ) → drop (m + k) xs ≡ drop k (drop m xs)
drop-add zero k xs = rw add.zero
drop-add (suc m) zero [] = rw add.suc
drop-add (suc m) (suc k) [] = rw add.suc
drop-add (suc m) k (x ∷ xs) = rw add.suc (drop-add m k xs)

read_body-parts :
    (uuid payload : List ℕ)
    → length uuid ≡ 16
    → read_body (some (length uuid + length payload, uuid ++ (payload ++ 0x80 ∷ [])))
      ≡ some (uuid, payload)
unfolding read_body eqb
read_body-parts uuid payload h =
    let e : length uuid + length payload - 16 ≡ length payload = omega arith in
    rw
      (
        drop-add (length uuid) (length payload) (uuid ++ (payload ++ 0x80 ∷ [])),
        drop-append_length uuid (payload ++ 0x80 ∷ []),
        drop-append_length payload (0x80 ∷ []),
      )
      (rw (
        e,
        ← h,
        take-append_length uuid (payload ++ 0x80 ∷ []),
        drop-append_length uuid (payload ++ 0x80 ∷ []),
        take-append_length payload (0x80 ∷ []),
      ))

-- A receiver gets back exactly the UUID (16 bytes) and the payload, whatever the payload's bytes.
pub read_sei-encode :
    (uuid payload : List ℕ)
    → length uuid ≡ 16
    → read_sei (encode_user_data_sei_nal uuid payload) ≡ some (uuid, payload)
unfolding read_sei encode_user_data_sei_nal rbsp starts_with
read_sei-encode uuid payload h = rw (
  unescape-escape 0 (rbsp uuid payload),
  read_size-size_bytes (length uuid + length payload) (uuid ++ (payload ++ 0x80 ∷ [])),
  read_body-parts uuid payload h,
)

-- After the NAL unit's own start code no start code and no other sequence 00 00 00-02 occurs in
-- the unit, whatever the payload's bytes.
pub has_start_code-encode :
    (uuid payload : List ℕ)
    → has_start_code 0 (drop 4 (encode_user_data_sei_nal uuid payload)) ≡ false
unfolding encode_user_data_sei_nal has_start_code
has_start_code-encode uuid payload = has_start_code-escape 0 (rbsp uuid payload)
