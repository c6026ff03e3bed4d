-- ===== src/Sei/Nal/Size.antt =====
-- A bound on the length of the NAL unit.
use skai_edge_native.Common.{
  ℕ, zero, suc, ◌+◌, ◌-◌, ◌*◌, ◌≤◌, List, [], ◌∷◌, ◌++◌, length, length-append, arith,
  if◌then◌else◌,
}
use skai_edge_native.Sei.Nal.{
  size_loop, size_bytes, rbsp, stuffed, count_zero, escape, encode_user_data_sei_nal,
}

length-size_loop : (fuel size : ℕ) → length (size_loop fuel size) ≤ fuel
unfolding size_loop
length-size_loop zero size = omega arith
length-size_loop (suc fuel) size = ground (arith, length-size_loop fuel (size - 255))

length-escape : (zs : ℕ) (bytes : List ℕ) → length (escape zs bytes) ≤ 2 * length bytes
unfolding escape
length-escape zs [] = omega arith
length-escape zs (byte ∷ bytes) =
    ground (arith, length-escape (count_zero (if stuffed zs byte then 0 else zs) byte) bytes)

-- At most every byte is escaped.
pub length-encode :
    (uuid payload : List ℕ)
    → length (encode_user_data_sei_nal uuid payload) ≤ 11 + 4 * (length uuid + length payload)
unfolding encode_user_data_sei_nal rbsp size_bytes
length-encode uuid payload =
    let size = length uuid + length payload in
    let raw = rbsp uuid payload in
    omega (
      arith,
      length-escape 0 raw,
      length-append (size_loop (size + 1) size) (uuid ++ (payload ++ 0x80 ∷ [])),
      length-append uuid (payload ++ 0x80 ∷ []),
      length-append payload (0x80 ∷ []),
      length-size_loop (size + 1) size,
    )
