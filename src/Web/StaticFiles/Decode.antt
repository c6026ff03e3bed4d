-- ===== src/Web/StaticFiles/Decode.antt =====
-- `decode_path` undoes the percent-encoding of a path.
use skai_edge_native.Common.{
  ℕ, ◌+◌, ◌/◌, ◌%◌, ◌<◌, ◌≡◌, arith, List, [], ◌∷◌, some, Bool, true, ◌&&◌, ltb, leb, if◌then◌else◌,
}
use skai_edge_native.Web.StaticFiles.{hex}

-- The digits of an escape.
abbrev pub digit : ℕ → ℕ
digit n = if ltb n 10 then 48 + n else 55 + n

pub hex-digit : (n : ℕ) → n < 16 → hex (digit n) ≡ some n
unfolding hex
hex-digit n h = ground arith

-- Bytes but for NUL.
abbrev pub all_bytes : List ℕ → Bool
all_bytes [] = true
all_bytes (c ∷ cs) = leb 1 c && (leb c 255 && all_bytes cs)

module _ (escapes : ℕ → Bool) where
  abbrev pub encode : List ℕ → List ℕ
  encode [] = []
  encode (c ∷ cs) =
      if escapes c then 37 ∷ digit (c / 16) ∷ digit (c % 16) ∷ encode cs else c ∷ encode cs
