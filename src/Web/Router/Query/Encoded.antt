-- ===== src/Web/Router/Query/Encoded.antt =====
-- `query_parameters` reads the parameters that a client has encoded.
use skai_edge_native.Common.{
  ℕ, ◌/◌, ◌%◌, ◌<◌, ◌≡◌, refl, arith, List, [], ◌∷◌, ◌++◌, some, none, Bool, true, false, ◌&&◌,
  Bool-cases, inl, inr, ltb, ◌==◌, if◌then◌else◌, find,
}
use skai_edge_native.Web.StaticFiles.{cons_some}
use skai_edge_native.Web.StaticFiles.Decode.{digit, hex-digit}
use skai_edge_native.Web.Router.Query.{decoded_byte, decode_component, Parameters}

-- Percent-encoding: of `%`, `&` and `=` at least.
module _ (escapes : ℕ → Bool) where
  abbrev pub encode : List ℕ → List ℕ
  encode [] = []
  encode (c ∷ cs) =
      if escapes c then 37 ∷ digit (c / 16) ∷ digit (c % 16) ∷ encode cs else c ∷ encode cs

  -- The text of one parameter, and of several.
  abbrev pub encode_pair : List ℕ × List ℕ → List ℕ
  encode_pair (key, value) = key ++ 61 ∷ encode value

  abbrev pub encode_pairs : Parameters → List ℕ
  encode_pairs [] = []
  encode_pairs (p ∷ []) = encode_pair p
  encode_pairs (p ∷ q ∷ rest) = encode_pair p ++ 38 ∷ encode_pairs (q ∷ rest)

abbrev pub all_below : ℕ → List ℕ → Bool
all_below bound [] = true
all_below bound (c ∷ cs) = ltb c bound && all_below bound cs

decode-plain :
    (c : ℕ) (cs : List ℕ)
    → (c == 37) ≡ false
    → decode_component (c ∷ cs) ≡ cons_some c (decode_component cs)
unfolding decode_component
decode-plain c [] h = ground arith
decode-plain c (d ∷ []) h = ground arith
decode-plain c (d ∷ e ∷ cs) h = ground arith

decode-escape :
    (c : ℕ) (cs : List ℕ)
    → c < 256
    → decode_component (37 ∷ digit (c / 16) ∷ digit (c % 16) ∷ cs)
      ≡ cons_some c (decode_component cs)
unfolding decode_component decoded_byte
decode-escape c cs k =
    ground (arith, hex-digit (c / 16) (omega arith), hex-digit (c % 16) (omega arith))

-- A byte that is not `special` when it is not encoded.
abbrev pub Escaped : ℕ → (ℕ → Bool) → Type 0
Escaped special escapes = (c : ℕ) → escapes c ≡ false → (c == special) ≡ false

digit_plain : (n special : ℕ) → n < 16 → special < 48 → (digit n == special) ≡ false
digit_plain n special h k = ground arith

module _ (escapes : ℕ → Bool) (percent : Escaped 37 escapes) where
  pub decode_component-encode :
      (cs : List ℕ) → all_below 256 cs ≡ true → decode_component (encode escapes cs) ≡ some cs
  unfolding decode_component
  decode_component-encode [] h = refl
  decode_component-encode (c ∷ cs) h = elim (Bool-cases (escapes c)) [
    | inl e ↦ ground (arith, e, decode-escape c (encode escapes cs), decode_component-encode cs)
    | inr e ↦
        ground
          (arith, e, decode-plain c (encode escapes cs) (percent c e), decode_component-encode cs)
  ]

  pub find-encode :
      (special : ℕ) (cs : List ℕ)
      → Escaped special escapes
      → special < 48
      → (special == 37) ≡ false
      → all_below 256 cs ≡ true
      → find special (encode escapes cs) ≡ none
  unfolding find
  find-encode special [] p k s h = refl
  find-encode special (c ∷ cs) p k s h = elim (Bool-cases (escapes c)) [
    | inl e ↦ ground (
      arith,
      e,
      digit_plain (c / 16) special (ground arith) k,
      digit_plain (c % 16) special (omega arith) k,
      find-encode special cs p k s,
    )
    | inr e ↦ ground (arith, e, p c e, find-encode special cs p k s)
  ]

-- Names without `=` and `&`, and values of bytes.
abbrev pub IsSendable : Parameters → Type 0
IsSendable [] = Unit
IsSendable ((key, value) ∷ rest) =
    (find 61 key ≡ none) × (find 38 key ≡ none) × (all_below 256 value ≡ true) × IsSendable rest

abbrev pub pushed : Parameters → Parameters → Parameters
pushed [] values = values
pushed (p ∷ rest) values = pushed rest (p ∷ values)
