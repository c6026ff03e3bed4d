-- ===== src/Sei/Insert/FirstVcl.antt =====
-- The insertion against a search that looks at every index.
use skai_edge_native.Common.{
  ℕ, zero, suc, ◌+◌, ◌≡◌, refl, List, [], ◌∷◌, ◌++◌, Bool, true, false, ◌&&◌, ◌==◌, if◌then◌else◌,
  Option, none, some, take, drop, arith,
}
use skai_edge_native.Sei.Insert.{
  Found, is_vcl, look, nothing, vcl, other_nal, scan, start_of, insert_before_first_vcl,
}

-- A start code 00 00 01 followed by a VCL header.
abbrev pub vcl_here : List ℕ → Bool
vcl_here [] = false
vcl_here (a ∷ []) = false
vcl_here (a ∷ b ∷ []) = false
vcl_here (a ∷ b ∷ c ∷ []) = false
vcl_here (a ∷ b ∷ c ∷ d ∷ rest) = (a == 0 && b == 0) && (c == 1 && is_vcl d)

-- The reference: the first index with a VCL start code, every index looked at; its place, with the
-- zero byte of a long start code.
unfoldable pub first_vcl : ℕ → Bool → List ℕ → Option ℕ
first_vcl i after_zero [] = none
first_vcl i after_zero (a ∷ rest) =
    let later = first_vcl (i + 1) (a == 0) rest in
    if vcl_here (a ∷ rest) then some (start_of i after_zero) else later

-- No VCL start code at the next `n` indices.
abbrev NoneIn : ℕ → List ℕ → Type 0
NoneIn zero bytes = Unit {0}
NoneIn (suc n) [] = Unit {0}
NoneIn (suc n) (a ∷ rest) = (vcl_here (a ∷ rest) ≡ false) × NoneIn n rest

look_vcl : (bytes : List ℕ) → look bytes ≡ vcl → vcl_here bytes ≡ true
look_vcl [] h = cc
look_vcl (a ∷ []) h = cc
look_vcl (a ∷ b ∷ []) h = cc
look_vcl (a ∷ b ∷ c ∷ []) h = cc
look_vcl (a ∷ b ∷ c ∷ d ∷ rest) h = ground arith

look_nothing : (bytes : List ℕ) → look bytes ≡ nothing → vcl_here bytes ≡ false
look_nothing [] h = refl
look_nothing (a ∷ []) h = refl
look_nothing (a ∷ b ∷ []) h = refl
look_nothing (a ∷ b ∷ c ∷ []) h = refl
look_nothing (a ∷ b ∷ c ∷ d ∷ rest) h = ground arith

-- Another NAL unit's start code overlaps no start code at its own index or the next two.
look_other :
    (a : ℕ) (rest : List ℕ)
    → look (a ∷ rest) ≡ other_nal
    → (vcl_here (a ∷ rest) ≡ false) × NoneIn 2 rest
look_other a [] h = cc
look_other a (b ∷ []) h = cc
look_other a (b ∷ c ∷ []) h = cc
look_other a (b ∷ c ∷ d ∷ []) h = (ground arith, (refl, (refl, tt)))
look_other a (b ∷ c ∷ d ∷ e ∷ []) h = (ground arith, (ground arith, (refl, tt)))
look_other a (b ∷ c ∷ d ∷ e ∷ f ∷ rest) h = (ground arith, (ground arith, (ground arith, tt)))

-- The loop finds what the search of every index finds.
scan-eq-first_vcl :
    (skip i : ℕ) (after_zero : Bool) (bytes : List ℕ)
    → NoneIn skip bytes
    → scan skip i after_zero bytes ≡ first_vcl i after_zero bytes
unfolding scan first_vcl
scan-eq-first_vcl zero i z [] h = refl
scan-eq-first_vcl (suc skip) i z [] h = refl
scan-eq-first_vcl (suc skip) i z (a ∷ rest) h =
    rw h.0 (scan-eq-first_vcl skip (i + 1) (a == 0) rest h.1)
scan-eq-first_vcl zero i z (a ∷ rest) h =
    by_look (look (a ∷ rest)) refl (scan-eq-first_vcl zero (i + 1) (a == 0) rest tt)
      (scan-eq-first_vcl 2 (i + 1) (a == 0) rest)
  where
    by_look :
        (f : Found)
        → look (a ∷ rest) ≡ f
        → scan 0 (i + 1) (a == 0) rest ≡ first_vcl (i + 1) (a == 0) rest
        → (NoneIn 2 rest → scan 2 (i + 1) (a == 0) rest ≡ first_vcl (i + 1) (a == 0) rest)
        → scan 0 i z (a ∷ rest) ≡ first_vcl i z (a ∷ rest)
    by_look nothing e next skipped = rw (e, look_nothing (a ∷ rest) e, scan) next
    by_look vcl e next skipped = rw (e, look_vcl (a ∷ rest) e, scan) refl
    by_look other_nal e next skipped =
        let (here, later) = look_other a rest e in rw (e, here, scan) (skipped later)

-- The access unit is split where the first VCL NAL unit's start code begins, with a zero byte
-- before it, and the SEI goes between the two parts; with no VCL NAL unit nothing changes and
-- the result is false.
pub insert_before_first_vcl_lem :
    (access_unit nal : List ℕ)
    → insert_before_first_vcl access_unit nal ≡ elim (first_vcl 0 false access_unit) [
      | none ↦ (false, access_unit)
      | some place ↦ (true, take place access_unit ++ (nal ++ drop place access_unit))
    ]
unfolding insert_before_first_vcl
insert_before_first_vcl_lem access_unit nal =
    rw (scan-eq-first_vcl 0 0 false access_unit tt, insert_before_first_vcl)
