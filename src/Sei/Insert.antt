-- ===== src/Sei/Insert.antt =====
-- `insert_before_first_vcl` of src/webrtc/detection_sei.cpp: where the SEI NAL unit goes in an
-- Annex-B access unit.
pub mod FirstVcl
use skai_edge_native.Common.{
  ℕ, zero, suc, ◌+◌, ◌-◌, ◌%◌, List, [], ◌∷◌, ◌++◌, Bool, true, false, ◌&&◌, ltb, leb, ◌==◌,
  if◌then◌else◌, Option, none, some, take, drop,
}

-- `is_vcl`: NAL types 1 to 5, the low five bits of the header.
abbrev pub is_vcl : ℕ → Bool
is_vcl header = leb 1 (header % 32) && leb (header % 32) 5

-- What the loop's body finds at its index: the bytes 0, 0, 1 and one more.
data Found : Type 0 where
  nothing : Found
  vcl : Found
  other_nal : Found

abbrev look : List ℕ → Found
look [] = nothing
look (a ∷ []) = nothing
look (a ∷ b ∷ []) = nothing
look (a ∷ b ∷ c ∷ []) = nothing
look (a ∷ b ∷ c ∷ d ∷ rest) =
    if (a == 0 && b == 0) && (c == 1) then (if is_vcl d then vcl else other_nal) else nothing

-- What the loop does at an index: insert at a place, or go on and pass over some more indices.
data Move : Type 0 where
  insert_at : ℕ → Move
  go_on : ℕ → Move

-- A start code with a zero byte before it begins at that byte.
abbrev start_of : ℕ → Bool → ℕ
start_of i after_zero = if after_zero then i - 1 else i

abbrev move : ℕ → Bool → Found → Move
move i after_zero nothing = go_on 0
move i after_zero vcl = insert_at (start_of i after_zero)
move i after_zero other_nal = go_on 2

-- `i += 2` passes over the next two indices, which `skip` counts down.
abbrev move_from : ℕ → ℕ → Bool → List ℕ → Move
move_from zero i after_zero bytes = move i after_zero (look bytes)
move_from (suc skip) i after_zero bytes = go_on skip

-- The loop from index `i`, over the bytes from there on, `after_zero` saying whether the byte
-- before `i` is a zero: the place of insertion.
pub scan : ℕ → ℕ → Bool → List ℕ → Option ℕ
scan skip i after_zero [] = none
scan skip i after_zero (a ∷ rest) = elim (move_from skip i after_zero (a ∷ rest)) [
  | insert_at place ↦ some place
  | go_on skip' ↦ scan skip' (i + 1) (a == 0) rest
]

pub insert_before_first_vcl : List ℕ → List ℕ → Bool × List ℕ
insert_before_first_vcl access_unit nal = elim (scan 0 0 false access_unit) [
  | none ↦ (false, access_unit)
  | some place ↦ (true, take place access_unit ++ (nal ++ drop place access_unit))
]
