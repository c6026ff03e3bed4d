-- ===== src/Config/Document/Keys.antt =====
-- What `check_keys` accepts.
use skai_edge_native.Common.{
  ℕ, ◌≡◌, refl, arith, List, [], ◌∷◌, Bool, true, false, not, ◌&&◌, ◌||◌, eqb,
}
use skai_edge_native.Config.Outcome.{is_fine}
use skai_edge_native.Config.Document.{
  Node, null, scalar, sequence, mapping, Entries, no_entry, entry, is_among, check_entries,
  check_keys,
}

-- The key occurs in the entries.
abbrev pub has_key : List ℕ → Entries → Bool
has_key key no_entry = false
has_key key (entry (scalar k) value rest) = eqb key k || has_key key rest
has_key key (entry null value rest) = has_key key rest
has_key key (entry (sequence ns) value rest) = has_key key rest
has_key key (entry (mapping es) value rest) = has_key key rest

-- Every key is a scalar and allowed, and does not occur again.
abbrev pub well_keyed : List (List ℕ) → Entries → Bool
well_keyed allowed no_entry = true
well_keyed allowed (entry (scalar k) value rest) =
    is_among k allowed && (not (has_key k rest) && well_keyed allowed rest)
well_keyed allowed (entry null value rest) = false
well_keyed allowed (entry (sequence ns) value rest) = false
well_keyed allowed (entry (mapping es) value rest) = false

abbrev none_seen : List (List ℕ) → Entries → Bool
none_seen [] es = true
none_seen (k ∷ seen) es = not (has_key k es) && none_seen seen es

eqb_sym : (xs ys : List ℕ) → eqb xs ys ≡ eqb ys xs
unfolding eqb
eqb_sym [] [] = refl
eqb_sym [] (y ∷ ys) = refl
eqb_sym (x ∷ xs) [] = refl
eqb_sym (x ∷ xs) (y ∷ ys) = ground (arith, eqb_sym xs ys)

none_seen-entry :
    (seen : List (List ℕ)) (k : List ℕ) (value : Node) (rest : Entries)
    → none_seen seen (entry (scalar k) value rest) ≡ not (is_among k seen) && none_seen seen rest
unfolding is_among
none_seen-entry [] k value rest = refl
none_seen-entry (s ∷ seen) k value rest =
    ground (arith, eqb_sym s k, none_seen-entry seen k value rest)

none_seen-no_entry : (seen : List (List ℕ)) → none_seen seen no_entry ≡ true
none_seen-no_entry [] = refl
none_seen-no_entry (s ∷ seen) = none_seen-no_entry seen

check_entries-well_keyed :
    (path : List ℕ) (allowed seen : List (List ℕ)) (es : Entries)
    → is_fine (check_entries path allowed seen es) ≡ well_keyed allowed es && none_seen seen es
unfolding check_entries
check_entries-well_keyed path allowed seen no_entry = ground (arith, none_seen-no_entry seen)
check_entries-well_keyed path allowed seen (entry (scalar k) value rest) = ground (
  arith,
  none_seen-entry seen k value rest,
  check_entries-well_keyed path allowed (k ∷ seen) rest,
)
check_entries-well_keyed path allowed seen (entry null value rest) = refl
check_entries-well_keyed path allowed seen (entry (sequence ns) value rest) = refl
check_entries-well_keyed path allowed seen (entry (mapping es) value rest) = refl

abbrev pub well_keyed_node : List (List ℕ) → Node → Bool
well_keyed_node allowed null = false
well_keyed_node allowed (scalar value) = false
well_keyed_node allowed (sequence ns) = false
well_keyed_node allowed (mapping es) = well_keyed allowed es

-- A section is accepted exactly when it is a mapping each of whose keys is a scalar, is allowed,
-- and does not occur again.
pub check_keys-well_keyed :
    (section : Node) (path : List ℕ) (allowed : List (List ℕ))
    → is_fine (check_keys section path allowed) ≡ well_keyed_node allowed section
unfolding check_keys
check_keys-well_keyed null path allowed = refl
check_keys-well_keyed (scalar value) path allowed = refl
check_keys-well_keyed (sequence ns) path allowed = refl
check_keys-well_keyed (mapping es) path allowed =
    ground (arith, check_entries-well_keyed path allowed [] es)
