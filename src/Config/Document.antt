-- ===== src/Config/Document.antt =====
-- The document that yaml-cpp gives, and `check_keys` and `read_scalar` of src/config.cpp.
pub mod Keys
use Prim.Native.String.{String}
use skai_edge_native.Common.{
  ℕ, List, [], ◌∷◌, ◌++◌, Option, none, some, Bool, true, false, ◌||◌, eqb, if◌then◌else◌, codes,
}
use skai_edge_native.Config.Outcome.{Outcome, fine, throws, text}

-- `YAML::Node`; the bytes of a scalar are what `as<std::string>` gives.
mutual
  pub data Node : Type 0 where
    null : Node
    scalar : List ℕ → Node
    sequence : Nodes → Node
    mapping : Entries → Node

  pub data Nodes : Type 0 where
    no_node : Nodes
    node : Node → Nodes → Nodes

  pub data Entries : Type 0 where
    no_entry : Entries
    entry : Node → Node → Entries → Entries

-- `seen.count(key) != 0`, and the loop over the allowed keys.
unfoldable pub is_among : List ℕ → List (List ℕ) → Bool
is_among key [] = false
is_among key (x ∷ xs) = eqb key x || is_among key xs

-- `path.empty() ? key : path + "." + key`.
unfoldable pub field_name : List ℕ → List ℕ → List ℕ
field_name [] key = key
field_name (c ∷ path) key = (c ∷ path) ++ text "." ++ key

-- The loop of `check_keys`, with the keys seen.
unfoldable pub check_entries : List ℕ → List (List ℕ) → List (List ℕ) → Entries → Outcome (Unit {0})
unfolding field_name
check_entries path allowed seen no_entry = fine tt
check_entries path allowed seen (entry (scalar key) value rest) =
    let checked = check_entries path allowed (key ∷ seen) rest in
    let field = field_name path key in
    if is_among key seen
    then throws (field ++ text " is duplicated")
    else if is_among key allowed
    then checked
    else throws (text "unknown configuration key: " ++ field)
check_entries path allowed seen (entry null value rest) =
    throws (path ++ text " has a non-string key")
check_entries path allowed seen (entry (sequence ns) value rest) =
    throws (path ++ text " has a non-string key")
check_entries path allowed seen (entry (mapping es) value rest) =
    throws (path ++ text " has a non-string key")

unfoldable pub check_keys : Node → List ℕ → List (List ℕ) → Outcome (Unit {0})
check_keys (mapping es) path allowed = check_entries path allowed [] es
check_keys null path allowed = throws (path ++ text " must be a mapping")
check_keys (scalar value) path allowed = throws (path ++ text " must be a mapping")
check_keys (sequence ns) path allowed = throws (path ++ text " must be a mapping")

abbrev is_key : List ℕ → Node → Bool
is_key key (scalar value) = eqb value key
is_key key _ = false

unfoldable pub find_entry : List ℕ → Entries → Option Node
find_entry key no_entry = none
find_entry key (entry k value rest) =
    let later = find_entry key rest in if is_key key k then some value else later

-- `section[key]`; `none` is a node that is not defined.
unfoldable pub lookup : Node → List ℕ → Option Node
unfolding find_entry
lookup (mapping es) key = find_entry key es
lookup _ key = none

unfoldable pub converted : {A : Type 0} → Option A → List ℕ → Outcome A
converted none field = throws (field ++ text " has an invalid value")
converted (some value) field = fine value

unfoldable pub read_field :
    {A : Type 0} → (List ℕ → Option A) → List ℕ → Option Node → A → Outcome A
unfolding converted
read_field as_value field none value = fine value
read_field as_value field (some (scalar bytes)) value = converted (as_value bytes) field
read_field as_value field (some _) value = throws (field ++ text " must be a scalar")

-- `read_scalar`, for the conversion of its type; the last argument is the value that stays.
unfoldable pub read_scalar :
    {A : Type 0} → (List ℕ → Option A) → Node → String → List ℕ → A → Outcome A
unfolding read_field
read_scalar as_value section key path value =
    read_field as_value (path ++ text "." ++ codes key) (lookup section (codes key)) value
