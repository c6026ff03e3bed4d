-- ===== src/Web/Json.antt =====
-- The JSON texts that src/web/router.cpp, src/web/websocket_session.cpp and
-- src/inference/yolo_inference_module.cpp write: a document as a tree, and its bytes. A tree is only
-- the order of the pieces that the source streams.
pub mod Reader
pub mod Plain
use skai_edge_native.Common.{
  ℕ, suc, List, [], ◌∷◌, ◌++◌, Option, none, some, Bool, true, false, if◌then◌else◌, codes, ℤ, pos,
  negsuc,
}
use skai_edge_native.Sei.Json.{decimal}
use skai_edge_native.Events.{json_string}

pub data Part : Type 0 where
  value items members : Part

-- A value, the items of an array, or the members of an object. A literal is written as it is, a
-- `quoted` text between quotes, a `text` by `json_string`; the names of members are `quoted`.
pub data Node : Part → Type 0 where
  literal : List ℕ → Node value
  quoted : List ℕ → Node value
  text : List ℕ → Node value
  array : Node items → Node value
  object : Node members → Node value
  no_items : Node items
  item : Node value → Node items → Node items
  no_members : Node members
  member : List ℕ → Node value → Node members → Node members

abbrev pub comma : Bool → List ℕ → List ℕ
comma first rest = if first then rest else 44 ∷ rest

-- The bytes, before the given ones; the first argument says that no item or member came before.
unfoldable pub print : {p : Part} → Bool → Node p → List ℕ → List ℕ
print first (literal cs) rest = cs ++ rest
print first (quoted cs) rest = 34 ∷ (cs ++ 34 ∷ rest)
print first (text cs) rest = json_string cs ++ rest
print first (array xs) rest = 91 ∷ print true xs rest
print first (object ms) rest = 123 ∷ print true ms rest
print first no_items rest = 93 ∷ rest
print first (item x xs) rest = comma first (print true x (print false xs rest))
print first no_members rest = 125 ∷ rest
print first (member name x ms) rest =
    comma first (34 ∷ (name ++ 34 ∷ 58 ∷ print true x (print false ms rest)))

-- A document, and a document with the line end after it.
pub document : Node value → List ℕ
unfolding print
document d = print true d []

unfoldable pub line : Node value → List ℕ
unfolding print
line d = print true d (10 ∷ [])

-- `json_bool`.
unfoldable pub json_bool : Bool → Node value
json_bool true = literal (codes "true")
json_bool false = literal (codes "false")

unfoldable pub null : Node value
null = literal (codes "null")

-- A number of an unsigned and of a signed type.
unfoldable pub natural : ℕ → Node value
natural n = literal (decimal n)

unfoldable pub signed : ℤ → Node value
signed (pos n) = literal (decimal n)
signed (negsuc n) = literal (b'-' ∷ decimal (suc n))

-- The value, or `null`.
unfoldable pub optional {ℓ} : {A : Type ℓ} → (A → Node value) → Option A → Node value
unfolding null
optional f none = null
optional f (some a) = f a

unfoldable pub items_of {ℓ} : {A : Type ℓ} → (A → Node value) → List A → Node items
items_of f [] = no_items
items_of f (x ∷ xs) = item (f x) (items_of f xs)
