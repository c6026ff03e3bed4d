-- ===== src/Config/Outcome.antt =====
-- The exceptions of src/config.cpp, as values: `std::invalid_argument` with its message.
use Prim.Native.String.{String}
use skai_edge_native.Common.{
  ℕ, ◌≡◌, refl, arith, List, ◌++◌, Bool, true, false, codes, if◌then◌else◌,
}

pub data Outcome {ℓ} (A : Type ℓ) : Type ℓ where
  fine : A → Outcome A
  throws : List ℕ → Outcome A

infixl 2 ◌>>=◌
abbrev pub ◌>>=◌ {ℓ κ} : {A : Type ℓ} {B : Type κ} → Outcome A → (A → Outcome B) → Outcome B
fine a >>= f = f a
throws message >>= f = throws message

infixl 2 ◌>>◌
abbrev pub ◌>>◌ {ℓ} : {B : Type ℓ} → Outcome (Unit {0}) → Outcome B → Outcome B
m >> k = m >>= λ _. k

-- The bytes of a message, kept shut.
unfoldable pub text : String → List ℕ
text s = codes s

-- `check_range`.
abbrev pub check_range : Bool → List ℕ → String → Outcome (Unit {0})
check_range valid field requirement =
    if valid then fine tt else throws (field ++ text " " ++ text requirement)

abbrev pub is_fine {ℓ} : {A : Type ℓ} → Outcome A → Bool
is_fine (fine a) = true
is_fine (throws message) = false

-- A chain that ends well has parts that do.
pub is_fine->>= :
    {A B : Type 0} (m : Outcome A) (f : A → Outcome B)
    → is_fine (m >>= f) ≡ true
    → (a : A) × (m ≡ fine a) × (is_fine (f a) ≡ true)
is_fine->>= (fine a) f h = (a, refl, h)
is_fine->>= (throws message) f h = absurd (ground arith)
