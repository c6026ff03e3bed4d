-- ===== src/Web/Json/Plain.antt =====
-- The pieces of documents that a reader can tell apart.
use skai_edge_native.Common.{
  ℕ, suc, ◌≡◌, refl, List, [], ◌∷◌, Option, none, some, Bool, true, false, arith, ℤ, pos, negsuc,
}
use skai_edge_native.Sei.Json.{decimal}
use skai_edge_native.Sei.Json.Digits.{all_digits, is_number, decimal-number}
use skai_edge_native.Web.Json.{
  Node, value, literal, line, json_bool, null, natural, signed, optional, items_of,
}
use skai_edge_native.Web.Json.Reader.{read, plain, plain_literal, clean, size, read-print}

plain_literal-digits : (cs : List ℕ) → all_digits cs ≡ true → plain_literal cs ≡ true
plain_literal-digits [] h = refl
plain_literal-digits (c ∷ cs) h = ground (arith, plain_literal-digits cs)

pub plain-number : (cs : List ℕ) → is_number cs ≡ true → plain (literal cs) ≡ true
plain-number [] h = ground arith
plain-number (c ∷ cs) h = plain_literal-digits (c ∷ cs) h

pub plain-natural : (n : ℕ) → plain (natural n) ≡ true
unfolding natural
plain-natural n = plain-number (decimal n) (decimal-number n)

minus_number : (cs : List ℕ) → is_number cs ≡ true → plain (literal (b'-' ∷ cs)) ≡ true
minus_number [] h = ground arith
minus_number (c ∷ cs) h = plain_literal-digits (c ∷ cs) h

pub plain-signed : (n : ℤ) → plain (signed n) ≡ true
unfolding signed
plain-signed (pos n) = plain-number (decimal n) (decimal-number n)
plain-signed (negsuc n) = minus_number (decimal (suc n)) (decimal-number (suc n))

pub plain-json_bool : (b : Bool) → plain (json_bool b) ≡ true
unfolding json_bool
plain-json_bool true = refl
plain-json_bool false = refl

pub plain-optional :
    {A : Type 0} (f : A → Node value) (o : Option A)
    → ((a : A) → plain (f a) ≡ true)
    → plain (optional f o) ≡ true
unfolding optional null
plain-optional f none h = refl
plain-optional f (some a) h = h a

pub plain-items_of :
    {A : Type 0} (f : A → Node value) (xs : List A)
    → ((a : A) → plain (f a) ≡ true)
    → plain (items_of f xs) ≡ true
unfolding items_of
plain-items_of f [] h = refl
plain-items_of f (x ∷ xs) h = ground (arith, h x, plain-items_of f xs h)

-- A document on a line of its own is read back from it.
pub read-line :
    (d : Node value) → plain d ≡ true → read value (size d) true (line d) ≡ some (clean d, 10 ∷ [])
unfolding line
read-line d h = read-print d (size d) true (10 ∷ []) h (omega arith) refl
