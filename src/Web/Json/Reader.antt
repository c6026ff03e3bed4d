-- ===== src/Web/Json/Reader.antt =====
-- A reader of JSON, and that it reads back every document.
use skai_edge_native.Common.{
  ℕ, zero, suc, ◌+◌, ◌≤◌, ◌<◌, ◌≡◌, refl, arith, List, [], ◌∷◌, ◌++◌, Option, none, some, Bool,
  true, false, not, ◌&&◌, ◌||◌, ◌==◌, if◌then◌else◌, ◌∙◌,
}
use skai_edge_native.Events.Channel.{
  read_chars, printable, read_chars-json_chars, json_string-append,
}
use skai_edge_native.Web.Json.{
  Part, value, items, members, Node, literal, quoted, text, array, object, no_items, item,
  no_members, member, comma, print,
}

-- A byte that ends a literal.
abbrev pub is_end : ℕ → Bool
is_end c = c == 44 || (c == 93 || (c == 125 || c == 10))

abbrev add_byte : ℕ → List ℕ × List ℕ → List ℕ × List ℕ
add_byte c (cs, rest) = (c ∷ cs, rest)

-- A literal, and the rest.
pub span : List ℕ → List ℕ × List ℕ
span [] = ([], [])
span (c ∷ cs) = let more = span cs in if is_end c then ([], c ∷ cs) else add_byte c more

-- The next steps of the reader, on what a part gives.
abbrev wrap : {p q : Part} → (Node p → Node q) → Option (Node p × List ℕ) → Option (Node q × List ℕ)
wrap f none = none
wrap f (some (d, rest)) = some (f d, rest)

abbrev follow :
    {p q : Part}
    → Option (Node p × List ℕ)
    → (Node p → List ℕ → Option (Node q × List ℕ))
    → Option (Node q × List ℕ)
follow none next = none
follow (some (d, rest)) next = next d rest

abbrev as_text : Option (List ℕ × List ℕ) → Option (Node value × List ℕ)
as_text none = none
as_text (some (cs, rest)) = some (text cs, rest)

abbrev as_literal : List ℕ × List ℕ → Option (Node value × List ℕ)
as_literal (cs, rest) = some (literal cs, rest)

-- The colon and the value after the name of a member.
abbrev after_name :
    Option (List ℕ × List ℕ)
    → (List ℕ → List ℕ → Option (Node members × List ℕ))
    → Option (Node members × List ℕ)
after_name none next = none
after_name (some (name, [])) next = none
after_name (some (name, c ∷ rest)) next = if c == 58 then next name rest else none

-- The bytes after the comma that a later item has.
abbrev skip_comma : Bool → ℕ → List ℕ → Option (List ℕ)
skip_comma true c cs = some (c ∷ cs)
skip_comma false c cs = if c == 44 then some cs else none

abbrev on_some :
    {p : Part} → Option (List ℕ) → (List ℕ → Option (Node p × List ℕ)) → Option (Node p × List ℕ)
on_some none next = none
on_some (some cs) next = next cs

abbrev open_name : List ℕ → Option (List ℕ × List ℕ)
open_name [] = none
open_name (c ∷ cs) = if c == 34 then read_chars false cs else none

-- The reader; a byte after the last one read may be left, and the number is fuel.
pub read : (p : Part) → ℕ → Bool → List ℕ → Option (Node p × List ℕ)
unfolding span
read p zero first cs = none
read p (suc fuel) first [] = none
read value (suc fuel) first (c ∷ cs) =
    let xs = wrap array (read items fuel true cs) in
    let ms = wrap object (read members fuel true cs) in
    if c == 34
    then as_text (read_chars false cs)
    else if c == 91
    then xs
    else if c == 123
    then ms
    else as_literal (span (c ∷ cs))
read items (suc fuel) first (c ∷ cs) =
    let more = on_some (skip_comma first c cs) (λ ds.
      follow (read value fuel true ds) (λ x rest. wrap (item x) (read items fuel false rest))) in
    if c == 93 then some (no_items, cs) else more
read members (suc fuel) first (c ∷ cs) =
    let more = on_some (skip_comma first c cs) (λ ds. after_name (open_name ds) (λ name es.
      follow (read value fuel true es)
        (λ x rest. wrap (member name x) (read members fuel false rest)))) in
    if c == 125 then some (no_members, cs) else more

-- What a reader can tell apart in a document: literals without structure, names and quoted texts
-- without quotes and backslashes.
abbrev pub plain_byte : ℕ → Bool
plain_byte c = not (is_end c || (c == 34 || (c == 91 || c == 123)))

abbrev pub plain_literal : List ℕ → Bool
plain_literal [] = true
plain_literal (c ∷ cs) = plain_byte c && plain_literal cs

abbrev pub is_cons : List ℕ → Bool
is_cons [] = false
is_cons (c ∷ cs) = true

abbrev pub plain_text : List ℕ → Bool
plain_text [] = true
plain_text (c ∷ cs) = not (c == 34 || c == 92) && plain_text cs

abbrev pub plain : {p : Part} → Node p → Bool
plain (literal cs) = is_cons cs && plain_literal cs
plain (quoted cs) = plain_text cs
plain (text cs) = true
plain (array xs) = plain xs
plain (object ms) = plain ms
plain no_items = true
plain (item x xs) = plain x && plain xs
plain no_members = true
plain (member name x ms) = plain_text name && (plain x && plain ms)

-- The document as it is read: a text without its other control characters.
abbrev pub clean : {p : Part} → Node p → Node p
clean (literal cs) = literal cs
clean (quoted cs) = text cs
clean (text cs) = text (printable cs)
clean (array xs) = array (clean xs)
clean (object ms) = object (clean ms)
clean no_items = no_items
clean (item x xs) = item (clean x) (clean xs)
clean no_members = no_members
clean (member name x ms) = member name (clean x) (clean ms)

abbrev pub size : {p : Part} → Node p → ℕ
size (array xs) = suc (size xs)
size (object ms) = suc (size ms)
size (item x xs) = suc (size x + size xs)
size (member name x ms) = suc (size x + size ms)
size _ = 1

abbrev pub ends : List ℕ → Bool
ends [] = true
ends (c ∷ cs) = is_end c

span_lem :
    (cs rest : List ℕ) → plain_literal cs ≡ true → ends rest ≡ true → span (cs ++ rest) ≡ (cs, rest)
unfolding span
span_lem [] [] h e = refl
span_lem [] (c ∷ rest) h e = ground arith
span_lem (c ∷ cs) rest h e = ground (arith, span_lem cs rest)

read_chars-plain :
    (cs rest : List ℕ) → plain_text cs ≡ true → read_chars false (cs ++ 34 ∷ rest) ≡ some (cs, rest)
unfolding read_chars
read_chars-plain [] rest h = refl
read_chars-plain (c ∷ cs) rest h = ground (arith, read_chars-plain cs rest)

-- After an item or a member comes a comma or a bracket.
ends-items : (xs : Node items) (rest : List ℕ) → ends (print false xs rest) ≡ true
unfolding print
ends-items no_items rest = refl
ends-items (item x xs) rest = refl

ends-members : (ms : Node members) (rest : List ℕ) → ends (print false ms rest) ≡ true
unfolding print
ends-members no_members rest = refl
ends-members (member name x ms) rest = refl

-- A value does not begin with the bracket that closes an array.
abbrev opens : List ℕ → Bool
opens [] = false
opens (c ∷ cs) = not (c == 93)

opens-print : (x : Node value) (rest : List ℕ) → plain x ≡ true → opens (print true x rest) ≡ true
unfolding print
opens-print (literal []) rest h = ground arith
opens-print (literal (c ∷ cs)) rest h = ground arith
opens-print (quoted cs) rest h = refl
opens-print (text cs) rest h = rw (json_string-append cs rest) refl
opens-print (array xs) rest h = refl
opens-print (object ms) rest h = refl

read_item :
    (first : Bool) (fuel : ℕ) (cs : List ℕ)
    → opens cs ≡ true
    → read items (suc fuel) first (comma first cs)
      ≡ follow (read value fuel true cs) (λ x rest. wrap (item x) (read items fuel false rest))
unfolding read
read_item true fuel [] h = ground arith
read_item true fuel (c ∷ cs) h = ground arith
read_item false fuel cs h = refl

size-positive : {p : Part} (d : Node p) → 0 < size d
size-positive (literal cs) = omega arith
size-positive (quoted cs) = omega arith
size-positive (text cs) = omega arith
size-positive (array xs) = omega arith
size-positive (object ms) = omega arith
size-positive no_items = omega arith
size-positive (item x xs) = omega arith
size-positive no_members = omega arith
size-positive (member name x ms) = omega arith

read_member :
    (first : Bool) (fuel : ℕ) (name cs : List ℕ)
    → plain_text name ≡ true
    → read members (suc fuel) first (comma first (34 ∷ (name ++ 34 ∷ 58 ∷ cs)))
      ≡ follow
          (read value fuel true cs)
          (λ x rest. wrap (member name x) (read members fuel false rest))
unfolding read
read_member true fuel name cs h = rw (read_chars-plain name (58 ∷ cs) h) refl
read_member false fuel name cs h = rw (read_chars-plain name (58 ∷ cs) h) refl

read_literal :
    (fuel c : ℕ) (first : Bool) (cs rest : List ℕ)
    → plain_literal (c ∷ cs) ≡ true
    → ends rest ≡ true
    → read value (suc fuel) first (c ∷ (cs ++ rest)) ≡ some (literal (c ∷ cs), rest)
unfolding read
read_literal fuel c first cs rest h e = ground (arith, span_lem (c ∷ cs) rest h e)

-- Any document whose literals, names and quoted texts have no structure of JSON in them is read
-- back from its bytes, whatever its texts are: the reader ends right behind it with the same tree,
-- but for control characters that have no short escape.
pub read-print :
    {p : Part} (d : Node p) (fuel : ℕ) (first : Bool) (rest : List ℕ)
    → plain d ≡ true
    → size d ≤ fuel
    → ends rest ≡ true
    → read p fuel first (print first d rest) ≡ some (clean d, rest)
unfolding read print
read-print d zero first rest h k e = absurd (omega (arith, size-positive d))
read-print (literal []) (suc fuel) first rest h k e = ground arith
read-print (literal (c ∷ cs)) (suc fuel) first rest h k e = read_literal fuel c first cs rest h e
read-print (quoted cs) (suc fuel) first rest h k e = rw (read_chars-plain cs rest h) refl
read-print (text cs) (suc fuel) first rest h k e =
    rw (json_string-append cs rest, read_chars-json_chars cs rest) refl
read-print (array xs) (suc fuel) first rest h k e =
    rw (read-print xs fuel true rest h (omega arith) e) refl
read-print (object ms) (suc fuel) first rest h k e =
    rw (read-print ms fuel true rest h (omega arith) e) refl
read-print no_items (suc fuel) first rest h k e = refl
read-print (item x xs) (suc fuel) first rest h k e =
    read_item first fuel (print true x (print false xs rest))
      (opens-print x (print false xs rest) (ground arith))
    ∙ rw
        (
          read-print x fuel true (print false xs rest) (ground arith) (omega arith)
              (ends-items xs rest),
          read-print xs fuel false rest (ground arith) (omega arith) e,
        )
        refl
read-print no_members (suc fuel) first rest h k e = refl
read-print (member name x ms) (suc fuel) first rest h k e =
    read_member first fuel name (print true x (print false ms rest)) (ground arith)
    ∙ rw
        (
          read-print x fuel true (print false ms rest) (ground arith) (omega arith)
              (ends-members ms rest),
          read-print ms fuel false rest (ground arith) (omega arith) e,
        )
        refl
