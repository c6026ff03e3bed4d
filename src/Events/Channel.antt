-- ===== src/Events/Channel.antt =====
-- The event channel: recent errors, ids of subscribers, and the JSON text of an event.
use skai_edge_native.Common.{
  ℕ, ◌-◌, ◌≤◌, ◌≡◌, ◌≢◌, refl, ap, ◌∙◌, sym, List, [], ◌∷◌, ◌++◌, Option, none, some, Bool, true,
  false, length, drop, arith, length-append, append_assoc, append-nil, newest, newest-append,
  newest_short, Bool-cases, inl, inr, if◌then◌else◌, leb, ◌==◌, ◌||◌, length-drop, drop-append_le,
}
use skai_edge_native.Events.{
  EventType, EventChannel, publish, remember, is_system_error, make_event_json, json_char,
  json_chars, json_string,
}

-- A call of `publish`: time stamp, type, data.
abbrev pub Published : Type 0
Published = List ℕ × EventType × List ℕ

abbrev pub publish_all : List Published → EventChannel → EventChannel
publish_all [] ch = ch
publish_all ((t, type, body) ∷ ps) ch = publish_all ps (publish t type body ch).1

-- The texts of the system errors among them.
abbrev pub error_of : Published → List (List ℕ)
error_of (t, type, body) = if is_system_error type then make_event_json t type body ∷ [] else []

abbrev pub errors_of : List Published → List (List ℕ)
errors_of [] = []
errors_of (p ∷ ps) = error_of p ++ errors_of ps

newest-remember :
    (e : List ℕ) (errors : List (List ℕ))
    → length errors ≤ 10
    → (remember e errors ≡ newest 10 (errors ++ e ∷ [])) × (length (remember e errors) ≤ 10)
unfolding remember
newest-remember e errors h = elim (Bool-cases (length errors == 10)) [
  | inl full ↦ rw full (full_case (ground arith))
  | inr room ↦ rw room (room_case (ground arith))
]
  where
    full_case :
        length errors ≡ 10
        → (drop 1 errors ++ e ∷ [] ≡ newest 10 (errors ++ e ∷ []))
          × (length (drop 1 errors ++ e ∷ []) ≤ 10)
    full_case f =
        let one : length (errors ++ e ∷ []) - 10 ≡ 1 =
          omega (arith, length-append errors (e ∷ [])) in
        (
          rw one (sym (drop-append_le 1 errors (e ∷ []) (omega arith))),
          omega (arith, length-append (drop 1 errors) (e ∷ []), length-drop 1 errors),
        )

    room_case :
        length errors ≢ 10
        → (errors ++ e ∷ [] ≡ newest 10 (errors ++ e ∷ [])) × (length (errors ++ e ∷ []) ≤ 10)
    room_case f = (
      sym (newest_short 10 (errors ++ e ∷ []) (omega (arith, length-append errors (e ∷ [])))),
      omega (arith, length-append errors (e ∷ [])),
    )

recent_errors-publish :
    (t : List ℕ) (type : EventType) (body : List ℕ) (ch : EventChannel)
    → length ch.recent_errors ≤ 10
    → ((publish t type body ch).1.recent_errors
        ≡ newest 10 (ch.recent_errors ++ error_of (t, type, body)))
      × (length (publish t type body ch).1.recent_errors ≤ 10)
unfolding publish
recent_errors-publish t type body ch h = elim (Bool-cases (is_system_error type)) [
  | inl reported ↦ rw reported (newest-remember (make_event_json t type body) ch.recent_errors h)
  | inr other ↦ rw (other, append-nil) (sym (newest_short 10 ch.recent_errors h), h)
]

-- The recent errors are the newest ten system errors published, oldest first.
pub recent_errors-publish_all :
    (ps : List Published) (ch : EventChannel)
    → length ch.recent_errors ≤ 10
    → (publish_all ps ch).recent_errors ≡ newest 10 (ch.recent_errors ++ errors_of ps)
recent_errors-publish_all [] ch h = rw append-nil (sym (newest_short 10 ch.recent_errors h))
recent_errors-publish_all ((t, type, body) ∷ ps) ch h =
    let (one, short) = recent_errors-publish t type body ch h in
    recent_errors-publish_all ps (publish t type body ch).1 short
    ∙ rw one (
        newest-append 10 (ch.recent_errors ++ error_of (t, type, body)) (errors_of ps)
        ∙ ap (newest 10) (append_assoc ch.recent_errors (error_of (t, type, body)) (errors_of ps)))

-- A reader of the inside of a JSON string: its bytes, up to the closing quote, and the rest.
abbrev cons_read : ℕ → Option (List ℕ × List ℕ) → Option (List ℕ × List ℕ)
cons_read c none = none
cons_read c (some (cs, rest)) = some (c ∷ cs, rest)

abbrev unescaped : ℕ → ℕ
unescaped d = if d == b'n' then 10 else if d == b'r' then 13 else if d == b't' then 9 else d

-- `escaping` says that the byte before was a backslash.
unfoldable pub read_chars : Bool → List ℕ → Option (List ℕ × List ℕ)
read_chars escaping [] = none
read_chars true (c ∷ rest) = cons_read (unescaped c) (read_chars false rest)
read_chars false (c ∷ rest) =
    let escaped = read_chars true rest in
    let plain = cons_read c (read_chars false rest) in
    if c == 34 then some ([], rest) else if c == 92 then escaped else plain

-- What a JSON string keeps of a text: all bytes but control characters other than \n, \r and \t.
abbrev pub kept : ℕ → Bool
kept c = leb 0x20 c || (c == 10 || (c == 13 || c == 9))

abbrev pub printable : List ℕ → List ℕ
printable [] = []
printable (c ∷ cs) = if kept c then c ∷ printable cs else printable cs

read-json_char :
    (c : ℕ) (rest : List ℕ)
    → read_chars false (json_char c ++ rest)
      ≡ (if kept c then cons_read c (read_chars false rest) else read_chars false rest)
unfolding read_chars json_char
read-json_char c rest = ground arith

-- A JSON reader that has passed the opening quote reads the text of any value back, but for
-- control characters that have no short escape, and stops right behind the closing quote: no byte
-- of the value ends the string early.
pub read_chars-json_chars :
    (cs rest : List ℕ) → read_chars false (json_chars cs ++ (34 ∷ rest)) ≡ some (printable cs, rest)
unfolding json_chars
read_chars-json_chars [] rest = unfold read_chars in refl
read_chars-json_chars (c ∷ cs) rest =
    rw (append_assoc (json_char c) (json_chars cs) (34 ∷ rest), read-json_char c)
      (ground (arith, read_chars-json_chars cs rest))

-- The same for the whole string, which begins with a quote.
pub json_string-append :
    (cs rest : List ℕ) → json_string cs ++ rest ≡ 34 ∷ (json_chars cs ++ 34 ∷ rest)
unfolding json_string
json_string-append cs rest = ap (◌∷◌ 34) (append_assoc (json_chars cs) (34 ∷ []) rest)
