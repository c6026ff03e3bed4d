-- ===== src/Web/Socket/Texts.antt =====
-- The queues of a WebSocket session hold texts that are not empty.
use skai_edge_native.Common.{
  ℕ, ◌≡◌, refl, arith, List, [], ◌∷◌, ◌++◌, none, some, Bool, true, false, not, ◌&&◌, drop,
}
use skai_edge_native.Config.Hosts.{is_empty}
use skai_edge_native.Events.{EventQueue, EventType, push_event, pop_from, make_event_json}

abbrev pub all_texts : List (List ℕ) → Bool
all_texts [] = true
all_texts (e ∷ es) = not (is_empty e) && all_texts es

abbrev pub no_events : List (List ℕ) → Bool
no_events [] = true
no_events (e ∷ es) = false

all_texts-append :
    (es : List (List ℕ)) (e : List ℕ)
    → all_texts es ≡ true
    → is_empty e ≡ false
    → all_texts (es ++ e ∷ []) ≡ true
all_texts-append [] e h t = ground arith
all_texts-append (x ∷ es) e h t = ground (arith, all_texts-append es e)

all_texts-drop : (es : List (List ℕ)) → all_texts es ≡ true → all_texts (drop 1 es) ≡ true
all_texts-drop [] h = refl
all_texts-drop (x ∷ es) h = ground arith

pub all_texts-push_event :
    (e : List ℕ) (q : EventQueue)
    → all_texts q.events ≡ true
    → is_empty e ≡ false
    → all_texts (push_event e q).events ≡ true
unfolding push_event
all_texts-push_event e q h t = ground (
  arith,
  all_texts-append q.events e h t,
  all_texts-append (drop 1 q.events) e (all_texts-drop q.events h) t,
)

pub pop_from-none :
    (es : List (List ℕ)) (q : EventQueue)
    → q.events ≡ es
    → (pop_from es q).0 ≡ none
    → (no_events (pop_from es q).1.events && all_texts (pop_from es q).1.events) ≡ true
unfolding pop_from
pop_from-none [] q e h = rw e refl
pop_from-none (x ∷ es) q e h = ground arith

pub pop_from-some :
    (es : List (List ℕ)) (q : EventQueue) (x : List ℕ)
    → all_texts es ≡ true
    → (pop_from es q).0 ≡ some x
    → (not (is_empty x) && all_texts (pop_from es q).1.events) ≡ true
unfolding pop_from
pop_from-some [] q x t h = ground arith
pop_from-some (y ∷ es) q x t h = ground arith

pub is_empty-make_event_json :
    (time body : List ℕ) (type : EventType) → is_empty (make_event_json time type body) ≡ false
unfolding make_event_json
is_empty-make_event_json time body type = refl
