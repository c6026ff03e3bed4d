-- ===== src/Events.antt =====
-- src/events.cpp and include/skai/events.hpp: the event channel with its subscribers and recent
-- errors, and the bounded inbox of one WebSocket client. Each method holds its mutex, so a method
-- is one step. An event is a text, the list of its bytes; the time stamp in it comes from the
-- system clock and is an argument.
pub mod Inbox
pub mod Channel
mod Tests
use skai_edge_native.Common.{
  ℕ, zero, suc, ◌+◌, ◌<◌, List, [], ◌∷◌, ◌++◌, Option, none, some, Bool, true, false, length, drop,
  ltb, leb, ◌==◌, ◌||◌, if◌then◌else◌, inc64, codes,
}

-- `EventQueue`.
pub record EventQueue : Type 0 where
  pub capacity : ℕ
  pub dropped : ℕ
  pub events : List (List ℕ)

-- The constructor; `none` is the exception on a capacity of zero.
pub make_queue : ℕ → Option EventQueue
make_queue capacity =
    if capacity == 0 then none else some (record { capacity = capacity; dropped = 0; events = [] })

-- `EventQueue::push`.
unfoldable pub push_event : List ℕ → EventQueue → EventQueue
push_event event q =
    if length q.events == q.capacity
    then record q { events = drop 1 q.events ++ event ∷ []; dropped = inc64 q.dropped }
    else record q { events = q.events ++ event ∷ [] }

unfoldable pub pop_from : List (List ℕ) → EventQueue → Option (List ℕ) × EventQueue
pop_from [] q = (none, q)
pop_from (event ∷ rest) q = (some event, record q { events = rest })

-- `EventQueue::pop`.
unfoldable pub pop_event : EventQueue → Option (List ℕ) × EventQueue
unfolding pop_from
pop_event q = pop_from q.events q

-- `EventInbox`.
pub record EventInbox : Type 0 where
  pub queue : EventQueue
  pub drain_scheduled : Bool

-- `EventInbox::push`; the result says whether the caller schedules a drain.
unfoldable pub push : List ℕ → EventInbox → Bool × EventInbox
push event inbox =
    if inbox.drain_scheduled
    then (false, record inbox { queue = push_event event inbox.queue })
    else (true, record { queue = push_event event inbox.queue; drain_scheduled = true })

-- The `while (auto event = events_.pop())` loop, over the events left; the first argument is fuel,
-- and a queue of n events takes n + 1 rounds.
drain_loop : ℕ → EventQueue → List (List ℕ) → List (List ℕ) × EventQueue
drain_loop zero q taken = (taken, q)
drain_loop (suc fuel) q taken = elim (pop_event q).0 [
  | none ↦ (taken, (pop_event q).1)
  | some event ↦ drain_loop fuel (pop_event q).1 (taken ++ event ∷ [])
]

-- `EventInbox::drain`.
pub drain : EventInbox → List (List ℕ) × EventInbox
drain inbox =
    let (taken, left) = drain_loop (length inbox.queue.events + 1) inbox.queue [] in
    (taken, record { queue = left; drain_scheduled = false })

-- The calls on an inbox, from producers and from the event loop, in the order of the mutex.
pub data InboxCall : Type 0 where
  pushes : List ℕ → InboxCall
  drains : InboxCall

-- One call: what the event loop receives, and the inbox after it.
pub inbox_step : InboxCall → EventInbox → List (List ℕ) × EventInbox
inbox_step (pushes event) inbox = ([], (push event inbox).1)
inbox_step drains inbox = drain inbox

pub inbox_run : List InboxCall → EventInbox → List (List ℕ) × EventInbox
inbox_run [] inbox = ([], inbox)
inbox_run (c ∷ cs) inbox =
    let (out, inbox') = inbox_step c inbox in
    let (outs, last) = inbox_run cs inbox' in (out ++ outs, last)

-- `EventType`.
pub data EventType : Type 0 where
  status detection gps alert recording system_error : EventType

pub event_type_name : EventType → List ℕ
event_type_name status = codes "status"
event_type_name detection = codes "detection"
event_type_name gps = codes "gps"
event_type_name alert = codes "alert"
event_type_name recording = codes "recording"
event_type_name system_error = codes "system_error"

-- One character of `json_string`; other control characters are left out.
pub json_char : ℕ → List ℕ
json_char c =
    if c == 34 || c == 92
    then 92 ∷ c ∷ []
    else if c == 10
    then codes "\\n"
    else if c == 13
    then codes "\\r"
    else if c == 9
    then codes "\\t"
    else if leb 0x20 c
    then c ∷ []
    else []

pub json_chars : List ℕ → List ℕ
unfolding json_char
json_chars [] = []
json_chars (c ∷ cs) = json_char c ++ json_chars cs

-- `json_string`.
pub json_string : List ℕ → List ℕ
unfolding json_chars
json_string value = codes "\"" ++ (json_chars value ++ codes "\"")

unfoldable pub make_event_json : List ℕ → EventType → List ℕ → List ℕ
unfolding event_type_name
make_event_json timestamp type data_json =
    codes "{\"type\":\""
    ++ (event_type_name type
        ++ (codes "\",\"timestamp\":\""
            ++ (timestamp ++ (codes "\",\"data\":" ++ (data_json ++ codes "}\n")))))

pub make_system_error_data : List ℕ → List ℕ → List ℕ
unfolding json_string
make_system_error_data name message =
    codes "{\"module\":"
    ++ (json_string name ++ (codes ",\"message\":" ++ (json_string message ++ codes "}")))

-- `EventChannel`; a subscriber is known by its id, and the map by its ids.
pub record EventChannel : Type 0 where
  pub next_id : ℕ
  pub subscribers : List ℕ
  pub recent_errors : List (List ℕ)

unfoldable pub subscribe : EventChannel → ℕ × EventChannel
subscribe ch = (
  ch.next_id,
  record ch { next_id = inc64 ch.next_id; subscribers = ch.subscribers ++ ch.next_id ∷ [] },
)

erase : ℕ → List ℕ → List ℕ
erase id [] = []
erase id (x ∷ xs) = if x == id then erase id xs else x ∷ erase id xs

pub unsubscribe : ℕ → EventChannel → EventChannel
unfolding erase
unsubscribe id ch = record ch { subscribers = erase id ch.subscribers }

pub is_system_error : EventType → Bool
is_system_error system_error = true
is_system_error _ = false

remember : List ℕ → List (List ℕ) → List (List ℕ)
remember event errors = (if length errors == 10 then drop 1 errors else errors) ++ event ∷ []

deliver : List ℕ → List ℕ → List (ℕ × List ℕ)
deliver event [] = []
deliver event (id ∷ ids) = (id, event) ∷ deliver event ids

-- `publish`: the calls of the subscribers, each with the event, and the channel after it.
pub publish : List ℕ → EventType → List ℕ → EventChannel → List (ℕ × List ℕ) × EventChannel
unfolding make_event_json is_system_error remember deliver
publish timestamp type data_json ch =
    let event = make_event_json timestamp type data_json in
    (
      deliver event ch.subscribers,
      record ch {
        recent_errors =
            if is_system_error type then remember event ch.recent_errors else ch.recent_errors;
      },
    )
