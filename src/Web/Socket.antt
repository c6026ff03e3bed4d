-- ===== src/Web/Socket.antt =====
-- `WebSocketSession` of src/web/websocket_session.cpp. A handler runs to its end on the event loop
-- and is one step. What Boost.Beast does is the completion of the operations that were started, in
-- any order: `pending_writes` counts the calls of `async_write` without a completion, and
-- `started_closes` the calls of `async_close`.
pub mod Texts
pub mod Safe
pub mod Messages
mod Tests
use skai_edge_native.Common.{
  ℕ, suc, ◌-◌, ◌≡◌, List, [], ◌∷◌, Option, none, some, Bool, true, false, not, ◌&&◌, ◌||◌, ◌==◌,
  if◌then◌else◌,
}
use skai_edge_native.Config.Hosts.{is_empty}
use skai_edge_native.Events.{
  EventQueue, EventInbox, EventChannel, EventType, status, push_event, pop_event, push, drain,
  subscribe, unsubscribe, make_event_json,
}

-- `WebSocketSession`; `registered` says that the server has it in its list, `timer` that the status
-- timer runs, and `channel` is the event channel that it shares.
pub record WebSocketSession : Type 0 where
  pub outgoing : EventQueue
  pub incoming : EventInbox
  pub writing : List ℕ
  pub subscription_id : ℕ
  pub closed : Bool
  pub stopping : Bool
  pub closing : Bool
  pub timer : Bool
  pub registered : Bool
  pub channel : EventChannel
  pub pending_writes : ℕ
  pub started_closes : ℕ

abbrev empty_queue : EventQueue
empty_queue = record { capacity = 32; dropped = 0; events = [] }

-- The constructor.
pub make_session : EventChannel → WebSocketSession
make_session channel = record {
  outgoing = empty_queue;
  incoming = record { queue = empty_queue; drain_scheduled = false };
  writing = [];
  subscription_id = 0;
  closed = false;
  stopping = false;
  closing = false;
  timer = false;
  registered = false;
  channel = channel;
  pending_writes = 0;
  started_closes = 0;
}

-- The end of the subscription, if there is one.
pub end_subscription : WebSocketSession → WebSocketSession
end_subscription s =
    if s.subscription_id == 0
    then s
    else record s { channel = unsubscribe s.subscription_id s.channel; subscription_id = 0 }

pub cleanup : WebSocketSession → WebSocketSession
cleanup s =
    if s.closed
    then s
    else end_subscription (record s { closed = true; registered = false; timer = false })

pub begin_close : WebSocketSession → WebSocketSession
begin_close s =
    if s.closed || s.closing
    then s
    else record s { closing = true; started_closes = suc s.started_closes }

-- The rest of `write_next`, on what `pop` gives.
pub write_popped : Option (List ℕ) × EventQueue → WebSocketSession → WebSocketSession
write_popped (none, queue) s = record s { outgoing = queue }
write_popped (some next, queue) s = record s {
  outgoing = queue;
  writing = next;
  pending_writes = suc s.pending_writes;
}

pub write_next : WebSocketSession → WebSocketSession
write_next s = write_popped (pop_event s.outgoing) s

pub enqueue : List ℕ → WebSocketSession → WebSocketSession
enqueue event s =
    let queued = record s { outgoing = push_event event s.outgoing } in
    let written = write_next queued in
    if s.closed || s.stopping then s else if is_empty s.writing then written else queued

-- The loop of `drain_incoming`.
pub enqueue_all : List (List ℕ) → WebSocketSession → WebSocketSession
enqueue_all [] s = s
enqueue_all (event ∷ events) s = enqueue_all events (enqueue event s)

pub drain_incoming : WebSocketSession → WebSocketSession
drain_incoming s = enqueue_all (drain s.incoming).0 (record s { incoming = (drain s.incoming).1 })

pub stop : WebSocketSession → WebSocketSession
stop s =
    let ended = end_subscription (record s { stopping = true; timer = false }) in
    if s.closed || s.stopping then s else if is_empty s.writing then begin_close ended else ended

-- The timer is started; its handler is `on_timer`.
pub schedule_status : WebSocketSession → WebSocketSession
schedule_status s = record s { timer = true }

-- `on_accept`; the flag is the error, and the texts are the two messages.
pub on_accept : Bool → List ℕ → List ℕ → WebSocketSession → WebSocketSession
on_accept true status_message gps_message s = cleanup s
on_accept false status_message gps_message s =
    let (id, channel) = subscribe s.channel in
    schedule_status (
      enqueue gps_message (
        enqueue status_message
          (record s { registered = true; subscription_id = id; channel = channel })))

-- The callback of the subscription, on the thread of the publisher.
pub receive : List ℕ → WebSocketSession → WebSocketSession
receive event s = record s { incoming = (push event s.incoming).1 }

-- The completion of a write; the flag is the error.
pub on_write : Bool → WebSocketSession → WebSocketSession
on_write failed s =
    let written = record s { pending_writes = s.pending_writes - 1 } in
    let cleared = record written { writing = [] } in
    if failed
    then cleanup written
    else if s.stopping
    then begin_close cleared
    else write_next cleared

-- The completion of a read; without an error the bytes are dropped and the next read starts.
pub on_read : Bool → WebSocketSession → WebSocketSession
on_read failed s = if failed then cleanup s else s

-- The handler of the status timer, with the error, as after a cancellation, and the message.
pub on_timer : Bool → List ℕ → WebSocketSession → WebSocketSession
on_timer failed message s = if failed || s.closed then s else schedule_status (enqueue message s)

-- The completion of `async_close`.
pub on_close : WebSocketSession → WebSocketSession
on_close s = cleanup s

-- What happens to a session that has not been accepted, and to one that has: what Beast completes
-- was started before, and every message is an event.
pub data Step : WebSocketSession → WebSocketSession → Type 0 where
  receives :
      (time body : List ℕ) (type : EventType) (s : WebSocketSession)
      → Step s (receive (make_event_json time type body) s)
  drains : (s : WebSocketSession) → Step s (drain_incoming s)
  writes :
      (failed : Bool) (n : ℕ) (s : WebSocketSession)
      → s.pending_writes ≡ suc n
      → Step s (on_write failed s)
  reads : (failed : Bool) (s : WebSocketSession) → Step s (on_read failed s)
  ticks :
      (failed : Bool) (time body : List ℕ) (s : WebSocketSession)
      → Step s (on_timer failed (make_event_json time status body) s)
  stops : (s : WebSocketSession) → Step s (stop s)
  closes : (n : ℕ) (s : WebSocketSession) → s.started_closes ≡ suc n → Step s (on_close s)

-- The sessions that are reached from the answer to the handshake, which comes first.
pub data Reached : WebSocketSession → Type 0 where
  accepts :
      (failed : Bool) (time status_body gps_body : List ℕ) (channel : EventChannel)
      → Reached (
          on_accept failed
            (make_event_json time status status_body)
            (make_event_json time EventType.gps gps_body)
            (make_session channel))
  follows : (s t : WebSocketSession) → Reached s → Step s t → Reached t
