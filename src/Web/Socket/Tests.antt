-- ===== src/Web/Socket/Tests.antt =====
-- A session with an event, a write and a stop, and an instance of the theorem on it.
use skai_edge_native.Common.{ℕ, ◌≡◌, refl, List, [], ◌∷◌, false}
use skai_edge_native.Events.{
  EventChannel, EventType, status, push_event, pop_event, pop_from, subscribe, make_event_json,
}
use skai_edge_native.Web.Socket.{
  WebSocketSession, make_session, on_accept, schedule_status, enqueue, write_next, write_popped,
  on_write, end_subscription, begin_close, stop, Reached, accepts, follows, writes, stops,
}
use skai_edge_native.Web.Socket.Safe.{IsSafe, Reached-IsSafe}

abbrev channel : EventChannel
channel = record { next_id = 1; subscribers = []; recent_errors = [] }

abbrev time : List ℕ
time = 84 ∷ []

abbrev accepted : WebSocketSession
accepted =
    on_accept false (make_event_json time status (123 ∷ [])) (make_event_json time EventType.gps [])
      (make_session channel)

abbrev reached : Reached accepted
reached = accepts false time (123 ∷ []) [] channel

one_write : accepted.pending_writes ≡ 1
unfolding on_accept schedule_status enqueue write_next write_popped push_event pop_event pop_from
    make_session make_event_json
one_write = refl

still_writing : (stop accepted).pending_writes ≡ 1
unfolding stop end_subscription begin_close on_accept schedule_status enqueue write_next
    write_popped push_event pop_event pop_from make_session make_event_json subscribe
still_writing = refl

Reached-IsSafe_example : IsSafe (on_write false (stop accepted))
Reached-IsSafe_example = Reached-IsSafe (on_write false (stop accepted)) (
    follows (stop accepted) (on_write false (stop accepted))
      (follows accepted (stop accepted) reached (stops accepted))
      (writes false 0 (stop accepted) still_writing))
