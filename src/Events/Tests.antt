-- ===== src/Events/Tests.antt =====
-- Concrete inboxes, channels and texts.
use skai_edge_native.Common.{◌≡◌, refl, List, [], ◌∷◌, none, false, codes}
use skai_edge_native.Events.{
  EventInbox, EventChannel, push_event, pop_event, pop_from, push, drain_loop, drain, InboxCall,
  pushes, drains, inbox_step, inbox_run, status, alert, json_char, json_chars, json_string,
  make_event_json, make_system_error_data, event_type_name, subscribe, unsubscribe, erase, publish,
  deliver, make_queue,
}

abbrev empty_inbox : EventInbox
empty_inbox = record {
  queue = record { capacity = 2; dropped = 0; events = [] };
  drain_scheduled = false;
}

abbrev three_pushes : List InboxCall
three_pushes = pushes (1 ∷ []) ∷ pushes (2 ∷ []) ∷ pushes (3 ∷ []) ∷ drains ∷ pushes (4 ∷ []) ∷ []

inbox_run_delivers : (inbox_run three_pushes empty_inbox).0 ≡ (2 ∷ []) ∷ (3 ∷ []) ∷ []
unfolding inbox_run inbox_step push push_event pop_event pop_from drain drain_loop
inbox_run_delivers = refl

make_queue_rejects_zero : make_queue 0 ≡ none
unfolding make_queue
make_queue_rejects_zero = refl

json_string_escapes : json_string (34 ∷ 10 ∷ 65 ∷ 1 ∷ []) ≡ 34 ∷ 92 ∷ 34 ∷ 92 ∷ 110 ∷ 65 ∷ 34 ∷ []
unfolding json_string json_chars json_char
json_string_escapes = refl

system_error_data :
    make_system_error_data (codes "web") (codes "down")
    ≡ codes "{\"module\":\"web\",\"message\":\"down\"}"
unfolding make_system_error_data json_string json_chars json_char
system_error_data = refl

event_text :
    make_event_json (codes "T") alert (codes "{}")
    ≡ codes "{\"type\":\"alert\",\"timestamp\":\"T\",\"data\":{}}\n"
unfolding make_event_json event_type_name
event_text = refl

abbrev quiet : EventChannel
quiet = record { next_id = 1; subscribers = []; recent_errors = [] }

deliveries :
    (publish (codes "T") status [] (unsubscribe 1 (subscribe (subscribe quiet).1).1)).0
    ≡ (2, make_event_json (codes "T") status []) ∷ []
unfolding publish deliver unsubscribe subscribe erase
deliveries = refl
