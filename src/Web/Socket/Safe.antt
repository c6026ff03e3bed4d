-- ===== src/Web/Socket/Safe.antt =====
-- The writes and the close of a WebSocket session.
use skai_edge_native.Common.{
  ℕ, suc, ◌-◌, ◌≤◌, ◌≡◌, refl, arith, List, [], ◌∷◌, Bool, true, false, ◌||◌, if◌then◌else◌,
  Bool-cases, Option-cases, inl, inr,
}
use skai_edge_native.Config.Hosts.{is_empty}
use skai_edge_native.Events.{
  EventQueue, EventChannel, EventType, status, push_event, pop_event, push, subscribe,
  make_event_json,
}
use skai_edge_native.Events.Inbox.{drain_lem}
use skai_edge_native.Web.Socket.{
  WebSocketSession, make_session, end_subscription, cleanup, begin_close, write_popped, write_next,
  enqueue, enqueue_all, drain_incoming, stop, schedule_status, on_accept, receive, on_write,
  on_read, on_timer, on_close, Step, receives, drains, writes, reads, ticks, stops, closes, Reached,
  accepts, follows,
}
use skai_edge_native.Web.Socket.Texts.{
  all_texts, no_events, all_texts-push_event, pop_from-none, pop_from-some,
  is_empty-make_event_json,
}

-- At most one write is on the way, and it is of the text that is kept for it; while the session is
-- open the text is only kept for a write, no event waits unless a write is on the way, and after a stop
-- the close has started or a write is on the way; the close starts once, after a stop, and never
-- during a write; after a stop and a cleanup there is no subscription.
pub record IsSafe (s : WebSocketSession) : Type 0 where
  pub single : s.pending_writes ≤ 1
  pub busy : s.pending_writes ≡ 1 → is_empty s.writing ≡ false
  pub idle : s.closed ≡ false → is_empty s.writing ≡ false → s.pending_writes ≡ 1
  pub no_wait :
      (s.closed || s.stopping) ≡ false
      → is_empty s.writing ≡ true
      → no_events s.outgoing.events ≡ true
  pub once : s.started_closes ≡ (if s.closing then 1 else 0)
  pub quiet : s.closing ≡ true → (s.pending_writes ≡ 0) × (s.stopping ≡ true)
  pub closes_down : s.closed ≡ false → s.stopping ≡ true → s.closing ≡ false → s.pending_writes ≡ 1
  pub unsubscribed : (s.closed || s.stopping) ≡ true → s.subscription_id ≡ 0
  pub queued : all_texts s.outgoing.events ≡ true
  pub received : all_texts s.incoming.queue.events ≡ true

-- The same with no event waiting and no write on the way: what holds before the next write.
write_next-IsSafe :
    (s : WebSocketSession)
    → IsSafe (record s { outgoing = record s.outgoing { events = [] } })
    → all_texts s.outgoing.events ≡ true
    → s.pending_writes ≡ 0
    → s.closing ≡ false
    → (s.stopping ≡ true → s.closed ≡ true)
    → is_empty s.writing ≡ true
    → IsSafe (write_next s)
unfolding write_next write_popped pop_event
write_next-IsSafe s v t p c d w = elim (Option-cases (pop_event s.outgoing).0) [
  | inl e ↦ let f = pop_from-none s.outgoing.events s.outgoing refl e in ground (arith, e, f)
  | inr (x, e) ↦ let f = pop_from-some s.outgoing.events s.outgoing x t e in ground (arith, e, f)
]

cleanup-IsSafe : (s : WebSocketSession) → IsSafe s → IsSafe (cleanup s)
unfolding cleanup end_subscription
cleanup-IsSafe s v = ground arith

begin_close-IsSafe :
    (s : WebSocketSession)
    → IsSafe s
    → s.stopping ≡ true
    → s.pending_writes ≡ 0
    → IsSafe (begin_close s)
unfolding begin_close
begin_close-IsSafe s v t p = ground arith

emptied-IsSafe :
    (s : WebSocketSession) (queue : EventQueue)
    → IsSafe s
    → IsSafe (record s { outgoing = record queue { events = [] } })
emptied-IsSafe s queue v = ground arith

enqueue-IsSafe :
    (event : List ℕ) (s : WebSocketSession)
    → is_empty event ≡ false
    → IsSafe s
    → IsSafe (enqueue event s)
unfolding enqueue
enqueue-IsSafe event s t v =
    let fine = all_texts-push_event event s.outgoing v.queued t in
    elim (Bool-cases (s.closed || s.stopping)) [
      | inl e ↦ rw e v
      | inr active ↦ elim (Bool-cases (is_empty s.writing)) [
        | inl e ↦
            rw (active, e)
              (write_next-IsSafe (record s { outgoing = push_event event s.outgoing })
                (emptied-IsSafe s (push_event event s.outgoing) v) fine (ground arith)
                (ground arith) (ground arith) e)
        | inr e ↦ ground (arith, active, e, fine)
      ]
    ]

enqueue_all-IsSafe :
    (events : List (List ℕ)) (s : WebSocketSession)
    → all_texts events ≡ true
    → IsSafe s
    → IsSafe (enqueue_all events s)
unfolding enqueue_all
enqueue_all-IsSafe [] s t v = v
enqueue_all-IsSafe (event ∷ events) s t v =
    enqueue_all-IsSafe events (enqueue event s) (ground arith)
      (enqueue-IsSafe event s (ground arith) v)

abbrev drained : WebSocketSession → WebSocketSession
drained s = record s {
  incoming = record { queue = record s.incoming.queue { events = [] }; drain_scheduled = false };
}

drained-IsSafe : (s : WebSocketSession) → IsSafe s → IsSafe (drained s)
drained-IsSafe s v = ground arith

drain_incoming-IsSafe : (s : WebSocketSession) → IsSafe s → IsSafe (drain_incoming s)
unfolding drain_incoming
drain_incoming-IsSafe s v =
    rw (drain_lem s.incoming)
      (enqueue_all-IsSafe s.incoming.queue.events (drained s) v.received (drained-IsSafe s v))

stop-IsSafe : (s : WebSocketSession) → IsSafe s → IsSafe (stop s)
unfolding stop end_subscription begin_close
stop-IsSafe s v = ground arith

receive-IsSafe :
    (event : List ℕ) (s : WebSocketSession)
    → is_empty event ≡ false
    → IsSafe s
    → IsSafe (receive event s)
unfolding receive push
receive-IsSafe event s t v =
    ground (arith, all_texts-push_event event s.incoming.queue v.received t)

-- The session after a write, when it is not stopped.
abbrev written : WebSocketSession → WebSocketSession
written s = record s { pending_writes = s.pending_writes - 1; writing = []; stopping = false }

-- A write that is done leaves nothing on the way; the session is not stopped.
written-IsSafe :
    (n : ℕ) (s : WebSocketSession) (queue : EventQueue)
    → s.pending_writes ≡ suc n
    → s.stopping ≡ false
    → IsSafe s
    → IsSafe (record (written s) { outgoing = record queue { events = [] } })
written-IsSafe n s queue p e v = ground arith

failed_write-IsSafe :
    (n : ℕ) (s : WebSocketSession) → s.pending_writes ≡ suc n → IsSafe s → IsSafe (on_write true s)
unfolding on_write cleanup end_subscription
failed_write-IsSafe n s p v = ground arith

last_write-IsSafe :
    (n : ℕ) (s : WebSocketSession)
    → s.pending_writes ≡ suc n
    → s.stopping ≡ true
    → IsSafe s
    → IsSafe (on_write false s)
unfolding on_write begin_close
last_write-IsSafe n s p e v = ground (arith, e)

next_write-IsSafe :
    (n : ℕ) (s : WebSocketSession)
    → s.pending_writes ≡ suc n
    → s.stopping ≡ false
    → IsSafe s
    → IsSafe (on_write false s)
unfolding on_write
next_write-IsSafe n s p e v = rw e (
    write_next-IsSafe (written s) (written-IsSafe n s s.outgoing p e v) v.queued (ground arith)
      (ground arith) (ground arith) refl)

on_write-IsSafe :
    (failed : Bool) (n : ℕ) (s : WebSocketSession)
    → s.pending_writes ≡ suc n
    → IsSafe s
    → IsSafe (on_write failed s)
on_write-IsSafe true n s p v = failed_write-IsSafe n s p v
on_write-IsSafe false n s p v = elim (Bool-cases s.stopping) [
  | inl e ↦ last_write-IsSafe n s p e v
  | inr e ↦ next_write-IsSafe n s p e v
]

schedule_status-IsSafe : (s : WebSocketSession) → IsSafe s → IsSafe (schedule_status s)
unfolding schedule_status
schedule_status-IsSafe s v = ground arith

Step-IsSafe : (s t : WebSocketSession) → Step s t → IsSafe s → IsSafe t
unfolding on_read on_timer on_close
Step-IsSafe _ _ (receives time body type s) v =
    receive-IsSafe (make_event_json time type body) s (is_empty-make_event_json time body type) v
Step-IsSafe _ _ (drains s) v = drain_incoming-IsSafe s v
Step-IsSafe _ _ (writes failed n s p) v = on_write-IsSafe failed n s p v
Step-IsSafe _ _ (reads true s) v = cleanup-IsSafe s v
Step-IsSafe _ _ (reads false s) v = v
Step-IsSafe _ _ (ticks failed time body s) v = elim (Bool-cases (failed || s.closed)) [
  | inl e ↦ rw e v
  | inr e ↦ rw e (
      schedule_status-IsSafe (enqueue (make_event_json time status body) s) (
        enqueue-IsSafe (make_event_json time status body) s
          (is_empty-make_event_json time body status) v))
]
Step-IsSafe _ _ (stops s) v = stop-IsSafe s v
Step-IsSafe _ _ (closes n s p) v = cleanup-IsSafe s v

make_session-IsSafe : (channel : EventChannel) → IsSafe (make_session channel)
unfolding make_session
make_session-IsSafe channel = ground arith

-- The session at the start of `on_accept`.
abbrev opened : EventChannel → WebSocketSession
opened channel = record (make_session channel) {
  registered = true;
  subscription_id = (subscribe channel).0;
  channel = (subscribe channel).1;
}

opened-IsSafe : (channel : EventChannel) → IsSafe (opened channel)
unfolding make_session
opened-IsSafe channel = ground arith

on_accept-IsSafe :
    (failed : Bool) (first second : List ℕ) (channel : EventChannel)
    → is_empty first ≡ false
    → is_empty second ≡ false
    → IsSafe (on_accept failed first second (make_session channel))
unfolding on_accept make_session
on_accept-IsSafe true first second channel t u =
    cleanup-IsSafe (make_session channel) (make_session-IsSafe channel)
on_accept-IsSafe false first second channel t u =
    schedule_status-IsSafe (enqueue second (enqueue first (opened channel))) (
      enqueue-IsSafe second (enqueue first (opened channel)) u
        (enqueue-IsSafe first (opened channel) t (opened-IsSafe channel)))

-- In every session that is reached: at most one write is on the way; while it is open no event waits
-- for nothing, that is, without a write on the way; after a stop the close starts as soon as no write is
-- on the way, only once and never during a write; and there is no subscription after it.
pub Reached-IsSafe : (s : WebSocketSession) → Reached s → IsSafe s
Reached-IsSafe _ (accepts failed time status_body gps_body channel) =
    on_accept-IsSafe failed (make_event_json time status status_body)
      (make_event_json time EventType.gps gps_body) channel
      (is_empty-make_event_json time status_body status)
      (is_empty-make_event_json time gps_body EventType.gps)
Reached-IsSafe _ (follows s t r e) = Step-IsSafe s t e (Reached-IsSafe s r)
