-- ===== src/Events/Inbox.antt =====
-- The inbox of one WebSocket client: bounds, no lost drain, and what a drain hands over.
use skai_edge_native.Common.{
  ℕ, zero, suc, ◌+◌, ◌-◌, ◌<◌, ◌≤◌, ◌≡◌, ◌≢◌, refl, ap, ◌∙◌, List, [], ◌∷◌, ◌++◌, true, false,
  length, drop, arith, length-append, append_assoc, append-nil, newest, newest-append, newest_short,
  Bool-cases, inl, inr, ◌==◌, length-drop, drop-append_le, sym,
}
use skai_edge_native.Events.{
  EventQueue, EventInbox, push_event, pop_event, pop_from, push, drain_loop, drain, InboxCall,
  pushes, drains, inbox_step, inbox_run,
}

-- The queue is within its positive capacity, and buffered events have a drain on the way.
pub record IsValid (inbox : EventInbox) : Type 0 where
  pub positive : 0 < inbox.queue.capacity
  pub fits : length inbox.queue.events ≤ inbox.queue.capacity
  pub awaited : 0 < length inbox.queue.events → inbox.drain_scheduled ≡ true

events-push_event :
    (e : List ℕ) (q : EventQueue)
    → 0 < q.capacity
    → length q.events ≤ q.capacity
    → ((push_event e q).events ≡ newest q.capacity (q.events ++ e ∷ []))
      × ((push_event e q).capacity ≡ q.capacity)
unfolding push_event
events-push_event e q p h = elim (Bool-cases (length q.events == q.capacity)) [
  | inl full ↦ rw full (full_case (ground arith), refl)
  | inr room ↦
      rw room (sym (newest_short q.capacity (q.events ++ e ∷ []) (short (ground arith))), refl)
]
  where
    full_case :
        length q.events ≡ q.capacity
        → drop 1 q.events ++ e ∷ [] ≡ newest q.capacity (q.events ++ e ∷ [])
    full_case f =
        let one : length (q.events ++ e ∷ []) - q.capacity ≡ 1 =
          omega (arith, length-append q.events (e ∷ [])) in
        rw one (sym (drop-append_le 1 q.events (e ∷ []) (omega arith)))

    short : length q.events ≢ q.capacity → length (q.events ++ e ∷ []) ≤ q.capacity
    short f = omega (arith, length-append q.events (e ∷ []))

pop_event_lem : (xs : List (List ℕ)) (q : EventQueue) → q.events ≡ xs → pop_event q ≡ pop_from xs q
unfolding pop_event
pop_event_lem xs q e = ap (λ ys. pop_from ys q) e

drain_loop_lem :
    (fuel : ℕ) (xs : List (List ℕ)) (q : EventQueue) (taken : List (List ℕ))
    → q.events ≡ xs
    → length xs < fuel
    → drain_loop fuel q taken ≡ (taken ++ xs, record q { events = [] })
unfolding drain_loop pop_from
drain_loop_lem zero xs q taken e h = absurd (omega arith)
drain_loop_lem (suc fuel) [] q taken e h = ground (arith, pop_event_lem [] q e, append-nil taken)
drain_loop_lem (suc fuel) (x ∷ xs) q taken e h = ground (
  arith,
  pop_event_lem (x ∷ xs) q e,
  drain_loop_lem fuel xs (record q { events = xs }) (taken ++ x ∷ []) refl,
  append_assoc taken (x ∷ []) xs,
)

-- A drain empties the inbox, hands over exactly the buffered events in order, and lets the next
-- push schedule a drain again: the loop ends on its own.
pub drain_lem :
    (inbox : EventInbox)
    → drain inbox ≡ (
      inbox.queue.events,
      record { queue = record inbox.queue { events = [] }; drain_scheduled = false },
    )
unfolding drain
drain_lem inbox = rw (
    drain_loop_lem (length inbox.queue.events + 1) inbox.queue.events inbox.queue [] refl
      (omega arith))

push-events :
    (e : List ℕ) (inbox : EventInbox)
    → IsValid inbox
    → ((push e inbox).1.queue.events ≡ newest inbox.queue.capacity (inbox.queue.events ++ e ∷ []))
      × ((push e inbox).1.queue.capacity ≡ inbox.queue.capacity)
unfolding push
push-events e inbox v = ground (arith, events-push_event e inbox.queue v.positive v.fits)

push-IsValid : (e : List ℕ) (inbox : EventInbox) → IsValid inbox → IsValid (push e inbox).1
unfolding push
push-IsValid e inbox v = ground (
  arith,
  events-push_event e inbox.queue v.positive v.fits,
  length-drop (length (inbox.queue.events ++ e ∷ []) - inbox.queue.capacity)
      (inbox.queue.events ++ e ∷ []),
)

step-IsValid : (c : InboxCall) (inbox : EventInbox) → IsValid inbox → IsValid (inbox_step c inbox).1
unfolding inbox_step
step-IsValid (pushes e) inbox v = push-IsValid e inbox v
step-IsValid drains inbox v = rw (drain_lem inbox) (ground arith)

-- After any calls of producers and event loop on a valid inbox, at most `capacity` events are
-- buffered, and whenever an event is buffered a drain is scheduled: no wake-up is lost.
pub inbox_run-IsValid :
    (cs : List InboxCall) (inbox : EventInbox) → IsValid inbox → IsValid (inbox_run cs inbox).1
unfolding inbox_run
inbox_run-IsValid [] inbox v = v
inbox_run-IsValid (c ∷ cs) inbox v =
    inbox_run-IsValid cs (inbox_step c inbox).1 (step-IsValid c inbox v)

abbrev pub push_all : List (List ℕ) → EventInbox → EventInbox
push_all [] inbox = inbox
push_all (e ∷ es) inbox = push_all es (push e inbox).1

push_all-events :
    (es : List (List ℕ)) (inbox : EventInbox)
    → IsValid inbox
    → ((push_all es inbox).queue.events ≡ newest inbox.queue.capacity (inbox.queue.events ++ es))
      × ((push_all es inbox).queue.capacity ≡ inbox.queue.capacity)
push_all-events [] inbox v =
    (rw append-nil (sym (newest_short inbox.queue.capacity inbox.queue.events v.fits)), refl)
push_all-events (e ∷ es) inbox v =
    let first = push-events e inbox v in
    let rest = push_all-events es (push e inbox).1 (push-IsValid e inbox v) in
    (
      rest.0
          ∙ rw (first.1, first.0)
              (newest-append inbox.queue.capacity (inbox.queue.events ++ e ∷ []) es)
          ∙ ap (newest inbox.queue.capacity) (append_assoc inbox.queue.events (e ∷ []) es),
      rest.1 ∙ first.1,
    )

-- Events pushed between two drains: the next drain hands over the newest of them, together with
-- what was buffered, as many as the capacity allows and in order.
pub drain-push_all :
    (es : List (List ℕ)) (inbox : EventInbox)
    → IsValid inbox
    → (drain (push_all es inbox)).0 ≡ newest inbox.queue.capacity (inbox.queue.events ++ es)
drain-push_all es inbox v = rw (drain_lem (push_all es inbox)) (push_all-events es inbox v).0

scheduled-push_all :
    (es : List (List ℕ)) (inbox : EventInbox)
    → inbox.drain_scheduled ≡ true
    → (push_all es inbox).drain_scheduled ≡ true
unfolding push
scheduled-push_all [] inbox h = h
scheduled-push_all (e ∷ es) inbox h = scheduled-push_all es (push e inbox).1 (ground arith)

-- The first push after a drain, and no later one before the next drain, schedules a drain.
pub push-schedules_once :
    (e : List ℕ) (es : List (List ℕ)) (late : List ℕ) (inbox : EventInbox)
    → ((push e (drain inbox).1).0 ≡ true)
      × ((push late (push_all es (push e (drain inbox).1).1)).0 ≡ false)
unfolding push
push-schedules_once e es late inbox =
    rw (drain_lem inbox) (refl, rw (scheduled-push_all es after_first refl) refl)
  where
    after_first : EventInbox
    after_first = record {
      queue = push_event e (record inbox.queue { events = [] });
      drain_scheduled = true;
    }
