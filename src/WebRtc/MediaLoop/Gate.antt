-- ===== src/WebRtc/MediaLoop/Gate.antt =====
-- What a viewer gets can be decoded: after a gap comes a keyframe, but for one race.
use skai_edge_native.Common.{
  ℕ, ◌+◌, ◌<◌, ◌^◌, ◌≡◌, List, [], ◌∷◌, Option, none, some, Bool, true, false, not, ◌&&◌, ◌||◌, ltb,
  ◌==◌, arith, add64,
}
use skai_edge_native.Media.{EncodedAccessUnit}
use skai_edge_native.WebRtc.MediaLoop.{
  Action, misses, arrives, misses_late, sends, Round, Sender, initial, observe, stamp, send,
  take_unit, pop_unit, end_round, round, run,
}

abbrev pub sent_keyframe : List Action → Bool
sent_keyframe (sends unit timestamp ∷ log) = unit.keyframe
sent_keyframe _ = false

-- The latest unit of the queue was sent, and none is missing behind it, unless it is a keyframe and
-- they were dropped before the counter was read for it.
abbrev pub is_ready : List Action → Bool
is_ready [] = false
is_ready (sends unit timestamp ∷ log) = true
is_ready (misses_late ∷ log) = sent_keyframe log
is_ready (misses ∷ log) = false
is_ready (arrives ∷ log) = false

-- A unit that has just left the queue follows one that was sent.
abbrev pub follows : List Action → Bool
follows (arrives ∷ log) = is_ready log
follows _ = false

abbrev pub is_decodable : List Action → Bool
is_decodable [] = true
is_decodable (sends unit timestamp ∷ log) = (unit.keyframe || follows log) && is_decodable log
is_decodable (misses ∷ log) = is_decodable log
is_decodable (arrives ∷ log) = is_decodable log
is_decodable (misses_late ∷ log) = is_decodable log

-- A thread that does not wait for a keyframe has seen every drop.
record IsSound (s : Sender) : Type 0 where
  decodable : is_decodable s.log ≡ true
  counted : s.queue_drops < 2 ^ 64
  ready :
      s.media_running && not s.waiting_for_keyframe ≡ true
      → is_ready s.log && (s.observed_queue_drops == s.queue_drops) ≡ true

-- Once the wait for the track is over, the track is open if the session still runs; and the queue
-- drops fewer than 2 ^ 64 units in a round, which its counter tells apart.
abbrev pub is_usual : Round → Bool
is_usual r = (r.is_open || not r.still_running) && ltb (r.missed + r.missed_late) (2 ^ 64)

abbrev pub all_usual : List Round → Bool
all_usual [] = true
all_usual (r ∷ rs) = is_usual r && all_usual rs

-- The thread behind the reading of the counter.
record IsAware (unit : EncodedAccessUnit) (s : Sender) : Type 0 where
  before : is_decodable s.log ≡ true
  follows : unit.keyframe || follows s.log ≡ true
  seen : s.observed_queue_drops ≡ s.queue_drops
  bounded : s.queue_drops < 2 ^ 64

-- The thread that has taken a unit, before what the queue dropped behind it is noted.
record IsSoundBefore (late : ℕ) (s : Sender) : Type 0 where
  decodable_before : is_decodable s.log ≡ true
  counted_before : s.queue_drops < 2 ^ 64
  ready_before :
      s.media_running && not s.waiting_for_keyframe ≡ true
      → is_ready s.log && (s.observed_queue_drops == s.queue_drops) ≡ true
  keyframe_before :
      s.media_running && not s.waiting_for_keyframe ≡ true → sent_keyframe s.log || late == 0 ≡ true

send-IsSoundBefore :
    (start : ℕ) (unit : EncodedAccessUnit) (r : Round) (s : Sender)
    → IsAware unit s
    → unit.keyframe || r.missed_late == 0 ≡ true
    → IsSoundBefore r.missed_late (send start unit r s)
unfolding send stamp
send-IsSoundBefore start unit r s v l = ground arith

same_count :
    (count added : ℕ)
    → count < 2 ^ 64
    → added < 2 ^ 64
    → (count == add64 count added) ≡ (added == 0)
same_count count added c a = ground arith

take-IsSoundBefore :
    (start : ℕ) (unit : EncodedAccessUnit) (r : Round) (s : Sender)
    → s.media_running ≡ true
    → is_usual r ≡ true
    → IsSound s
    → IsSoundBefore r.missed_late (take_unit start unit r (pop_unit unit r s))
unfolding take_unit observe
take-IsSoundBefore start unit r s running o v = ground (
  arith,
  same_count s.queue_drops (r.missed + r.missed_late),
  send-IsSoundBefore start unit r (observe unit (pop_unit unit r s)),
)

end_round-IsSound :
    (r : Round) (s : Sender) → IsSoundBefore r.missed_late s → IsSound (end_round r s)
end_round-IsSound r s v = ground arith

round-IsSound :
    (start : ℕ) (r : Round) (s : Sender)
    → s.media_running ≡ true
    → is_usual r ≡ true
    → IsSound s
    → IsSound (round start r s)
unfolding round
round-IsSound start r s running o v = by_unit r.unit
  where
    by_unit :
        (unit : Option EncodedAccessUnit)
        → IsSound
            (elim unit [ none ↦ s | some u ↦ end_round r (take_unit start u r (pop_unit u r s)) ])
    by_unit none = v
    by_unit (some unit) =
        end_round-IsSound r (take_unit start unit r (pop_unit unit r s))
          (take-IsSoundBefore start unit r s running o v)

run-IsSound :
    (start : ℕ) (rs : List Round) (s : Sender)
    → all_usual rs ≡ true
    → IsSound s
    → IsSound (run start rs s)
unfolding run
run-IsSound start [] s o v = v
run-IsSound start (r ∷ rs) s o v =
    ground (arith, round-IsSound start r s, run-IsSound start rs (round start r s))

-- Whatever the source, the queue and the track do, so long as the track of a session that still
-- runs is open once the wait for it is over, and the queue drops fewer than 2^64 units in a round:
-- each unit sent to a viewer is a keyframe, or comes right behind another one that was sent, with
-- no discontinuity and nothing dropped between them, except behind a keyframe what the queue drops
-- after it has handed it out and before the thread reads the counter of drops.
pub is_decodable-run :
    (start_timestamp : ℕ) (rs : List Round)
    → all_usual rs ≡ true
    → is_decodable (run start_timestamp rs initial).log ≡ true
unfolding initial
is_decodable-run start rs o = ground (arith, run-IsSound start rs initial o)
