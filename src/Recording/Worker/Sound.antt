-- ===== src/Recording/Worker/Sound.antt =====
-- What it is that a fragment can be decoded, and that the branches of the worker keep it.
use skai_edge_native.Common.{
  ℕ, ◌+◌, ◌<◌, ◌^◌, ◌≡◌, ◌==◌, add64, if◌then◌else◌, refl, List, [], ◌∷◌, Option, none, some, Bool,
  true, false, ◌&&◌, ◌||◌, arith,
}
use skai_edge_native.Media.{EncodedAccessUnit}
use skai_edge_native.Recording.{set_error}
use skai_edge_native.Recording.Worker.{
  Action, opens, misses, arrives, misses_late, writes, closes, publishes, pop_unit, Round, Worker,
  fail, close_pipeline, idle, written, write_access_unit, open_and_write, take_unit, after_bus,
  bus_error, on_bus, active, note_late, is_missing, note_unit,
}

abbrev pub wrote_keyframe : List Action → Bool
wrote_keyframe (writes unit ∷ log) = unit.keyframe
wrote_keyframe _ = false

-- The latest unit of the queue was written to the fragment, and none is missing behind it, unless it
-- is a keyframe and they were dropped in its round.
abbrev pub is_ready : List Action → Bool
is_ready [] = false
is_ready (writes unit ∷ log) = true
is_ready (misses_late ∷ log) = wrote_keyframe log
is_ready (publishes status ∷ log) = false
is_ready (opens ∷ log) = false
is_ready (misses ∷ log) = false
is_ready (arrives ∷ log) = false
is_ready (closes finalized ∷ log) = false

-- A unit that has just left the queue follows one that was written to the fragment.
abbrev pub follows : List Action → Bool
follows (arrives ∷ log) = is_ready log
follows _ = false

abbrev pub is_decodable : List Action → Bool
is_decodable [] = true
is_decodable (writes unit ∷ log) = (unit.keyframe || follows log) && is_decodable log
is_decodable (publishes status ∷ log) = is_decodable log
is_decodable (opens ∷ log) = is_decodable log
is_decodable (misses ∷ log) = is_decodable log
is_decodable (arrives ∷ log) = is_decodable log
is_decodable (misses_late ∷ log) = is_decodable log
is_decodable (closes finalized ∷ log) = is_decodable log

-- The log is decodable; a worker that does not wait for a keyframe has an open fragment whose latest
-- unit is written, and has seen every drop, or is not asked to record.
pub record IsSound (w : Worker) : Type 0 where
  pub decodable : is_decodable w.log ≡ true
  pub counted : w.queue_drops < 2 ^ 64
  pub ready :
      w.waiting_for_keyframe ≡ false
      → w.has_pipeline ≡ true
      → is_ready w.log && (w.observed_queue_drops == w.queue_drops) ≡ true
  pub asked :
      w.waiting_for_keyframe ≡ false → w.has_pipeline ≡ false → w.control.c_requested ≡ false

-- The same before what the queue dropped behind the unit of the round is noted.
record IsSoundBefore (late : ℕ) (w : Worker) : Type 0 where
  sound : IsSound w
  keyframe_before :
      w.waiting_for_keyframe ≡ false
      → w.has_pipeline ≡ true
      → wrote_keyframe w.log || late == 0 ≡ true

late-IsSound :
    (unit : EncodedAccessUnit) (r : Round) (w : Worker)
    → IsSoundBefore r.missed_late w
    → IsSound (note_late (some unit) r w)
late-IsSound unit r w v =
    let s = v.sound in ground (arith, s.decodable, s.counted, s.ready, s.asked, v.keyframe_before)

pub idle-IsSound :
    (r : Round) (w : Worker)
    → is_decodable w.log ≡ true
    → w.queue_drops < 2 ^ 64
    → IsSound (note_late r.unit r (idle r w))
unfolding idle close_pipeline
idle-IsSound r w v c = by_unit r.unit
  where
    by_unit :
        (unit : Option EncodedAccessUnit)
        → IsSound (note_late unit r (idle (record r { unit = unit }) w))
    by_unit none = ground arith
    by_unit (some unit) = ground arith

-- The stream goes on with the unit of a round, if there is one.
abbrev continues_in : Option EncodedAccessUnit → ℕ → List Action → Bool
continues_in none late log = is_ready log
continues_in (some unit) late log = unit.discontinuity || (follows log && late == 0)

-- A worker that is asked to record, behind the reading of the counter. Without a fragment it waits.
record IsActive (unit : Option EncodedAccessUnit) (late : ℕ) (w : Worker) : Type 0 where
  before : is_decodable w.log ≡ true
  bounded : w.queue_drops < 2 ^ 64
  seen : w.observed_queue_drops ≡ w.queue_drops
  continues : w.waiting_for_keyframe ≡ false → w.has_pipeline && continues_in unit late w.log ≡ true

-- A worker that takes a unit: without a keyframe it continues the fragment.
record IsTaking (unit : EncodedAccessUnit) (late : ℕ) (w : Worker) : Type 0 where
  taken : is_decodable w.log ≡ true
  taken_bounded : w.queue_drops < 2 ^ 64
  taken_seen : w.observed_queue_drops ≡ w.queue_drops
  joins : unit.keyframe || (w.has_pipeline && (follows w.log && late == 0)) ≡ true

write-IsSoundBefore :
    (unit : EncodedAccessUnit) (r : Round) (w : Worker)
    → IsTaking unit r.missed_late w
    → w.has_pipeline ≡ true
    → IsSoundBefore r.missed_late (write_access_unit unit r w)
unfolding write_access_unit written fail close_pipeline set_error
write-IsSoundBefore unit r w v p = record { sound = ground arith; keyframe_before = ground arith }

open-IsSoundBefore :
    (opening : Option (List ℕ)) (unit : EncodedAccessUnit) (r : Round) (w : Worker)
    → IsTaking unit r.missed_late w
    → IsSoundBefore r.missed_late (open_and_write opening unit r w)
unfolding open_and_write fail set_error
open-IsSoundBefore none unit r w v =
    let opened : Worker = record w { has_pipeline = true; log = opens ∷ w.log } in
    ground (arith, write-IsSoundBefore unit r w v, write-IsSoundBefore unit r opened)
open-IsSoundBefore (some error) unit r w v = ground (arith, write-IsSoundBefore unit r w v)

close-IsActive :
    (unit : Option EncodedAccessUnit) (late : ℕ) (r : Round) (w : Worker)
    → is_decodable w.log ≡ true
    → w.queue_drops < 2 ^ 64
    → w.observed_queue_drops ≡ w.queue_drops
    → w.waiting_for_keyframe ≡ true
    → IsActive unit late (close_pipeline true r w)
unfolding close_pipeline
close-IsActive unit late r w d b c h = ground arith

close-waits :
    (r : Round) (w : Worker)
    → (close_pipeline true r w).waiting_for_keyframe ≡ w.waiting_for_keyframe
unfolding close_pipeline
close-waits r w = ground arith

take-IsSoundBefore :
    (unit : EncodedAccessUnit) (r : Round) (w : Worker)
    → IsActive (some unit) r.missed_late w
    → IsSoundBefore r.missed_late (take_unit unit r w)
unfolding take_unit
take-IsSoundBefore unit r w v =
    let restarted : Worker = record w { waiting_for_keyframe = true } in
    let closed = close_pipeline true r restarted in
    ground (
      arith,
      close-waits r restarted,
      close-IsActive (some unit) r.missed_late r restarted v.before v.bounded v.seen refl,
      open-IsSoundBefore r.opening unit r (record w { waiting_for_keyframe = false }),
      open-IsSoundBefore r.opening unit r (record closed { waiting_for_keyframe = false }),
    )

fail-IsSound :
    (unit : Option EncodedAccessUnit) (error : List ℕ) (r : Round) (w : Worker)
    → is_decodable w.log ≡ true
    → w.queue_drops < 2 ^ 64
    → w.has_pipeline ≡ true
    → IsSound (note_late unit r (close_pipeline false r (fail error w)))
unfolding fail set_error close_pipeline
fail-IsSound none error r w d b p = ground arith
fail-IsSound (some unit) error r w d b p = ground arith

after_bus-IsSound :
    (unit : Option EncodedAccessUnit) (r : Round) (w : Worker)
    → IsActive unit r.missed_late w
    → IsSound (note_late unit r (after_bus unit r w))
unfolding after_bus
after_bus-IsSound none r w v = ground arith
after_bus-IsSound (some unit) r w v =
    late-IsSound unit r (take_unit unit r w) (take-IsSoundBefore unit r w v)

on_bus-IsSound :
    (broken : Option (List ℕ)) (r : Round) (w : Worker)
    → IsActive r.unit r.missed_late w
    → IsSound (note_late r.unit r (on_bus broken r w))
unfolding on_bus
on_bus-IsSound none r w v = after_bus-IsSound r.unit r w v
on_bus-IsSound (some error) r w v = by_pipeline w.has_pipeline refl
  where
    by_pipeline :
        (b : Bool)
        → w.has_pipeline ≡ b
        → IsSound (
            note_late r.unit r
              (if b then close_pipeline false r (fail error w) else after_bus r.unit r w))
    by_pipeline true p = fail-IsSound r.unit error r w v.before v.bounded p
    by_pipeline false p = after_bus-IsSound r.unit r w v

same_count :
    (count added : ℕ)
    → count < 2 ^ 64
    → added < 2 ^ 64
    → (add64 count added == count) ≡ (added == 0)
same_count count added c a = ground arith

-- The worker in `active` behind the reading of the counter.
abbrev counted_drops : Round → Worker → Worker
counted_drops r w =
    if w.queue_drops == w.observed_queue_drops
    then w
    else close_pipeline true r
        (record w { observed_queue_drops = w.queue_drops; waiting_for_keyframe = true })

-- The worker behind `pop_for`; the counter tells whether units are missing.
record IsPopped (unit : Option EncodedAccessUnit) (late : ℕ) (w : Worker) : Type 0 where
  popped : is_decodable w.log ≡ true
  popped_bounded : w.queue_drops < 2 ^ 64
  popped_ready :
      w.waiting_for_keyframe ≡ false
      → w.queue_drops == w.observed_queue_drops ≡ true
      → w.has_pipeline && continues_in unit late w.log ≡ true

counted-IsActive :
    (unit : Option EncodedAccessUnit) (late : ℕ) (r : Round) (w : Worker)
    → IsPopped unit late w
    → IsActive unit late (counted_drops r w)
counted-IsActive unit late r w v =
    let gap : Worker = record w {
      observed_queue_drops = w.queue_drops;
      waiting_for_keyframe = true;
    } in
    ground (arith, close-IsActive unit late r gap)

module _ (r : Round) (w : Worker) (few : r.missed + r.missed_late < 2 ^ 64)
    (asks : w.waiting_for_keyframe ≡ false → w.has_pipeline ≡ true) (v : IsSound w) where
  none_missing :
      w.waiting_for_keyframe ≡ false
      → add64 w.queue_drops (r.missed + r.missed_late) == w.observed_queue_drops ≡ true
      → (r.missed + r.missed_late == 0) && is_ready w.log ≡ true
  none_missing e h =
      ground (
        arith,
        same_count w.queue_drops (r.missed + r.missed_late) v.counted few,
        v.ready e (asks e),
      )

  note-IsPopped :
      (unit : Option EncodedAccessUnit)
      → IsPopped unit r.missed_late (
          note_unit unit (record w {
            queue_drops = add64 w.queue_drops (r.missed + r.missed_late);
            log = if is_missing unit r then misses ∷ w.log else w.log;
          }))
  note-IsPopped none = ground (arith, v.decodable, none_missing)
  note-IsPopped (some unit) = ground (arith, v.decodable, none_missing)

  pub active-IsSound : IsSound (note_late r.unit r (active r (pop_unit r w)))
  unfolding active pop_unit
  active-IsSound =
      on_bus-IsSound (bus_error r.bus) r (counted_drops r (pop_unit r w))
        (counted-IsActive r.unit r.missed_late r (pop_unit r w) (note-IsPopped r.unit))
