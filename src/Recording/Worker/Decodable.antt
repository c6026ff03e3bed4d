-- ===== src/Recording/Worker/Decodable.antt =====
-- What the worker writes can be decoded: fragments and gaps are followed by a keyframe, but for one
-- race.
use skai_edge_native.Common.{
  ◌+◌, ◌<◌, ◌^◌, ◌≡◌, ltb, add64, if◌then◌else◌, refl, List, [], ◌∷◌, Option, none, some, Bool,
  true, ◌&&◌, ◌||◌, arith, Bool-cases, inl, inr,
}
use skai_edge_native.Media.{EncodedAccessUnit}
use skai_edge_native.Recording.{requested}
use skai_edge_native.Recording.Status
use skai_edge_native.Recording.Status.{Call, no_request, unrequested_lem}
use skai_edge_native.Recording.Worker.{
  misses, pop_unit, Round, Worker, close_pipeline, is_missing, note_unit, round, run,
}
use skai_edge_native.Recording.Worker.Sound.{is_decodable, IsSound, idle-IsSound, active-IsSound}

control-note_unit :
    (unit : Option EncodedAccessUnit) (w : Worker) → (note_unit unit w).control ≡ w.control
control-note_unit none w = refl
control-note_unit (some unit) w = refl

control-pop_unit : (r : Round) (w : Worker) → (pop_unit r w).control ≡ w.control
unfolding pop_unit
control-pop_unit r w = control-note_unit r.unit (record w {
  queue_drops = add64 w.queue_drops (r.missed + r.missed_late);
  log = if is_missing r.unit r then misses ∷ w.log else w.log;
})

kept-pop_unit :
    (r : Round) (w : Worker)
    → is_decodable w.log ≡ true
    → (is_decodable (pop_unit r w).log ≡ true) × ((pop_unit r w).queue_drops < 2 ^ 64)
unfolding pop_unit
kept-pop_unit r w d = by_unit r.unit
  where
    by_unit :
        (unit : Option EncodedAccessUnit)
        → let popped = note_unit unit (record w {
          queue_drops = add64 w.queue_drops (r.missed + r.missed_late);
          log = if is_missing unit r then misses ∷ w.log else w.log;
        }) in
          (is_decodable popped.log ≡ true) × (popped.queue_drops < 2 ^ 64)
    by_unit none = ground arith
    by_unit (some unit) = ground arith

-- No call of start or configure arrives while the worker neither has a fragment nor waits for a
-- keyframe, that is between a failure and its next round; and the queue drops fewer than 2 ^ 64
-- units in a round, which its counter tells apart.
abbrev pub is_calm : Round → Worker → Bool
is_calm r w =
    (w.waiting_for_keyframe || (w.has_pipeline || no_request r.calls))
    && ltb (r.missed + r.missed_late) (2 ^ 64)

abbrev pub all_calm : List Round → Worker → Bool
all_calm [] w = true
all_calm (r ∷ rs) w = is_calm r w && all_calm rs (round r w)

round-IsSound : (r : Round) (w : Worker) → IsSound w → is_calm r w ≡ true → IsSound (round r w)
unfolding round requested
round-IsSound r w v calm =
    let called : Worker = record w { control = Status.run r.calls w.control } in
    elim (Bool-cases (requested called.control)) [
      | inl asks ↦
          rw (control-pop_unit r called, asks)
            (active-IsSound r called (ground arith)
              (ground (arith, asks, v.asked, unrequested_lem r.calls w.control))
              (ground (
                arith,
                asks,
                v.decodable,
                v.counted,
                v.ready,
                v.asked,
                unrequested_lem r.calls w.control,
              )))
      | inr rests ↦
          let (decodable, counted) = kept-pop_unit r called v.decodable in
          rw (control-pop_unit r called, rests)
            (idle-IsSound r (pop_unit r called) decodable counted)
    ]

close-decodable :
    (r : Round) (w : Worker)
    → is_decodable w.log ≡ true
    → is_decodable (close_pipeline true r w).log ≡ true
unfolding close_pipeline
close-decodable r w d = ground arith

-- In every run of a sound worker in which no start or configure arrives between a failure and the
-- worker's next round, and the queue drops fewer than 2^64 units in a round, whatever the source, the
-- queue, the filesystem and GStreamer do: each unit written is a keyframe, or comes right behind
-- another one that was written to the same fragment, with no discontinuity and nothing dropped
-- between them, except behind a keyframe what the queue drops after it has handed it out and before
-- the worker reads the counter of drops.
pub run-is_decodable :
    (rs : List Round) (last : Round) (w : Worker)
    → IsSound w
    → all_calm rs w ≡ true
    → is_decodable (run rs last w).log ≡ true
unfolding run
run-is_decodable [] last w v calm = close-decodable last w v.decodable
run-is_decodable (r ∷ rs) last w v calm = ground (
  arith,
  run-is_decodable rs last (round r w) (round-IsSound r w v (ground arith)),
  close-decodable last w v.decodable,
)
