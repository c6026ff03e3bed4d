-- ===== src/Recording/Worker.antt =====
-- `RecordingModule` of src/video/recording.cpp: the worker that writes access units into MP4
-- fragments. What the queue, the filesystem and GStreamer answer in a round of the loop is an
-- argument, and so are what the queue drops before `pop_for` and between `pop_for` and `stats`, and
-- the calls that other threads make on the controller; these come between the rounds. The log, which
-- the code does not have, is what came out of the queue and the actions of the worker, the latest
-- first.
pub mod Sound
pub mod Decodable
mod Tests
use skai_edge_native.Common.{
  ℕ, ◌+◌, List, [], ◌∷◌, Option, none, some, Bool, true, false, not, ◌&&◌, ◌||◌, ◌==◌, leb,
  if◌then◌else◌, length, codes, inc64, add64,
}
use skai_edge_native.Media.{EncodedAccessUnit}
use skai_edge_native.Recording.{
  RecordingController, RecordingStatus, requested, set_stopped, set_error, commit_written,
  add_dropped,
}
use skai_edge_native.Recording.Status
use skai_edge_native.Recording.Status.{Call}

-- What the worker does to the outside, and what happens to the stream: units are missing in front of
-- the next one, a unit leaves the queue, or units are missing behind it that the queue dropped before
-- the round was over.
pub data Action : Type 0 where
  opens misses arrives misses_late : Action
  writes : EncodedAccessUnit → Action
  closes : Bool → Action
  publishes : RecordingStatus → Action

-- `gst::BusEvent`, as far as the worker tells the types apart.
pub data BusEvent : Type 0 where
  quiet ended : BusEvent
  broken : List ℕ → BusEvent

-- The answers of one round: the calls of other threads before it, `pop_for`, the units that the queue
-- dropped since the latest `pop_for` or `stats` before it and those that it dropped behind it before
-- `stats`, or before the end of an idle round, the shutdown of the queue, the bus, `open_pipeline` (`none` is success), the level of
-- `appsrc`, the push of the buffer (`none` is success), and whether the end of the stream arrives
-- at a close.
pub record Round : Type 0 where
  pub calls : List Call
  pub unit : Option EncodedAccessUnit
  pub missed : ℕ
  pub missed_late : ℕ
  pub is_shutdown : Bool
  pub bus : BusEvent
  pub opening : Option (List ℕ)
  pub queued : ℕ
  pub pushing : Option (List ℕ)
  pub finalizes : Bool

-- `RecordingModule`, with the counter of drops of its queue; `has_pipeline` is `pipeline_ != nullptr`.
pub record Worker : Type 0 where
  pub control : RecordingController
  pub has_pipeline : Bool
  pub is_running : Bool
  pub last_error : List ℕ
  pub waiting_for_keyframe : Bool
  pub observed_queue_drops : ℕ
  pub queue_drops : ℕ
  pub pending_access_units : ℕ
  pub pending_bytes : ℕ
  pub log : List Action

abbrev pub note : Action → Worker → Worker
note action w = record w { log = action ∷ w.log }

-- `publish_state`.
abbrev publish_state : Worker → Worker
publish_state w = note (publishes w.control.c_status) w

-- `fail`.
pub fail : List ℕ → Worker → Worker
unfolding set_error
fail error w = publish_state (record w { control = set_error error w.control; last_error = error })

-- `close_pipeline`, whose end of the stream arrives or not.
pub close_pipeline : Bool → Round → Worker → Worker
unfolding commit_written
close_pipeline finalize r w =
    if w.has_pipeline
    then record w {
      has_pipeline = false;
      control =
          if finalize && r.finalizes
          then commit_written w.pending_access_units w.pending_bytes w.control
          else w.control;
      pending_access_units = 0;
      pending_bytes = 0;
      log = closes (finalize && r.finalizes) ∷ w.log;
    }
    else w

abbrev pub drop_unit : Worker → Worker
drop_unit w = record w { control = add_dropped w.control }

abbrev pub drop_any : Option EncodedAccessUnit → Worker → Worker
drop_any none w = w
drop_any (some unit) w = drop_unit w

-- The branch of `run` without a request.
pub idle : Round → Worker → Worker
unfolding set_stopped
idle r w =
    let closed = close_pipeline true r w in
    drop_any r.unit (
      publish_state
        (record closed { waiting_for_keyframe = true; control = set_stopped closed.control }))

-- `write_access_unit` and the failure branch after it.
written : Option (List ℕ) → EncodedAccessUnit → Round → Worker → Worker
unfolding fail close_pipeline
written (some error) unit r w = close_pipeline false r (fail error w)
written none unit r w = note (writes unit) (record w {
  pending_access_units = inc64 w.pending_access_units;
  pending_bytes = add64 w.pending_bytes (length unit.bytes);
})

pub write_access_unit : EncodedAccessUnit → Round → Worker → Worker
unfolding written add_dropped
write_access_unit unit r w =
    if leb 2 r.queued
    then record (drop_unit w) { waiting_for_keyframe = true }
    else written r.pushing unit r w

-- `if (!pipeline_ && !open_pipeline(...))`, and the write.
open_and_write : Option (List ℕ) → EncodedAccessUnit → Round → Worker → Worker
unfolding fail
open_and_write (some error) unit r w =
    if w.has_pipeline then write_access_unit unit r w else fail error w
open_and_write none unit r w =
    if w.has_pipeline
    then write_access_unit unit r w
    else write_access_unit unit r (note opens (record w { has_pipeline = true }))

-- The rest of a round with a unit.
pub take_unit : EncodedAccessUnit → Round → Worker → Worker
take_unit unit r w =
    let w1 =
      if unit.discontinuity
      then close_pipeline true r (record w { waiting_for_keyframe = true })
      else w in
    if w1.waiting_for_keyframe && not unit.keyframe
    then drop_unit w1
    else open_and_write r.opening unit r (record w1 { waiting_for_keyframe = false })

after_bus : Option EncodedAccessUnit → Round → Worker → Worker
after_bus none r w = if r.is_shutdown then record w { is_running = false } else w
after_bus (some unit) r w = take_unit unit r w

abbrev bus_error : BusEvent → Option (List ℕ)
bus_error quiet = none
bus_error ended = some (codes "recording pipeline ended unexpectedly")
bus_error (broken detail) = some detail

on_bus : Option (List ℕ) → Round → Worker → Worker
on_bus none r w = after_bus r.unit r w
on_bus (some error) r w =
    if w.has_pipeline then close_pipeline false r (fail error w) else after_bus r.unit r w

-- The branch of `run` with a request, behind `pop_for`.
pub active : Round → Worker → Worker
active r w =
    let w1 =
      if w.queue_drops == w.observed_queue_drops
      then w
      else close_pipeline true r
          (record w { observed_queue_drops = w.queue_drops; waiting_for_keyframe = true }) in
    on_bus (bus_error r.bus) r w1

abbrev pub is_missing : Option EncodedAccessUnit → Round → Bool
is_missing none r = not (r.missed + r.missed_late == 0)
is_missing (some unit) r = unit.discontinuity || not (r.missed == 0)

abbrev pub note_unit : Option EncodedAccessUnit → Worker → Worker
note_unit none w = w
note_unit (some unit) w = note arrives w

-- What leaves the queue in a round, and what its counter shows then.
pub pop_unit : Round → Worker → Worker
pop_unit r w = note_unit r.unit (record w {
  queue_drops = add64 w.queue_drops (r.missed + r.missed_late);
  log = if is_missing r.unit r then misses ∷ w.log else w.log;
})

abbrev pub note_late : Option EncodedAccessUnit → Round → Worker → Worker
note_late none r w = w
note_late (some unit) r w = if r.missed_late == 0 then w else note misses_late w

-- One round of `run`, after the calls of the other threads.
pub round : Round → Worker → Worker
unfolding requested pop_unit
round r w =
    let w1 = pop_unit r (record w { control = Status.run r.calls w.control }) in
    note_late r.unit r (if requested w1.control then active r w1 else idle r w1)

-- `run`: rounds as long as the worker is running, then the last close.
pub run : List Round → Round → Worker → Worker
run [] last w = close_pipeline true last w
run (r ∷ rs) last w =
    let rest = run rs last (round r w) in if w.is_running then rest else close_pipeline true last w
