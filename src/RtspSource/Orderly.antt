-- ===== src/RtspSource/Orderly.antt =====
-- What the sinks and the queue of frames are given: marked first units, changes of the media status,
-- and frames of the current pipeline.
pub mod Rounds
pub mod Runs
pub mod Started
use skai_edge_native.Common.{
  ℕ, suc, ◌+◌, ◌%◌, ◌^◌, ◌<◌, ◌≤◌, ◌≡◌, refl, List, [], ◌∷◌, ◌++◌, drop, Option, none, some, Bool,
  true, false, not, ◌&&◌, ◌||◌, leb, ◌==◌, if◌then◌else◌, arith, Bool-cases, Option-cases, inl, inr,
  inc64, codes, ◌∙◌,
}
use skai_edge_native.Media.{EncodedAccessUnit}
use skai_edge_native.RtspSource.{
  RtspSource, Phase, waiting, capturing, finished, publish_media_status, set_error,
  publish_recovery, is_error, is_known, Frame,
}
use skai_edge_native.BoundedQueue.{BoundedQueue, push, trim, discard_all}
use skai_edge_native.RtspRecovery.{Recovery, check_stall, ms}
use skai_edge_native.RtspSource.Caps.{incompatibility}
use skai_edge_native.RtspSource.Capture.{
  Buffer, Sample, VideoSample, unit_of, capture_buffer, capture_compatible, capture_access_unit,
  capture_all, capture_sample, frame_of, observe, read_jitter_stats,
}
use skai_edge_native.RtspSource.Worker.{
  Opening, opens, fails, Poll, reopen, close_pipeline, finish, fail_attempt, end_attempt, opened,
  attempt, capture_video, frame_timeout, no_fresh_frames, check_round, capture_round, poll_pipeline,
  connect_pad, Event, attempts, polls, connects, requests_stop, attempt_in, poll_in, step, run,
}

abbrev pub has_generation : ℕ → List EncodedAccessUnit → Bool
has_generation g [] = false
has_generation g (u ∷ us) = u.source_generation == g || has_generation g us

-- Newest first: a unit without an older one of its pipeline is a discontinuity.
abbrev pub well_marked : List EncodedAccessUnit → Bool
well_marked [] = true
well_marked (u ∷ us) = (u.discontinuity || has_generation u.source_generation us) && well_marked us

abbrev pub all_upto : ℕ → List EncodedAccessUnit → Bool
all_upto g [] = true
all_upto g (u ∷ us) = leb u.source_generation g && all_upto g us

abbrev pub head_of : List (Bool × List ℕ) → Option (Bool × List ℕ)
head_of [] = none
head_of (x ∷ xs) = some x

-- Newest first: every call of the status sink tells something new.
abbrev pub changes : List (Bool × List ℕ) → Bool
changes [] = true
changes ((available, reason) ∷ told) =
    not (is_known available reason (head_of told)) && changes told

abbrev pub all_current : ℕ → List Frame → Bool
all_current g [] = true
all_current g (f ∷ fs) = f.source_generation == g && all_current g fs

abbrev pub no_frames : List Frame → Bool
no_frames [] = true
no_frames (f ∷ fs) = false

abbrev pub is_waiting : Phase → Bool
is_waiting (waiting first) = true
is_waiting _ = false

-- The first unit of a pipeline is marked and the flag for it is right, no unit is of a later
-- pipeline, whose number is at most the limit; the status sink knows the last status and is only told
-- changes; the frames are of the current pipeline, and there are none between attempts.
pub record IsOrderly (limit : ℕ) (s : RtspSource) : Type 0 where
  pub bounded : s.pipeline_generation ≤ limit
  pub marked : well_marked s.sent ≡ true
  pub flagged : has_generation s.pipeline_generation s.sent ≡ not s.first_access_unit
  pub below : all_upto s.pipeline_generation s.sent ≡ true
  pub knows : s.media_status ≡ head_of s.told
  pub told_changes : changes s.told ≡ true
  pub current : all_current s.pipeline_generation s.frames.items ≡ true
  pub emptied : is_waiting s.phase ≡ true → no_frames s.frames.items ≡ true

pub all_current-append :
    (g : ℕ) (fs : List Frame) (f : Frame)
    → all_current g fs ≡ true
    → f.source_generation ≡ g
    → all_current g (fs ++ f ∷ []) ≡ true
all_current-append g [] f h e = ground arith
all_current-append g (x ∷ fs) f h e = ground (arith, all_current-append g fs f)

pub all_current-drop :
    (g : ℕ) (fs : List Frame) → all_current g fs ≡ true → all_current g (drop 1 fs) ≡ true
all_current-drop g [] h = refl
all_current-drop g (x ∷ fs) h = ground arith

pub all_current-push :
    (g : ℕ) (f : Frame) (q : BoundedQueue Frame)
    → all_current g q.items ≡ true
    → f.source_generation ≡ g
    → all_current g (push f q).1.items ≡ true
unfolding push trim
all_current-push g f q h e =
    let longer = all_current-append g q.items f h e in
    ground (arith, longer, all_current-drop g (q.items ++ f ∷ []) longer)

pub all_current-none : (g : ℕ) (fs : List Frame) → no_frames fs ≡ true → all_current g fs ≡ true
all_current-none g [] e = refl
all_current-none g (f ∷ fs) e = ground arith

pub no_later :
    (g : ℕ) (us : List EncodedAccessUnit) → all_upto g us ≡ true → has_generation (suc g) us ≡ false
no_later g [] h = refl
no_later g (u ∷ us) h = ground (arith, no_later g us)

pub upto_later :
    (g : ℕ) (us : List EncodedAccessUnit) → all_upto g us ≡ true → all_upto (suc g) us ≡ true
upto_later g [] h = refl
upto_later g (u ∷ us) h = ground (arith, upto_later g us)
