-- ===== src/RtspSource.antt =====
-- src/video/rtsp_source.cpp: the worker that captures an RTSP stream. What GStreamer and the clock
-- answer is in the events; an event of the worker is one round of a loop of `capture_loop`. Another
-- thread only requests the stop, and the callback of a pad is an event of its own.
pub mod Caps
pub mod Capture
pub mod Start
pub mod Worker
pub mod Orderly
mod Tests
use skai_edge_native.Common.{
  ℕ, List, [], ◌∷◌, Option, none, some, Bool, true, false, not, ◌&&◌, ◌||◌, eqb, if◌then◌else◌,
  codes, inc64, add64, ℤ,
}
use skai_edge_native.BoundedQueue.{BoundedQueue}
use skai_edge_native.Media.{EncodedAccessUnit}
use skai_edge_native.RtspRecovery.{Recovery, SourceHealth, connected, degraded, error}

-- The fields of `Frame` but for the pixels, which are those of the sample.
pub record Frame : Type 0 where
  pub sequence : ℕ
  pub timestamp : ℕ
  pub pts_ns : ℕ
  pub source_generation : ℕ
  pub width : ℕ
  pub height : ℕ

-- Where the worker is: before an attempt, the first one or a later one; in the loop over a pipeline,
-- with the start of the attempt and whether a frame was received; or at its end.
pub data Phase : Type 0 where
  waiting : Bool → Phase
  capturing : ℕ → Bool → Phase
  finished : Phase

-- `RtspSource` with its diagnostics and its three configured durations that the worker reads. `sent`
-- are the units given to the sinks and `told` the calls of the media status sink, newest first;
-- `video_shown` says that the shared status has a frame rate.
pub record RtspSource : Type 0 where
  pub running : Bool
  pub phase : Phase
  pub first_frame_timeout : ℕ
  pub recovery : Recovery
  pub health : SourceHealth
  pub last_error : List ℕ
  pub codec : List ℕ
  pub decoder : List ℕ
  pub reconnect_count : ℕ
  pub frames_received : ℕ
  pub packets_lost : ℕ
  pub packets_late : ℕ
  pub avg_jitter_ns : ℕ
  pub lost_high_water : ℕ
  pub late_high_water : ℕ
  pub last_frame_time : Option ℕ
  pub video_shown : Bool
  pub media_status : Option (Bool × List ℕ)
  pub told : List (Bool × List ℕ)
  pub access_unit_sequence : ℕ
  pub first_access_unit : Bool
  pub pipeline_generation : ℕ
  pub sent : List EncodedAccessUnit
  pub frames : BoundedQueue Frame
  pub encoded : Option (BoundedQueue EncodedAccessUnit)

abbrev pub same_bool : Bool → Bool → Bool
same_bool true b = b
same_bool false b = not b

-- Whether the sink was told this last.
unfoldable pub is_known : Bool → List ℕ → Option (Bool × List ℕ) → Bool
is_known available reason none = false
is_known available reason (some (a, r)) = same_bool a available && eqb r reason

pub publish_media_status : Bool → List ℕ → RtspSource → RtspSource
publish_media_status available reason s =
    if is_known available reason s.media_status
    then s
    else record s { media_status = some (available, reason); told = (available, reason) ∷ s.told }

abbrev pub is_connected : SourceHealth → Bool
is_connected connected = true
is_connected _ = false

abbrev pub is_degraded : SourceHealth → Bool
is_degraded degraded = true
is_degraded _ = false

abbrev pub is_error : SourceHealth → Bool
is_error error = true
is_error _ = false

pub set_error : List ℕ → RtspSource → RtspSource
set_error message s = record s { health = error; last_error = message; video_shown = false }

pub publish_recovery : RtspSource → RtspSource
publish_recovery s = record s {
  health = s.recovery.health;
  reconnect_count = s.recovery.reconnect_count;
  last_error = if is_connected s.recovery.health then [] else s.last_error;
  video_shown = s.video_shown && (is_connected s.recovery.health || is_degraded s.recovery.health);
}
