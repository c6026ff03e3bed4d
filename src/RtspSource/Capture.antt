-- ===== src/RtspSource/Capture.antt =====
-- What the worker of src/video/rtsp_source.cpp does with samples and statistics.
use skai_edge_native.Common.{
  ℕ, ◌-◌, List, [], ◌∷◌, Option, none, some, is_some, Bool, true, false, not, ◌&&◌, ◌||◌, ltb, leb,
  if◌then◌else◌, inc64, add64, ◌*◌,
}
use skai_edge_native.BoundedQueue.{BoundedQueue, push}
use skai_edge_native.Media.{EncodedAccessUnit}
use skai_edge_native.RtspRecovery.{frame, packet_loss}
use skai_edge_native.RtspSource.{
  Frame, RtspSource, publish_media_status, publish_recovery, is_degraded,
}
use skai_edge_native.RtspSource.Caps.{H264Caps, incompatibility}

-- A mapped buffer; `throws` says that the sink throws at the unit.
pub record Buffer : Type 0 where
  pub pts : Option ℕ
  pub dts : Option ℕ
  pub delta_unit : Bool
  pub discont : Bool
  pub bytes : List ℕ
  pub throws : Bool

pub record Sample : Type 0 where
  pub caps : Option H264Caps
  pub buffer : Option Buffer

abbrev pub or_zero : Option ℕ → ℕ
or_zero none = 0
or_zero (some t) = t

-- The unit of a buffer.
unfoldable pub unit_of : Buffer → RtspSource → EncodedAccessUnit
unit_of b s = record {
  sequence = inc64 s.access_unit_sequence;
  pts_ns = or_zero b.pts;
  dts_ns = or_zero b.dts;
  has_pts = is_some b.pts;
  has_dts = is_some b.dts;
  keyframe = not b.delta_unit;
  discontinuity = s.first_access_unit || b.discont;
  source_generation = s.pipeline_generation;
  bytes = b.bytes;
}

abbrev pub is_empty : List ℕ → Bool
is_empty [] = true
is_empty (c ∷ cs) = false

abbrev pub push_unit :
    EncodedAccessUnit
    → Option (BoundedQueue EncodedAccessUnit)
    → Option (BoundedQueue EncodedAccessUnit)
push_unit unit none = none
push_unit unit (some q) = some (push unit q).1

-- The sequence number is taken before the test on the bytes.
unfoldable pub capture_buffer : Option Buffer → RtspSource → RtspSource
capture_buffer none s = s
capture_buffer (some b) s =
    let counted = record s { access_unit_sequence = inc64 s.access_unit_sequence } in
    if is_empty b.bytes || b.throws then counted else record counted {
      sent = unit_of b s ∷ s.sent;
      encoded = push_unit (unit_of b s) s.encoded;
      first_access_unit = false;
    }

-- The rest of `capture_access_unit`, on the incompatibility.
unfoldable pub capture_compatible : Option (List ℕ) → Option Buffer → RtspSource → RtspSource
unfolding capture_buffer
capture_compatible (some reason) buffer s = publish_media_status false reason s
capture_compatible none buffer s = capture_buffer buffer (publish_media_status true [] s)

unfoldable pub capture_access_unit : Sample → RtspSource → RtspSource
unfolding capture_compatible
capture_access_unit sample s = capture_compatible (incompatibility sample.caps) sample.buffer s

-- The loop that pulls samples.
unfoldable pub capture_all : List Sample → RtspSource → RtspSource
capture_all [] s = s
capture_all (sample ∷ samples) s = capture_all samples (capture_access_unit sample s)

-- A decoded sample, with the time when it is captured; `shows` is that the frame rate is positive.
pub record VideoSample : Type 0 where
  pub mapped : Bool
  pub now : ℕ
  pub pts : Option ℕ
  pub width : ℕ
  pub height : ℕ
  pub stride : ℕ
  pub shows : Bool

unfoldable pub is_usable : VideoSample → Bool
is_usable v = v.mapped && (ltb 0 v.width && (ltb 0 v.height && leb (v.width * 3) v.stride))

unfoldable pub frame_of : VideoSample → RtspSource → Frame
frame_of v s = record {
  sequence = inc64 s.frames_received;
  timestamp = v.now;
  pts_ns = or_zero v.pts;
  source_generation = s.pipeline_generation;
  width = v.width;
  height = v.height;
}

-- `capture_sample`; the flag is `enqueue_frames_`.
unfoldable pub capture_sample : Bool → VideoSample → RtspSource → Bool × RtspSource
capture_sample enqueue_frames v s = if not (is_usable v) then (false, s) else (
  true,
  publish_recovery (record s {
    recovery = frame v.now s.recovery;
    frames_received = inc64 s.frames_received;
    last_frame_time = some v.now;
    video_shown = s.video_shown || v.shows;
    frames = if enqueue_frames then (push (frame_of v s) s.frames).1 else s.frames;
  }),
)

-- `MonotonicCounter::observe`: the increase, and the high water mark.
unfoldable pub observe : ℕ → ℕ → ℕ × ℕ
observe value high_water =
    if leb value high_water then (0, high_water) else (value - high_water, value)

-- `read_jitter_stats` at a time, with the counts of lost and late packets and the jitter.
unfoldable pub read_jitter_stats : ℕ → Option (ℕ × ℕ × ℕ) → RtspSource → RtspSource
read_jitter_stats now none s = s
read_jitter_stats now (some (lost, late, jitter)) s =
    let (added_lost, high_lost) = observe lost s.lost_high_water in
    let (added_late, high_late) = observe late s.late_high_water in
    let updated = record s {
      lost_high_water = high_lost;
      late_high_water = high_late;
      recovery = if ltb 0 added_lost then packet_loss now s.recovery else s.recovery;
      packets_lost = add64 s.packets_lost added_lost;
      packets_late = add64 s.packets_late added_late;
      avg_jitter_ns = jitter;
    } in
    if is_degraded updated.recovery.health then publish_recovery updated else updated
