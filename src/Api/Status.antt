-- ===== src/Api/Status.antt =====
-- `RuntimeStatus` of include/skai/status.hpp, the metrics that the modules publish for the HTTP
-- interface. The members are atomic; a call is one step. `F` is the type of floating-point numbers.
use skai_edge_native.Common.{
  ℕ, ◌-◌, ◌/◌, List, Option, none, some, Bool, true, false, not, ◌&&◌, ◌||◌, if◌then◌else◌, codes,
  ℤ,
}

-- `RuntimeStatusSnapshot::Encoder`.
pub record Encoder : Type 0 where
  pub frames_submitted : ℕ
  pub frames_rejected : ℕ
  pub frames_dropped : ℕ
  pub appsrc_pressure_dropped : ℕ
  pub access_units_encoded : ℕ
  pub bytes_encoded : ℕ
  pub access_units_dropped : ℕ
  pub last_access_unit_age_ms : ℤ
  pub last_error : List ℕ

-- `RuntimeStatusSnapshot`.
pub record RuntimeStatusSnapshot (F : Type 0) : Type 0 where
  pub status : List ℕ
  pub uptime_s : ℕ
  pub video_fps : Option F
  pub detector_fps : Option F
  pub last_inference_ms : Option F
  pub last_inference_age_ms : Option ℕ
  pub encoder : Option Encoder

-- `RuntimeStatus`; the encoder's members are one record.
pub record RuntimeStatus (F : Type 0) : Type 0 where
  pub running : Bool
  pub detector_expected : Bool
  pub video_available : Bool
  pub detector_available : Bool
  pub detector_fps_available : Bool
  pub video_fps : F
  pub detector_fps : F
  pub inference_ms : F
  pub inference_at_ns : ℕ
  pub encoder_available : Bool
  pub encoder_values : Encoder

abbrev pub when {ℓ} : {A : Type ℓ} → Bool → A → Option A
when true a = some a
when false a = none

-- The text of the state.
unfoldable pub status_text : Bool → Bool → Bool → Bool → List ℕ
status_text running video expected detector =
    if not running
    then codes "starting"
    else if video && (not expected || detector)
    then codes "running"
    else codes "degraded"

module _ {F : Type 0} where
  pub set_running : Bool → RuntimeStatus F → RuntimeStatus F
  set_running running s = record s { running = running }

  unfoldable pub set_detector_expected : Bool → RuntimeStatus F → RuntimeStatus F
  set_detector_expected expected s = record s {
    detector_expected = expected;
    detector_available = expected && s.detector_available;
  }

  pub update_video : F → RuntimeStatus F → RuntimeStatus F
  update_video fps s = record s { video_fps = fps; video_available = true }

  -- `update_detector`; the first argument is the clock.
  unfoldable pub update_detector : ℕ → F → F → RuntimeStatus F → RuntimeStatus F
  update_detector now fps inference_ms s = record s {
    detector_fps = fps;
    inference_ms = inference_ms;
    inference_at_ns = now;
    detector_fps_available = true;
    detector_available = true;
  }

  unfoldable pub update_inference : ℕ → F → RuntimeStatus F → RuntimeStatus F
  update_inference now inference_ms s = record s {
    inference_ms = inference_ms;
    inference_at_ns = now;
    detector_available = true;
  }

  pub clear_video : RuntimeStatus F → RuntimeStatus F
  clear_video s = record s { video_available = false }

  unfoldable pub clear_detector : RuntimeStatus F → RuntimeStatus F
  clear_detector s = record s { detector_available = false; detector_fps_available = false }

  pub update_encoder : Encoder → RuntimeStatus F → RuntimeStatus F
  update_encoder encoder s = record s { encoder_values = encoder; encoder_available = true }

  pub clear_encoder : RuntimeStatus F → RuntimeStatus F
  clear_encoder s = record s { encoder_available = false }

  -- `snapshot`, at a time of the clock, which does not run backwards.
  unfoldable pub snapshot : ℕ → RuntimeStatus F → RuntimeStatusSnapshot F
  unfolding status_text
  snapshot now s = record {
    status = status_text s.running s.video_available s.detector_expected s.detector_available;
    uptime_s = 0;
    video_fps = when s.video_available s.video_fps;
    detector_fps = when (s.detector_available && s.detector_fps_available) s.detector_fps;
    last_inference_ms = when s.detector_available s.inference_ms;
    last_inference_age_ms = when s.detector_available ((now - s.inference_at_ns) / 1_000_000);
    encoder = when s.encoder_available s.encoder_values;
  }
