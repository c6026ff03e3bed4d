-- ===== src/Api.antt =====
-- `ApiState` of include/skai/api_state.hpp: what the HTTP interface and the detector share. Every
-- method holds the mutex, so a method is one step. The status and the GPS state that it points to are
-- in it: the detector and the GPS module write to the same objects. `F` is the type of
-- floating-point numbers.
pub mod Status
pub mod Gps
pub mod Permit
mod Tests
use skai_edge_native.Common.{
  ℕ, List, [], Option, none, some, Bool, true, false, not, ◌&&◌, ◌||◌, ◌==◌, if◌then◌else◌, ℤ, pos,
  inc64,
}
use skai_edge_native.Config.{Config}
use skai_edge_native.Api.Gps.{GpsFix}
use skai_edge_native.Api.Status.{RuntimeStatus, clear_detector, set_detector_expected}

-- `PublicConfigDto`.
pub record PublicConfigDto (F : Type 0) : Type 0 where
  pub video_transport : List ℕ
  pub video_latency_ms : ℤ
  pub video_stall_timeout_ms : ℤ
  pub detector_confidence : F
  pub detector_nms : F
  pub detector_annotate : Bool
  pub web_bind : List ℕ
  pub web_port : ℤ
  pub recording_configured : Bool
  pub recording_segment_seconds : ℤ
  pub gps_enabled : Bool
  pub gps_source : List ℕ
  pub webrtc_enabled : Bool
  pub webrtc_max_peers : ℤ
  pub webrtc_connection_timeout_ms : ℤ
  pub webrtc_media_queue_capacity : ℤ

-- `DetectionDto`.
pub record DetectionDto (F : Type 0) : Type 0 where
  pub class_id : ℤ
  pub class_name : List ℕ
  pub confidence : F
  pub x1 : F
  pub y1 : F
  pub x2 : F
  pub y2 : F

-- `LatestDetectionsDto`.
pub record LatestDetectionsDto (F : Type 0) : Type 0 where
  pub available : Bool
  pub frame_sequence : ℕ
  pub pts_ns : ℕ
  pub frame_width : ℤ
  pub frame_height : ℤ
  pub detections : List (DetectionDto F)

-- `DetectorPermit`.
pub record DetectorPermit : Type 0 where
  pub enabled : Bool
  pub generation : ℕ

-- `ApiState`; `config` is there once `configured_` is set.
pub record ApiState (F : Type 0) : Type 0 where
  pub config : Option (PublicConfigDto F)
  pub detector_enabled : Bool
  pub detector_supported : Bool
  pub detector_generation : ℕ
  pub status : Option (RuntimeStatus F)
  pub gps_state : Option (GpsFix F)
  pub latest : LatestDetectionsDto F

module _ {F : Type 0} where
  abbrev pub no_detections : LatestDetectionsDto F
  no_detections = record {
    available = false;
    frame_sequence = 0;
    pts_ns = 0;
    frame_width = pos 0;
    frame_height = pos 0;
    detections = [];
  }

  -- The constructor.
  pub make_state : Option (RuntimeStatus F) → ApiState F
  make_state status = record {
    config = none;
    detector_enabled = true;
    detector_supported = true;
    detector_generation = 0;
    status = status;
    gps_state = none;
    latest = no_detections;
  }

  synchronized : Bool → Option (RuntimeStatus F) → Option (RuntimeStatus F)
  synchronized enabled none = none
  synchronized enabled (some s) = some (set_detector_expected enabled (clear_detector s))

  pub synchronize_runtime_status : ApiState F → ApiState F
  unfolding synchronized
  synchronize_runtime_status api = record api {
    status = synchronized api.detector_enabled api.status;
  }

  pub bind_runtime_status : Option (RuntimeStatus F) → ApiState F → ApiState F
  bind_runtime_status status api = synchronize_runtime_status (record api { status = status })

  -- The copy at the start of `configure`.
  pub public_dto : Config F → PublicConfigDto F
  public_dto config = record {
    video_transport = config.video.transport;
    video_latency_ms = config.video.latency_ms;
    video_stall_timeout_ms = config.video.stall_timeout_ms;
    detector_confidence = config.detector.confidence;
    detector_nms = config.detector.nms;
    detector_annotate = config.detector.annotate;
    web_bind = config.web.bind;
    web_port = config.web.port;
    recording_configured = config.recording.enabled;
    recording_segment_seconds = config.recording.segment_seconds;
    gps_enabled = config.gps.enabled;
    gps_source = config.gps.source;
    webrtc_enabled = config.webrtc.enabled;
    webrtc_max_peers = config.webrtc.max_peers;
    webrtc_connection_timeout_ms = config.webrtc.connection_timeout_ms;
    webrtc_media_queue_capacity = config.webrtc.media_queue_capacity;
  }

  pub configure : Config F → ApiState F → ApiState F
  configure config api = synchronize_runtime_status (record api {
    config = some (public_dto config);
    detector_enabled = api.detector_supported;
    detector_generation = inc64 api.detector_generation;
    latest = no_detections;
  })

  pub detector_permit : ApiState F → DetectorPermit
  detector_permit api = record {
    enabled = api.detector_enabled;
    generation = api.detector_generation;
  }

  -- The first test of `commit_detections` and `invalidate_detections`, negated.
  pub is_current : DetectorPermit → ApiState F → Bool
  is_current permit api = api.detector_enabled && permit.generation == api.detector_generation

  -- What the `Commit` argument of the two does to the status that the detector shares.
  pub change_status :
      (RuntimeStatus F → RuntimeStatus F) → Option (RuntimeStatus F) → Option (RuntimeStatus F)
  change_status f none = none
  change_status f (some s) = some (f s)

  -- `commit_detections`, with the detections as they are kept; the result is also whether the
  -- `Commit` is called.
  pub commit_detections :
      DetectorPermit
      → LatestDetectionsDto F
      → (RuntimeStatus F → RuntimeStatus F)
      → ApiState F
      → Bool × ApiState F
  unfolding change_status
  commit_detections permit found f api =
      if is_current permit api
      then (
        true,
        record api {
          latest = record found { available = true };
          status = change_status f api.status;
        },
      )
      else (false, api)

  -- `invalidate_detections`: whether the permit is current, what the `Commit` is told, and the
  -- state after it.
  pub invalidate_detections :
      DetectorPermit → (RuntimeStatus F → RuntimeStatus F) → ApiState F → Bool × Bool × ApiState F
  unfolding change_status
  invalidate_detections permit f api =
      if is_current permit api
      then (
        true,
        api.latest.available,
        record api { latest = no_detections; status = change_status f api.status },
      )
      else (false, false, api)

  pub set_detector_enabled : Bool → ApiState F → ApiState F
  set_detector_enabled enabled api = synchronize_runtime_status (record api {
    detector_enabled = enabled && api.detector_supported;
    detector_generation = inc64 api.detector_generation;
    latest = no_detections;
  })

  pub set_detector_supported : Bool → ApiState F → ApiState F
  set_detector_supported supported api = synchronize_runtime_status (
      if supported then record api { detector_supported = true } else record api {
        detector_supported = false;
        detector_enabled = false;
        detector_generation = inc64 api.detector_generation;
        latest = no_detections;
      })
