-- ===== src/Config/Parse.antt =====
-- `parse`, `parse_config` and `validate_video_config` of src/config.cpp.
pub mod Sections
pub mod Accepted
use Prim.Native.String.{String}
use skai_edge_native.Common.{
  ℕ, suc, List, [], ◌∷◌, ◌++◌, Option, none, some, is_some, Bool, true, false, ◌&&◌, not, eqb,
  if◌then◌else◌, codes, map,
}
use skai_edge_native.Sei.Json.{decimal}
use skai_edge_native.Config.{
  Library, VideoConfig, DetectorConfig, WebConfig, RecordingConfig, StorageConfig, AlertRoi,
  AlertRuleConfig, GpsConfig, WebrtcConfig, WhipConfig, LogLevel, log_trace, log_debug, log_info,
  log_warning, log_error, Config, default_rule, default_roi, default_config,
}
use skai_edge_native.Config.Outcome.{Outcome, fine, throws, ◌>>=◌, ◌>>◌, text}
use skai_edge_native.Config.Document.{
  Node, null, scalar, sequence, mapping, Nodes, no_node, node, check_keys, lookup, read_scalar,
}
use skai_edge_native.Config.Validate.{validate, validate_video}
use skai_edge_native.Config.Parse.Sections.{
  optional, parse_video, parse_detector, parse_web, parse_recording, parse_storage, parse_alerts,
  parse_gps, parse_webrtc, parse_whip, parse_logging,
}

module _ {F : Type 0} (library : Library F) where
  -- `!root["video"] || !root["video"].IsMap() || !root["video"]["rtsp_url"]` throws.
  unfoldable pub video_section : Option Node → Outcome Node
  video_section (some (mapping es)) =
      if is_some (lookup (mapping es) (codes "rtsp_url"))
      then fine (mapping es)
      else throws (text "video.rtsp_url is required")
  video_section _ = throws (text "video.rtsp_url is required")

  -- `parse` up to `validate`.
  unfoldable pub parse_sections : Node → Outcome (Config F)
  unfolding default_config video_section
  parse_sections root = do
    let config = default_config library
    check_keys root [] (
        map codes (
          "video" ∷ "detector" ∷ "web" ∷ "recording" ∷ "storage" ∷ "alerts" ∷ "gps" ∷ "webrtc"
          ∷ "whip" ∷ "logging" ∷ []))
    section ← video_section (lookup root (codes "video"))
    video ← parse_video library config.video section
    detector ←
        optional (lookup root (codes "detector")) config.detector
          (parse_detector library config.detector)
    web ← optional (lookup root (codes "web")) config.web (parse_web library config.web)
    recording ←
        optional (lookup root (codes "recording")) config.recording
          (parse_recording library config.recording)
    storage ←
        optional (lookup root (codes "storage")) config.storage
          (parse_storage library config.storage)
    alerts ← optional (lookup root (codes "alerts")) config.alerts (parse_alerts library)
    gps ← optional (lookup root (codes "gps")) config.gps (parse_gps library config.gps)
    webrtc ←
        optional (lookup root (codes "webrtc")) config.webrtc (parse_webrtc library config.webrtc)
    whip ← optional (lookup root (codes "whip")) config.whip (parse_whip library config.whip)
    logging ← optional (lookup root (codes "logging")) config.logging parse_logging
    fine (record {
      video = video;
      detector = detector;
      web = web;
      recording = recording;
      storage = storage;
      alerts = alerts;
      gps = gps;
      webrtc = webrtc;
      whip = whip;
      logging = logging;
    })

  unfoldable pub parse : Node → Outcome (Config F)
  parse root = do config ← parse_sections root; validate library config; fine config

-- `ConfigResult`, with the default configuration for `{}`.
pub record ConfigResult (F : Type 0) : Type 0 where
  pub is_ok : Bool
  pub config : Config F
  pub error : List ℕ

unfoldable pub result_of : {F : Type 0} → Library F → Outcome (Config F) → ConfigResult F
result_of library (fine config) = record { is_ok = true; config = config; error = [] }
result_of library (throws message) = record {
  is_ok = false;
  config = default_config library;
  error = message;
}

-- `parse_config`, on what `YAML::Load` gives or throws.
unfoldable pub parse_config : {F : Type 0} → Library F → Outcome Node → ConfigResult F
unfolding result_of
parse_config library loaded = result_of library (loaded >>= parse library)

-- `validate_video_config`: whether it is valid, and the error.
video_result : Outcome (Unit {0}) → Bool × List ℕ
video_result (fine done) = (true, [])
video_result (throws message) = (false, message)

pub validate_video_config : {F : Type 0} → Library F → VideoConfig → Bool × List ℕ
unfolding video_result
validate_video_config library video = video_result (validate_video library video)
