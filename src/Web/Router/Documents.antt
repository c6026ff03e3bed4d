-- ===== src/Web/Router/Documents.antt =====
-- The bodies that src/web/router.cpp writes. `F` is the type of floating-point numbers; `number` is
-- what an output stream of a precision writes for one.
pub mod Peers
pub mod Metrics
pub mod Streamed
pub mod WellFormed
use Prim.Native.String.{String}
use skai_edge_native.Common.{
  ℕ, List, [], ◌∷◌, Option, none, some, Bool, true, false, codes, length, map, ℤ,
}
use skai_edge_native.Health.{
  HealthSnapshot, HealthComponent, all_health_components, health_state_name, health_component_name,
}
use skai_edge_native.Alerts.{AlertEvent, AlertDetection}
use skai_edge_native.Api.{DetectionDto, LatestDetectionsDto, PublicConfigDto}
use skai_edge_native.Api.Gps.{GpsFix}
use skai_edge_native.Web.Json.{
  Node, value, members, literal, quoted, text, array, object, no_members, member, line, json_bool,
  natural, signed, optional, items_of,
}

-- The members of an object, in order.
abbrev pub members_of : List (String × Node value) → Node members
members_of [] = no_members
members_of ((name, v) ∷ rest) = member (codes name) v (members_of rest)

-- The components of `health_json`.
pub health_components : HealthSnapshot → List HealthComponent → Node members
health_components health [] = no_members
health_components health (c ∷ cs) =
    member (health_component_name c)
      (object (
        members_of (
          ("state", text (health_state_name (health.components c).state))
          ∷ ("detail", text (health.components c).detail)
          ∷ [])))
      (health_components health cs)

pub health_document : HealthSnapshot → Node value
unfolding health_components
health_document health = object (
    members_of (
      ("state", text (health_state_name health.overall))
      ∷ ("components", object (health_components health all_health_components))
      ∷ []))

pub health_json : HealthSnapshot → List ℕ
unfolding health_document
health_json health = line (health_document health)

module _ {F : Type 0} (number : ℕ → F → List ℕ) where
  -- `output << x` after `std::setprecision(6)`, and after that of `max_digits10` for `double`.
  abbrev pub short_number : F → Node value
  short_number x = literal (number 6 x)

  abbrev pub full_number : F → Node value
  full_number x = literal (number 17 x)

  pub config_document : PublicConfigDto F → Bool → Node value
  config_document config detector_enabled = object (
      members_of (
        (
          "video",
          object (
              members_of (
                ("transport", text config.video_transport)
                ∷ ("latency_ms", signed config.video_latency_ms)
                ∷ ("stall_timeout_ms", signed config.video_stall_timeout_ms)
                ∷ [])),
        )
        ∷ (
          "detector",
          object (
              members_of (
                ("enabled", json_bool detector_enabled)
                ∷ ("confidence", short_number config.detector_confidence)
                ∷ ("nms", short_number config.detector_nms)
                ∷ ("annotate", json_bool config.detector_annotate)
                ∷ [])),
        )
        ∷ (
          "web",
          object
              (members_of (("bind", text config.web_bind) ∷ ("port", signed config.web_port) ∷ [])),
        )
        ∷ (
          "recording",
          object (
              members_of (
                ("configured", json_bool config.recording_configured)
                ∷ ("segment_seconds", signed config.recording_segment_seconds)
                ∷ [])),
        )
        ∷ (
          "gps",
          object (
              members_of (
                ("enabled", json_bool config.gps_enabled)
                ∷ ("source", text config.gps_source)
                ∷ [])),
        )
        ∷ (
          "webrtc",
          object (
              members_of (
                ("enabled", json_bool config.webrtc_enabled)
                ∷ ("max_peers", signed config.webrtc_max_peers)
                ∷ ("connection_timeout_ms", signed config.webrtc_connection_timeout_ms)
                ∷ ("media_queue_capacity", signed config.webrtc_media_queue_capacity)
                ∷ [])),
        )
        ∷ []))

  pub config_json : PublicConfigDto F → Bool → List ℕ
  unfolding config_document
  config_json config detector_enabled = line (config_document config detector_enabled)

  abbrev pub box : F → F → F → F → (F → Node value) → Node value
  box x1 y1 x2 y2 f = array (items_of f (x1 ∷ y1 ∷ x2 ∷ y2 ∷ []))

  pub detection_document : DetectionDto F → Node value
  detection_document d = object (
      members_of (
        ("class_id", signed d.class_id)
        ∷ ("class_name", text d.class_name)
        ∷ ("confidence", short_number d.confidence)
        ∷ ("box", box d.x1 d.y1 d.x2 d.y2 short_number)
        ∷ []))

  pub detections_document : LatestDetectionsDto F → Node value
  unfolding detection_document
  detections_document latest = object (
      members_of (
        ("available", json_bool latest.available)
        ∷ ("frame_sequence", natural latest.frame_sequence)
        ∷ ("pts_ns", natural latest.pts_ns)
        ∷ ("frame_width", signed latest.frame_width)
        ∷ ("frame_height", signed latest.frame_height)
        ∷ ("detections", array (items_of detection_document latest.detections))
        ∷ []))

  pub detections_json : LatestDetectionsDto F → List ℕ
  unfolding detections_document
  detections_json latest = line (detections_document latest)

  pub alert_detection_document : AlertDetection F → Node value
  alert_detection_document d = object (
      members_of (
        ("class_id", signed d.class_id)
        ∷ ("class_name", text d.class_name)
        ∷ ("confidence", full_number d.confidence)
        ∷ ("box", box d.x1 d.y1 d.x2 d.y2 full_number)
        ∷ []))

  pub alert_gps_document : GpsFix F → Node value
  alert_gps_document fix = object (
      members_of (
        ("valid", json_bool fix.valid)
        ∷ ("source", text fix.source)
        ∷ ("latitude", full_number fix.latitude)
        ∷ ("longitude", full_number fix.longitude)
        ∷ ("altitude_m", full_number fix.altitude_m)
        ∷ []))

  -- The tree of `alert_json`, whose bytes are in Streamed.
  pub alert_document : AlertEvent F (GpsFix F) → Node value
  unfolding alert_detection_document alert_gps_document
  alert_document alert = object (
      members_of (
        ("id", text alert.id)
        ∷ ("timestamp_ms", natural alert.timestamp_ms)
        ∷ ("gps", optional alert_gps_document alert.gps)
        ∷ ("snapshot_path", text alert.snapshot_path)
        ∷ ("frame_sequence", natural alert.frame_sequence)
        ∷ ("model_version", optional text alert.model_version)
        ∷ ("detections", array (items_of alert_detection_document alert.detections))
        ∷ []))

  pub alerts_document : List (AlertEvent F (GpsFix F)) → Node value
  unfolding alert_document
  alerts_document alerts = object (
      members_of
        (("available", json_bool true) ∷ ("items", array (items_of alert_document alerts)) ∷ []))

  -- The body of the GPS route.
  pub gps_document : GpsFix F → Node value
  gps_document fix = object (
      members_of (
        ("available", json_bool true)
        ∷ ("valid", json_bool fix.valid)
        ∷ ("source", text fix.source)
        ∷ ("latitude", full_number fix.latitude)
        ∷ ("longitude", full_number fix.longitude)
        ∷ ("altitude_m", full_number fix.altitude_m)
        ∷ ("hdop", full_number fix.hdop)
        ∷ ("satellites_visible", signed fix.satellites_visible)
        ∷ ("satellites_used", signed fix.satellites_used)
        ∷ []))
