-- ===== src/Web/Socket/Messages.antt =====
-- `status_data` and `gps_data` of src/web/websocket_session.cpp. `number` is what an output stream of
-- a precision writes for a floating-point number.
use skai_edge_native.Common.{ℕ, List, [], ◌∷◌, Option, none, some, Bool, false}
use skai_edge_native.Api.Status.{Encoder, RuntimeStatusSnapshot}
use skai_edge_native.Api.Gps.{GpsFix}
use skai_edge_native.Web.Json.{
  Node, value, quoted, object, document, json_bool, natural, signed, optional,
}
use skai_edge_native.Web.Router.Documents.{members_of, short_number, full_number}
use skai_edge_native.Web.Router.Documents.Peers.{WebRtcDiagnostics, webrtc_document}

pub encoder_summary : Encoder → Node value
encoder_summary encoder = object (
    members_of (
      ("frames_submitted", natural encoder.frames_submitted)
      ∷ ("frames_dropped", natural encoder.frames_dropped)
      ∷ ("access_units_encoded", natural encoder.access_units_encoded)
      ∷ ("access_units_dropped", natural encoder.access_units_dropped)
      ∷ ("last_access_unit_age_ms", signed encoder.last_access_unit_age_ms)
      ∷ []))

module _ {F : Type 0} (number : ℕ → F → List ℕ) where
  -- `status_data`, on a snapshot with the uptime in it.
  pub status_data : RuntimeStatusSnapshot F → Bool → Option WebRtcDiagnostics → List ℕ
  status_data snapshot detector_enabled webrtc = document (
      object (
        members_of (
          ("status", quoted snapshot.status)
          ∷ ("uptime_s", natural snapshot.uptime_s)
          ∷ ("video_fps", optional (short_number number) snapshot.video_fps)
          ∷ ("detector_enabled", json_bool detector_enabled)
          ∷ ("detector_fps", optional (short_number number) snapshot.detector_fps)
          ∷ ("last_inference_ms", optional (short_number number) snapshot.last_inference_ms)
          ∷ ("encoder", optional encoder_summary snapshot.encoder)
          ∷ ("webrtc", optional webrtc_document webrtc)
          ∷ [])))

  pub gps_message : GpsFix F → Node value
  gps_message fix = object (
      members_of (
        ("available", json_bool Bool.true)
        ∷ ("valid", json_bool fix.valid)
        ∷ ("source", quoted fix.source)
        ∷ ("latitude", full_number number fix.latitude)
        ∷ ("longitude", full_number number fix.longitude)
        ∷ ("altitude_m", full_number number fix.altitude_m)
        ∷ ("hdop", full_number number fix.hdop)
        ∷ ("satellites_visible", signed fix.satellites_visible)
        ∷ ("satellites_used", signed fix.satellites_used)
        ∷ []))

  -- `gps_data`, on the latest fix.
  pub gps_data : Option (GpsFix F) → List ℕ
  gps_data none = document (object (members_of (("available", json_bool false) ∷ [])))
  gps_data (some fix) = document (gps_message fix)
