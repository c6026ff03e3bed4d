-- ===== src/Web/Router.antt =====
-- `route_request` of src/web/router.cpp: the HTTP interface over the shared state, the recording
-- controller, the WebRTC sessions and the alert repository. What the repository answers, the
-- signaling of a new session and the printing of numbers are arguments.
pub mod Query
pub mod Documents
pub mod Alerts
pub mod Requests
pub mod Replies
pub mod Access
mod Tests
use skai_edge_native.Common.{
  ℕ, List, [], ◌∷◌, ◌++◌, Option, none, some, is_some, Bool, true, false, not, ◌&&◌, ◌||◌, eqb, ltb,
  ◌==◌, if◌then◌else◌, codes, find, find_at, take, drop, length, starts_with,
}
use skai_edge_native.Health.{HealthSnapshot, HealthState, running}
use skai_edge_native.Recording.{
  RecordingController, RecordingStatus, start, stop, RecordingState, unavailable, starting, stopped,
  recording, stopping, error,
}
use skai_edge_native.WebRtc.Manager.{close_session}
use skai_edge_native.WebRtc.Manager.State.{
  WebRtcManager, CreateSessionError, no_error, disabled, capacity, invalid_offer, gathering_timeout,
  internal,
}
use skai_edge_native.Api.{ApiState, set_detector_enabled}
use skai_edge_native.Api.Status.{RuntimeStatusSnapshot}
use skai_edge_native.Web.Json.{Node, value, text, array, object, line, json_bool, natural, no_items}
use skai_edge_native.Web.Router.Documents.{
  members_of, health_json, config_json, detections_json, gps_document,
}
use skai_edge_native.Web.Router.Documents.Peers.{WebRtcDiagnostics}
use skai_edge_native.Web.Router.Documents.Metrics.{
  MetricsSnapshot, status_document, metrics_document,
}
use skai_edge_native.Web.Router.Alerts.{
  AlertRepository, Reply, json_reply, error_reply, alert_route, alert_reply,
}
use skai_edge_native.Web.Router.Requests.{
  Verb, get, post, delete, other_verb, Request, path_of, session_prefix, get_route, post_route,
  delete_route, is_verb, verb_name, expected_verb,
}
use skai_edge_native.Web.Router.Replies.{
  CreateSessionResult, Services, error_status, created_reply, reply_by, session_reply,
  unavailable_line, is_running, recordings_reply, control_recording, delete_session,
  control_detector, with_api, with_controller, with_webrtc,
}

-- What a route only reads; `none` is a null pointer. `diagnostics` is that of the manager.
pub record Inputs (F : Type 0) : Type 0 where
  pub status : RuntimeStatusSnapshot F
  pub alerts : Option (AlertRepository F)
  pub metrics : Option (MetricsSnapshot F)
  pub health : Option HealthSnapshot
  pub diagnostics : WebRtcDiagnostics

-- `number` prints a number, and `signal` is `WebRtcManager::create_session`.
module _ {F : Type 0} (number : ℕ → F → List ℕ)
    (signal : List ℕ → WebRtcManager → CreateSessionResult × WebRtcManager) where
  -- The branch of WHEP.
  pub create_session : Request → Option WebRtcManager → Reply × Option WebRtcManager
  create_session request none = (error_reply 503 (codes "WebRTC unavailable"), none)
  create_session request (some m) =
      if eqb request.content_type (codes "application/sdp")
      then (session_reply (signal request.body m).0, some (signal request.body m).1)
      else (error_reply 415 (codes "Content-Type must be application/sdp"), some m)

  pub health_reply : Option HealthSnapshot → Reply
  health_reply none = json_reply 503 (
      codes "{\"state\":\"FAILED\",\"components\":{},\"detail\":\"health watchdog unavailable\"}\n")
  health_reply (some health) =
      json_reply (if is_running health.overall then 200 else 503) (health_json health)

  abbrev diagnostics_of : Inputs F → Services F → Option WebRtcDiagnostics
  diagnostics_of inputs services = elim services.webrtc [
    | none ↦ none
    | some m ↦ some inputs.diagnostics
  ]

  pub status_reply : Inputs F → Services F → Reply
  status_reply inputs services = json_reply 200 (
      line (
        status_document number inputs.status services.api.detector_enabled
          (diagnostics_of inputs services)))

  pub metrics_reply : MetricsSnapshot F → Inputs F → Services F → Reply
  metrics_reply fresh inputs services = json_reply 200 (
      line (
        metrics_document number inputs.status
          (elim inputs.metrics [ none ↦ fresh | some metrics ↦ metrics ]) services.api.gps_state
          (diagnostics_of inputs services)))

  pub config_reply : ApiState F → Reply
  config_reply api = elim api.config [
    | none ↦ json_reply 503 unavailable_line
    | some config ↦ json_reply 200 (config_json number config api.detector_enabled)
  ]

  pub gps_reply : ApiState F → Reply
  gps_reply api = elim api.gps_state [
    | none ↦ json_reply 503 unavailable_line
    | some fix ↦ json_reply 200 (line (gps_document number fix))
  ]

  -- The branches after that of GPS, in their order.
  pub later_routes : List ℕ → Request → Inputs F → Services F → Reply × Services F
  unfolding create_session delete_session recordings_reply control_detector control_recording
  later_routes path request inputs services =
      if eqb path (codes "/api/v1/webrtc/whep")
      then with_webrtc services (create_session request services.webrtc)
      else if delete_route path
      then with_webrtc services (delete_session (drop (length session_prefix) path) services.webrtc)
      else if alert_route path
      then (alert_reply number inputs.alerts path request.target, services)
      else if eqb path (codes "/api/v1/recordings")
      then (recordings_reply services.controller, services)
      else if eqb path (codes "/api/v1/detector/enable")
          || eqb path (codes "/api/v1/detector/disable")
      then with_api services
          (control_detector (eqb path (codes "/api/v1/detector/enable")) services.api)
      else with_controller services
          (control_recording (eqb path (codes "/api/v1/recording/start")) services.controller)

  -- The branches after the checks of path and method; `fresh` is a default `MetricsSnapshot`.
  pub routes : MetricsSnapshot F → List ℕ → Request → Inputs F → Services F → Reply × Services F
  unfolding health_reply status_reply metrics_reply config_reply gps_reply later_routes
  routes fresh path request inputs services =
      if eqb path (codes "/health")
      then (health_reply inputs.health, services)
      else if eqb path (codes "/api/v1/status")
      then (status_reply inputs services, services)
      else if eqb path (codes "/api/v1/metrics")
      then (metrics_reply fresh inputs services, services)
      else if eqb path (codes "/api/v1/config")
      then (config_reply services.api, services)
      else if eqb path (codes "/api/v1/detections/latest")
      then (json_reply 200 (detections_json number services.api.latest), services)
      else if eqb path (codes "/api/v1/gps")
      then (gps_reply services.api, services)
      else later_routes path request inputs services

  -- The tests before any branch, on the path.
  pub checked_routes :
      MetricsSnapshot F → List ℕ → Request → Inputs F → Services F → Reply × Services F
  unfolding routes
  checked_routes fresh path request inputs services =
      if not (get_route path) && (not (post_route path) && not (delete_route path))
      then (error_reply 404 (codes "not found"), services)
      else if not (is_verb request.verb (expected_verb path))
      then (
        record (error_reply 405 (codes "method not allowed")) {
          allow = verb_name (expected_verb path);
        },
        services,
      )
      else routes fresh path request inputs services

  pub route_request : MetricsSnapshot F → Request → Inputs F → Services F → Reply × Services F
  unfolding checked_routes
  route_request fresh request inputs services =
      checked_routes fresh (path_of request.target) request inputs services
