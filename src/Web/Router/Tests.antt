-- ===== src/Web/Router/Tests.antt =====
-- Concrete requests, and instances of the theorems on them. Numbers stand for floating-point ones.
use skai_edge_native.Common.{
  ℕ, ◌≡◌, refl, List, [], ◌∷◌, none, some, Bool, true, false, ◌||◌, ◌==◌, arith, codes, eqb, find,
  find_at, starts_with,
}
use skai_edge_native.Sei.Json.{decimal}
use skai_edge_native.Sei.Json.Digits.{decimal-number}
use skai_edge_native.BoundedQueue.{zero_stats}
use skai_edge_native.Alerts.{AlertEvent}
use skai_edge_native.Api.{ApiState, no_detections, detector_permit, commit_detections}
use skai_edge_native.Api.Status.{clear_detector}
use skai_edge_native.Api.Gps.{GpsFix}
use skai_edge_native.WebRtc.Manager.State.{WebRtcManager, no_error}
use skai_edge_native.Web.Json.{value, literal}
use skai_edge_native.Web.Json.Reader.{read, plain, clean, size}
use skai_edge_native.Web.Json.Plain.{plain-number}
use skai_edge_native.Web.Router.Query.{Parameters}
use skai_edge_native.Web.Router.Documents.{alerts_document}
use skai_edge_native.Web.Router.Documents.Streamed.{alerts_json}
use skai_edge_native.Web.Router.Documents.Peers.{no_diagnostics}
use skai_edge_native.Web.Router.Documents.Metrics.{MetricsSnapshot}
use skai_edge_native.Web.Router.Documents.WellFormed.{read-alerts_json}
use skai_edge_native.Web.Router.Alerts.{json_reply, alert_route}
use skai_edge_native.Web.Router.Requests.{
  get, post, delete, Request, path_of, get_route, post_route, delete_route, expected_verb,
}
use skai_edge_native.Web.Router.Replies.{
  CreateSessionResult, Services, created_reply, delete_session, with_webrtc, control_detector,
}
use skai_edge_native.Web.Router.{Inputs, routes, later_routes, checked_routes, route_request}
use skai_edge_native.Web.Router.Access.{
  route_request-observes, commit_detections-route_request, route_request-location,
}

abbrev api : ApiState ℕ
api = record {
  config = none;
  detector_enabled = true;
  detector_supported = true;
  detector_generation = 7;
  status = none;
  gps_state = none;
  latest = no_detections;
}

abbrev services : Services ℕ
services = record { api = api; controller = none; webrtc = none }

abbrev inputs : Inputs ℕ
inputs = record {
  status = record {
    status = codes "running";
    uptime_s = 1;
    video_fps = none;
    detector_fps = none;
    last_inference_ms = none;
    last_inference_age_ms = none;
    encoder = none;
  };
  alerts = none;
  metrics = none;
  health = none;
  diagnostics = no_diagnostics;
}

abbrev fresh : MetricsSnapshot ℕ
fresh = record {
  memory_rss_bytes = none;
  cpu_percent = none;
  gpu_percent = none;
  disk_free_bytes = none;
  rtsp = none;
  inference_queue = zero_stats;
  inference_queue_depth = 0;
  encoded_queue = zero_stats;
  encoded_queue_depth = 0;
  websocket_clients = 0;
  whip = record {
    enabled = false;
    peer_state = codes "disabled";
    ice_state = codes "disabled";
    last_error = [];
    access_units_sent = 0;
    media_queue_drops = 0;
    media_queue_discarded = 0;
  };
  alert_count = none;
  encoder_fps = none;
  recent_errors = [];
}

abbrev number : ℕ → ℕ → List ℕ
number precision n = decimal n

abbrev created : CreateSessionResult
created = record { outcome = no_error; session_id = 97 ∷ 98 ∷ []; answer_sdp = []; message = [] }

abbrev signal : List ℕ → WebRtcManager → CreateSessionResult × WebRtcManager
signal offer m = (created, m)

abbrev request : Request
request = record {
  verb = get;
  target = codes "/api/v1/alerts?limit=5";
  content_type = [];
  body = [];
}

abbrev disable : Request
disable = record {
  verb = post;
  target = codes "/api/v1/detector/disable?x";
  content_type = [];
  body = [];
}

abbrev deletion : Request
deletion = record {
  verb = delete;
  target = (created_reply created).location;
  content_type = [];
  body = [];
}

route_request-observes_example :
    (route_request number signal fresh request inputs services).1 ≡ services
route_request-observes_example =
    route_request-observes number signal fresh request inputs services refl

disable_path : path_of disable.target ≡ codes "/api/v1/detector/disable"
unfolding path_of find
disable_path = refl

disable_succeeds : (route_request number signal fresh disable inputs services).0.status ≡ 200
unfolding route_request checked_routes path_of find eqb get_route post_route delete_route
    alert_route starts_with find_at expected_verb routes later_routes control_detector json_reply
disable_succeeds = refl

commit_detections-route_request_example :
    (commit_detections
      (detector_permit api)
      no_detections
      clear_detector
      (route_request number signal fresh disable inputs services).1.api).0
    ≡ false
commit_detections-route_request_example =
    commit_detections-route_request number signal fresh false disable inputs services no_detections
      clear_detector refl disable_path (omega arith) disable_succeeds

no_slash : find 47 (97 ∷ 98 ∷ []) ≡ none
unfolding find
no_slash = refl

no_question : find 63 (97 ∷ 98 ∷ []) ≡ none
unfolding find
no_question = refl

route_request-location_example :
    route_request number signal fresh deletion inputs services
    ≡ with_webrtc services (delete_session created.session_id services.webrtc)
route_request-location_example =
    route_request-location number signal fresh created 97 (98 ∷ []) deletion inputs services refl
      no_slash no_question refl refl

-- `%`, `&` and `=` are encoded.
abbrev escapes : ℕ → Bool
escapes c = c == 37 || (c == 38 || c == 61)

abbrev parameters : Parameters
parameters = (codes "class", codes "a&b=%") ∷ (codes "limit", codes "5") ∷ []

abbrev alert : AlertEvent ℕ (GpsFix ℕ)
alert = record {
  id = codes "alert\"1";
  timestamp_ms = 1700000000000;
  gps = none;
  snapshot_path = codes "a.jpg";
  frame_sequence = 12;
  model_version = none;
  detections = [];
}

plain_numbers : (precision n : ℕ) → plain (literal (number precision n)) ≡ true
plain_numbers precision n = plain-number (decimal n) (decimal-number n)

read-alerts_json_example :
    read value (size (alerts_document number (alert ∷ []))) true (alerts_json number (alert ∷ []))
    ≡ some (clean (alerts_document number (alert ∷ [])), 10 ∷ [])
read-alerts_json_example = read-alerts_json number plain_numbers (alert ∷ [])
