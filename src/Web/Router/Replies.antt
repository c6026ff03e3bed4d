-- ===== src/Web/Router/Replies.antt =====
-- The answers of src/web/router.cpp that change the shared state, and those on recordings.
use skai_edge_native.Common.{
  ℕ, List, [], ◌∷◌, ◌++◌, Option, none, some, Bool, true, false, if◌then◌else◌, codes,
}
use skai_edge_native.Health.{HealthState, running}
use skai_edge_native.Recording.{
  RecordingController, RecordingStatus, start, stop, RecordingState, unavailable, starting, stopped,
  recording, stopping, error,
}
use skai_edge_native.WebRtc.Manager.{close_session}
use skai_edge_native.WebRtc.Manager.State.{
  WebRtcManager, CreateSessionError, no_error, disabled, capacity, invalid_offer, gathering_timeout,
  internal,
}
use skai_edge_native.Api.{ApiState, set_detector_enabled}
use skai_edge_native.Web.Json.{Node, value, text, array, object, line, json_bool, natural, no_items}
use skai_edge_native.Web.Router.Documents.{members_of}
use skai_edge_native.Web.Router.Alerts.{Reply, json_reply, error_reply}
use skai_edge_native.Web.Router.Requests.{session_prefix}

-- `CreateSessionResult`.
pub record CreateSessionResult : Type 0 where
  pub outcome : CreateSessionError
  pub session_id : List ℕ
  pub answer_sdp : List ℕ
  pub message : List ℕ

-- The objects behind the pointers that a route can change; `none` is a null pointer.
pub record Services (F : Type 0) : Type 0 where
  pub api : ApiState F
  pub controller : Option RecordingController
  pub webrtc : Option WebRtcManager

unfoldable pub error_status : CreateSessionError → ℕ
error_status no_error = 500
error_status invalid_offer = 400
error_status disabled = 503
error_status capacity = 429
error_status gathering_timeout = 504
error_status internal = 500

-- The answer of a WHEP request.
unfoldable pub created_reply : CreateSessionResult → Reply
unfolding json_reply
created_reply result = record {
  status = 201;
  content_type = codes "application/sdp";
  cache_control = codes "no-store";
  allow = [];
  location = session_prefix ++ result.session_id;
  body = result.answer_sdp;
}

abbrev pub reply_by : CreateSessionError → CreateSessionResult → Reply
reply_by no_error result = created_reply result
reply_by failure result = error_reply (error_status failure) result.message

unfoldable pub session_reply : CreateSessionResult → Reply
session_reply result = reply_by result.outcome result

-- `available:false` without more.
abbrev pub unavailable_line : List ℕ
unavailable_line = line (object (members_of (("available", json_bool false) ∷ [])))

-- The texts of `RecordingStatus::state`.
unfoldable pub recording_state_name : RecordingState → List ℕ
recording_state_name unavailable = codes "unavailable"
recording_state_name starting = codes "starting"
recording_state_name stopped = codes "stopped"
recording_state_name recording = codes "recording"
recording_state_name stopping = codes "stopping"
recording_state_name error = codes "error"

abbrev pub is_running : HealthState → Bool
is_running running = true
is_running _ = false

-- The body of the recordings route, and that of a recording that is started or stopped.
unfoldable pub recordings_document : RecordingStatus → Node value
unfolding recording_state_name
recordings_document status = object (
    members_of (
      ("available", json_bool status.available)
      ∷ ("state", text (recording_state_name status.state))
      ∷ ("active", json_bool status.active)
      ∷ ("current_path", text status.current_path)
      ∷ ("access_units_written", natural status.access_units_written)
      ∷ ("unavailable_reason", text status.unavailable_reason)
      ∷ ("last_error", text status.last_error)
      ∷ []))

unfoldable pub recording_document : RecordingStatus → Node value
unfolding recording_state_name
recording_document status = object (
    members_of (
      ("state", text (recording_state_name status.state))
      ∷ ("active", json_bool status.active)
      ∷ ("current_path", text status.current_path)
      ∷ ("last_error", text status.last_error)
      ∷ []))

abbrev pub no_recordings : Reply
no_recordings =
    json_reply 503
      (line (object (members_of (("available", json_bool false) ∷ ("items", array no_items) ∷ []))))

-- The branch of the recordings.
unfoldable pub recordings_reply : Option RecordingController → Reply
unfolding recordings_document
recordings_reply none = no_recordings
recordings_reply (some c) =
    if c.c_status.configured
    then json_reply (if c.c_status.available then 200 else 503)
        (line (recordings_document c.c_status))
    else no_recordings

-- The answer of a call of the recording controller, and the controller after it.
unfoldable pub recorded : Bool × List ℕ × RecordingController → Reply × Option RecordingController
unfolding recording_document
recorded (true, message, c) = (json_reply 200 (line (recording_document c.c_status)), some c)
recorded (false, message, c) = (error_reply 503 message, some c)

unfoldable pub not_implemented : Reply
not_implemented = json_reply 501 (
    line (
      object (
        members_of (
          ("available", json_bool false)
          ∷ ("error", text (codes "recording not implemented"))
          ∷ []))))

-- The last branch; the flag says that the path is that of the start.
unfoldable pub control_recording :
    Bool → Option RecordingController → Reply × Option RecordingController
unfolding recorded not_implemented
control_recording starts none = (not_implemented, none)
control_recording starts (some c) =
    if c.c_status.configured
    then recorded (if starts then start c else stop c)
    else (not_implemented, some c)

-- The branch of the deletion of a session.
unfoldable pub delete_session : List ℕ → Option WebRtcManager → Reply × Option WebRtcManager
delete_session id none = (error_reply 503 (codes "WebRTC unavailable"), none)
delete_session id (some m) = elim (close_session id m).0 [
  | true ↦ (
    record (json_reply 204 []) { content_type = []; cache_control = [] },
    some (close_session id m).1,
  )
  | false ↦ (error_reply 404 (codes "session not found"), some (close_session id m).1)
]

module _ {F : Type 0} where
  -- The branch of the detector.
  unfoldable pub control_detector : Bool → ApiState F → Reply × ApiState F
  control_detector enabled api =
      if api.detector_supported
      then (
        json_reply 200 (line (object (members_of (("enabled", json_bool enabled) ∷ [])))),
        set_detector_enabled enabled api,
      )
      else (json_reply 503 unavailable_line, api)

  abbrev pub with_api : Services F → Reply × ApiState F → Reply × Services F
  with_api services (reply, api) = (reply, record services { api = api })

  abbrev pub with_controller : Services F → Reply × Option RecordingController → Reply × Services F
  with_controller services (reply, controller) =
      (reply, record services { controller = controller })

  abbrev pub with_webrtc : Services F → Reply × Option WebRtcManager → Reply × Services F
  with_webrtc services (reply, webrtc) = (reply, record services { webrtc = webrtc })
