-- ===== src/Web/HttpSession.antt =====
-- `HttpSession` of src/web/http_server.cpp: what is done with a request that was read, and after the
-- response. Boost.Beast reads and writes; its errors are arguments.
pub mod Jobs
pub mod Handover
mod Tests
use skai_edge_native.Common.{
  ℕ, suc, ◌+◌, ◌-◌, List, [], ◌∷◌, ◌++◌, Option, none, some, is_some, Bool, true, false, not, ◌&&◌,
  ◌||◌, eqb, leb, ◌==◌, if◌then◌else◌, codes, drop, length, starts_with,
}
use skai_edge_native.Web.Router.Alerts.{Reply}
use skai_edge_native.Web.Router.Requests.{
  Verb, get, post, Request, is_verb, path_of, session_prefix,
}
use skai_edge_native.WebRtc.Manager.{close_session}
use skai_edge_native.WebRtc.Manager.State.{WebRtcManager}

-- The `error_code` of a read.
pub data ReadError : Type 0 where
  no_error body_limit header_limit other_error : ReadError

-- What is done with a request.
pub data Action : Type 0 where
  sends_error : ℕ → List ℕ → Action
  closes upgrades serves_file dispatches_whep routes_metrics routes_health routes : Action

abbrev api_prefix : List ℕ
api_prefix = codes "/api/"

-- The part of `on_read` after the errors and the upgrade, on the path; the flags say that there is a
-- WebRTC manager and a provider of the health.
pub dispatch : Bool → Bool → List ℕ → Verb → Action
dispatch has_webrtc has_health path verb =
    if not (eqb path (codes "/health"))
      && (not (starts_with api_prefix path) && not (eqb path (codes "/ws")))
    then serves_file
    else if eqb path (codes "/api/v1/webrtc/whep") && (is_verb verb post && has_webrtc)
    then dispatches_whep
    else if eqb path (codes "/api/v1/metrics") && is_verb verb get
    then routes_metrics
    else if eqb path (codes "/health") && (is_verb verb get && has_health)
    then routes_health
    else routes

-- `on_read`; `upgrade` is what `is_upgrade` says of the request.
pub on_read : ReadError → Bool → Bool → Bool → Request → Action
on_read no_error upgrade has_webrtc has_health request =
    if upgrade && eqb request.target (codes "/ws")
    then upgrades
    else dispatch has_webrtc has_health (path_of request.target) request.verb
on_read body_limit upgrade has_webrtc has_health request =
    sends_error 413 (codes "payload too large")
on_read header_limit upgrade has_webrtc has_health request =
    sends_error 431 (codes "headers too large")
on_read other_error upgrade has_webrtc has_health request = closes

-- The `json_error`s, without `Cache-Control`.
pub json_error : ℕ → List ℕ → Reply
json_error status message = record {
  status = status;
  content_type = codes "application/json";
  cache_control = [];
  allow = [];
  location = [];
  body = codes "{\"error\":\"" ++ (message ++ codes "\"}\n");
}

-- The id that `send` keeps, empty for none.
pub pending_session_id : Reply → List ℕ
pending_session_id reply =
    if reply.status == 201 && starts_with session_prefix reply.location
    then drop (length session_prefix) reply.location
    else []

abbrev has_id : List ℕ → Bool
has_id [] = false
has_id (c ∷ cs) = true

-- The completion of the write of a response, with the error, on the manager of the sessions.
pub on_sent : Bool → List ℕ → Option WebRtcManager → Option WebRtcManager
on_sent failed id none = none
on_sent failed id (some m) = if failed && has_id id then some (close_session id m).1 else some m

-- `signaling_jobs`, with the requests that wait for their `fetch_sub` after a refusal and those that
-- the thread pool has; the latter two are what the counter counts.
pub record Signaling : Type 0 where
  pub signaling_jobs : ℕ
  pub limit : ℕ
  pub refusing : ℕ
  pub running : ℕ

-- `signaling_limit`.
pub make_signaling : ℕ → Signaling
make_signaling max_peers = record {
  signaling_jobs = 0;
  limit = if leb 1 max_peers then max_peers else 1;
  refusing = 0;
  running = 0;
}

-- The `fetch_add` of `dispatch_whep` with its test: whether the request is taken.
pub enter : Signaling → Bool × Signaling
enter s =
    if leb s.limit s.signaling_jobs
    then (false, record s { signaling_jobs = suc s.signaling_jobs; refusing = suc s.refusing })
    else (true, record s { signaling_jobs = suc s.signaling_jobs; running = suc s.running })

-- The `fetch_sub` before the answer 429, and that at the end of a job.
pub refuse : Signaling → Signaling
refuse s = record s { signaling_jobs = s.signaling_jobs - 1; refusing = s.refusing - 1 }

pub finish : Signaling → Signaling
finish s = record s { signaling_jobs = s.signaling_jobs - 1; running = s.running - 1 }
