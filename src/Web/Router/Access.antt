-- ===== src/Web/Router/Access.antt =====
-- What the routes let a request change.
use skai_edge_native.Common.{
  subst, ℕ, ◌^◌, ◌<◌, ◌≡◌, refl, ap, ◌∙◌, arith, List, [], ◌∷◌, ◌++◌, none, Bool, true, false, ◌||◌,
  eqb, codes, find, find_at, drop, length, starts_with, starts_with-decompose, eqb→eq, Bool-cases,
  inl, inr, find-none-append,
}
use skai_edge_native.WebRtc.Manager.State.{WebRtcManager}
use skai_edge_native.Api.{ApiState, LatestDetectionsDto, detector_permit, commit_detections}
use skai_edge_native.Api.Status.{RuntimeStatus}
use skai_edge_native.Api.Permit.{enables, commit_detections-run}
use skai_edge_native.Web.Router.Alerts.{alert_route, json_reply}
use skai_edge_native.Web.Router.Documents.Metrics.{MetricsSnapshot}
use skai_edge_native.Web.Router.Requests.{
  post, delete, Request, path_of, session_prefix, get_route, post_route, delete_route, is_verb,
  expected_verb,
}
use skai_edge_native.Web.Router.Replies.{
  CreateSessionResult, Services, created_reply, control_detector, delete_session, with_webrtc,
  with_api,
}
use skai_edge_native.Web.Router.{Inputs, later_routes, routes, checked_routes, route_request}

-- A text equal to one that is not a path of a GET.
not_get :
    (path other : List ℕ) → eqb path other ≡ true → get_route other ≡ false → get_route path ≡ false
not_get path other e g = rw (eqb→eq path other e) g

get_route-start : get_route (codes "/api/v1/recording/start") ≡ false
unfolding get_route alert_route eqb starts_with find_at find
get_route-start = refl

get_route-stop : get_route (codes "/api/v1/recording/stop") ≡ false
unfolding get_route alert_route eqb starts_with find_at find
get_route-stop = refl

get_route-enable : get_route (codes "/api/v1/detector/enable") ≡ false
unfolding get_route alert_route eqb starts_with find_at find
get_route-enable = refl

get_route-disable : get_route (codes "/api/v1/detector/disable") ≡ false
unfolding get_route alert_route eqb starts_with find_at find
get_route-disable = refl

get_route-whep : get_route (codes "/api/v1/webrtc/whep") ≡ false
unfolding get_route alert_route eqb starts_with find_at find
get_route-whep = refl

get_route-session : (id : List ℕ) → get_route (session_prefix ++ id) ≡ false
unfolding get_route alert_route eqb starts_with find_at find
get_route-session id = refl

-- No path of a DELETE is one of a GET.
delete_route-get_route : (path : List ℕ) → delete_route path ≡ true → get_route path ≡ false
unfolding delete_route
delete_route-get_route path h =
    rw (starts_with-decompose session_prefix path (ground arith))
      (get_route-session (drop (length session_prefix) path))

find-session_prefix : find 63 session_prefix ≡ none
unfolding find
find-session_prefix = refl

delete_route-session :
    (c : ℕ) (id : List ℕ) → find 47 (c ∷ id) ≡ none → delete_route (session_prefix ++ c ∷ id) ≡ true
unfolding delete_route starts_with find_at
delete_route-session c id h = rw h (ground arith)

path_of-session :
    (id : List ℕ) → find 63 id ≡ none → path_of (session_prefix ++ id) ≡ session_prefix ++ id
unfolding path_of
path_of-session id h = rw (find-none-append 63 session_prefix id find-session_prefix, h) refl

-- A path of a GET is none of the other branches.
get_route-others :
    (path : List ℕ)
    → get_route path ≡ true
    → (eqb path (codes "/api/v1/webrtc/whep") ≡ false)
      × (delete_route path ≡ false)
      × (eqb path (codes "/api/v1/detector/enable") ≡ false)
      × (eqb path (codes "/api/v1/detector/disable") ≡ false)
get_route-others path h = (
  ground (arith, not_get path (codes "/api/v1/webrtc/whep"), get_route-whep),
  ground (arith, delete_route-get_route path),
  ground (arith, not_get path (codes "/api/v1/detector/enable"), get_route-enable),
  ground (arith, not_get path (codes "/api/v1/detector/disable"), get_route-disable),
)

abbrev pub detector_path : Bool → List ℕ
detector_path true = codes "/api/v1/detector/enable"
detector_path false = codes "/api/v1/detector/disable"

control_detector-revokes :
    {F : Type 0} (enabled : Bool) (api : ApiState F) (found : LatestDetectionsDto F)
    (f : RuntimeStatus F → RuntimeStatus F)
    → api.detector_generation < 2 ^ 64
    → (control_detector enabled api).0.status ≡ 200
    → (commit_detections (detector_permit api) found f (control_detector enabled api).1).0 ≡ false
unfolding control_detector json_reply
control_detector-revokes enabled api found f g h = elim (Bool-cases api.detector_supported) [
  | inl e ↦
      let c = commit_detections-run (enables enabled ∷ []) found f api g (omega arith) in
      ground (arith, e, c)
  | inr e ↦ ground (arith, e)
]

module _ {F : Type 0} (number : ℕ → F → List ℕ)
    (signal : List ℕ → WebRtcManager → CreateSessionResult × WebRtcManager)
    (fresh : MetricsSnapshot F) where
  later_routes-get :
      (path : List ℕ) (request : Request) (inputs : Inputs F) (services : Services F)
      → get_route path ≡ true
      → (alert_route path || eqb path (codes "/api/v1/recordings")) ≡ true
      → (later_routes number signal path request inputs services).1 ≡ services
  unfolding later_routes
  later_routes-get path request inputs services g h =
      let (whep, deletes, enable, disable) = get_route-others path g in
      ground (arith, whep, deletes, enable, disable)

  routes-get :
      (path : List ℕ) (request : Request) (inputs : Inputs F) (services : Services F)
      → get_route path ≡ true
      → (routes number signal fresh path request inputs services).1 ≡ services
  unfolding routes get_route
  routes-get path request inputs services g =
      ground (arith, later_routes-get path request inputs services g)

  checked_routes-get :
      (path : List ℕ) (request : Request) (inputs : Inputs F) (services : Services F)
      → (is_verb request.verb post || is_verb request.verb delete) ≡ false
      → (checked_routes number signal fresh path request inputs services).1 ≡ services
  unfolding checked_routes expected_verb
  checked_routes-get path request inputs services v =
      ground (arith, routes-get path request inputs services)

  -- A request whose method is neither POST nor DELETE changes nothing: neither the detector and its
  -- permits, nor the recording, nor the WebRTC sessions, whatever its target and body are.
  pub route_request-observes :
      (request : Request) (inputs : Inputs F) (services : Services F)
      → (is_verb request.verb post || is_verb request.verb delete) ≡ false
      → (route_request number signal fresh request inputs services).1 ≡ services
  unfolding route_request
  route_request-observes request inputs services v =
      checked_routes-get (path_of request.target) request inputs services v

  checked_routes-detector :
      (enabled : Bool) (request : Request) (inputs : Inputs F) (services : Services F)
      → request.verb ≡ post
      → checked_routes number signal fresh (detector_path enabled) request inputs services
        ≡ with_api services (control_detector enabled services.api)
  unfolding checked_routes expected_verb routes later_routes get_route post_route delete_route
      alert_route eqb starts_with find_at find
  checked_routes-detector true request inputs services v = ground (arith, v)
  checked_routes-detector false request inputs services v = ground (arith, v)

  checked_at :
      (enabled : Bool) (request : Request) (inputs : Inputs F) (services : Services F)
      → request.verb ≡ post
      → path_of request.target ≡ detector_path enabled
      → route_request number signal fresh request inputs services
        ≡ with_api services (control_detector enabled services.api)
  unfolding route_request
  checked_at enabled request inputs services v p =
      rw p (checked_routes-detector enabled request inputs services v)

  -- After a POST of the detector that is answered with 200, no permit of before is good: detections
  -- found under it are not committed.
  pub commit_detections-route_request :
      (enabled : Bool) (request : Request) (inputs : Inputs F) (services : Services F)
      (found : LatestDetectionsDto F) (f : RuntimeStatus F → RuntimeStatus F)
      → request.verb ≡ post
      → path_of request.target ≡ detector_path enabled
      → services.api.detector_generation < 2 ^ 64
      → (route_request number signal fresh request inputs services).0.status ≡ 200
      → (commit_detections
          (detector_permit services.api)
          found
          f
          (route_request number signal fresh request inputs services).1.api).0
        ≡ false
  unfolding route_request
  commit_detections-route_request enabled request inputs services found f v p g h =
      let at = checked_at enabled request inputs services v p in
      rw at (
        control_detector-revokes enabled services.api found f g
          (subst (λ r. r.0.status ≡ 200) at h))

  checked_routes-session :
      (c : ℕ) (id : List ℕ) (request : Request) (inputs : Inputs F) (services : Services F)
      → request.verb ≡ delete
      → find 47 (c ∷ id) ≡ none
      → checked_routes number signal fresh (session_prefix ++ c ∷ id) request inputs services
        ≡ with_webrtc services (delete_session (c ∷ id) services.webrtc)
  unfolding checked_routes expected_verb routes later_routes eqb
  checked_routes-session c id request inputs services v h =
      ground (arith, v, delete_route-session c id h, get_route-session (c ∷ id))

  -- The `Location` of a new session, sent back as the target of a DELETE, addresses exactly that
  -- session, for every id without a slash and a question mark that is not empty.
  pub route_request-location :
      (created : CreateSessionResult) (c : ℕ) (id : List ℕ) (request : Request) (inputs : Inputs F)
      (services : Services F)
      → created.session_id ≡ c ∷ id
      → find 47 (c ∷ id) ≡ none
      → find 63 (c ∷ id) ≡ none
      → request.verb ≡ delete
      → request.target ≡ (created_reply created).location
      → route_request number signal fresh request inputs services
        ≡ with_webrtc services (delete_session created.session_id services.webrtc)
  unfolding route_request created_reply
  route_request-location created c id request inputs services s h q v t =
      let p : path_of request.target ≡ session_prefix ++ c ∷ id =
        rw (t, s) (path_of-session (c ∷ id) q) in
      ap (λ path. checked_routes number signal fresh path request inputs services) p
      ∙ (checked_routes-session c id request inputs services v h ∙ rw s refl)
