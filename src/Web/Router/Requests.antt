-- ===== src/Web/Router/Requests.antt =====
-- The requests of src/web/router.cpp: paths, methods, and which of them are routes.
use skai_edge_native.Common.{
  ℕ, List, [], none, some, is_some, Bool, true, false, not, ◌&&◌, ◌||◌, eqb, ltb, if◌then◌else◌,
  codes, find, Option, none, some, find_at, take, length, starts_with,
}
use skai_edge_native.Web.Router.Alerts.{alert_route}

pub data Verb : Type 0 where
  get post delete other_verb : Verb

-- What the routes read of a request.
pub record Request : Type 0 where
  pub verb : Verb
  pub target : List ℕ
  pub content_type : List ℕ
  pub body : List ℕ

abbrev pub path_until : List ℕ → Option ℕ → List ℕ
path_until target none = target
path_until target (some query) = take query target

-- The path of a target.
unfoldable pub path_of : List ℕ → List ℕ
path_of target = path_until target (find 63 target)

abbrev pub session_prefix : List ℕ
session_prefix = codes "/api/v1/webrtc/sessions/"

unfoldable pub get_route : List ℕ → Bool
get_route path =
    eqb path (codes "/health")
    || (eqb path (codes "/api/v1/status")
        || (eqb path (codes "/api/v1/metrics")
            || (eqb path (codes "/api/v1/config")
                || (eqb path (codes "/api/v1/detections/latest")
                    || (eqb path (codes "/api/v1/gps")
                        || (alert_route path || eqb path (codes "/api/v1/recordings")))))))

unfoldable pub post_route : List ℕ → Bool
post_route path =
    eqb path (codes "/api/v1/recording/start")
    || (eqb path (codes "/api/v1/recording/stop")
        || (eqb path (codes "/api/v1/detector/enable")
            || (eqb path (codes "/api/v1/detector/disable")
                || eqb path (codes "/api/v1/webrtc/whep"))))

unfoldable pub delete_route : List ℕ → Bool
delete_route path =
    starts_with session_prefix path
    && (ltb (length session_prefix) (length path)
        && not (is_some (find_at 47 (length session_prefix) path)))

abbrev pub is_verb : Verb → Verb → Bool
is_verb get get = true
is_verb post post = true
is_verb delete delete = true
is_verb other_verb other_verb = true
is_verb a b = false

abbrev pub verb_name : Verb → List ℕ
verb_name get = codes "GET"
verb_name post = codes "POST"
verb_name delete = codes "DELETE"
verb_name other_verb = []

-- `expected`.
unfoldable pub expected_verb : List ℕ → Verb
expected_verb path = if get_route path then get else if delete_route path then delete else post
