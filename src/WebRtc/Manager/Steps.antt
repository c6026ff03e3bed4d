-- ===== src/WebRtc/Manager/Steps.antt =====
-- The manager's state over every sequence of its operations and of the events of its sessions.
use skai_edge_native.Common.{ℕ, List, [], ◌∷◌, Option, Bool}
use skai_edge_native.Media.{EncodedAccessUnit}
use skai_edge_native.WebRtc.Session.{call_back, Callback, finish_answer, record_media_error}
use skai_edge_native.WebRtc.Session.Identity.{id-call_back, id-finish_answer, id-record_media_error}
use skai_edge_native.WebRtc.Manager.State.{WebRtcManager}
use skai_edge_native.WebRtc.Manager.State.Valid.{IsCoherent}
use skai_edge_native.WebRtc.Manager.Table.{update_session}
use skai_edge_native.WebRtc.Manager.{
  shutdown, configure, cleanup_stale_sessions, close_session, Creation, reserve, reject, admit,
  activate, publish_access_unit, set_media_available,
}
use skai_edge_native.WebRtc.Manager.Valid.{
  shutdown-IsCoherent, configure-IsCoherent, set_media_available-IsCoherent, cleanup-IsCoherent,
  close_session-IsCoherent, reject-IsCoherent, update-IsCoherent, admit_found-IsCoherent,
  activate_found-IsCoherent, reserve-IsCoherent, publish-IsCoherent,
}

-- The operations of the manager, and what happens to one of its sessions meanwhile.
pub data Op : Type 0 where
  configures : Bool → ℕ → ℕ → ℕ → Op
  reserves : Bool → List (List ℕ) → Creation → ℕ → Op
  rejects : List ℕ → List ℕ → Op
  admits : ℕ → List ℕ → Op
  activates : ℕ → List ℕ → Option EncodedAccessUnit → Bool → Op
  closes : List ℕ → Op
  cleans : ℕ → Op
  publishes : EncodedAccessUnit → Op
  switches_media : Bool → List ℕ → Op
  shuts_down : Op
  calls_back : Callback → List ℕ → Op
  answers : ℕ → List ℕ → Op
  loses_media : List ℕ → List ℕ → Op

abbrev pub step : Op → WebRtcManager → WebRtcManager
step (configures enabled peers units timeout) m = configure enabled peers units timeout m
step (reserves offer_is_empty ids creation now) m = (reserve offer_is_empty ids creation now m).1
step (rejects id message) m = reject id message m
step (admits serial id) m = (admit serial id m).1
step (activates serial id initial launches) m = (activate serial id initial launches m).1
step (closes id) m = (close_session id m).1
step (cleans now) m = (cleanup_stale_sessions now m).1
step (publishes unit) m = publish_access_unit unit m
step (switches_media available reason) m = set_media_available available reason m
step shuts_down m = shutdown m
step (calls_back cb id) m = record m { sessions = update_session (call_back cb) id m.sessions }
step (answers now id) m = record m {
  sessions = update_session (λ s. (finish_answer now s).1) id m.sessions;
}
step (loses_media error id) m = record m {
  sessions = update_session (record_media_error error) id m.sessions;
}

abbrev pub run : List Op → WebRtcManager → WebRtcManager
run [] m = m
run (op ∷ ops) m = run ops (step op m)

step-IsCoherent : (op : Op) (m : WebRtcManager) → IsCoherent m → IsCoherent (step op m)
unfolding admit activate
step-IsCoherent (configures enabled peers units timeout) m v =
    configure-IsCoherent enabled peers units timeout m v
step-IsCoherent (reserves offer_is_empty ids creation now) m v =
    reserve-IsCoherent offer_is_empty ids creation now m v
step-IsCoherent (rejects id message) m v = reject-IsCoherent id message m v
step-IsCoherent (admits serial id) m v = admit_found-IsCoherent _ serial id m v
step-IsCoherent (activates serial id initial launches) m v =
    activate_found-IsCoherent _ serial id initial launches m v
step-IsCoherent (closes id) m v = close_session-IsCoherent id m v
step-IsCoherent (cleans now) m v = cleanup-IsCoherent now m v
step-IsCoherent (publishes unit) m v = publish-IsCoherent unit m v
step-IsCoherent (switches_media available reason) m v =
    set_media_available-IsCoherent available reason m v
step-IsCoherent shuts_down m v = shutdown-IsCoherent m v
step-IsCoherent (calls_back cb id) m v = update-IsCoherent (call_back cb) (id-call_back cb) id m v
step-IsCoherent (answers now id) m v =
    update-IsCoherent (λ s. (finish_answer now s).1) (id-finish_answer now) id m v
step-IsCoherent (loses_media error id) m v =
    update-IsCoherent (record_media_error error) (id-record_media_error error) id m v

-- Whatever the operations and the events of the sessions, in any order, from a coherent state: there
-- are at most `max_peers` sessions, with distinct ids; the sessions created are those closed and
-- those in the table, modulo 2 ^ 64; at most sixteen closed ones are remembered; the manager stops
-- exactly when it is disabled; and while it is disabled or has no media, there is no session and no
-- keyframe.
pub run-IsCoherent : (ops : List Op) (m : WebRtcManager) → IsCoherent m → IsCoherent (run ops m)
run-IsCoherent [] m v = v
run-IsCoherent (op ∷ ops) m v = run-IsCoherent ops (step op m) (step-IsCoherent op m v)
