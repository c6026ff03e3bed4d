-- ===== src/WebRtc/Manager.antt =====
-- `WebRtcManager` of src/webrtc/webrtc_manager.cpp. An operation is one step, with the closing of the
-- sessions that it takes from the table. `create_session` is several, with other operations between
-- them: `reserve` up to `accept_offer`, then `reject`, or `admit` and `activate`.
pub mod State
pub mod Table
pub mod Valid
pub mod Steps
mod Tests
use skai_edge_native.Common.{
  ℕ, ◌+◌, List, [], ◌∷◌, ◌++◌, Option, none, some, Bool, true, false, not, ◌&&◌, ◌||◌, leb, eqb,
  ◌==◌, if◌then◌else◌, codes, length, newest, inc64, add64,
}
use skai_edge_native.BoundedQueue.{BoundedQueue}
use skai_edge_native.Media.{EncodedAccessUnit}
use skai_edge_native.WebRtc.Session.{
  WebRtcSession, new_session, close_with_reason, activate_media, record_failure,
}
use skai_edge_native.WebRtc.Manager.State.{
  CreateSessionError, no_error, disabled, capacity, invalid_offer, internal, WebRtcManager,
  remember_closed, remember_all,
}
use skai_edge_native.WebRtc.Manager.Table.{
  find_session, erase_session, update_session, with_reason, last_reason, split_stale, pick_id,
  enqueue_all,
}

-- The part that `set_media_available` and `shutdown` share: all sessions are closed.
pub close_all : List ℕ → WebRtcManager → WebRtcManager
close_all reason m = remember_all (with_reason reason m.sessions) (record m {
  sessions = [];
  latest_keyframe = none;
  sessions_closed = add64 m.sessions_closed (length m.sessions);
  last_close_reason = if length m.sessions == 0 then m.last_close_reason else reason;
})

-- The source takes the lock twice here, once to disable the manager and, after it has joined the
-- clean-up thread, once to empty the table. Both are one step: the state between them, disabled with
-- the sessions still in the table, is not a state of the model.
pub shutdown : WebRtcManager → WebRtcManager
shutdown m = close_all (codes "service_shutdown") (record m { enabled = false; stopping = true })

-- `configure`, with the fields of `WebrtcConfig`; the timeout in nanoseconds.
pub configure : Bool → ℕ → ℕ → ℕ → WebRtcManager → WebRtcManager
configure enabled max_peers queue_capacity timeout m =
    let down = shutdown m in
    record down {
      enabled = enabled;
      max_peers = max_peers;
      media_queue_capacity = queue_capacity;
      connection_timeout = if down.timeout_overridden then down.connection_timeout else timeout;
      stopping = not enabled;
    }

pub cleanup_stale_sessions : ℕ → WebRtcManager → ℕ × WebRtcManager
cleanup_stale_sessions now m =
    let (kept, stale) = split_stale now m.connection_timeout m.sessions in
    (
      length stale,
      remember_all stale (record m {
        sessions = kept;
        sessions_closed = add64 m.sessions_closed (length stale);
        last_close_reason = last_reason m.last_close_reason stale;
      }),
    )

-- `close_session`.
pub close_found : List ℕ → Option WebRtcSession → List ℕ → WebRtcManager → Bool × WebRtcManager
close_found id none reason m = (false, m)
close_found id (some s) reason m = (
  true,
  remember_closed reason s (record m {
    sessions = erase_session id m.sessions;
    sessions_closed = inc64 m.sessions_closed;
    last_close_reason = reason;
  }),
)

pub close_session : List ℕ → WebRtcManager → Bool × WebRtcManager
unfolding close_found
close_session id m = close_found id (find_session id m.sessions) (codes "client_delete") m

-- What `create_peer_session` gives: a session with its queue, or an exception or null.
pub data Creation : Type 0 where
  creates : ℕ → BoundedQueue EncodedAccessUnit → Creation
  creates_nothing : Creation

-- The insertion, with the session's id; `none` stands for ids that are all taken.
pub insert_new : Option (List ℕ) → Creation → ℕ → WebRtcManager → CreateSessionError × WebRtcManager
insert_new none creation now m = (internal, m)
insert_new (some id) creates_nothing now m =
    (internal, record m { signaling_errors = inc64 m.signaling_errors })
insert_new (some id) (creates serial queue) now m = (
  no_error,
  record m {
    sessions = new_session serial id queue now ∷ m.sessions;
    sessions_created = inc64 m.sessions_created;
  },
)

-- `create_session` up to `accept_offer`.
pub reserve :
    Bool → List (List ℕ) → Creation → ℕ → WebRtcManager → CreateSessionError × WebRtcManager
unfolding insert_new
reserve offer_is_empty ids creation now m =
    let clean = (cleanup_stale_sessions now m).1 in
    if offer_is_empty
    then (invalid_offer, m)
    else if not clean.enabled || clean.stopping
    then (disabled, clean)
    else if not clean.media_available
    then (disabled, clean)
    else if leb clean.max_peers (length clean.sessions)
    then (capacity, clean)
    else insert_new (pick_id ids clean.sessions) creation now clean

-- The failure branch of `create_session` after `accept_offer`.
pub reject_found : Option WebRtcSession → List ℕ → List ℕ → WebRtcManager → WebRtcManager
reject_found none id message m = m
reject_found (some s) id message m =
    remember_closed (codes "signaling_failure") (record_failure (codes "signaling") message true s)
      (record m {
        sessions = erase_session id m.sessions;
        sessions_closed = inc64 m.sessions_closed;
        last_close_reason = codes "signaling_failure";
      })

pub reject : List ℕ → List ℕ → WebRtcManager → WebRtcManager
unfolding reject_found
reject id message m =
    reject_found (find_session id m.sessions) id message
      (record m { signaling_errors = inc64 m.signaling_errors })

-- The success branch up to the copy of the keyframe, which the next step takes: the session of
-- this id and serial number is still to be served.
pub admit_found : Option WebRtcSession → ℕ → List ℕ → WebRtcManager → Bool × WebRtcManager
admit_found none serial id m = (false, m)
admit_found (some s) serial id m =
    if not (s.serial == serial)
    then (false, m)
    else if m.stopping || not m.media_available
    then (
      false,
      record m {
        sessions = update_session (close_with_reason (codes "session_closed")) id m.sessions;
      },
    )
    else (true, m)

pub admit : ℕ → List ℕ → WebRtcManager → Bool × WebRtcManager
unfolding admit_found
admit serial id m = admit_found (find_session id m.sessions) serial id m

-- The activation, with the copy of the keyframe; `launches` is for the thread. A session that has
-- left the table is closed, so it is not activated.
pub activate_found :
    Option WebRtcSession
    → ℕ
    → List ℕ
    → Option EncodedAccessUnit
    → Bool
    → WebRtcManager
    → CreateSessionError × WebRtcManager
activate_found none serial id initial launches m = (disabled, (close_session id m).1)
activate_found (some s) serial id initial launches m =
    let activated = activate_media launches initial s in
    if s.serial == serial && activated.0
    then (
      no_error,
      record m {
        sessions = update_session (λ t. (activate_media launches initial t).1) id m.sessions;
      },
    )
    else (disabled, (close_session id m).1)

pub activate :
    ℕ
    → List ℕ
    → Option EncodedAccessUnit
    → Bool
    → WebRtcManager
    → CreateSessionError × WebRtcManager
unfolding activate_found
activate serial id initial launches m =
    activate_found (find_session id m.sessions) serial id initial launches m

pub publish_access_unit : EncodedAccessUnit → WebRtcManager → WebRtcManager
publish_access_unit unit m =
    if not m.enabled || (m.stopping || not m.media_available) then m else record m {
      latest_keyframe =
          if unit.keyframe
          then some unit
          else if unit.discontinuity
          then none
          else m.latest_keyframe;
      sessions = enqueue_all unit m.sessions;
    }

abbrev same : Bool → Bool → Bool
same true b = b
same false b = not b

pub set_media_available : Bool → List ℕ → WebRtcManager → WebRtcManager
set_media_available available reason m =
    let kept = if available then [] else reason in
    let changed = record m { media_available = available; media_unavailable_reason = kept } in
    if same m.media_available available && eqb m.media_unavailable_reason kept
    then m
    else if available
    then changed
    else close_all (codes "source_media_unavailable") changed
