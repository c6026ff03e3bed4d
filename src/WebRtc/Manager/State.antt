-- ===== src/WebRtc/Manager/State.antt =====
-- The state of `WebRtcManager` of src/webrtc/webrtc_manager.cpp, and `remember_closed`.
pub mod Valid
use skai_edge_native.Common.{ℕ, List, [], ◌∷◌, ◌++◌, Option, Bool, newest}
use skai_edge_native.Media.{EncodedAccessUnit}
use skai_edge_native.WebRtc.Session.{WebRtcSession, close_with_reason}

-- `CreateSessionError`.
pub data CreateSessionError : Type 0 where
  no_error disabled capacity invalid_offer gathering_timeout internal : CreateSessionError

-- What `WebRtcPeerDiagnostics` keeps of the session's own state.
pub record PeerDiagnostics : Type 0 where
  pub session_id : List ℕ
  pub peer_state : List ℕ
  pub ice_state : List ℕ
  pub failure_stage : List ℕ
  pub close_reason : List ℕ
  pub last_error : List ℕ

-- `WebRtcManager`.
pub record WebRtcManager : Type 0 where
  pub connection_timeout : ℕ
  pub timeout_overridden : Bool
  pub sessions : List WebRtcSession
  pub recently_closed : List PeerDiagnostics
  pub latest_keyframe : Option EncodedAccessUnit
  pub max_peers : ℕ
  pub media_queue_capacity : ℕ
  pub sessions_created : ℕ
  pub sessions_closed : ℕ
  pub signaling_errors : ℕ
  pub last_close_reason : List ℕ
  pub media_unavailable_reason : List ℕ
  pub enabled : Bool
  pub media_available : Bool
  pub stopping : Bool

pub diagnostics : WebRtcSession → PeerDiagnostics
diagnostics s = record {
  session_id = s.id;
  peer_state = s.peer_state;
  ice_state = s.ice_state;
  failure_stage = s.failure_stage;
  close_reason = s.close_reason;
  last_error = s.last_error;
}

-- `remember_closed`; the loop that pops the front leaves the newest sixteen.
pub remember_closed : List ℕ → WebRtcSession → WebRtcManager → WebRtcManager
unfolding diagnostics
remember_closed reason s m = record m {
  recently_closed = newest 16 (m.recently_closed ++ diagnostics (close_with_reason reason s) ∷ []);
}

-- The loop over the sessions taken from the table.
pub remember_all : List (WebRtcSession × List ℕ) → WebRtcManager → WebRtcManager
remember_all [] m = m
remember_all ((s, reason) ∷ rest) m = remember_all rest (remember_closed reason s m)
