-- ===== src/Web/Router/Documents/Peers.antt =====
-- `webrtc_diagnostics_json` of src/web/router.cpp, with the records of
-- include/skai/webrtc/webrtc_manager.hpp that it writes.
use skai_edge_native.Common.{ℕ, List, [], ◌∷◌, Bool, true, false, length}
use skai_edge_native.Web.Json.{Node, value, text, array, object, json_bool, natural, items_of}
use skai_edge_native.Web.Router.Documents.{members_of}

-- `WebRtcPeerDiagnostics`.
pub record WebRtcPeerDiagnostics : Type 0 where
  pub session_id : List ℕ
  pub peer_state : List ℕ
  pub ice_state : List ℕ
  pub local_candidate : List ℕ
  pub local_interface : List ℕ
  pub selected_interface : List ℕ
  pub connection_age_s : ℕ
  pub bytes_sent : ℕ
  pub packets_sent : ℕ
  pub packets_retransmitted : ℕ
  pub media_queue_drops : ℕ
  pub keyframe_events : ℕ
  pub failure_stage : List ℕ
  pub close_reason : List ℕ
  pub last_error : List ℕ

-- `WebRtcDiagnostics`.
pub record WebRtcDiagnostics : Type 0 where
  pub enabled : Bool
  pub media_available : Bool
  pub keyframe_cached : Bool
  pub media_unavailable_reason : List ℕ
  pub lan_only : Bool
  pub max_peers : ℕ
  pub sessions_created : ℕ
  pub sessions_closed : ℕ
  pub signaling_errors : ℕ
  pub media_errors : ℕ
  pub last_close_reason : List ℕ
  pub peers : List WebRtcPeerDiagnostics
  pub recently_closed : List WebRtcPeerDiagnostics

-- The default value of `WebRtcDiagnostics`.
abbrev pub no_diagnostics : WebRtcDiagnostics
no_diagnostics = record {
  enabled = false;
  media_available = true;
  keyframe_cached = false;
  media_unavailable_reason = [];
  lan_only = true;
  max_peers = 0;
  sessions_created = 0;
  sessions_closed = 0;
  signaling_errors = 0;
  media_errors = 0;
  last_close_reason = [];
  peers = [];
  recently_closed = [];
}

-- The lambda `write_peer`.
pub peer_document : WebRtcPeerDiagnostics → Node value
peer_document peer = object (
    members_of (
      ("session_id", text peer.session_id)
      ∷ ("peer_state", text peer.peer_state)
      ∷ ("ice_state", text peer.ice_state)
      ∷ ("local_candidate", text peer.local_candidate)
      ∷ ("local_interface", text peer.local_interface)
      ∷ ("selected_interface", text peer.selected_interface)
      ∷ ("connection_age_s", natural peer.connection_age_s)
      ∷ ("bytes_sent", natural peer.bytes_sent)
      ∷ ("packets_sent", natural peer.packets_sent)
      ∷ ("packets_retransmitted", natural peer.packets_retransmitted)
      ∷ ("media_queue_drops", natural peer.media_queue_drops)
      ∷ ("keyframe_events", natural peer.keyframe_events)
      ∷ ("failure_stage", text peer.failure_stage)
      ∷ ("close_reason", text peer.close_reason)
      ∷ ("last_error", text peer.last_error)
      ∷ []))

-- `webrtc_diagnostics_json`.
unfoldable pub webrtc_document : WebRtcDiagnostics → Node value
unfolding peer_document
webrtc_document diagnostics = object (
    members_of (
      ("enabled", json_bool diagnostics.enabled)
      ∷ ("media_available", json_bool diagnostics.media_available)
      ∷ ("media_unavailable_reason", text diagnostics.media_unavailable_reason)
      ∷ ("keyframe_cached", json_bool diagnostics.keyframe_cached)
      ∷ ("lan_only", json_bool diagnostics.lan_only)
      ∷ ("max_peers", natural diagnostics.max_peers)
      ∷ ("active_peers", natural (length diagnostics.peers))
      ∷ ("sessions_created", natural diagnostics.sessions_created)
      ∷ ("sessions_closed", natural diagnostics.sessions_closed)
      ∷ ("signaling_errors", natural diagnostics.signaling_errors)
      ∷ ("media_errors", natural diagnostics.media_errors)
      ∷ ("last_close_reason", text diagnostics.last_close_reason)
      ∷ ("peers", array (items_of peer_document diagnostics.peers))
      ∷ ("recently_closed", array (items_of peer_document diagnostics.recently_closed))
      ∷ []))
