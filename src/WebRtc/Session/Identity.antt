-- ===== src/WebRtc/Session/Identity.antt =====
-- No operation on a session changes its id.
use skai_edge_native.Common.{ℕ, ◌≡◌, refl, arith, List, Option, Bool, true, false}
use skai_edge_native.BoundedQueue.{BoundedQueue}
use skai_edge_native.Media.{EncodedAccessUnit}
use skai_edge_native.WebRtc.Session.{
  WebRtcSession, new_session, on_local_description, on_gathering_state_change, lose_peer,
  on_state_change, lose_ice, on_ice_state_change, Callback, describes, gathers, peer_changes,
  ice_changes, call_back, finish_answer, close_with_reason, activate_media, enqueue, record_failure,
  record_media_error, peer_connected, peer_disconnected, peer_failed, peer_closed, peer_other,
  ice_failed, ice_disconnected, ice_other,
}

pub id-new_session :
    (serial : ℕ) (id : List ℕ) (queue : BoundedQueue EncodedAccessUnit) (now : ℕ)
    → (new_session serial id queue now).id ≡ id
unfolding new_session
id-new_session serial id queue now = refl

pub id-enqueue : (unit : EncodedAccessUnit) (s : WebRtcSession) → (enqueue unit s).id ≡ s.id
unfolding enqueue
id-enqueue unit s = ground arith

pub id-close_with_reason :
    (reason : List ℕ) (s : WebRtcSession) → (close_with_reason reason s).id ≡ s.id
unfolding close_with_reason
id-close_with_reason reason s = ground arith

pub id-activate_media :
    (launches : Bool) (initial : Option EncodedAccessUnit) (s : WebRtcSession)
    → (activate_media launches initial s).1.id ≡ s.id
unfolding activate_media
id-activate_media launches initial s = ground arith

pub id-finish_answer : (now : ℕ) (s : WebRtcSession) → (finish_answer now s).1.id ≡ s.id
unfolding finish_answer
id-finish_answer now s = ground arith

pub id-record_media_error :
    (error : List ℕ) (s : WebRtcSession) → (record_media_error error s).id ≡ s.id
unfolding record_media_error record_failure
id-record_media_error error s = ground arith

pub id-call_back : (cb : Callback) (s : WebRtcSession) → (call_back cb s).id ≡ s.id
unfolding call_back on_local_description on_gathering_state_change on_state_change
    on_ice_state_change lose_peer lose_ice
id-call_back (describes now) s = refl
id-call_back (gathers true now) s = refl
id-call_back (gathers false now) s = refl
id-call_back (peer_changes peer_connected name now) s = refl
id-call_back (peer_changes peer_disconnected name now) s = ground arith
id-call_back (peer_changes peer_failed name now) s = ground arith
id-call_back (peer_changes peer_closed name now) s = refl
id-call_back (peer_changes peer_other name now) s = refl
id-call_back (ice_changes ice_failed name) s = ground arith
id-call_back (ice_changes ice_disconnected name) s = ground arith
id-call_back (ice_changes ice_other name) s = refl
