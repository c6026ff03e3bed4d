-- ===== src/WebRtc/Session/Reasons.antt =====
-- The reason that a session is cleaned up for, whatever the order of the library's callbacks.
use skai_edge_native.Common.{
  ℕ, ◌+◌, ◌≡◌, refl, arith, List, [], ◌∷◌, Bool, true, false, not, ◌&&◌, ◌||◌, leb, eqb,
  if◌then◌else◌, codes,
}
use skai_edge_native.WebRtc.Session.{
  WebRtcSession, is_empty, peer_connected, peer_disconnected, peer_failed, peer_closed, peer_other,
  ice_failed, ice_disconnected, ice_other, Callback, describes, gathers, peer_changes, ice_changes,
  call_back, lose_peer, lose_ice, on_state_change, on_ice_state_change, on_local_description,
  on_gathering_state_change, stale_reason,
}

-- The session after these callbacks, the latest first.
abbrev pub after : List Callback → WebRtcSession → WebRtcSession
after [] s = s
after (cb ∷ cbs) s = call_back cb (after cbs s)

abbrev pub is_ice_loss : Callback → Bool
is_ice_loss (ice_changes ice_failed name) = true
is_ice_loss (ice_changes ice_disconnected name) = true
is_ice_loss _ = false

abbrev pub is_peer_loss : Callback → Bool
is_peer_loss (peer_changes peer_failed name now) = true
is_peer_loss (peer_changes peer_disconnected name now) = true
is_peer_loss _ = false

abbrev pub is_close : Callback → Bool
is_close (peer_changes peer_closed name now) = true
is_close _ = false

abbrev pub is_connection : Callback → Bool
is_connection (peer_changes peer_connected name now) = true
is_connection _ = false

abbrev pub any : (Callback → Bool) → List Callback → Bool
any test [] = false
any test (cb ∷ cbs) = test cb || any test cbs

-- No callback has told anything yet.
pub record IsQuiet (s : WebRtcSession) : Type 0 where
  pub failed : s.failed ≡ false
  pub closed : s.closed ≡ false
  pub connected : s.connected ≡ false
  pub failure_stage : s.failure_stage ≡ []
  pub close_reason : s.close_reason ≡ []

-- The stage, by the losses of ICE connectivity and of the peer connection.
abbrev stage : Bool → Bool → List ℕ
stage true peer = codes "ice"
stage false true = codes "peer_connection"
stage false false = []

stage_lem :
    (ice peer : Bool)
    → is_empty (stage ice peer) || eqb (stage ice peer) (codes "peer_connection") ≡ not ice
unfolding eqb
stage_lem true peer = refl
stage_lem false true = refl
stage_lem false false = refl

abbrev stage_of : List Callback → List ℕ
stage_of cbs = stage (any is_ice_loss cbs) (any is_peer_loss cbs)

record IsTold (cbs : List Callback) (s t : WebRtcSession) : Type 0 where
  failed : t.failed ≡ any is_ice_loss cbs || any is_peer_loss cbs
  closed : t.closed ≡ any is_close cbs
  connected : t.connected ≡ any is_connection cbs
  failure_stage : t.failure_stage ≡ stage_of cbs
  close_reason : t.close_reason ≡ []
  answer_ready : t.answer_ready ≡ s.answer_ready
  waits : t.connection_wait_started ≡ s.connection_wait_started

call_back-IsTold :
    (cb : Callback) (cbs : List Callback) (s t : WebRtcSession)
    → IsTold cbs s t
    → IsTold (cb ∷ cbs) s (call_back cb t)
unfolding call_back on_local_description on_gathering_state_change on_state_change
    on_ice_state_change lose_peer lose_ice
call_back-IsTold (describes now) cbs s t v = ground arith
call_back-IsTold (gathers true now) cbs s t v = ground arith
call_back-IsTold (gathers false now) cbs s t v = ground arith
call_back-IsTold (peer_changes peer_connected name now) cbs s t v = ground arith
call_back-IsTold (peer_changes peer_disconnected name now) cbs s t v = ground arith
call_back-IsTold (peer_changes peer_failed name now) cbs s t v = ground arith
call_back-IsTold (peer_changes peer_closed name now) cbs s t v = ground arith
call_back-IsTold (peer_changes peer_other name now) cbs s t v = ground arith
call_back-IsTold (ice_changes ice_failed name) cbs s t v =
    ground (arith, stage_lem (any is_ice_loss cbs) (any is_peer_loss cbs))
call_back-IsTold (ice_changes ice_disconnected name) cbs s t v =
    ground (arith, stage_lem (any is_ice_loss cbs) (any is_peer_loss cbs))
call_back-IsTold (ice_changes ice_other name) cbs s t v = ground arith

after-IsTold : (cbs : List Callback) (s : WebRtcSession) → IsQuiet s → IsTold cbs s (after cbs s)
after-IsTold [] s q = ground arith
after-IsTold (cb ∷ cbs) s q = call_back-IsTold cb cbs s (after cbs s) (after-IsTold cbs s q)

-- What the order of the callbacks leaves.
abbrev pub reason_of : ℕ → ℕ → List Callback → WebRtcSession → List ℕ
reason_of now timeout cbs s =
    if any is_ice_loss cbs
    then codes "ice_failure"
    else if any is_peer_loss cbs
    then codes "peer_connection_failure"
    else if any is_close cbs
    then codes "peer_closed"
    else if s.answer_ready
        && (not (any is_connection cbs) && leb (s.connection_wait_started + timeout) now)
    then codes "connection_timeout"
    else []

-- A session that no callback has told anything yet, after any callbacks in any order: a loss of
-- ICE connectivity is its reason to be cleaned up, whether the peer connection failed before or
-- after it; then a loss of the peer connection, then its close; without them, it is cleaned up
-- exactly if its answer is ready, it never connected and its time is over.
pub stale_reason-after :
    (now timeout : ℕ) (cbs : List Callback) (s : WebRtcSession)
    → IsQuiet s
    → stale_reason now timeout (after cbs s) ≡ reason_of now timeout cbs s
unfolding stale_reason
stale_reason-after now timeout cbs s q = ground (arith, after-IsTold cbs s q)
