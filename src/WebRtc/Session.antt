-- ===== src/WebRtc/Session.antt =====
-- `WebRtcSession` of src/webrtc/webrtc_manager.cpp. Callbacks and methods hold the session's mutex,
-- so each is one step. Times are nanoseconds of the steady clock, 0 being the default time point;
-- the names of the library's states are arguments.
pub mod Identity
pub mod Reasons
mod Tests
use skai_edge_native.Common.{
  ℕ, ◌+◌, List, [], ◌∷◌, ◌++◌, Option, none, some, Bool, true, false, not, ◌&&◌, ◌||◌, leb, eqb,
  if◌then◌else◌, codes, is_some,
}
use skai_edge_native.BoundedQueue
use skai_edge_native.BoundedQueue.{BoundedQueue}
use skai_edge_native.Media.{EncodedAccessUnit}

-- `WebRtcSession`; `has_peer` is `peer_ != nullptr`, and `serial` tells objects apart.
pub record WebRtcSession : Type 0 where
  pub serial : ℕ
  pub id : List ℕ
  pub has_peer : Bool
  pub media_queue : BoundedQueue EncodedAccessUnit
  pub media_running : Bool
  pub last_activity : ℕ
  pub connected_at : ℕ
  pub connection_wait_started : ℕ
  pub peer_state : List ℕ
  pub ice_state : List ℕ
  pub failure_stage : List ℕ
  pub close_reason : List ℕ
  pub last_error : List ℕ
  pub local_description_ready : Bool
  pub gathering_complete : Bool
  pub connected : Bool
  pub answer_ready : Bool
  pub failed : Bool
  pub closed : Bool
  pub cleanup_started : Bool

abbrev pub is_empty : List ℕ → Bool
is_empty [] = true
is_empty (c ∷ cs) = false

-- The constructor, at time `now`.
pub new_session : ℕ → List ℕ → BoundedQueue EncodedAccessUnit → ℕ → WebRtcSession
new_session serial id queue now = record {
  serial = serial;
  id = id;
  has_peer = true;
  media_queue = queue;
  media_running = false;
  last_activity = now;
  connected_at = 0;
  connection_wait_started = 0;
  peer_state = codes "new";
  ice_state = codes "new";
  failure_stage = [];
  close_reason = [];
  last_error = [];
  local_description_ready = false;
  gathering_complete = false;
  connected = false;
  answer_ready = false;
  failed = false;
  closed = false;
  cleanup_started = false;
}

-- The states of `rtc::PeerConnection`, as far as the callbacks tell them apart.
pub data PeerState : Type 0 where
  peer_connected peer_disconnected peer_failed peer_closed peer_other : PeerState

pub data IceState : Type 0 where
  ice_failed ice_disconnected ice_other : IceState

-- `onLocalDescription`.
pub on_local_description : ℕ → WebRtcSession → WebRtcSession
on_local_description now s = record s { local_description_ready = true; last_activity = now }

-- `onGatheringStateChange`; the flag says that the state is Complete.
pub on_gathering_state_change : Bool → ℕ → WebRtcSession → WebRtcSession
on_gathering_state_change false now s = s
on_gathering_state_change true now s = record s { gathering_complete = true; last_activity = now }

-- The branch for a lost peer: an earlier stage is kept.
lose_peer : List ℕ → WebRtcSession → WebRtcSession
lose_peer error s =
    if is_empty s.failure_stage
    then record s { failed = true; failure_stage = codes "peer_connection"; last_error = error }
    else record s { failed = true }

-- `onStateChange`, with the name of the state.
pub on_state_change : PeerState → List ℕ → ℕ → WebRtcSession → WebRtcSession
unfolding lose_peer
on_state_change peer_connected name now s = record s {
  peer_state = name;
  connected = true;
  connected_at = now;
  last_activity = now;
}
on_state_change peer_failed name now s =
    lose_peer (codes "PeerConnection failed") (record s { peer_state = name })
on_state_change peer_disconnected name now s =
    lose_peer (codes "PeerConnection disconnected") (record s { peer_state = name })
on_state_change peer_closed name now s = record s { peer_state = name; closed = true }
on_state_change peer_other name now s = record s { peer_state = name }

-- The branch for lost connectivity, which replaces the stage "peer_connection".
lose_ice : List ℕ → WebRtcSession → WebRtcSession
lose_ice error s =
    if is_empty s.failure_stage || eqb s.failure_stage (codes "peer_connection")
    then record s { failed = true; failure_stage = codes "ice"; last_error = error }
    else record s { failed = true }

-- `onIceStateChange`.
pub on_ice_state_change : IceState → List ℕ → WebRtcSession → WebRtcSession
unfolding lose_ice
on_ice_state_change ice_failed name s =
    lose_ice (codes "ICE connectivity failed") (record s { ice_state = name })
on_ice_state_change ice_disconnected name s =
    lose_ice (codes "ICE disconnected") (record s { ice_state = name })
on_ice_state_change ice_other name s = record s { ice_state = name }

-- The predicate of the wait of `accept_offer`.
pub answer_waits_over : WebRtcSession → Bool
answer_waits_over s = (s.local_description_ready && s.gathering_complete) || (s.failed || s.closed)

-- The last critical section of `accept_offer`, when there is an answer.
pub finish_answer : ℕ → WebRtcSession → Bool × WebRtcSession
finish_answer now s =
    if s.closed || s.failed
    then (false, s)
    else (true, record s { answer_ready = true; connection_wait_started = now })

-- `close_with_reason`; the queue is shut down with it.
pub close_with_reason : List ℕ → WebRtcSession → WebRtcSession
close_with_reason reason s = if s.cleanup_started then s else record s {
  cleanup_started = true;
  closed = true;
  peer_state = codes "closed";
  close_reason = if is_empty s.close_reason then reason else s.close_reason;
  media_running = false;
  has_peer = false;
  media_queue = BoundedQueue.shutdown s.media_queue;
}

push_initial :
    Option EncodedAccessUnit → BoundedQueue EncodedAccessUnit → BoundedQueue EncodedAccessUnit
push_initial none q = q
push_initial (some unit) q = (BoundedQueue.push unit q).1

-- `activate_media`; `launches` says whether the thread can be created.
pub activate_media : Bool → Option EncodedAccessUnit → WebRtcSession → Bool × WebRtcSession
unfolding push_initial
activate_media launches initial s =
    let ready = push_initial initial (BoundedQueue.reset s.media_queue) in
    if s.closed || s.cleanup_started
    then (false, s)
    else if launches
    then (true, record s { media_queue = ready; media_running = true })
    else (false, record s { media_queue = BoundedQueue.shutdown ready; media_running = false })

-- `enqueue`.
pub enqueue : EncodedAccessUnit → WebRtcSession → WebRtcSession
enqueue unit s =
    if s.media_running
    then record s { media_queue = (BoundedQueue.push unit s.media_queue).1 }
    else s

-- `record_failure`.
pub record_failure : List ℕ → List ℕ → Bool → WebRtcSession → WebRtcSession
record_failure stage error preserve_specific s =
    if preserve_specific && not (is_empty s.failure_stage)
    then s
    else record s { failure_stage = stage; last_error = error; failed = true }

-- `record_media_error`, but for the manager's counter.
pub record_media_error : List ℕ → WebRtcSession → WebRtcSession
record_media_error error s = record_failure (codes "media") error false s

-- `stale_reason`; the empty text means that the session is kept.
pub stale_reason : ℕ → ℕ → WebRtcSession → List ℕ
stale_reason now timeout s =
    if s.failed
    then (if is_empty s.failure_stage
        then codes "peer_failure"
        else s.failure_stage ++ codes "_failure")
    else if s.closed
    then (if is_empty s.close_reason then codes "peer_closed" else s.close_reason)
    else if s.answer_ready && (not s.connected && leb (s.connection_wait_started + timeout) now)
    then codes "connection_timeout"
    else []

-- A callback of the library.
pub data Callback : Type 0 where
  describes : ℕ → Callback
  gathers : Bool → ℕ → Callback
  peer_changes : PeerState → List ℕ → ℕ → Callback
  ice_changes : IceState → List ℕ → Callback

pub call_back : Callback → WebRtcSession → WebRtcSession
unfolding on_local_description on_gathering_state_change on_state_change on_ice_state_change
call_back (describes now) s = on_local_description now s
call_back (gathers complete now) s = on_gathering_state_change complete now s
call_back (peer_changes state name now) s = on_state_change state name now s
call_back (ice_changes state name) s = on_ice_state_change state name s
