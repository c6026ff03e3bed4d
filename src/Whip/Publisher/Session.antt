-- ===== src/Whip/Publisher/Session.antt =====
-- `WhipPublisher` of src/webrtc/whip_publisher.cpp around `publish_once`, which is what it answers.
-- Each operation is one step.
use skai_edge_native.Common.{
  ℕ, ◌≡◌, arith, List, [], ◌∷◌, Bool, true, false, not, ◌||◌, if◌then◌else◌, codes,
}
use skai_edge_native.BoundedQueue
use skai_edge_native.BoundedQueue.{BoundedQueue}
use skai_edge_native.Media.{EncodedAccessUnit}
use skai_edge_native.Sei.Selector.{SeiSourceResult}

-- `WhipPublisher`, with its `ConnectionMetrics`.
pub record WhipPublisher (D : Type 0) : Type 0 where
  pub enabled : Bool
  pub token : List ℕ
  pub last_error : List ℕ
  pub media_queue : BoundedQueue EncodedAccessUnit
  pub detection_queue : BoundedQueue (SeiSourceResult D)
  pub stopping : Bool
  pub peer_state : List ℕ
  pub ice_state : List ℕ
  pub connection_error : List ℕ

abbrev is_empty : List ℕ → Bool
is_empty [] = true
is_empty (c ∷ cs) = false

module _ {D : Type 0} where
  -- `initialize`, with what `load_token` gives and whether the HTTP client can be set up.
  pub initialize : Bool → List ℕ → Bool → WhipPublisher D → Bool × WhipPublisher D
  initialize enabled token has_client p =
      let state = if enabled then codes "new" else codes "disabled" in
      let fresh : WhipPublisher D = record {
        enabled = enabled;
        token = [];
        last_error = [];
        media_queue = BoundedQueue.reset p.media_queue;
        detection_queue = BoundedQueue.reset p.detection_queue;
        stopping = false;
        peer_state = state;
        ice_state = state;
        connection_error = [];
      } in
      let loaded = record fresh { token = token } in
      if not enabled
      then (true, fresh)
      else if is_empty token
      then (
        false,
        record loaded { last_error = codes "WHIP_TOKEN is required when whip.enabled is true" },
      )
      else if not has_client
      then (false, record loaded { last_error = codes "could not initialize WHIP HTTP client" })
      else (true, loaded)

  pub stop : WhipPublisher D → WhipPublisher D
  stop p = record p {
    stopping = true;
    media_queue = BoundedQueue.shutdown p.media_queue;
    detection_queue = BoundedQueue.shutdown p.detection_queue;
  }

  -- `wait`, once the worker has ended.
  pub wait : WhipPublisher D → WhipPublisher D
  wait p = record p { token = [] }

  pub publish_access_unit : EncodedAccessUnit → WhipPublisher D → WhipPublisher D
  publish_access_unit unit p =
      if not p.enabled || p.stopping
      then p
      else record p { media_queue = (BoundedQueue.push unit p.media_queue).1 }

  pub publish_detections : SeiSourceResult D → WhipPublisher D → WhipPublisher D
  publish_detections result p =
      if not p.enabled || p.stopping
      then p
      else record p { detection_queue = (BoundedQueue.push result p.detection_queue).1 }

-- How `publish_once` ends: it returns, or throws; `UnrecoverableWhipError` is told apart.
pub data Attempt : Type 0 where
  returns : Attempt
  fails : List ℕ → Attempt
  fails_for_good : List ℕ → Attempt

module _ {D : Type 0} where
  -- The handlers of `run`: whether the thread returns, and the publisher.
  pub handle : Attempt → WhipPublisher D → Bool × WhipPublisher D
  handle returns p = (false, p)
  handle (fails error) p = (false, if p.stopping then p else record p { connection_error = error })
  handle (fails_for_good error) p = (
    true,
    record p {
      peer_state = if p.stopping then codes "stopped" else codes "failed";
      ice_state = codes "closed";
      connection_error = if p.stopping then p.connection_error else error;
    },
  )

  -- The rest of a round, and whether the loop ends.
  pub settle : WhipPublisher D → Bool × WhipPublisher D
  settle p =
      if p.stopping
      then (true, record p { peer_state = codes "stopped"; ice_state = codes "closed" })
      else (
        false,
        record p {
          peer_state = codes "retrying";
          ice_state = codes "disconnected";
          media_queue = (BoundedQueue.discard_all p.media_queue).1;
        },
      )

  -- One round of `run`, on the publisher that the attempt leaves.
  pub attempt_round : Attempt → WhipPublisher D → Bool × WhipPublisher D
  attempt_round attempt p =
      let (ends, handled) = handle attempt p in if ends then (true, handled) else settle handled

  -- While the service runs the loop ends only in the state "failed"; once the service stops, no
  -- round is followed by another.
  attempt_round_lem :
      (attempt : Attempt) (p : WhipPublisher D)
      → ((attempt_round attempt p).0 ≡ true
          → p.stopping ≡ false
          → (attempt_round attempt p).1.peer_state ≡ codes "failed")
        × (p.stopping ≡ true → (attempt_round attempt p).0 ≡ true)
  unfolding attempt_round handle settle
  attempt_round_lem returns p = ground arith
  attempt_round_lem (fails error) p = ground arith
  attempt_round_lem (fails_for_good error) p = ground arith
