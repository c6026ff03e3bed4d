-- ===== src/Whip/Publisher.antt =====
-- `WhipPublisher::publish_once` of src/webrtc/whip_publisher.cpp from its media loop on, and the loop
-- of `run` around it (Session). Times are nanoseconds of the steady clock. What the connection, the
-- track and the queues answer in a round is an argument.
pub mod Session
pub mod Token
pub mod Gate
mod Tests
use skai_edge_native.Common.{
  ℕ, ◌+◌, List, [], ◌∷◌, Option, none, some, Bool, true, false, not, ◌&&◌, ◌||◌, leb, ◌==◌,
  if◌then◌else◌, codes, ℤ, inc64, add64,
}
use skai_edge_native.Media.{EncodedAccessUnit}
use skai_edge_native.Whip.Peer.{PeerState, is_disconnected, should_reconnect, or_now}
use skai_edge_native.Whip.RtpClock.{Clock, timestamp, make}
use skai_edge_native.Sei.Selector.{SeiSourceResult, SeiResultSelector, add, take_for}
use skai_edge_native.Sei.Insert.{insert_before_first_vcl}

-- One round: the time, the state of the peer, whether the track is open, the unit of `pop_for`, the
-- results that wait, the units that the queue dropped since the latest unit before it and between it
-- and `stats`, and whether the track takes the unit.
pub record Round (D : Type 0) : Type 0 where
  pub now : ℕ
  pub peer : PeerState
  pub track_open : Bool
  pub unit : Option EncodedAccessUnit
  pub results : List (SeiSourceResult D)
  pub missed : ℕ
  pub missed_late : ℕ
  pub accepts : Bool

-- What the loop is given, kept for the statements: a pause, in which the queue is emptied, or a unit
-- with what the queue dropped in front of it, and behind it before `stats`.
pub data Input : Type 0 where
  gap : Input
  offers : ℕ → ℕ → EncodedAccessUnit → Input

-- The bytes given to the track, with their RTP timestamp and the unit that they come from.
pub record Packet : Type 0 where
  pub source : EncodedAccessUnit
  pub rtp_timestamp : ℕ
  pub bytes : List ℕ

-- The local variables of the loop, the counter of drops of the queue, and what came in and went out,
-- the latest first.
pub record Uplink (D : Type 0) : Type 0 where
  pub waiting_for_keyframe : Bool
  pub clock : Clock
  pub media_opened : Bool
  pub awaiting_resume : Bool
  pub track_closed_at : Option ℕ
  pub observed_drops : ℕ
  pub queue_drops : ℕ
  pub connection_deadline : ℕ
  pub detections : SeiResultSelector D
  pub sent_units : ℕ
  pub inputs : List Input
  pub packets : List Packet

-- Ten seconds.
abbrev pub grace : ℕ
grace = 10_000_000_000

-- The locals before the loop, which begins at time `now`.
pub initial : {D : Type 0} → ℕ → ℕ → ℕ → SeiResultSelector D → Uplink D
initial start_timestamp now drops detections = record {
  waiting_for_keyframe = true;
  clock = make start_timestamp;
  media_opened = false;
  awaiting_resume = false;
  track_closed_at = none;
  observed_drops = drops;
  queue_drops = drops;
  connection_deadline = now + 15_000_000_000;
  detections = detections;
  sent_units = 0;
  inputs = [];
  packets = [];
}

-- The round goes on to the next, or throws.
pub data Ending : Type 0 where
  goes_on : Ending
  throws : List ℕ → Ending

module _ {D : Type 0} where
  -- `media_queue_.discard_all()` at the first of these rounds.
  abbrev pub pause : Uplink D → Uplink D
  pause u = record u { awaiting_resume = true; inputs = gap ∷ u.inputs }

  -- The branch of a peer that is disconnected or a track that is not open.
  pub disconnected_round : Round D → Uplink D → Ending × Uplink D
  disconnected_round r u =
      let closed_at = or_now u.track_closed_at r.now in
      if not u.media_opened && leb u.connection_deadline r.now
      then (throws (codes "WHIP media track did not open"), u)
      else if u.media_opened && not r.track_open
      then (if leb (closed_at + grace) r.now
          then (
            throws (codes "WHIP media track remained closed"),
            record u { track_closed_at = some closed_at },
          )
          else (goes_on, pause (record u { track_closed_at = some closed_at })))
      else (goes_on, pause u)

  -- The next round, unless this one threw.
  pub after : Ending → Uplink D → (Uplink D → Ending × Uplink D) → Ending × Uplink D
  after goes_on u rest = rest u
  after (throws error) u rest = (throws error, u)

  abbrev pub resume : Uplink D → Uplink D
  resume u = record u {
    waiting_for_keyframe = u.waiting_for_keyframe || u.awaiting_resume;
    awaiting_resume = false;
    media_opened = true;
    track_closed_at = none;
  }

  abbrev pub add_all : List (SeiSourceResult D) → SeiResultSelector D → SeiResultSelector D
  add_all [] s = s
  add_all (result ∷ results) s = add_all results (add result s)

  -- What leaves the queue, and what its counter shows then.
  abbrev pub pop_unit : EncodedAccessUnit → Round D → Uplink D → Uplink D
  pop_unit unit r u = record u {
    queue_drops = add64 u.queue_drops (r.missed + r.missed_late);
    inputs = offers r.missed r.missed_late unit ∷ u.inputs;
  }

  -- `unit->discontinuity || drops != observed_drops`.
  abbrev pub observe : EncodedAccessUnit → Uplink D → Uplink D
  observe unit u =
      if unit.discontinuity || not (u.queue_drops == u.observed_drops)
      then record u { waiting_for_keyframe = true; observed_drops = u.queue_drops }
      else u

abbrev is_empty : List ℕ → Bool
is_empty [] = true
is_empty (b ∷ bs) = false

module _ {D : Type 0} (scaled : D → ℤ) (greater : D → D → Bool) where
  -- The SEI of a unit with a PTS goes before its first VCL NAL unit.
  pub with_sei : EncodedAccessUnit → SeiResultSelector D → List ℕ × SeiResultSelector D
  with_sei unit s =
      let (sei, rest) = take_for scaled greater unit.pts_ns unit.source_generation s in
      if unit.has_pts
      then (if is_empty sei
          then (unit.bytes, rest)
          else ((insert_before_first_vcl unit.bytes sei).1, rest))
      else (unit.bytes, s)

  pub send : EncodedAccessUnit → Bool → Uplink D → Ending × Uplink D
  unfolding with_sei
  send unit accepts u =
      let (rtp_timestamp, clock) =
        timestamp unit.source_generation unit.has_pts unit.pts_ns u.clock in
      let (bytes, detections) = with_sei unit u.detections in
      let next = record u {
        waiting_for_keyframe = false;
        clock = clock;
        detections = detections;
        packets =
            record { source = unit; rtp_timestamp = rtp_timestamp; bytes = bytes } ∷ u.packets;
      } in
      if accepts
      then (goes_on, record next { sent_units = inc64 u.sent_units })
      else (throws (codes "WHIP media track rejected an access unit"), next)

  -- The round from the test for a keyframe on.
  pub offer : EncodedAccessUnit → Bool → Uplink D → Ending × Uplink D
  offer unit accepts u =
      if u.waiting_for_keyframe && not unit.keyframe then (goes_on, u) else send unit accepts u

  pub take_unit : Option EncodedAccessUnit → Round D → Uplink D → Ending × Uplink D
  take_unit none r u = (goes_on, u)
  take_unit (some unit) r u = offer unit r.accepts (observe unit (pop_unit unit r u))

  pub round : Round D → Uplink D → Ending × Uplink D
  unfolding take_unit
  round r u =
      let resumed = resume u in
      let ready = record resumed { detections = add_all r.results resumed.detections } in
      if should_reconnect r.now grace r.peer
      then (throws (codes "WHIP ICE connection failed or remained disconnected"), u)
      else if is_disconnected r.peer || not r.track_open
      then disconnected_round r u
      else take_unit r.unit r ready

  -- The loop, for the rounds until the service stops.
  pub run : List (Round D) → Uplink D → Ending × Uplink D
  unfolding after
  run [] u = (goes_on, u)
  run (r ∷ rs) u = let (ending, next) = round r u in after ending next (run rs)
