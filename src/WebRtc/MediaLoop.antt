-- ===== src/WebRtc/MediaLoop.antt =====
-- `WebRtcSession::media_loop` of src/webrtc/webrtc_manager.cpp: the thread that sends the access
-- units of one session. The queue goes on while a round runs: what it drops before `pop_for` and
-- between `pop_for` and `stats` is an argument of the round, and so is what the track answers. The
-- log, which the code does not have, is what came out of the queue and what was sent, the latest
-- first.
pub mod Gate
mod Tests
use skai_edge_native.Common.{
  ℕ, ◌+◌, ◌-◌, ◌*◌, ◌/◌, ◌%◌, ◌^◌, List, [], ◌∷◌, Option, none, some, Bool, true, false, not, ◌&&◌,
  ◌||◌, max, ltb, leb, ◌==◌, if◌then◌else◌, add32, add64,
}
use skai_edge_native.Media.{EncodedAccessUnit}
use skai_edge_native.Whip.RtpClock.{h264_rtp_timestamp}

-- What happens to the stream: units are missing in front of the next one, a unit leaves the queue,
-- it is sent with an RTP timestamp, or units are missing behind it that the queue dropped before the
-- thread read the counter of drops.
pub data Action : Type 0 where
  misses arrives misses_late : Action
  sends : EncodedAccessUnit → ℕ → Action

-- One round: `pop_for`, the units that the queue dropped since the latest round before it and between
-- it and `stats`, whether the track is open once the wait for it is over, whether `media_running_`
-- holds after that wait, and whether the track takes the unit.
pub record Round : Type 0 where
  pub unit : Option EncodedAccessUnit
  pub missed : ℕ
  pub missed_late : ℕ
  pub is_open : Bool
  pub still_running : Bool
  pub accepts : Bool

-- The local variables of `media_loop`, `media_running_`, the counter of drops of the queue, and the
-- count of media errors.
pub record Sender : Type 0 where
  pub media_running : Bool
  pub waiting_for_keyframe : Bool
  pub timestamp_initialized : Bool
  pub last_pts_ns : ℕ
  pub rtp_timestamp : ℕ
  pub last_timestamp_step : ℕ
  pub observed_queue_drops : ℕ
  pub queue_drops : ℕ
  pub media_errors : ℕ
  pub log : List Action

-- The locals at the start.
pub initial : Sender
initial = record {
  media_running = true;
  waiting_for_keyframe = true;
  timestamp_initialized = false;
  last_pts_ns = 0;
  rtp_timestamp = 0;
  last_timestamp_step = 3_000;
  observed_queue_drops = 0;
  queue_drops = 0;
  media_errors = 0;
  log = [];
}

-- The two tests at the head of a round, the second of which reads the counter.
pub observe : EncodedAccessUnit → Sender → Sender
observe unit s =
    let s1 =
      if unit.discontinuity
      then record s { waiting_for_keyframe = true; timestamp_initialized = false }
      else s in
    if s.queue_drops == s1.observed_queue_drops
    then s1
    else record s1 { observed_queue_drops = s.queue_drops; waiting_for_keyframe = true }

-- The step from a later `pts_ns` of a unit that has no PTS of its own.
converted : ℕ → ℕ
converted delta_ns =
    delta_ns / 1_000_000_000 * 90_000 + delta_ns % 1_000_000_000 * 90_000 / 1_000_000_000

-- The RTP timestamp of the unit.
pub stamp : ℕ → EncodedAccessUnit → Sender → Sender
unfolding converted
stamp start_timestamp unit s =
    let step = max 1 (converted (unit.pts_ns - s.last_pts_ns)) % 2 ^ 32 in
    if unit.has_pts
    then record s { timestamp_initialized = true; rtp_timestamp = h264_rtp_timestamp unit.pts_ns }
    else if not s.timestamp_initialized
    then record s { timestamp_initialized = true; rtp_timestamp = start_timestamp }
    else if ltb s.last_pts_ns unit.pts_ns
    then record s {
      rtp_timestamp = add32 s.rtp_timestamp step;
      last_timestamp_step = if leb step 90_000 then step else s.last_timestamp_step;
    }
    else record s { rtp_timestamp = add32 s.rtp_timestamp s.last_timestamp_step }

-- The rest of a round once the track is open.
pub send : ℕ → EncodedAccessUnit → Round → Sender → Sender
unfolding stamp
send start_timestamp unit r s =
    let stamped = stamp start_timestamp unit (record s { waiting_for_keyframe = false }) in
    let next = record stamped { last_pts_ns = unit.pts_ns } in
    if r.accepts
    then record next { log = sends unit next.rtp_timestamp ∷ next.log }
    else record next { media_errors = next.media_errors + 1; media_running = false }

pub take_unit : ℕ → EncodedAccessUnit → Round → Sender → Sender
unfolding observe
take_unit start_timestamp unit r s =
    let s1 = observe unit s in
    if s1.waiting_for_keyframe && not unit.keyframe
    then s1
    else if r.still_running && r.is_open
    then send start_timestamp unit r s1
    else record s1 { media_running = r.still_running }

-- What leaves the queue, and what its counter shows then.
abbrev pub pop_unit : EncodedAccessUnit → Round → Sender → Sender
pop_unit unit r s =
    let missing = unit.discontinuity || not (r.missed == 0) in
    record s {
      queue_drops = add64 s.queue_drops (r.missed + r.missed_late);
      log = arrives ∷ (if missing then misses ∷ s.log else s.log);
    }

abbrev pub end_round : Round → Sender → Sender
end_round r s = if r.missed_late == 0 then s else record s { log = misses_late ∷ s.log }

-- One round of the loop. Without a unit the counter is not read.
pub round : ℕ → Round → Sender → Sender
round start_timestamp r s = elim r.unit [
  | none ↦ s
  | some unit ↦ end_round r (take_unit start_timestamp unit r (pop_unit unit r s))
]

-- The loop, as long as `media_running_` holds.
pub run : ℕ → List Round → Sender → Sender
run start_timestamp [] s = s
run start_timestamp (r ∷ rs) s =
    let rest = run start_timestamp rs (round start_timestamp r s) in
    if s.media_running then rest else s
