-- ===== src/RtspSource/Worker.antt =====
-- `capture_loop` of src/video/rtsp_source.cpp, with the parts of `open_pipeline`, `close_pipeline` and
-- `connect_rtp_pad` that are not GStreamer's.
use skai_edge_native.Common.{
  ℕ, ◌+◌, List, [], ◌∷◌, Option, none, some, Bool, true, false, not, ◌&&◌, ◌||◌, ltb, leb, eqb,
  if◌then◌else◌, inc64, codes,
}
use skai_edge_native.BoundedQueue.{BoundedQueue, discard_all}
use skai_edge_native.Media.{EncodedAccessUnit}
use skai_edge_native.RtspRecovery.{ms, check_stall, fail, retry, stop}
use skai_edge_native.RtspSource.{
  RtspSource, Phase, waiting, capturing, finished, publish_media_status, set_error,
  publish_recovery, is_error,
}
use skai_edge_native.RtspSource.Capture.{
  Sample, VideoSample, capture_all, capture_sample, read_jitter_stats,
}

-- How `open_pipeline` ends, with the time; `interrupted` says that the stop was requested in it.
pub data Opening : Type 0 where
  opens : ℕ → Opening
  fails : Bool → List ℕ → ℕ → Opening

-- One round of the inner loop: an error or the end of the stream on the bus, the samples before and
-- after the decoded one, the statistics, the time of the checks, that of a failure, and whether the
-- stop was requested before that.
pub record Poll : Type 0 where
  pub bus : Option (List ℕ)
  pub earlier : List Sample
  pub video : Option VideoSample
  pub later : List Sample
  pub stats : Option (ℕ × ℕ × ℕ)
  pub now : ℕ
  pub ended : ℕ
  pub interrupted : Bool

-- The start of `open_pipeline`.
unfoldable pub reopen : RtspSource → RtspSource
reopen s =
    publish_media_status false (codes "RTSP source is reconnecting")
      (record s { first_access_unit = true; pipeline_generation = inc64 s.pipeline_generation })

-- What `close_pipeline` resets.
unfoldable pub close_pipeline : RtspSource → RtspSource
close_pipeline s = record s { lost_high_water = 0; late_high_water = 0 }

-- The end of `capture_loop`.
unfoldable pub finish : RtspSource → RtspSource
finish s = record (publish_recovery (record (close_pipeline s) { recovery = stop s.recovery })) {
  running = false;
  phase = finished;
}

-- `set_error`, `fail` and `publish_recovery`, before the next attempt.
unfoldable pub fail_attempt : List ℕ → ℕ → RtspSource → RtspSource
fail_attempt message now s =
    record (publish_recovery (record (set_error message s) { recovery = fail now s.recovery })) {
      phase = waiting false;
    }

abbrev pub discarded :
    Option (BoundedQueue EncodedAccessUnit) → Option (BoundedQueue EncodedAccessUnit)
discarded none = none
discarded (some q) = some (discard_all q).1

-- The end of an attempt, by an error or a stop; what is in the queues is of an old pipeline.
unfoldable pub end_attempt : Bool → List ℕ → ℕ → RtspSource → RtspSource
end_attempt interrupted message now s =
    if interrupted
    then finish (close_pipeline s)
    else fail_attempt message now (record (close_pipeline s) {
      frames = (discard_all s.frames).1;
      encoded = discarded s.encoded;
    })

unfoldable pub opened : Opening → RtspSource → RtspSource
opened (opens now) s = record s { phase = capturing now false }
opened (fails true message now) s = finish (close_pipeline s)
opened (fails false message now) s = fail_attempt message now (close_pipeline s)

-- The head of the outer loop up to `open_pipeline`; a wait for the next retry that is not over
-- changes nothing.
unfoldable pub attempt : Bool → ℕ → Opening → RtspSource → RtspSource
unfolding opened
attempt first now opening s =
    let recovered = if first then s.recovery else retry now s.recovery in
    let begun = publish_recovery (record s { recovery = recovered; codec = []; decoder = [] }) in
    if not s.running
    then finish s
    else if not first && ltb now s.recovery.next_retry
    then s
    else opened opening (reopen begun)

abbrev pub frame_timeout : List ℕ
frame_timeout = codes "RTSP source did not receive a video frame before timeout"

abbrev pub no_fresh_frames : List ℕ
no_fresh_frames = codes "RTSP source stalled: no fresh frames"

unfoldable pub capture_video : Bool → Option VideoSample → RtspSource → Bool × RtspSource
capture_video enqueue_frames none s = (false, s)
capture_video enqueue_frames (some v) s = capture_sample enqueue_frames v s

-- The checks at the end of a round.
unfoldable pub check_round : ℕ → Bool → Poll → RtspSource → RtspSource
check_round started received p s =
    let stalled = publish_recovery (record s { recovery = (check_stall p.now s.recovery).1 }) in
    if not received && leb (started + ms s.first_frame_timeout) p.now
    then end_attempt p.interrupted frame_timeout p.ended s
    else if (check_stall p.now s.recovery).0
    then end_attempt p.interrupted no_fresh_frames p.ended stalled
    else record s { phase = capturing started received }

-- A round after the tests on errors.
unfoldable pub capture_round : Bool → ℕ → Bool → Poll → RtspSource → RtspSource
unfolding capture_video
capture_round enqueue_frames started received p s =
    let (captured, shown) = capture_video enqueue_frames p.video (capture_all p.earlier s) in
    check_round started (captured || received) p
      (read_jitter_stats p.now p.stats (capture_all p.later shown))

-- One round of the inner loop.
unfoldable pub poll_pipeline : Bool → ℕ → Bool → Poll → RtspSource → RtspSource
poll_pipeline enqueue_frames started received p s =
    if not s.running
    then finish (close_pipeline s)
    else if is_error s.health
    then end_attempt p.interrupted s.last_error p.ended s
    else elim p.bus [
      | some detail ↦ end_attempt p.interrupted detail p.ended s
      | none ↦ capture_round enqueue_frames started received p s
    ]

-- The callback of a pad with video: the codec and the decoder, or the error of a chain that cannot be
-- built; other pads, and pads after the first, do nothing.
unfoldable pub connect_pad : List ℕ → List ℕ → Option (List ℕ) → RtspSource → RtspSource
connect_pad codec decoder (some message) s = set_error message s
connect_pad codec decoder none s =
    let connected = record s { codec = codec; decoder = decoder } in
    if eqb codec (codes "H264")
    then connected
    else publish_media_status false (codes "recording and WebRTC require H.264 input") connected

pub data Event : Type 0 where
  attempts : ℕ → Opening → Event
  polls : Poll → Event
  connects : List ℕ → List ℕ → Option (List ℕ) → Event
  new_jitterbuffer requests_stop : Event

module _ (enqueue_frames : Bool) where
  unfoldable pub attempt_in : Phase → ℕ → Opening → RtspSource → RtspSource
  attempt_in (waiting first) now opening s = attempt first now opening s
  attempt_in (capturing started received) now opening s = s
  attempt_in finished now opening s = s

  unfoldable pub poll_in : Phase → Poll → RtspSource → RtspSource
  poll_in (waiting first) p s = s
  poll_in (capturing started received) p s = poll_pipeline enqueue_frames started received p s
  poll_in finished p s = s

  -- One event; an event of another phase than the worker's does not occur, and changes nothing.
  unfoldable pub step : Event → RtspSource → RtspSource
  unfolding attempt_in poll_in
  step (attempts now opening) s = attempt_in s.phase now opening s
  step (polls p) s = poll_in s.phase p s
  step (connects codec decoder failure) s = connect_pad codec decoder failure s
  step new_jitterbuffer s = record s { lost_high_water = 0; late_high_water = 0 }
  step requests_stop s = record s { running = false }

  unfoldable pub run : List Event → RtspSource → RtspSource
  run [] s = s
  run (e ∷ es) s = run es (step e s)
