-- ===== src/RtspSource/Tests.antt =====
-- A worker that loses its pipeline and opens it again, and an instance of the theorem on it.
use skai_edge_native.Common.{
  ℕ, Bool, ◌≡◌, refl, List, [], ◌∷◌, none, some, true, false, arith, codes, eqb,
}
use skai_edge_native.BoundedQueue.{BoundedQueue, zero_stats, push, trim, discard_all}
use skai_edge_native.Media.{EncodedAccessUnit}
use skai_edge_native.RtspRecovery.{
  make, begin, frame, packet_loss, check_stall, backoff, fail, retry, stop,
}
use skai_edge_native.RtspSource.{
  Frame, RtspSource, publish_media_status, is_known, publish_recovery, set_error,
}
use skai_edge_native.RtspSource.Caps.{incompatibility, level_reason, supported_level}
use skai_edge_native.RtspSource.Capture.{
  Sample, VideoSample, unit_of, capture_buffer, capture_compatible, capture_access_unit,
  capture_all, is_usable, frame_of, capture_sample, observe, read_jitter_stats,
}
use skai_edge_native.RtspSource.Start.{make_source, launched, reset_source, start}
use skai_edge_native.RtspSource.Worker.{
  opens, Poll, Event, attempts, polls, connects, requests_stop, run, reopen, close_pipeline, finish,
  fail_attempt, end_attempt, opened, attempt, capture_video, check_round, capture_round,
  poll_pipeline, connect_pad, attempt_in, poll_in, step,
}
use skai_edge_native.RtspSource.Orderly.{IsOrderly}
use skai_edge_native.RtspSource.Orderly.Started.{run-start-IsOrderly}

abbrev no_frames_yet : BoundedQueue Frame
no_frames_yet = record { capacity = 2; items = []; stats = zero_stats; is_shutdown = false }

-- The durations of the configuration are 10 s, 3 s, 1 s and 5 s.
abbrev source : RtspSource
source = (start false none true none 10000 3000 1000 5000 (make_source no_frames_yet none)).1

abbrev sample : Sample
sample = record {
  caps =
      some (record { profile = some (codes "constrained-baseline"); level = some (codes "3.1") });
  buffer = some (record {
    pts = some 5;
    dts = none;
    delta_unit = false;
    discont = false;
    bytes = 1 ∷ [];
    throws = false;
  });
}

abbrev video : VideoSample
video = record {
  mapped = true;
  now = 2_000_000;
  pts = none;
  width = 2;
  height = 2;
  stride = 6;
  shows = true;
}

abbrev good_poll : Poll
good_poll = record {
  bus = none;
  earlier = sample ∷ sample ∷ [];
  video = some video;
  later = [];
  stats = some (1, 0, 0);
  now = 3_000_000;
  ended = 3_000_000;
  interrupted = false;
}

abbrev bad_poll : Poll
bad_poll = record good_poll { bus = some (codes "end of stream") }

abbrev events : List Event
events =
    attempts 1_000_000 (opens 1_500_000)
    ∷ connects (codes "H264") (codes "avdec_h264") none
    ∷ polls good_poll
    ∷ polls bad_poll
    ∷ attempts 2_000_000_000 (opens 2_500_000_000)
    ∷ polls good_poll
    ∷ requests_stop
    ∷ []

abbrev units : List EncodedAccessUnit → List (ℕ × Bool)
units [] = []
units (u ∷ us) = (u.source_generation, u.discontinuity) ∷ units us

baseline_3_1 : incompatibility sample.caps ≡ none
unfolding incompatibility supported_level eqb
baseline_3_1 = refl

-- The first units of both pipelines are marked, and the others are not.
marks : units (run true events source).sent ≡ (2, false) ∷ (2, true) ∷ (1, false) ∷ (1, true) ∷ []
unfolding run step attempt_in poll_in attempt opened reopen poll_pipeline capture_round
    capture_video capture_sample is_usable check_round end_attempt fail_attempt finish
    close_pipeline connect_pad capture_all capture_access_unit capture_compatible capture_buffer
    unit_of incompatibility level_reason supported_level publish_media_status is_known
    publish_recovery set_error read_jitter_stats observe start launched reset_source make_source
    begin make frame packet_loss check_stall fail backoff retry stop push trim discard_all frame_of
    eqb
marks = refl

run-start-IsOrderly_example : IsOrderly 2 (run true events source)
run-start-IsOrderly_example =
    run-start-IsOrderly no_frames_yet none refl false none true none 10000 3000 1000 5000 true
      events (omega arith)
