-- ===== src/RtspSource/Orderly/Started.antt =====
-- A source from its construction on.
use skai_edge_native.Common.{ℕ, ◌+◌, ◌^◌, ◌<◌, ◌≡◌, List, Option, Bool, true, arith}
use skai_edge_native.BoundedQueue.{BoundedQueue}
use skai_edge_native.Media.{EncodedAccessUnit}
use skai_edge_native.RtspSource.{Frame, RtspSource, publish_media_status, is_known}
use skai_edge_native.RtspSource.Start.{make_source, launched, reset_source, start}
use skai_edge_native.RtspSource.Worker.{Event, run}
use skai_edge_native.RtspSource.Orderly.{IsOrderly, all_current-none, no_frames}
use skai_edge_native.RtspSource.Orderly.Runs.{openings, run-IsOrderly}

equal_limit :
    (limit other : ℕ) (s : RtspSource) → limit ≡ other → IsOrderly limit s → IsOrderly other s
equal_limit limit other s e v = ground arith

module _ (frames : BoundedQueue Frame) (encoded : Option (BoundedQueue EncodedAccessUnit))
    (empty : no_frames frames.items ≡ true) where
  make_source-IsOrderly : IsOrderly 0 (make_source frames encoded)
  unfolding make_source
  make_source-IsOrderly = ground (arith, all_current-none 0 frames.items empty)

  start-IsOrderly :
      (joinable : Bool) (invalid : Option (List ℕ)) (initialized : Bool) (failure : Option (List ℕ))
      (first_frame_timeout stall_timeout delay max_delay : ℕ)
      → IsOrderly 0
          (start joinable invalid initialized failure first_frame_timeout stall_timeout delay
            max_delay
            (make_source frames encoded)).1
  unfolding start launched reset_source make_source publish_media_status is_known
  start-IsOrderly joinable invalid initialized failure t u d m =
      ground (arith, all_current-none 0 frames.items empty)

  -- Whatever `start` answers on a new source whose queue of frames is empty, and whatever happens
  -- then, with fewer than 2^64 attempts: the first access unit of each pipeline is marked as a
  -- discontinuity, the media status sink knows the last status and was only told changes, and the
  -- queue of frames holds frames of the current pipeline alone, and none between attempts.
  pub run-start-IsOrderly :
      (joinable : Bool) (invalid : Option (List ℕ)) (initialized : Bool) (failure : Option (List ℕ))
      (first_frame_timeout stall_timeout delay max_delay : ℕ) (enqueue : Bool) (es : List Event)
      → openings es < 2 ^ 64
      → IsOrderly (openings es) (
          run enqueue es
            (start joinable invalid initialized failure first_frame_timeout stall_timeout delay
              max_delay
              (make_source frames encoded)).1)
  run-start-IsOrderly joinable invalid initialized failure t u d m enqueue es h =
      let begun =
        (start joinable invalid initialized failure t u d m (make_source frames encoded)).1 in
      equal_limit (openings es + 0) (openings es) (run enqueue es begun) (omega arith) (
        run-IsOrderly enqueue es 0 begun (omega arith)
          (start-IsOrderly joinable invalid initialized failure t u d m))
