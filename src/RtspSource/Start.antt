-- ===== src/RtspSource/Start.antt =====
-- The construction of `RtspSource` of src/video/rtsp_source.cpp, its `start` and the end of its `stop`.
use skai_edge_native.Common.{
  ℕ, List, [], Option, none, some, Bool, true, false, if◌then◌else◌, codes,
}
use skai_edge_native.BoundedQueue.{BoundedQueue}
use skai_edge_native.Media.{EncodedAccessUnit}
use skai_edge_native.RtspRecovery.{make, begin, connecting, stopped}
use skai_edge_native.RtspSource.{Frame, RtspSource, waiting, finished, publish_media_status}

-- The constructor, with the queues. There is no worker yet, and nothing reads the recovery policy
-- before there is one.
unfoldable pub make_source :
    BoundedQueue Frame → Option (BoundedQueue EncodedAccessUnit) → RtspSource
make_source frames encoded = record {
  running = false;
  phase = finished;
  first_frame_timeout = 0;
  recovery = make 0 0 0;
  health = stopped;
  last_error = [];
  codec = [];
  decoder = [];
  reconnect_count = 0;
  frames_received = 0;
  packets_lost = 0;
  packets_late = 0;
  avg_jitter_ns = 0;
  lost_high_water = 0;
  late_high_water = 0;
  last_frame_time = none;
  video_shown = false;
  media_status = none;
  told = [];
  access_unit_sequence = 0;
  first_access_unit = true;
  pipeline_generation = 0;
  sent = [];
  frames = frames;
  encoded = encoded;
}

-- The rest of `start`, with the exception when there is no thread, and the durations of the configuration.
unfoldable pub launched :
    Option (List ℕ) → ℕ → ℕ → ℕ → ℕ → RtspSource → Option (List ℕ) × RtspSource
launched (some failure) first_frame_timeout stall_timeout delay max_delay s = (some failure, s)
launched none first_frame_timeout stall_timeout delay max_delay s = (
  none,
  record s {
    running = true;
    phase = waiting true;
    first_frame_timeout = first_frame_timeout;
    recovery = begin (make stall_timeout delay max_delay);
  },
)

-- The reset in `start`.
unfoldable pub reset_source : RtspSource → RtspSource
reset_source s =
    record (publish_media_status false (codes "waiting for a browser-compatible H.264 source")
      (record s { video_shown = false; access_unit_sequence = 0 })) {
        health = connecting;
        last_error = [];
        codec = [];
        decoder = [];
        reconnect_count = 0;
        frames_received = 0;
        packets_lost = 0;
        packets_late = 0;
        avg_jitter_ns = 0;
        last_frame_time = none;
      }

-- `start`: the error, if there is one. The first three are whether there is a worker, what is wrong
-- with the configuration, and whether GStreamer is initialized.
unfoldable pub start :
    Bool
    → Option (List ℕ)
    → Bool
    → Option (List ℕ)
    → ℕ
    → ℕ
    → ℕ
    → ℕ
    → RtspSource
    → Option (List ℕ) × RtspSource
unfolding launched reset_source
start joinable invalid initialized failure first_frame_timeout stall_timeout delay max_delay s =
    if joinable then (some (codes "RTSP source is already running"), s) else elim invalid [
      | some e ↦ (some e, s)
      | none ↦
          if initialized
          then launched failure first_frame_timeout stall_timeout delay max_delay (reset_source s)
          else (some (codes "GStreamer must be initialized before the RTSP source"), s)
    ]

-- What `stop` does after the worker has been joined.
unfoldable pub joined : RtspSource → RtspSource
joined s = record s { health = stopped; video_shown = false }
