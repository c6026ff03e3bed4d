-- ===== src/WebRtc/Manager/Tests.antt =====
-- A concrete history of the manager, and an instance of its invariant.
use skai_edge_native.Common.{arith, List, [], ◌∷◌, none, some, true, false, codes}
use skai_edge_native.BoundedQueue.{BoundedQueue}
use skai_edge_native.Media.{EncodedAccessUnit}
use skai_edge_native.WebRtc.Session.{peer_failed, peer_changes}
use skai_edge_native.WebRtc.Manager.State.{WebRtcManager}
use skai_edge_native.WebRtc.Manager.State.Valid.{IsCoherent}
use skai_edge_native.WebRtc.Manager.{creates}
use skai_edge_native.WebRtc.Manager.Steps.{
  Op, configures, reserves, rejects, admits, activates, cleans, publishes, calls_back, answers, run,
  run-IsCoherent,
}

-- The members' initial values; the timeout is fifteen seconds.
abbrev fresh_manager : WebRtcManager
fresh_manager = record {
  connection_timeout = 15_000_000_000;
  timeout_overridden = false;
  sessions = [];
  recently_closed = [];
  latest_keyframe = none;
  max_peers = 0;
  media_queue_capacity = 8;
  sessions_created = 0;
  sessions_closed = 0;
  signaling_errors = 0;
  last_close_reason = [];
  media_unavailable_reason = [];
  enabled = false;
  media_available = true;
  stopping = true;
}

fresh_manager-IsCoherent : IsCoherent fresh_manager
fresh_manager-IsCoherent = ground arith

abbrev keyframe : EncodedAccessUnit
keyframe = record {
  sequence = 1;
  pts_ns = 0;
  dts_ns = 0;
  has_pts = true;
  has_dts = false;
  keyframe = true;
  discontinuity = false;
  source_generation = 1;
  bytes = 0 ∷ 1 ∷ [];
}

abbrev empty_queue : BoundedQueue EncodedAccessUnit
empty_queue = record {
  capacity = 8;
  items = [];
  is_shutdown = false;
  stats = record { pushed = 0; popped = 0; dropped = 0; discarded = 0; high_water_mark = 0 };
}

-- Of two viewers, one fails and one is still served; the offer of a third fails.
abbrev history : List Op
history =
    configures true 3 8 10_000
    ∷ publishes keyframe
    ∷ reserves false (codes "a" ∷ []) (creates 1 empty_queue) 5
    ∷ answers 6 (codes "a")
    ∷ admits 1 (codes "a")
    ∷ activates 1 (codes "a") (some keyframe) true
    ∷ reserves false (codes "a" ∷ codes "b" ∷ []) (creates 2 empty_queue) 8
    ∷ reserves false (codes "c" ∷ []) (creates 3 empty_queue) 9
    ∷ rejects (codes "c") (codes "ICE gathering timed out")
    ∷ calls_back (peer_changes peer_failed (codes "failed") 9) (codes "b")
    ∷ cleans 10
    ∷ []

run-IsCoherent_example : IsCoherent (run history fresh_manager)
run-IsCoherent_example = run-IsCoherent history fresh_manager fresh_manager-IsCoherent
