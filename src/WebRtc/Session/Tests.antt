-- ===== src/WebRtc/Session/Tests.antt =====
-- The concrete time limit of a session.
use skai_edge_native.Common.{◌≡◌, refl, [], false, codes}
use skai_edge_native.BoundedQueue.{BoundedQueue}
use skai_edge_native.Media.{EncodedAccessUnit}
use skai_edge_native.WebRtc.Session.{WebRtcSession, new_session, finish_answer, stale_reason}

abbrev empty_queue : BoundedQueue EncodedAccessUnit
empty_queue = record {
  capacity = 8;
  items = [];
  is_shutdown = false;
  stats = record { pushed = 0; popped = 0; dropped = 0; discarded = 0; high_water_mark = 0 };
}

-- The answer is ready at 100.
abbrev answered : WebRtcSession
unfolding new_session finish_answer
answered = (finish_answer 100 (new_session 1 (codes "a1") empty_queue 7)).1

answered_times_out :
    stale_reason 15_000_000_100 15_000_000_000 answered ≡ codes "connection_timeout"
unfolding stale_reason new_session finish_answer
answered_times_out = refl

answered_waits : stale_reason 15_000_000_099 15_000_000_000 answered ≡ []
unfolding stale_reason new_session finish_answer
answered_waits = refl
