-- ===== src/RtspRecovery/Tests.antt =====
-- Runs of the retry policy on concrete calls, and an instance of its theorem.
use skai_edge_native.Common.{◌≡◌, refl, List, [], ◌∷◌, ◌++◌, some, none, arith}
use skai_edge_native.RtspRecovery.{
  Recovery, connected, make, backoff, fail, run, Call, begins, frames, fails, retries,
}
use skai_edge_native.RtspRecovery.History.{run-fail_delay}

-- A stall timeout of 3 s and delays of 1 s to 5 s.
abbrev policy : Recovery
policy = record {
  stall_timeout = 3000;
  reconnect_delay = 1000;
  max_reconnect_delay = 5000;
  health = connected;
  last_frame = some 0;
  degraded_until = none;
  next_retry = 0;
  failure_streak = 2;
  reconnect_count = 0;
}

abbrev lost_twice : List Call
lost_twice = begins ∷ frames 10 ∷ fails 20 ∷ retries 1_000_000_020 ∷ fails 1_000_000_030 ∷ []

third_failure : (fail 7 policy).next_retry ≡ 4_000_000_007
unfolding fail backoff
third_failure = refl

run-fail_delay_example :
    (run (lost_twice ++ fails 40 ∷ []) (make 3000 1000 5000)).next_retry ≡ 4_000_000_040
run-fail_delay_example = run-fail_delay 3000 1000 5000 lost_twice 40 (omega arith)
