-- ===== src/RtspRecovery.antt =====
-- include/skai/video/rtsp_recovery.hpp: the frame-freshness and retry policy of the RTSP source.
-- A time point is a number of nanoseconds of the steady clock, the three configured durations are
-- numbers of milliseconds, and the policy is called by one worker, so a call is one step.
pub mod Backoff
pub mod History
mod Tests
use skai_edge_native.Common.{
  ℕ, zero, suc, ◌+◌, ◌-◌, ◌*◌, ◌≡◌, List, [], ◌∷◌, Option, none, some, Bool, true, false, ◌&&◌,
  ◌||◌, min, ltb, leb, ◌==◌, if◌then◌else◌, inc32, inc64,
}

-- `SourceHealth`.
pub data SourceHealth : Type 0 where
  stopped connecting connected degraded stalled reconnecting error : SourceHealth

-- `RtspRecovery`, its configuration first.
pub record Recovery : Type 0 where
  pub stall_timeout : ℕ
  pub reconnect_delay : ℕ
  pub max_reconnect_delay : ℕ
  pub health : SourceHealth
  pub last_frame : Option ℕ
  pub degraded_until : Option ℕ
  pub next_retry : ℕ
  pub failure_streak : ℕ
  pub reconnect_count : ℕ

-- Nanoseconds of a duration in milliseconds, and of one second.
abbrev pub ms : ℕ → ℕ
ms n = n * 1_000_000

abbrev pub one_second : ℕ
one_second = 1_000_000_000

-- The constructor, with the default member initialisers.
unfoldable pub make : ℕ → ℕ → ℕ → Recovery
make stall_timeout reconnect_delay max_reconnect_delay = record {
  stall_timeout = stall_timeout;
  reconnect_delay = reconnect_delay;
  max_reconnect_delay = max_reconnect_delay;
  health = stopped;
  last_frame = none;
  degraded_until = none;
  next_retry = 0;
  failure_streak = 0;
  reconnect_count = 0;
}

unfoldable pub begin : Recovery → Recovery
begin r = record r {
  health = connecting;
  last_frame = none;
  degraded_until = none;
  failure_streak = 0;
  reconnect_count = 0;
}

-- `t && now < *t`.
abbrev before : ℕ → Option ℕ → Bool
before now none = false
before now (some t) = ltb now t

unfoldable pub frame : ℕ → Recovery → Recovery
frame now r = record r {
  health = if before now r.degraded_until then degraded else connected;
  last_frame = some now;
  failure_streak = 0;
}

-- `health_ == Connected || health_ == Degraded`.
abbrev streaming : SourceHealth → Bool
streaming connected = true
streaming degraded = true
streaming _ = false

unfoldable pub packet_loss : ℕ → Recovery → Recovery
packet_loss now r =
    if streaming r.health
    then record r { health = degraded; degraded_until = some (now + one_second) }
    else r

-- `last_frame_ && now - *last_frame_ >= timeout`, as a comparison of sums.
abbrev stale : ℕ → ℕ → Option ℕ → Bool
stale now timeout none = false
stale now timeout (some t) = leb (t + ms timeout) now

unfoldable pub check_stall : ℕ → Recovery → Bool × Recovery
check_stall now r =
    if streaming r.health && stale now r.stall_timeout r.last_frame
    then (true, record r { health = stalled })
    else (false, r)

-- The loop of `fail`, over the rounds left: `failure_streak_ - 1` of them at first.
unfoldable pub backoff : ℕ → ℕ → ℕ → ℕ
backoff zero delay limit = delay
backoff (suc rounds) delay limit =
    let doubled = min (delay * 2) limit in
    let rest = backoff rounds doubled limit in if leb limit doubled then doubled else rest

unfoldable pub fail : ℕ → Recovery → Recovery
fail now r =
    let streak = inc32 r.failure_streak in
    let delay = backoff (streak - 1) r.reconnect_delay r.max_reconnect_delay in
    record r {
      health = reconnecting;
      degraded_until = none;
      failure_streak = streak;
      next_retry = now + ms (min delay r.max_reconnect_delay);
    }

abbrev is_reconnecting : SourceHealth → Bool
is_reconnecting reconnecting = true
is_reconnecting _ = false

unfoldable pub retry_due : ℕ → Recovery → Bool
retry_due now r = is_reconnecting r.health && leb r.next_retry now

unfoldable pub retry : ℕ → Recovery → Recovery
unfolding retry_due
retry now r =
    if retry_due now r
    then record r { health = connecting; reconnect_count = inc64 r.reconnect_count }
    else r

unfoldable pub stop : Recovery → Recovery
stop r = record r { health = stopped }

-- The calls of the worker, with their times.
pub data Call : Type 0 where
  begins : Call
  frames losses checks fails retries : ℕ → Call
  stops : Call

pub step : Call → Recovery → Recovery
unfolding begin frame packet_loss check_stall fail retry stop
step begins r = begin r
step (frames now) r = frame now r
step (losses now) r = packet_loss now r
step (checks now) r = (check_stall now r).1
step (fails now) r = fail now r
step (retries now) r = retry now r
step stops r = stop r

pub run : List Call → Recovery → Recovery
run [] r = r
run (c ∷ cs) r = run cs (step c r)
