-- ===== src/Whip/Peer.antt =====
-- src/webrtc/whip_policy.cpp, `WhipPeerState`: what the ICE callbacks tell the publisher. Every
-- method holds the mutex, so a method is one step. Times are nanoseconds of the steady clock.
pub mod History
pub mod Gathering
mod Tests
use skai_edge_native.Common.{
  ℕ, zero, suc, ◌+◌, Option, none, some, Bool, true, false, not, ◌&&◌, ◌||◌, leb, ltb,
  if◌then◌else◌, is_some,
}

-- `WhipPeerState`.
pub record PeerState : Type 0 where
  pub disconnected_at : Option ℕ
  pub has_gathered : Bool
  pub has_failed : Bool

abbrev pub initial : PeerState
initial = record { disconnected_at = none; has_gathered = false; has_failed = false }

pub gathered : PeerState → PeerState
gathered s = record s { has_gathered = true }

pub connected : PeerState → PeerState
connected s = record s { disconnected_at = none }

abbrev pub or_now : Option ℕ → ℕ → ℕ
or_now none now = now
or_now (some at) now = at

pub disconnected : ℕ → PeerState → PeerState
disconnected now s = record s { disconnected_at = some (or_now s.disconnected_at now) }

pub failed : PeerState → PeerState
failed s = record s { has_failed = true }

pub is_disconnected : PeerState → Bool
is_disconnected s = is_some s.disconnected_at

abbrev pub has_lasted : Option ℕ → ℕ → ℕ → Bool
has_lasted none now grace = false
has_lasted (some at) now grace = leb (at + grace) now

pub should_reconnect : ℕ → ℕ → PeerState → Bool
should_reconnect now grace s = s.has_failed || has_lasted s.disconnected_at now grace

-- What one round of `wait_for_gathering` sees: the state under the mutex, the stop flag at the
-- loop's test and at the return, and the clock before and after the choice of `next_check`.
pub record Look : Type 0 where
  pub state : PeerState
  pub stops : Bool
  pub stops_at_return : Bool
  pub now : ℕ
  pub now_after : ℕ

abbrev pub poll_interval : ℕ
poll_interval = 100_000_000

abbrev pub min : ℕ → ℕ → ℕ
min a b = if ltb b a then b else a

abbrev pub goes_on : Look → Bool
goes_on l = not l.state.has_gathered && (not l.state.has_failed && not l.stops)

abbrev pub times_out : ℕ → Look → Bool
times_out deadline l = leb (min deadline (l.now + poll_interval)) l.now_after

abbrev pub answer : Look → Bool
answer l = l.state.has_gathered && (not l.state.has_failed && not l.stops_at_return)

-- The loop of `wait_for_gathering` over the rounds to come; `none` when it still waits after as
-- many rounds as the fuel.
pub wait_loop : ℕ → (ℕ → Look) → ℕ → Option Bool
wait_loop deadline looks zero = none
wait_loop deadline looks (suc fuel) =
    let rest = wait_loop deadline (λ k. looks (suc k)) fuel in
    if goes_on (looks 0) && not (times_out deadline (looks 0))
    then rest
    else some (answer (looks 0))

-- `wait_for_gathering`, called at time `start`.
pub wait_for_gathering : ℕ → ℕ → (ℕ → Look) → ℕ → Option Bool
unfolding wait_loop
wait_for_gathering start timeout looks fuel = wait_loop (start + timeout) looks fuel
