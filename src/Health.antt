-- ===== src/Health.antt =====
-- src/health.cpp and include/skai/health.hpp: the health watchdog. Its probes are functions of
-- other components; what a probe answers at a tick is an argument. Times are nanoseconds of the
-- steady clock, 0 being the default time point.
pub mod Components
pub mod Snapshot
mod Tests
use skai_edge_native.Common.{
  ℕ, ◌+◌, List, [], ◌∷◌, Option, none, some, Bool, true, false, not, ◌&&◌, ltb, ◌==◌, codes,
  if◌then◌else◌, is_some,
}

-- `HealthState`.
pub data HealthState : Type 0 where
  starting running degraded stopping failed : HealthState

-- `HealthComponent`.
pub data HealthComponent : Type 0 where
  video_source detector encoder recorder gps web webrtc database : HealthComponent

abbrev pub all_health_components : List HealthComponent
all_health_components =
    video_source ∷ detector ∷ encoder ∷ recorder ∷ gps ∷ web ∷ webrtc ∷ database ∷ []

-- `ComponentHealth`.
pub record ComponentHealth : Type 0 where
  pub state : HealthState
  pub detail : List ℕ

-- `HealthSnapshot`; the array is a function of its index.
pub record HealthSnapshot : Type 0 where
  pub overall : HealthState
  pub components : HealthComponent → ComponentHealth

-- `HealthWatchdog::Entry`; `registered` says whether there is a probe.
pub record Entry : Type 0 where
  pub registered : Bool
  pub health : ComponentHealth
  pub critical : Bool

-- `HealthWatchdog`.
pub record HealthWatchdog : Type 0 where
  pub entries : HealthComponent → Entry
  pub last_poll : ℕ
  pub lifecycle : HealthState
  pub polling : Bool
  pub is_stopping : Bool

-- What a call of a probe gives: a value, an exception with a message, or another exception.
pub data Answer : Type 0 where
  reports : ComponentHealth → Answer
  throws : List ℕ → Answer
  throws_other : Answer

pub health_state_name : HealthState → List ℕ
health_state_name starting = codes "STARTING"
health_state_name running = codes "RUNNING"
health_state_name degraded = codes "DEGRADED"
health_state_name stopping = codes "STOPPING"
health_state_name failed = codes "FAILED"

unfoldable pub health_component_name : HealthComponent → List ℕ
health_component_name video_source = codes "video_source"
health_component_name detector = codes "detector"
health_component_name encoder = codes "encoder"
health_component_name recorder = codes "recorder"
health_component_name gps = codes "gps"
health_component_name web = codes "web"
health_component_name webrtc = codes "webrtc"
health_component_name database = codes "database"

-- `index`.
abbrev index : HealthComponent → ℕ
index video_source = 0
index detector = 1
index encoder = 2
index recorder = 3
index gps = 4
index web = 5
index webrtc = 6
index database = 7

pub update : HealthComponent → Entry → (HealthComponent → Entry) → HealthComponent → Entry
update c entry entries d = if index d == index c then entry else entries d

pub set_probe : HealthComponent → Bool → Bool → HealthWatchdog → HealthWatchdog
unfolding update
set_probe c registered critical w = record w {
  entries =
      update c (record (w.entries c) { registered = registered; critical = critical }) w.entries;
}

pub set_lifecycle : HealthState → HealthWatchdog → HealthWatchdog
set_lifecycle state w = record w { lifecycle = state }

abbrev observed : Answer → ComponentHealth
observed (reports health) = health
observed (throws message) = record { state = failed; detail = message }
observed throws_other = record { state = failed; detail = codes "probe failed" }

abbrev poll : Bool → Answer → ComponentHealth
poll registered answer =
    if registered
    then observed answer
    else record { state = starting; detail = codes "probe not registered" }

-- `tick`, with the answers of the probes that are called.
pub tick : ℕ → (HealthComponent → Answer) → HealthWatchdog → HealthWatchdog
tick now answers w = record w {
  entries = λ c. record (w.entries c) { health = poll (w.entries c).registered (answers c) };
  last_poll = now;
}

abbrev pub two_seconds : ℕ
two_seconds = 2_000_000_000

abbrev pub is_stale : ℕ → HealthWatchdog → Bool
is_stale now w = not (w.last_poll == 0) && ltb (w.last_poll + two_seconds) now

-- `output`.
abbrev pub shown : Bool → Entry → ComponentHealth
shown stale entry =
    if stale then record { state = failed; detail = codes "watchdog poll stale" } else entry.health

-- The three flags of `snapshot`.
pub record Flags : Type 0 where
  pub any_starting : Bool
  pub any_degraded : Bool
  pub any_failed : Bool

abbrev note : HealthState → Bool → Flags → Flags
note failed true f = record f { any_failed = true }
note failed false f = record f { any_degraded = true }
note degraded critical f = record f { any_degraded = true }
note starting critical f = record f { any_starting = true }
note running critical f = f
note stopping critical f = f

-- The loop of `snapshot` over the components left.
pub collect : Bool → (HealthComponent → Entry) → List HealthComponent → Flags → Flags
collect stale entries [] f = f
collect stale entries (c ∷ cs) f =
    collect stale entries cs (note (shown stale (entries c)).state (entries c).critical f)

abbrev verdict : Flags → HealthState
verdict f =
    if f.any_failed
    then failed
    else if f.any_degraded
    then degraded
    else if f.any_starting
    then starting
    else running

abbrev pub is_running : HealthState → Bool
is_running running = true
is_running _ = false

pub snapshot : ℕ → HealthWatchdog → HealthSnapshot
snapshot now w =
    let stale = is_stale now w in
    let flags =
      collect stale w.entries all_health_components
        (record { any_starting = false; any_degraded = false; any_failed = stale }) in
    record {
      overall = if is_running w.lifecycle then verdict flags else w.lifecycle;
      components = λ c. shown stale (w.entries c);
    }

-- `start`, up to the launch of the worker, which calls `tick` until it is told to stop.
pub start : ℕ → (HealthComponent → Answer) → HealthWatchdog → HealthWatchdog
unfolding tick set_lifecycle
start now answers w =
    if w.polling then w else record (set_lifecycle running (tick now answers w)) { polling = true }

-- `stop`, after the worker has been joined.
pub stop : HealthWatchdog → HealthWatchdog
stop w = record w { is_stopping = true; lifecycle = stopping; polling = false }
