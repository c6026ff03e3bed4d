-- ===== src/Application.antt =====
-- src/application.cpp and include/skai/application.hpp: the lifecycle of the modules. The methods
-- are called by one controlling thread, so the states Stopping and Joining, which a method enters
-- and leaves while it runs, are seen only by other threads. The modules and the loaded
-- configuration come from elsewhere: a module is what its virtual functions answer, an exception
-- counting as a failure as in `try_action`. The calls on modules are kept as a log.
pub mod Lifecycle
mod Tests
use mathlib.Core.List.{reverse}
use skai_edge_native.Common.{
  ℕ, List, [], ◌∷◌, ◌++◌, Option, none, some, Bool, true, false, map, codes, if◌then◌else◌,
}

-- `LifecycleModule`, over the type of configurations.
pub record LifecycleModule (C : Type 0) : Type 0 where
  pub initializes : C → Bool
  pub starts : Bool
  pub last_error : List ℕ

-- `Application::Modules`.
pub record Modules (C : Type 0) : Type 0 where
  pub storage : Option (LifecycleModule C)
  pub webrtc : Option (LifecycleModule C)
  pub whip : Option (LifecycleModule C)
  pub web : Option (LifecycleModule C)
  pub encoder : Option (LifecycleModule C)
  pub detector : Option (LifecycleModule C)
  pub recording : Option (LifecycleModule C)
  pub video : Option (LifecycleModule C)
  pub gps : Option (LifecycleModule C)

-- `ModuleRef`.
pub record ModuleRef (C : Type 0) : Type 0 where
  pub name : List ℕ
  pub target : LifecycleModule C

-- `Application::State`.
pub data State : Type 0 where
  new initialized running stopping stopped joining : State

-- A call on the module of a name.
pub data Event : Type 0 where
  init_call start_call stop_call wait_call : List ℕ → Event

-- `Application`, with the log of the calls on its modules.
pub record Application (C : Type 0) : Type 0 where
  pub modules : Modules C
  pub config : Option C
  pub active : List (ModuleRef C)
  pub state : State
  pub last_error : List ℕ
  pub last_error_module : List ℕ
  pub log : List Event

-- `ConfigResult`, of `load_config` or of the built-in defaults.
pub data ConfigResult (C : Type 0) : Type 0 where
  loaded : C → ConfigResult C
  rejected : List ℕ → ConfigResult C

abbrev is_new : State → Bool
is_new new = true
is_new _ = false

abbrev stoppable : State → Bool
stoppable initialized = true
stoppable running = true
stoppable _ = false

abbrev is_initialized : State → Bool
is_initialized initialized = true
is_initialized _ = false

module _ {C : Type 0} where
  present : List ℕ → Option (LifecycleModule C) → List (ModuleRef C)
  present name none = []
  present name (some target) = record { name = name; target = target } ∷ []

  -- `ordered`, without the null modules that the loop passes over.
  pub ordered : Modules C → List (ModuleRef C)
  unfolding present
  ordered m =
      present (codes "storage") m.storage
      ++ (present (codes "webrtc") m.webrtc
          ++ (present (codes "whip") m.whip
              ++ (present (codes "web") m.web
                  ++ (present (codes "encoder") m.encoder
                      ++ (present (codes "detector") m.detector
                          ++ (present (codes "recording") m.recording
                              ++ (present (codes "video") m.video
                                  ++ present (codes "gps") m.gps)))))))

  abbrev pub names : (List ℕ → Event) → List (ModuleRef C) → List Event
  names call [] = []
  names call (m ∷ ms) = call m.name ∷ names call ms

  fail_with : List ℕ → List ℕ → Application C → Application C
  fail_with name message app = record app { last_error = message; last_error_module = name }

  detail_of : ModuleRef C → List ℕ → List ℕ
  detail_of m [] = m.name ++ codes ".initialize failed"
  detail_of m (c ∷ cs) = c ∷ cs

  -- The cleanup of `initialize`: all stopped, then all joined, both in reverse order.
  clean_up : Application C → Application C
  clean_up app = record app {
    active = [];
    log = app.log ++ (names stop_call (reverse app.active) ++ names wait_call (reverse app.active));
  }

  -- The loop of `initialize` over the modules that are left.
  init_loop : C → List (ModuleRef C) → Application C → Bool × Application C
  init_loop c [] app = (true, record app { state = initialized })
  init_loop c (m ∷ ms) app =
      let called = record app { log = app.log ++ init_call m.name ∷ [] } in
      let rest = init_loop c ms (record called { active = app.active ++ m ∷ [] }) in
      if m.target.initializes c
      then rest
      else (false, clean_up (fail_with m.name (detail_of m m.target.last_error) called))

  initialize_with : ConfigResult C → Application C → Bool × Application C
  initialize_with (rejected error) app = (false, fail_with (codes "config") error app)
  initialize_with (loaded c) app =
      init_loop c (ordered app.modules) (record app { config = some c })

  pub initialize : ConfigResult C → Application C → Bool × Application C
  unfolding initialize_with
  initialize result app =
      if is_new app.state then initialize_with result (fail_with (codes "core") [] app) else (
        false,
        fail_with (codes "core")
            (codes "application must be stopped and joined before initialization") app,
      )

  -- `stop`, which passes through Stopping.
  pub stop : Application C → Application C
  stop app =
      if stoppable app.state
      then record app { state = stopped; log = app.log ++ names stop_call (reverse app.active) }
      else app

  join_all : Application C → Application C
  join_all app = record app {
    active = [];
    state = new;
    log = app.log ++ names wait_call (reverse app.active);
  }

  wait_in : State → Application C → Option (Application C)
  wait_in new app = some app
  wait_in stopped app = some (join_all app)
  wait_in _ app = none

  -- `wait`, which passes through Joining; `none` means that it waits for another thread.
  pub wait : Application C → Option (Application C)
  unfolding wait_in
  wait app = wait_in app.state app

  abbrev or_same : Application C → Option (Application C) → Application C
  or_same app none = app
  or_same app (some after) = after

  -- The loop of `start`; the modules before the failing one stay started.
  start_loop : List (ModuleRef C) → Application C → Bool × Application C
  start_loop [] app = (true, record app { state = running })
  start_loop (m ∷ ms) app =
      let called = record app { log = app.log ++ start_call m.name ∷ [] } in
      let rest = start_loop ms called in
      let refused = stop (fail_with m.name (m.name ++ codes ".start failed") called) in
      if m.target.starts then rest else (false, or_same refused (wait refused))

  pub start : Application C → Bool × Application C
  start app =
      if is_initialized app.state
      then start_loop app.active (fail_with (codes "core") [] app)
      else (
        false,
        fail_with (codes "core") (codes "application must be initialized before start") app,
      )
