-- ===== src/Application/Lifecycle.antt =====
-- The lifecycle contract: order of the calls, and cleanup after every failure.
use mathlib.Core.List.{reverse}
use skai_edge_native.Common.{
  ◌≡◌, refl, ap, ◌∙◌, sym, List, [], ◌∷◌, ◌++◌, some, Bool, true, false, ◌&&◌, codes, append_assoc,
  append-nil, arith,
}
use skai_edge_native.Application.{
  Application, ModuleRef, loaded, new, initialized, running, init_call, start_call, stop_call,
  wait_call, ordered, names, init_loop, initialize, initialize_with, stop, wait, start, start_loop,
  clean_up, fail_with, join_all, wait_in,
}

module _ {C : Type 0} where
  abbrev pub all_of : (ModuleRef C → Bool) → List (ModuleRef C) → Bool
  all_of accepts [] = true
  all_of accepts (m ∷ ms) = accepts m && all_of accepts ms

  abbrev pub initializes_under : C → ModuleRef C → Bool
  initializes_under c m = m.target.initializes c

  abbrev pub starts_now : ModuleRef C → Bool
  starts_now m = m.target.starts

  abbrev with_ready : List (ModuleRef C) → Application C → Application C
  with_ready ms app = record app { active = app.active ++ ms; log = app.log ++ names init_call ms }

  -- The loop of `initialize` passes over modules that initialise.
  init_loop-append :
      (c : C) (ms rest : List (ModuleRef C)) (app : Application C)
      → all_of (initializes_under c) ms ≡ true
      → init_loop c (ms ++ rest) app ≡ init_loop c rest (with_ready ms app)
  unfolding init_loop
  init_loop-append c [] rest app h = simp append-nil
  init_loop-append c (m ∷ ms) rest app h =
      rw (head m ms h) (init_loop-append c ms rest _ (tail m ms h) ∙ simp append_assoc)
    where
      head :
          (m : ModuleRef C) (ms : List (ModuleRef C))
          → all_of (initializes_under c) (m ∷ ms) ≡ true
          → m.target.initializes c ≡ true
      head m ms h = ground arith

      tail :
          (m : ModuleRef C) (ms : List (ModuleRef C))
          → all_of (initializes_under c) (m ∷ ms) ≡ true
          → all_of (initializes_under c) ms ≡ true
      tail m ms h = ground arith

  abbrev with_started : List (ModuleRef C) → Application C → Application C
  with_started ms app = record app { log = app.log ++ names start_call ms }

  start_loop-append :
      (ms rest : List (ModuleRef C)) (app : Application C)
      → all_of starts_now ms ≡ true
      → start_loop (ms ++ rest) app ≡ start_loop rest (with_started ms app)
  unfolding start_loop
  start_loop-append [] rest app h = simp append-nil
  start_loop-append (m ∷ ms) rest app h =
      rw (head m ms h) (start_loop-append ms rest _ (tail m ms h) ∙ simp append_assoc)
    where
      head :
          (m : ModuleRef C) (ms : List (ModuleRef C))
          → all_of starts_now (m ∷ ms) ≡ true
          → m.target.starts ≡ true
      head m ms h = ground arith

      tail :
          (m : ModuleRef C) (ms : List (ModuleRef C))
          → all_of starts_now (m ∷ ms) ≡ true
          → all_of starts_now ms ≡ true
      tail m ms h = ground arith

  pub record IsIdle (app : Application C) : Type 0 where
    pub idle_state : app.state ≡ new
    pub idle_active : app.active ≡ []

  -- The idle applications: before the first `initialize`, and after `wait`.
  abbrev pub idle : Application C → Application C
  idle app = record app { state = new; active = [] }

  abbrev entered : C → Application C → Application C
  entered c app = record app {
    config = some c;
    active = [];
    state = new;
    last_error = [];
    last_error_module = codes "core";
  }

  abbrev ready_app : C → Application C → Application C
  ready_app c app = record (entered c app) {
    active = ordered app.modules;
    state = initialized;
    log = app.log ++ names init_call (ordered app.modules);
  }

  initialize-idle :
      (c : C) (app : Application C)
      → initialize (loaded c) (idle app) ≡ init_loop c (ordered app.modules) (entered c app)
  unfolding initialize initialize_with fail_with
  initialize-idle c app = refl

  initialize-ready :
      (c : C) (app : Application C)
      → all_of (initializes_under c) (ordered app.modules) ≡ true
      → initialize (loaded c) (idle app) ≡ (true, ready_app c app)
  initialize-ready c app i =
      initialize-idle c app
      ∙ ap (λ ms. init_loop c ms (entered c app)) (sym (append-nil (ordered app.modules)))
      ∙ init_loop-append c (ordered app.modules) [] (entered c app) i
      ∙ unfold init_loop in refl

  start-ready :
      (app : Application C)
      → all_of starts_now app.active ≡ true
      → start (record app { state = initialized }) ≡ (
        true,
        record app {
          state = running;
          last_error = [];
          last_error_module = codes "core";
          log = app.log ++ names start_call app.active;
        },
      )
  unfolding start fail_with
  start-ready app s =
      ap (λ ms. start_loop ms begun) (sym (append-nil app.active))
      ∙ start_loop-append app.active [] begun s
      ∙ unfold start_loop in refl
    where
      begun : Application C
      begun = record app { state = initialized; last_error = []; last_error_module = codes "core" }

  -- When every module initialises and starts, one life of an idle application is: all modules
  -- initialised in order, all started in that order, all stopped in reverse order, then all joined
  -- in reverse order; each method reports success, and the application is idle again.
  pub full_life :
      (c : C) (app : Application C)
      → all_of (initializes_under c) (ordered app.modules) ≡ true
      → all_of starts_now (ordered app.modules) ≡ true
      → let ms = ordered app.modules in
        let (initialized_ok, a) = initialize (loaded c) (idle app) in
        let (started_ok, b) = start a in
        (initialized_ok ≡ true)
        × (started_ok ≡ true)
        × (wait (stop b)
            ≡ some (record (idle app) {
              config = some c;
              last_error = [];
              last_error_module = codes "core";
              log =
                  app.log
                  ++ (names init_call ms
                      ++ (names start_call ms
                          ++ (names stop_call (reverse ms) ++ names wait_call (reverse ms))));
            }))
  unfolding stop wait wait_in join_all
  full_life c app i s =
      rw (initialize-ready c app i, start-ready (ready_app c app) s) (refl, refl, simp append_assoc)

  init_loop-refused :
      (c : C) (bad : ModuleRef C) (rest : List (ModuleRef C)) (app : Application C)
      → bad.target.initializes c ≡ false
      → let (done, after) = init_loop c (bad ∷ rest) app in
        (done ≡ false)
        × (after.state ≡ app.state)
        × (after.active ≡ [])
        × (after.last_error_module ≡ bad.name)
        × (after.log
            ≡ (app.log ++ init_call bad.name ∷ [])
              ++ (names stop_call (reverse app.active) ++ names wait_call (reverse app.active)))
  unfolding init_loop clean_up fail_with
  init_loop-refused c bad rest app b = rw b (refl, refl, refl, refl, refl)

  -- When a module refuses to initialise, after modules that did: `initialize` fails naming it, and
  -- the modules before it, and only those, are stopped and then joined, both in reverse order; the
  -- application is idle.
  pub initialize_refused :
      (c : C) (app : Application C) (good : List (ModuleRef C)) (bad : ModuleRef C)
      (rest : List (ModuleRef C))
      → ordered app.modules ≡ good ++ bad ∷ rest
      → all_of (initializes_under c) good ≡ true
      → bad.target.initializes c ≡ false
      → let (done, after) = initialize (loaded c) (idle app) in
        (done ≡ false)
        × IsIdle after
        × (after.last_error_module ≡ bad.name)
        × (after.log
            ≡ app.log
              ++ (names init_call good
                  ++ (init_call bad.name
                      ∷ (names stop_call (reverse good) ++ names wait_call (reverse good)))))
  initialize_refused c app good bad rest o g b =
      let (failed, state_kept, cleared, blamed, logged) =
        init_loop-refused c bad rest (with_ready good (entered c app)) b in
      rw (initialize-idle c app, o, init_loop-append c good (bad ∷ rest) (entered c app) g)
        (
          failed,
          record { idle_state = state_kept; idle_active = cleared },
          blamed,
          logged ∙ simp append_assoc,
        )

  start_loop-refused :
      (bad : ModuleRef C) (rest : List (ModuleRef C)) (app : Application C)
      → bad.target.starts ≡ false
      → let (done, after) = start_loop (bad ∷ rest) (record app { state = initialized }) in
        (done ≡ false)
        × IsIdle after
        × (after.last_error_module ≡ bad.name)
        × (after.log
            ≡ ((app.log ++ start_call bad.name ∷ []) ++ names stop_call (reverse app.active))
              ++ names wait_call (reverse app.active))
  unfolding start_loop stop wait wait_in join_all fail_with
  start_loop-refused bad rest app b =
      rw b (refl, record { idle_state = refl; idle_active = refl }, refl, refl)

  -- When a module refuses to start, after modules that did: `start` fails naming it, all the
  -- initialised modules, started or not, are stopped and then joined, both in reverse order, and
  -- the application is idle.
  pub start_refused :
      (app : Application C) (good : List (ModuleRef C)) (bad : ModuleRef C)
      (rest : List (ModuleRef C))
      → app.active ≡ good ++ bad ∷ rest
      → all_of starts_now good ≡ true
      → bad.target.starts ≡ false
      → let (done, after) = start (record app { state = initialized }) in
        (done ≡ false)
        × IsIdle after
        × (after.last_error_module ≡ bad.name)
        × (after.log
            ≡ app.log
              ++ (names start_call good
                  ++ (start_call bad.name
                      ∷ (names stop_call (reverse app.active)
                          ++ names wait_call (reverse app.active)))))
  unfolding start fail_with
  start_refused app good bad rest o g b =
      let (failed, idle_after, blamed, logged) =
        start_loop-refused bad rest (with_started good begun) b in
      rw (ap (λ ms. start_loop ms begun) o ∙ start_loop-append good (bad ∷ rest) begun g)
        (failed, idle_after, blamed, logged ∙ simp append_assoc)
    where
      begun : Application C
      begun = record app { state = initialized; last_error = []; last_error_module = codes "core" }
