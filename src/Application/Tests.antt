-- ===== src/Application/Tests.antt =====
-- Lives of a small application, and instances of the lifecycle theorems.
use skai_edge_native.Common.{ℕ, ◌≡◌, refl, [], ◌∷◌, Option, none, some, true, false, codes}
use skai_edge_native.Application.{
  Application, ModuleRef, LifecycleModule, loaded, new, ordered, init_call, start_call, stop_call,
  wait_call, initialize, start, stop, wait,
}
use skai_edge_native.Application.Lifecycle.{IsIdle, full_life, initialize_refused}

abbrev sound : LifecycleModule ℕ
sound = record { initializes = λ c. true; starts = true; last_error = [] }

abbrev refuses_init : LifecycleModule ℕ
refuses_init = record { initializes = λ c. false; starts = true; last_error = [] }

abbrev refuses_start : LifecycleModule ℕ
refuses_start = record { initializes = λ c. true; starts = false; last_error = [] }

abbrev with_modules : Option (LifecycleModule ℕ) → Option (LifecycleModule ℕ) → Application ℕ
with_modules web video = record {
  modules = record {
    storage = none;
    webrtc = none;
    whip = none;
    web = web;
    encoder = none;
    detector = none;
    recording = none;
    video = video;
    gps = none;
  };
  config = none;
  active = [];
  state = new;
  last_error = [];
  last_error_module = codes "core";
  log = [];
}

abbrev web_ref : LifecycleModule ℕ → ModuleRef ℕ
web_ref m = record { name = codes "web"; target = m }

abbrev video_ref : LifecycleModule ℕ → ModuleRef ℕ
video_ref m = record { name = codes "video"; target = m }

abbrev both_sound : Application ℕ
both_sound = with_modules (some sound) (some sound)

full_life_example :
    let (initialized_ok, a) = initialize (loaded 1) both_sound in
    let (started_ok, b) = start a in
    (initialized_ok ≡ true)
    × (started_ok ≡ true)
    × (wait (stop b)
        ≡ some (record both_sound {
          config = some 1;
          log =
              init_call (codes "web")
              ∷ init_call (codes "video")
              ∷ start_call (codes "web")
              ∷ start_call (codes "video")
              ∷ stop_call (codes "video")
              ∷ stop_call (codes "web")
              ∷ wait_call (codes "video")
              ∷ wait_call (codes "web")
              ∷ [];
        }))
unfolding ordered
full_life_example = full_life 1 both_sound refl refl

initialize_refused_example :
    let (done, after) = initialize (loaded 1) (with_modules (some sound) (some refuses_init)) in
    (done ≡ false)
    × IsIdle after
    × (after.last_error_module ≡ codes "video")
    × (after.log
        ≡ init_call (codes "web")
          ∷ init_call (codes "video")
          ∷ stop_call (codes "web")
          ∷ wait_call (codes "web")
          ∷ [])
unfolding ordered
initialize_refused_example =
    initialize_refused 1 (with_modules (some sound) (some refuses_init)) (web_ref sound ∷ [])
      (video_ref refuses_init) [] refl refl refl

abbrev ready_to_start : Application ℕ
ready_to_start = record both_sound { active = web_ref sound ∷ video_ref refuses_start ∷ [] }
