-- ===== src/Recording/Worker/Tests.antt =====
-- Concrete rounds of the recording worker, and an instance of its theorem.
use skai_edge_native.Common.{
  ℕ, ◌≡◌, refl, List, [], ◌∷◌, none, some, Bool, true, false, codes, arith,
}
use skai_edge_native.Media.{EncodedAccessUnit}
use skai_edge_native.Recording.{fresh_controller, configure, requested, set_error, start}
use skai_edge_native.Recording.Status.{starts}
use skai_edge_native.Recording.Worker.{
  opens, misses, arrives, misses_late, writes, closes, quiet, broken, pop_unit, Round, Worker, fail,
  close_pipeline, written, write_access_unit, open_and_write, take_unit, after_bus, on_bus, active,
  round, run,
}
use skai_edge_native.Recording.Worker.Sound.{is_decodable, IsSound}
use skai_edge_native.Recording.Worker.Decodable.{run-is_decodable}

abbrev unit_of : ℕ → Bool → EncodedAccessUnit
unit_of sequence keyframe = record {
  sequence = sequence;
  pts_ns = 0;
  dts_ns = 0;
  has_pts = false;
  has_dts = false;
  keyframe = keyframe;
  discontinuity = false;
  source_generation = 1;
  bytes = 0 ∷ 1 ∷ [];
}

abbrev fresh_worker : Worker
fresh_worker = record {
  control = configure true fresh_controller;
  has_pipeline = false;
  is_running = true;
  last_error = [];
  waiting_for_keyframe = true;
  observed_queue_drops = 0;
  queue_drops = 0;
  pending_access_units = 0;
  pending_bytes = 0;
  log = [];
}

-- A round in which everything works and the unit comes with so many drops before and behind it.
abbrev delivers : EncodedAccessUnit → ℕ → ℕ → Round
delivers unit missed missed_late = record {
  calls = [];
  unit = some unit;
  missed = missed;
  missed_late = missed_late;
  is_shutdown = false;
  bus = quiet;
  opening = none;
  queued = 0;
  pushing = none;
  finalizes = true;
}

abbrev last : Round
last = delivers (unit_of 9 false) 0 0

abbrev rounds : List Round
rounds =
    delivers (unit_of 1 false) 0 0
    ∷ delivers (unit_of 2 true) 0 0
    ∷ delivers (unit_of 3 false) 0 0
    ∷ delivers (unit_of 5 false) 1 0
    ∷ []

-- The first unit and the one after the drop are not written.
run_writes :
    (run rounds last fresh_worker).log
    ≡ closes true
      ∷ arrives
      ∷ misses
      ∷ writes (unit_of 3 false)
      ∷ arrives
      ∷ writes (unit_of 2 true)
      ∷ opens
      ∷ arrives
      ∷ arrives
      ∷ []
unfolding run round pop_unit requested configure active on_bus after_bus take_unit open_and_write
    write_access_unit written close_pipeline
run_writes = refl

abbrev race : List Round
race = delivers (unit_of 1 true) 0 1 ∷ delivers (unit_of 3 false) 0 0 ∷ []

-- A drop between the pop of a keyframe and the reading of the counter is taken for one before it, and
-- the unit behind the gap is written.
race_writes :
    (run race last fresh_worker).log
    ≡ closes true
      ∷ writes (unit_of 3 false)
      ∷ arrives
      ∷ misses_late
      ∷ writes (unit_of 1 true)
      ∷ opens
      ∷ arrives
      ∷ []
unfolding run round pop_unit requested configure active on_bus after_bus take_unit open_and_write
    write_access_unit written close_pipeline
race_writes = refl

abbrev restarted : List Round
restarted =
    delivers (unit_of 1 true) 0 0
    ∷ record (delivers (unit_of 2 false) 0 0) { bus = broken (codes "disk") }
    ∷ record (delivers (unit_of 3 false) 0 0) { calls = starts ∷ [] }
    ∷ []

-- After a start that comes between a failure and the next round the fragment begins with any unit.
is_decodable-restarted : is_decodable (run restarted last fresh_worker).log ≡ false
unfolding run round pop_unit requested configure active on_bus after_bus take_unit open_and_write
    write_access_unit written close_pipeline fail set_error start
is_decodable-restarted = refl

fresh_worker-IsSound : IsSound fresh_worker
fresh_worker-IsSound = ground arith

run-is_decodable_example : is_decodable (run rounds last fresh_worker).log ≡ true
unfolding round pop_unit requested configure active on_bus after_bus take_unit open_and_write
    write_access_unit written close_pipeline
run-is_decodable_example = run-is_decodable rounds last fresh_worker fresh_worker-IsSound refl
