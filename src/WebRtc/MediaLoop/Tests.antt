-- ===== src/WebRtc/MediaLoop/Tests.antt =====
-- Concrete rounds of a viewer's thread, and an instance of its theorem.
use skai_edge_native.Common.{ℕ, ◌≡◌, refl, List, [], ◌∷◌, some, Bool, true, false}
use skai_edge_native.Media.{EncodedAccessUnit}
use skai_edge_native.WebRtc.MediaLoop.{
  misses, arrives, misses_late, sends, Round, initial, observe, stamp, send, take_unit, round, run,
}
use skai_edge_native.WebRtc.MediaLoop.Gate.{is_decodable, is_decodable-run}

-- A unit with no PTS of its own.
abbrev unit_at : ℕ → Bool → EncodedAccessUnit
unit_at pts_ns keyframe = record {
  sequence = 1;
  pts_ns = pts_ns;
  dts_ns = 0;
  has_pts = false;
  has_dts = false;
  keyframe = keyframe;
  discontinuity = false;
  source_generation = 1;
  bytes = 0 ∷ 1 ∷ [];
}

abbrev delivers : EncodedAccessUnit → ℕ → ℕ → Bool → Round
delivers unit missed missed_late accepts = record {
  unit = some unit;
  missed = missed;
  missed_late = missed_late;
  is_open = true;
  still_running = true;
  accepts = accepts;
}

abbrev rounds : List Round
rounds =
    delivers (unit_at 0 false) 0 0 true
    ∷ delivers (unit_at 1_000_000_000 true) 0 0 true
    ∷ delivers (unit_at 1_040_000_000 false) 0 0 true
    ∷ delivers (unit_at 1_120_000_000 false) 1 0 true
    ∷ delivers (unit_at 1_160_000_000 true) 0 0 false
    ∷ delivers (unit_at 1_200_000_000 true) 0 0 true
    ∷ []

-- Nothing before the first keyframe or after the drop; a rejected unit ends the loop.
run_sends :
    (run 7 rounds initial).log
    ≡ arrives
      ∷ arrives
      ∷ misses
      ∷ sends (unit_at 1_040_000_000 false) 3_607
      ∷ arrives
      ∷ sends (unit_at 1_000_000_000 true) 7
      ∷ arrives
      ∷ arrives
      ∷ []
unfolding run round take_unit observe send stamp initial
run_sends = refl

abbrev race : List Round
race =
    delivers (unit_at 1_000_000_000 true) 0 1 true
    ∷ delivers (unit_at 1_080_000_000 false) 0 0 true
    ∷ []

-- A drop between the pop of a keyframe and the reading of the counter is taken for one before it, and
-- the unit behind the gap is sent.
race_sends :
    (run 7 race initial).log
    ≡ sends (unit_at 1_080_000_000 false) 7_207
      ∷ arrives
      ∷ misses_late
      ∷ sends (unit_at 1_000_000_000 true) 7
      ∷ arrives
      ∷ []
unfolding run round take_unit observe send stamp initial
race_sends = refl

is_decodable-run_example : is_decodable (run 7 rounds initial).log ≡ true
is_decodable-run_example = is_decodable-run 7 rounds refl
