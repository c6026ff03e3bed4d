-- ===== src/Whip/Publisher/Tests.antt =====
-- Concrete rounds of the uplink, and an instance of its theorem.
use skai_edge_native.Common.{ℕ, ◌≡◌, refl, arith, List, [], ◌∷◌, some, Bool, true, false, ℤ, ltb_ℤ}
use skai_edge_native.Media.{EncodedAccessUnit}
use skai_edge_native.Sei.Selector.{SeiResultSelector}
use skai_edge_native.Whip.Peer
use skai_edge_native.Whip.Publisher.{Round, initial, run}
use skai_edge_native.Whip.Publisher.Gate.{passed, sources, sources-run}

abbrev unit_at : ℕ → Bool → EncodedAccessUnit
unit_at pts_ns keyframe = record {
  sequence = 1;
  pts_ns = pts_ns;
  dts_ns = 0;
  has_pts = true;
  has_dts = false;
  keyframe = keyframe;
  discontinuity = false;
  source_generation = 1;
  bytes = 0 ∷ 0 ∷ 1 ∷ 101 ∷ [];
}

abbrev delivers : EncodedAccessUnit → ℕ → Bool → Round ℤ
delivers unit missed track_open = record {
  now = 5;
  peer = Peer.initial;
  track_open = track_open;
  unit = some unit;
  results = [];
  missed = missed;
  missed_late = 0;
  accepts = true;
}

abbrev selector : SeiResultSelector ℤ
selector = record {
  max_pending = 64;
  pending = [];
  recent_dt = [];
  next_dt = 0;
  stats = record { sei_units = 0; results_attached = 0; results_dropped = 0; boxes_dropped = 0 };
}

-- The track closes once, and the queue drops once.
abbrev rounds : List (Round ℤ)
rounds =
    delivers (unit_at 0 false) 0 true
    ∷ delivers (unit_at 1 true) 0 true
    ∷ delivers (unit_at 2 false) 0 false
    ∷ delivers (unit_at 3 false) 0 true
    ∷ delivers (unit_at 4 true) 0 true
    ∷ delivers (unit_at 5 false) 1 true
    ∷ []

abbrev scaled : ℤ → ℤ
scaled a = a

sources-run_example :
    sources (run scaled ltb_ℤ rounds (initial 9 3 0 selector)).1.packets
    ≡ passed (run scaled ltb_ℤ rounds (initial 9 3 0 selector)).1.inputs
sources-run_example = sources-run scaled ltb_ℤ 9 3 0 selector rounds (omega arith) refl
