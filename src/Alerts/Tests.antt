-- ===== src/Alerts/Tests.antt =====
-- Concrete results for an alert rule, and instances of the theorems.
use skai_edge_native.Common.{
  ℕ, ◌≡◌, refl, arith, List, [], ◌∷◌, none, is_some, true, false, codes, pos, ◌&&◌, ◌||◌, not, leb,
  suc,
}
use skai_edge_native.Config.{AlertRuleConfig}
use skai_edge_native.Alerts.Rule.{advance}
use skai_edge_native.Alerts.Rule.Spacing.{
  Look, fresh_trace, watch, are_spaced, are_spaced-watch, is_raised, has_cooled, is_raised-watch,
}
use skai_edge_native.Alerts.Snapshot.{Frame, Files, persist, is_invalid}
use skai_edge_native.Alerts.Snapshot.Kept.{replay, is_clean, replay-persist}

-- Two results in a row, and five seconds.
abbrev person : AlertRuleConfig ℕ
person = record {
  class_name = codes "person";
  confidence = 700;
  consecutive_frames = pos 2;
  cooldown_seconds = pos 5;
  roi = none;
}

abbrev matches_at : ℕ → Look
matches_at now = record { is_reset = false; has_match = true; now = now; is_kept = true }

abbrev looks : List Look
looks =
    matches_at 1_000_000_000
    ∷ matches_at 2_000_000_000
    ∷ matches_at 3_000_000_000
    ∷ matches_at 6_999_999_999
    ∷ matches_at 7_000_000_000
    ∷ []

are_spaced-watch_example : are_spaced 5_000_000_000 (watch looks (fresh_trace person)).alerts ≡ true
are_spaced-watch_example = are_spaced-watch person 2 5 looks (omega arith) refl refl

is_raised-watch_example :
    is_raised (advance true 12_000_000_000 true (watch looks (fresh_trace person)).state)
    ≡ true
      && (leb 2 (suc (watch looks (fresh_trace person)).streak)
          && (has_cooled 5_000_000_000 12_000_000_000 (watch looks (fresh_trace person)).alerts
              && true))
is_raised-watch_example =
    is_raised-watch person 2 5 looks true true 12_000_000_000 (omega arith) refl refl

abbrev frame : Frame
frame = record { width = pos 2; height = pos 2; stride = pos 6; bgr_size = 12 }

-- The row cannot be inserted, and the snapshot is removed.
abbrev files : Files
files = record {
  final_path = codes "alerts/2024-01-01/alert-1.jpg";
  creates_directory = true;
  encodes = true;
  syncs_file = true;
  renames = true;
  syncs_directory = true;
  inserts = false;
  removes = true;
}

removed_again : (replay (persist (codes "alerts") frame files).1).has_snapshot ≡ false
unfolding persist is_invalid
removed_again = refl

replay-persist_example :
    let kept = is_some (persist (codes "alerts") frame files).0 in
    let storage = replay (persist (codes "alerts") frame files).1 in
    (storage.has_row ≡ kept)
    × ((kept || (storage.has_snapshot && not (is_clean files))) ≡ storage.has_snapshot)
    × ((storage.has_temporary && (kept || is_clean files)) ≡ false)
replay-persist_example = replay-persist (codes "alerts") frame files
