-- ===== src/Whip/RtpClock/Tests.antt =====
-- Concrete timestamps of the WHIP stream, and an instance of the theorem about them.
use skai_edge_native.Common.{◌≡◌, refl, List, [], ◌∷◌, true, arith}
use skai_edge_native.Whip.RtpClock.{
  AccessUnit, make, h264_rtp_timestamp, timestamp, run, enter, following, learn, with_pts,
  without_pts,
}
use skai_edge_native.Whip.RtpClock.Continuity.{all_continue, run-all_continue}

abbrev first_unit : AccessUnit
first_unit = record { source_generation = 1; has_pts = true; pts_ns = 1_000_000_000 }

abbrev second_unit : AccessUnit
second_unit = record { source_generation = 1; has_pts = true; pts_ns = 1_040_000_000 }

abbrev restarted_unit : AccessUnit
restarted_unit = record { source_generation = 2; has_pts = true; pts_ns = 5_000_000 }

abbrev sent_units : List AccessUnit
sent_units = first_unit ∷ second_unit ∷ restarted_unit ∷ []

stamps :
    run sent_units (make 77)
    ≡ (first_unit, 90000) ∷ (second_unit, 93600) ∷ (restarted_unit, 97200) ∷ []
unfolding run make timestamp h264_rtp_timestamp enter following learn with_pts without_pts
stamps = refl

run-all_continue_example : all_continue (run sent_units (make 77)) ≡ true
run-all_continue_example = run-all_continue 77 sent_units (omega arith)
