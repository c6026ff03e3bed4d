-- ===== src/Health/Tests.antt =====
-- Concrete watchdogs, and instances of the theorems on snapshots.
use skai_edge_native.Common.{◌∷◌, ◌≡◌, refl, [], true, false, arith, codes}
use skai_edge_native.Health.{
  starting, running, degraded, failed, HealthComponent, gps, HealthWatchdog, Answer, reports,
  throws, snapshot, tick, start, set_probe, set_lifecycle, update, collect,
}
use skai_edge_native.Recording.{RecordingController, fresh_controller, configure}
use skai_edge_native.Recording.Status.{IsConsistent, configures, run-IsConsistent}
use skai_edge_native.Health.Snapshot.{overall-snapshot}

abbrev fresh_watchdog : HealthWatchdog
fresh_watchdog = record {
  entries = λ c. record {
    registered = true;
    health = record { state = starting; detail = [] };
    critical = true;
  };
  last_poll = 0;
  lifecycle = starting;
  polling = false;
  is_stopping = false;
}

abbrev all_well : HealthComponent → Answer
all_well c = reports (record { state = running; detail = [] })

-- GPS throws; the others are well.
abbrev gps_throws : HealthComponent → Answer
gps_throws gps = throws (codes "no fix")
gps_throws _ = reports (record { state = running; detail = [] })

abbrev gps_optional : HealthWatchdog
gps_optional = set_probe gps true false fresh_watchdog

start_runs : (snapshot 7 (start 5 all_well fresh_watchdog)).overall ≡ running
unfolding snapshot collect start tick set_lifecycle
start_runs = refl

optional_degrades : (snapshot 7 (start 5 gps_throws gps_optional)).overall ≡ degraded
unfolding snapshot collect start tick set_lifecycle set_probe update
optional_degrades = refl

critical_fails : (snapshot 7 (start 5 gps_throws fresh_watchdog)).overall ≡ failed
unfolding snapshot collect start tick set_lifecycle
critical_fails = refl

overall-snapshot_example :
    (snapshot 7_000_000_000 (start 5 all_well fresh_watchdog)).overall ≡ failed
unfolding start tick set_lifecycle
overall-snapshot_example = overall-snapshot 7_000_000_000 (start 5 all_well fresh_watchdog)

abbrev is_on : HealthWatchdog
is_on = record fresh_watchdog { lifecycle = running }

abbrev recording_asked : RecordingController
recording_asked = configure true fresh_controller

recording_asked-IsConsistent : IsConsistent recording_asked
recording_asked-IsConsistent =
    run-IsConsistent (configures true ∷ []) fresh_controller (ground arith)
