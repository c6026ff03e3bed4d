-- ===== src/Api/Tests.antt =====
-- Concrete states and instances of the theorems on them. Numbers stand for floating-point ones.
use skai_edge_native.Common.{
  ℕ, ◌≡◌, refl, List, [], ◌∷◌, none, some, true, false, ◌&&◌, ◌==◌, arith, codes, pos,
}
use skai_edge_native.Api.{
  ApiState, no_detections, synchronize_runtime_status, set_detector_enabled, detector_permit,
  is_current, commit_detections,
}
use skai_edge_native.Api.Status.{Encoder, RuntimeStatus, snapshot, status_text, update_detector}
use skai_edge_native.Api.Permit.{
  Call, supports, invalidates, run, revocations, commit_detections-run,
}

abbrev no_encoder : Encoder
no_encoder = record {
  frames_submitted = 0;
  frames_rejected = 0;
  frames_dropped = 0;
  appsrc_pressure_dropped = 0;
  access_units_encoded = 0;
  bytes_encoded = 0;
  access_units_dropped = 0;
  last_access_unit_age_ms = pos 0;
  last_error = [];
}

abbrev live : RuntimeStatus ℕ
live = record {
  running = true;
  detector_expected = true;
  video_available = true;
  detector_available = false;
  detector_fps_available = false;
  video_fps = 25;
  detector_fps = 0;
  inference_ms = 0;
  inference_at_ns = 0;
  encoder_available = false;
  encoder_values = no_encoder;
}

abbrev api : ApiState ℕ
api = record {
  config = none;
  detector_enabled = true;
  detector_supported = true;
  detector_generation = 7;
  status = some live;
  gps_state = none;
  latest = no_detections;
}

abbrev calls : List (Call ℕ)
calls = supports true ∷ invalidates (record { enabled = true; generation = 7 }) ∷ []

-- The detections of a permit are lost when the detector is switched off and on.
switched_off :
    (commit_detections
      (detector_permit api)
      no_detections
      (update_detector 5 20 8)
      (set_detector_enabled true (set_detector_enabled false api))).0
    ≡ false
unfolding commit_detections is_current detector_permit set_detector_enabled
    synchronize_runtime_status
switched_off = refl

waits_for_detections : (snapshot 9_000_000 live).status ≡ codes "degraded"
unfolding snapshot status_text
waits_for_detections = refl

inference_age :
    (snapshot 9_000_000 (update_detector 5_000_000 20 8 live)).last_inference_age_ms ≡ some 4
unfolding snapshot update_detector
inference_age = refl

commit_detections-run_example :
    (commit_detections
      (detector_permit api)
      no_detections
      (update_detector 5 20 8)
      (run calls api)).0
    ≡ (true && revocations calls == 0)
commit_detections-run_example =
    commit_detections-run calls no_detections (update_detector 5 20 8) api (omega arith)
      (omega arith)
