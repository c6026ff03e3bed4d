-- ===== src/Health/Components/Recorder.antt =====
-- The recorder's health against the recording controller that it reads.
use skai_edge_native.Common.{◌≡◌, Bool, true, if◌then◌else◌, arith}
use skai_edge_native.Recording.{RecordingController, requested}
use skai_edge_native.Recording.Status.{IsConsistent, requested_lem}
use skai_edge_native.Health.{starting, running}
use skai_edge_native.Health.Components.{recorder_health}

-- While a recording is requested of a consistent controller, the recorder is RUNNING when it is
-- active and STARTING otherwise: it is neither reported as disabled nor as failed.
pub recorder_health-requested :
    (c : RecordingController) (enabled_by_config : Bool)
    → IsConsistent c
    → requested c ≡ true
    → (recorder_health c.c_status (requested c) enabled_by_config).state
      ≡ (if c.c_status.active then running else starting)
unfolding recorder_health
recorder_health-requested c enabled v h =
    let (set_up, there, no_error, media) = requested_lem c v h in
    rw (h, no_error, set_up, media, there) (ground arith)
