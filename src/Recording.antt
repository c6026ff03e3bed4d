-- ===== src/Recording.antt =====
-- `RecordingController` of src/video/recording.cpp and include/skai/video/recording_control.hpp:
-- the switch between the HTTP interface, the video source and the recording worker. Every method
-- holds the mutex, so a method is one step.
pub mod Status
pub mod Worker
mod Tests
use skai_edge_native.Common.{
  ℕ, List, [], ◌∷◌, Bool, true, false, not, ◌&&◌, if◌then◌else◌, codes, add64, inc64,
}

-- The texts of `RecordingStatus::state`.
pub data RecordingState : Type 0 where
  unavailable starting stopped recording stopping error : RecordingState

-- `RecordingStatus`.
pub record RecordingStatus : Type 0 where
  pub configured : Bool
  pub available : Bool
  pub active : Bool
  pub state : RecordingState
  pub current_path : List ℕ
  pub last_error : List ℕ
  pub unavailable_reason : List ℕ
  pub access_units_written : ℕ
  pub bytes_written : ℕ
  pub access_units_dropped : ℕ

-- `RecordingController`; the fields of the class have a `c_` where the status has the same name.
pub record RecordingController : Type 0 where
  pub c_configured : Bool
  pub c_requested : Bool
  pub media_available : Bool
  pub media_unavailable_reason : List ℕ
  pub c_status : RecordingStatus

abbrev pub fresh_status : RecordingStatus
fresh_status = record {
  configured = false;
  available = true;
  active = false;
  state = stopped;
  current_path = [];
  last_error = [];
  unavailable_reason = [];
  access_units_written = 0;
  bytes_written = 0;
  access_units_dropped = 0;
}

abbrev pub fresh_controller : RecordingController
fresh_controller = record {
  c_configured = false;
  c_requested = false;
  media_available = true;
  media_unavailable_reason = [];
  c_status = fresh_status;
}

-- `configure`, with the `enabled` of the configuration.
pub configure : Bool → RecordingController → RecordingController
configure enabled c = record c {
  c_configured = true;
  c_requested = enabled;
  c_status = record fresh_status {
    configured = true;
    available = c.media_available;
    unavailable_reason = c.media_unavailable_reason;
    state = if not c.media_available then unavailable else if enabled then starting else stopped;
  };
}

abbrev or_text : List ℕ → List ℕ → List ℕ
or_text [] text = text
or_text (c ∷ cs) text = c ∷ cs

abbrev not_configured : List ℕ
not_configured = codes "recording is not configured"

-- `start`: whether it succeeds, the error text, and the controller after it.
pub start : RecordingController → Bool × List ℕ × RecordingController
start c =
    if not c.c_configured
    then (false, not_configured, c)
    else if not c.media_available
    then (false, or_text c.media_unavailable_reason (codes "source H.264 is unavailable"), c)
    else (
      true,
      [],
      record c {
        c_requested = true;
        c_status = record c.c_status {
          last_error = [];
          state = if c.c_status.active then c.c_status.state else starting;
        };
      },
    )

-- `stop`.
pub stop : RecordingController → Bool × List ℕ × RecordingController
stop c = if not c.c_configured then (false, not_configured, c) else (
  true,
  [],
  record c {
    c_requested = false;
    c_status = record c.c_status { state = if c.c_status.active then stopping else stopped };
  },
)

pub requested : RecordingController → Bool
requested c = c.c_requested && c.media_available

pub set_active : List ℕ → RecordingController → RecordingController
set_active path c = record c {
  c_status = record c.c_status { active = true; state = recording; current_path = path };
}

abbrev pub is_unavailable : RecordingState → Bool
is_unavailable unavailable = true
is_unavailable _ = false

abbrev pub is_error : RecordingState → Bool
is_error error = true
is_error _ = false

pub set_stopped : RecordingController → RecordingController
set_stopped c = record c {
  c_status = record c.c_status {
    active = false;
    state =
        if not c.c_requested && not (is_error c.c_status.state) then stopped else c.c_status.state;
  };
}

pub set_error : List ℕ → RecordingController → RecordingController
set_error message c = record c {
  c_requested = false;
  c_status = record c.c_status { active = false; state = error; last_error = message };
}

pub commit_written : ℕ → ℕ → RecordingController → RecordingController
commit_written access_units bytes c = record c {
  c_status = record c.c_status {
    access_units_written = add64 c.c_status.access_units_written access_units;
    bytes_written = add64 c.c_status.bytes_written bytes;
  };
}

pub add_dropped : RecordingController → RecordingController
add_dropped c = record c {
  c_status = record c.c_status { access_units_dropped = inc64 c.c_status.access_units_dropped };
}

-- The state and the activity that `set_media_available` leaves.
next_state : Bool → Bool → RecordingStatus → RecordingState
next_state available wanted s =
    if not available
    then (if is_error s.state then s.state else unavailable)
    else if wanted && not s.active
    then starting
    else if not wanted && not (is_error s.state)
    then stopped
    else s.state

pub set_media_available : Bool → List ℕ → RecordingController → RecordingController
unfolding next_state
set_media_available available reason c =
    let kept = if available then [] else reason in
    record c {
      media_available = available;
      media_unavailable_reason = kept;
      c_status = record c.c_status {
        available = available;
        unavailable_reason = kept;
        active = available && c.c_status.active;
        state = next_state available c.c_requested c.c_status;
      };
    }
