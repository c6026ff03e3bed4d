-- ===== src/Recording/Status.antt =====
-- What holds of the controller after any calls.
use skai_edge_native.Common.{ℕ, ◌≡◌, refl, List, [], ◌∷◌, Bool, true, false, not, ◌&&◌, arith}
use skai_edge_native.Recording.{
  is_unavailable, is_error, RecordingState, unavailable, starting, stopped, recording, stopping,
  error, RecordingController, configure, start, stop, requested, set_active, set_stopped, set_error,
  commit_written, add_dropped, next_state, set_media_available,
}

-- A call of one of the methods that change the controller.
pub data Call : Type 0 where
  configures : Bool → Call
  starts stops ends drops : Call
  activates fails : List ℕ → Call
  writes : ℕ → ℕ → Call
  switches : Bool → List ℕ → Call

abbrev pub step : Call → RecordingController → RecordingController
step (configures enabled) c = configure enabled c
step starts c = (start c).2
step stops c = (stop c).2
step ends c = set_stopped c
step drops c = add_dropped c
step (activates path) c = set_active path c
step (fails message) c = set_error message c
step (writes units bytes) c = commit_written units bytes c
step (switches available reason) c = set_media_available available reason c

abbrev pub run : List Call → RecordingController → RecordingController
run [] c = c
run (call ∷ calls) c = run calls (step call c)

-- Idle states have no recording; an error is neither requested nor recording.
abbrev pub agrees : RecordingState → Bool → Bool → Bool
agrees unavailable wanted active = not active
agrees starting wanted active = not active
agrees stopped wanted active = true
agrees recording wanted active = true
agrees stopping wanted active = true
agrees error wanted active = not wanted && not active

-- The status tells configuration and media state, a request needs a configuration, and state,
-- request, media and activity agree.
pub record IsConsistent (c : RecordingController) : Type 0 where
  pub tells_available : c.c_status.available ≡ c.media_available
  pub tells_reason : c.c_status.unavailable_reason ≡ c.media_unavailable_reason
  pub no_reason : c.media_available ≡ true → c.media_unavailable_reason ≡ []
  pub needs_configuration : c.c_requested ≡ true → c.c_configured ≡ true
  pub tells_configured : c.c_status.configured ≡ c.c_configured
  pub unavailable_media : is_unavailable c.c_status.state ≡ true → c.media_available ≡ false
  pub state_agrees : agrees c.c_status.state c.c_requested c.c_status.active ≡ true

step-IsConsistent :
    (call : Call) (c : RecordingController) → IsConsistent c → IsConsistent (step call c)
unfolding configure start stop set_active set_stopped set_error commit_written add_dropped
    set_media_available next_state
step-IsConsistent (configures enabled) c v = ground arith
step-IsConsistent starts c v = ground arith
step-IsConsistent stops c v = ground arith
step-IsConsistent ends c v = ground arith
step-IsConsistent drops c v = ground arith
step-IsConsistent (activates path) c v = ground arith
step-IsConsistent (fails message) c v = ground arith
step-IsConsistent (writes units bytes) c v = ground arith
step-IsConsistent (switches available reason) c v = ground arith

-- After any calls on a consistent controller the status tells configuration and media state, a
-- recording is only requested when there is a configuration, the state is UNAVAILABLE only without
-- media, no recording is active in the states UNAVAILABLE, STARTING and ERROR, and none is
-- requested in ERROR.
pub run-IsConsistent :
    (calls : List Call) (c : RecordingController) → IsConsistent c → IsConsistent (run calls c)
run-IsConsistent [] c v = v
run-IsConsistent (call ∷ calls) c v =
    run-IsConsistent calls (step call c) (step-IsConsistent call c v)

-- On a consistent controller, start succeeds exactly when there is a configuration and the media
-- is available, and then, and only then, a recording is requested after it.
pub requested-start :
    (c : RecordingController)
    → IsConsistent c
    → ((start c).0 ≡ c.c_configured && c.media_available) × (requested (start c).2 ≡ (start c).0)
unfolding start requested
requested-start c v = (ground arith, ground (arith, v.needs_configuration))

-- No call of start or configure.
abbrev pub no_request : List Call → Bool
no_request [] = true
no_request (configures enabled ∷ calls) = false
no_request (starts ∷ calls) = false
no_request (call ∷ calls) = no_request calls

pub unrequested_lem :
    (calls : List Call) (c : RecordingController)
    → no_request calls ≡ true
    → c.c_requested ≡ false
    → requested (run calls c) ≡ false
unfolding requested stop set_active set_stopped set_error commit_written add_dropped
    set_media_available
unrequested_lem [] c h n = ground arith
unrequested_lem (configures enabled ∷ calls) c h n = ground arith
unrequested_lem (starts ∷ calls) c h n = ground arith
unrequested_lem (stops ∷ calls) c h n = unrequested_lem calls (stop c).2 h (ground arith)
unrequested_lem (ends ∷ calls) c h n = unrequested_lem calls (set_stopped c) h n
unrequested_lem (drops ∷ calls) c h n = unrequested_lem calls (add_dropped c) h n
unrequested_lem (activates path ∷ calls) c h n = unrequested_lem calls (set_active path c) h n
unrequested_lem (fails message ∷ calls) c h n = unrequested_lem calls (set_error message c) h refl
unrequested_lem (writes units bytes ∷ calls) c h n =
    unrequested_lem calls (commit_written units bytes c) h n
unrequested_lem (switches available reason ∷ calls) c h n =
    unrequested_lem calls (set_media_available available reason c) h n

-- After an error nothing is recorded again before start or configure is called, even when the
-- media comes back.
pub set_error-latches :
    (calls : List Call) (message : List ℕ) (c : RecordingController)
    → no_request calls ≡ true
    → requested (run calls (set_error message c)) ≡ false
unfolding set_error
set_error-latches calls message c h = unrequested_lem calls (set_error message c) h refl

-- What the status of a consistent controller shows while a recording is requested.
pub requested_lem :
    (c : RecordingController)
    → IsConsistent c
    → requested c ≡ true
    → (c.c_status.configured ≡ true)
      × (c.c_status.available ≡ true)
      × (is_error c.c_status.state ≡ false)
      × (is_unavailable c.c_status.state ≡ false)
unfolding requested
requested_lem c v h = (
  ground (arith, v.needs_configuration, v.tells_configured),
  ground (arith, v.tells_available),
  ground (arith, v.state_agrees),
  ground (arith, v.unavailable_media),
)

-- A configuration that enables recording requests one, given media.
pub configure-requested :
    (c : RecordingController) → c.media_available ≡ true → requested (configure true c) ≡ true
unfolding configure requested
configure-requested c h = ground arith
