-- ===== src/Health/Components.antt =====
-- The probes of src/health.cpp for the single components. The structures that they read are
-- written with the fields that they read.
pub mod Recorder
use skai_edge_native.Common.{
  ℕ, List, [], ◌∷◌, Option, none, some, Bool, true, false, not, ◌&&◌, ◌||◌, ltb, ◌==◌,
  if◌then◌else◌, codes, eqb, ℤ, pos, negsuc, ltb_ℤ, is_some,
}
use skai_edge_native.RtspRecovery
use skai_edge_native.RtspRecovery.{
  SourceHealth, stopped, connecting, connected, stalled, reconnecting, error,
}
use skai_edge_native.Recording.{RecordingStatus, is_unavailable, is_error}
use skai_edge_native.Health.{HealthState, starting, running, degraded, failed, ComponentHealth}

-- The fields of `H264EncoderMetrics` that are read.
pub record EncoderMetrics : Type 0 where
  pub last_error : List ℕ
  pub last_access_unit_age_ms : ℤ

-- The fields of `WhipMetrics` that are read.
pub record WhipMetrics : Type 0 where
  pub enabled : Bool
  pub peer_state : List ℕ
  pub ice_state : List ℕ
  pub last_error : List ℕ

-- The fields of `WebRtcDiagnostics` that are read.
pub record WebRtcDiagnostics : Type 0 where
  pub enabled : Bool
  pub media_available : Bool
  pub media_unavailable_reason : List ℕ

abbrev pub reading : HealthState → List ℕ → ComponentHealth
reading state detail = record { state = state; detail = detail }

abbrev or_text : List ℕ → List ℕ → List ℕ
or_text [] text = text
or_text (c ∷ cs) text = c ∷ cs

-- The fields of `RtspDiagnostics` that are read.
pub record RtspDiagnostics : Type 0 where
  pub health : SourceHealth
  pub last_frame_age_ms : ℤ
  pub frames_received : ℕ
  pub last_error : List ℕ

abbrev is_connected : SourceHealth → Bool
is_connected connected = true
is_connected _ = false

by_source_health : SourceHealth → RtspDiagnostics → ComponentHealth
by_source_health connected value = reading running []
by_source_health connecting value =
    reading (if value.frames_received == 0 then starting else degraded) (codes "source connecting")
by_source_health skai_edge_native.RtspRecovery.degraded value =
    reading degraded (codes "source packet loss")
by_source_health stalled value = reading degraded (codes "source stalled")
by_source_health reconnecting value =
    reading degraded (or_text value.last_error (codes "source reconnecting"))
by_source_health error value = reading failed (or_text value.last_error (codes "source failed"))
by_source_health stopped value = reading failed (codes "source stopped")

pub video_health : Option RtspDiagnostics → ℤ → ComponentHealth
unfolding by_source_health
video_health none stall_timeout_ms = reading starting (codes "source not initialized")
video_health (some value) stall_timeout_ms =
    if is_connected value.health
      && (not (ltb_ℤ value.last_frame_age_ms (pos 0))
          && ltb_ℤ stall_timeout_ms value.last_frame_age_ms)
    then reading degraded (codes "source frame is stale")
    else by_source_health value.health value

-- `gps_health`; a fix is its `valid`.
pub gps_health : Bool → Option Bool → ComponentHealth
gps_health false fix = reading running (codes "disabled")
gps_health true none = reading degraded (codes "GPS fix unavailable")
gps_health true (some valid) =
    if valid then reading running [] else reading degraded (codes "GPS fix unavailable")

abbrev is_old : Option ℤ → Bool
is_old none = false
is_old (some age) = ltb_ℤ (pos 3000) age

-- `detector_health`, with the two fields of the status.
pub detector_health : Bool → Bool → Bool → Option ℤ → ComponentHealth
detector_health supported enabled has_inference age =
    if not supported
    then reading running (codes "not installed")
    else if not enabled
    then reading running (codes "disabled")
    else if not has_inference
    then reading degraded (codes "no current inference")
    else if is_old age
    then reading degraded (codes "inference is stale")
    else reading running []

with_encoder : EncoderMetrics → ComponentHealth
with_encoder e = elim e.last_error [
  | [] ↦
      if ltb_ℤ (pos 3000) e.last_access_unit_age_ms
      then reading degraded (codes "encoded media is stale")
      else reading running []
  | c ∷ cs ↦ reading degraded (c ∷ cs)
]

present_encoder : Option EncoderMetrics → ComponentHealth
unfolding with_encoder
present_encoder none = reading running (codes "H.264 passthrough")
present_encoder (some e) = with_encoder e

pub encoder_health : Option EncoderMetrics → Bool → Bool → ComponentHealth
unfolding present_encoder
encoder_health encoder media_available h264_required =
    if not h264_required && not (is_some encoder)
    then reading running (codes "not required")
    else if not media_available
    then reading degraded (codes "H.264 media unavailable")
    else present_encoder encoder

pub recorder_health : RecordingStatus → Bool → Bool → ComponentHealth
recorder_health status requested enabled_by_config =
    if is_error status.state
    then reading failed status.last_error
    else if not status.configured || (not enabled_by_config && (not requested && not status.active))
    then reading running (codes "disabled")
    else if is_unavailable status.state
    then reading degraded status.unavailable_reason
    else if not requested
    then reading running (codes "stopped")
    else if not status.available
    then reading degraded status.unavailable_reason
    else if status.active
    then reading running []
    else reading starting (codes "recording starting")

uplink : WhipMetrics → ComponentHealth → ComponentHealth
uplink whip otherwise =
    if eqb whip.peer_state (codes "failed") || eqb whip.peer_state (codes "stopped")
    then reading failed (or_text whip.last_error (codes "WHIP uplink stopped"))
    else if eqb whip.peer_state (codes "retrying")
        || (eqb whip.peer_state (codes "disconnected")
            || (eqb whip.ice_state (codes "failed") || eqb whip.ice_state (codes "disconnected")))
    then reading degraded (or_text whip.last_error (codes "WHIP uplink reconnecting"))
    else if not (eqb whip.peer_state (codes "connected"))
        || (not (eqb whip.ice_state (codes "connected"))
            && not (eqb whip.ice_state (codes "completed")))
    then reading starting (codes "WHIP uplink connecting")
    else otherwise

pub webrtc_health : WebRtcDiagnostics → WhipMetrics → ComponentHealth
unfolding uplink
webrtc_health diagnostics whip =
    let local =
      if diagnostics.enabled && not diagnostics.media_available
      then reading degraded diagnostics.media_unavailable_reason
      else if not diagnostics.enabled && not whip.enabled
      then reading running (codes "disabled")
      else reading running [] in
    if whip.enabled then uplink whip local else local

pub web_health : Bool → ComponentHealth
web_health serving =
    if serving then reading running [] else reading failed (codes "HTTP server not serving")

pub database_health : List ℕ → ComponentHealth
database_health [] = reading running []
database_health (c ∷ cs) = reading failed (c ∷ cs)
