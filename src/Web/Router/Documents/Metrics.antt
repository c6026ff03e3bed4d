-- ===== src/Web/Router/Documents/Metrics.antt =====
-- `status_json` and `metrics_json` of src/web/router.cpp, with the
-- records of include/skai/metrics.hpp that they write.
use skai_edge_native.Common.{
  ℕ, List, [], ◌∷◌, Option, none, some, is_some, Bool, if◌then◌else◌, codes, ℤ,
}
use skai_edge_native.BoundedQueue.{QueueStats}
use skai_edge_native.RtspRecovery.{
  SourceHealth, stopped, connecting, connected, degraded, stalled, reconnecting, error,
}
use skai_edge_native.Api.Status.{Encoder, RuntimeStatusSnapshot}
use skai_edge_native.Api.Gps.{GpsFix}
use skai_edge_native.Web.Json.{
  Node, value, literal, quoted, text, array, object, json_bool, null, natural, signed, optional,
  items_of,
}
use skai_edge_native.Web.Router.Documents.{members_of, short_number}
use skai_edge_native.Web.Router.Documents.Peers.{WebRtcDiagnostics, no_diagnostics, webrtc_document}

pub source_health_name : SourceHealth → List ℕ
source_health_name stopped = codes "stopped"
source_health_name connecting = codes "connecting"
source_health_name connected = codes "connected"
source_health_name degraded = codes "degraded"
source_health_name stalled = codes "stalled"
source_health_name reconnecting = codes "reconnecting"
source_health_name error = codes "error"

pub encoder_document : Encoder → Node value
encoder_document encoder = object (
    members_of (
      ("frames_submitted", natural encoder.frames_submitted)
      ∷ ("frames_rejected", natural encoder.frames_rejected)
      ∷ ("frames_dropped", natural encoder.frames_dropped)
      ∷ ("appsrc_pressure_dropped", natural encoder.appsrc_pressure_dropped)
      ∷ ("access_units_encoded", natural encoder.access_units_encoded)
      ∷ ("bytes_encoded", natural encoder.bytes_encoded)
      ∷ ("access_units_dropped", natural encoder.access_units_dropped)
      ∷ ("last_access_unit_age_ms", signed encoder.last_access_unit_age_ms)
      ∷ ("last_error", text encoder.last_error)
      ∷ []))

-- The fields of `RtspDiagnostics` that are written.
pub record RtspDiagnostics (F : Type 0) : Type 0 where
  pub health : SourceHealth
  pub codec : List ℕ
  pub decoder : List ℕ
  pub transport : List ℕ
  pub width : ℤ
  pub height : ℤ
  pub fps_in : F
  pub frames_received : ℕ
  pub frames_dropped : ℕ
  pub frames_discarded : ℕ
  pub last_frame_age_ms : ℤ
  pub reconnect_count : ℕ
  pub packets_lost : ℕ
  pub packets_late : ℕ
  pub last_error : List ℕ

-- `WhipMetrics`.
pub record WhipMetrics : Type 0 where
  pub enabled : Bool
  pub peer_state : List ℕ
  pub ice_state : List ℕ
  pub last_error : List ℕ
  pub access_units_sent : ℕ
  pub media_queue_drops : ℕ
  pub media_queue_discarded : ℕ

-- `MetricsSnapshot`; a recent error is the JSON text of an event.
pub record MetricsSnapshot (F : Type 0) : Type 0 where
  pub memory_rss_bytes : Option ℕ
  pub cpu_percent : Option F
  pub gpu_percent : Option F
  pub disk_free_bytes : Option ℕ
  pub rtsp : Option (RtspDiagnostics F)
  pub inference_queue : QueueStats
  pub inference_queue_depth : ℕ
  pub encoded_queue : QueueStats
  pub encoded_queue_depth : ℕ
  pub websocket_clients : ℕ
  pub whip : WhipMetrics
  pub alert_count : Option ℕ
  pub encoder_fps : Option F
  pub recent_errors : List (List ℕ)

module _ {F : Type 0} (number : ℕ → F → List ℕ) where
  pub status_document : RuntimeStatusSnapshot F → Bool → Option WebRtcDiagnostics → Node value
  unfolding encoder_document webrtc_document
  status_document status detector_enabled webrtc = object (
      members_of (
        ("status", quoted status.status)
        ∷ ("uptime_s", natural status.uptime_s)
        ∷ (
          "video",
          object (members_of (("fps", optional (short_number number) status.video_fps) ∷ [])),
        )
        ∷ (
          "detector",
          object (
              members_of (
                ("enabled", json_bool detector_enabled)
                ∷ ("fps", optional (short_number number) status.detector_fps)
                ∷ ("last_inference_ms", optional (short_number number) status.last_inference_ms)
                ∷ [])),
        )
        ∷ ("encoder", optional encoder_document status.encoder)
        ∷ ("webrtc", optional webrtc_document webrtc)
        ∷ []))

  pub rtsp_document : RtspDiagnostics F → Node value
  unfolding source_health_name
  rtsp_document source = object (
      members_of (
        ("health", text (source_health_name source.health))
        ∷ ("codec", text source.codec)
        ∷ ("decoder", text source.decoder)
        ∷ ("transport", text source.transport)
        ∷ ("width", signed source.width)
        ∷ ("height", signed source.height)
        ∷ ("fps_in", short_number number source.fps_in)
        ∷ ("frames_received", natural source.frames_received)
        ∷ ("frames_dropped", natural source.frames_dropped)
        ∷ ("frames_discarded", natural source.frames_discarded)
        ∷ ("last_frame_age_ms", signed source.last_frame_age_ms)
        ∷ ("reconnect_count", natural source.reconnect_count)
        ∷ ("packets_lost", natural source.packets_lost)
        ∷ ("packets_late", natural source.packets_late)
        ∷ ("last_error", text source.last_error)
        ∷ []))

  pub queue_document : ℕ → QueueStats → Node value
  queue_document depth stats = object (
      members_of (
        ("depth", natural depth)
        ∷ ("dropped", natural stats.dropped)
        ∷ ("discarded", natural stats.discarded)
        ∷ []))

  pub whip_document : WhipMetrics → Node value
  whip_document whip = object (
      members_of (
        ("enabled", json_bool whip.enabled)
        ∷ ("peer_state", text whip.peer_state)
        ∷ ("ice_state", text whip.ice_state)
        ∷ ("last_error", text whip.last_error)
        ∷ ("access_units_sent", natural whip.access_units_sent)
        ∷ ("media_queue_drops", natural whip.media_queue_drops)
        ∷ ("media_queue_discarded", natural whip.media_queue_discarded)
        ∷ []))

  pub system_document : MetricsSnapshot F → Node value
  system_document metrics = object (
      members_of (
        ("memory_rss_bytes", optional natural metrics.memory_rss_bytes)
        ∷ ("cpu_percent", optional (short_number number) metrics.cpu_percent)
        ∷ ("gpu_percent", optional (short_number number) metrics.gpu_percent)
        ∷ ("disk_free_bytes", optional natural metrics.disk_free_bytes)
        ∷ []))

  pub gps_summary : GpsFix F → Node value
  gps_summary fix = object (members_of (("source", text fix.source) ∷ ("age_s", null) ∷ []))

  abbrev diagnostics_or_default : Option WebRtcDiagnostics → WebRtcDiagnostics
  diagnostics_or_default none = no_diagnostics
  diagnostics_or_default (some diagnostics) = diagnostics

  -- `metrics_json`, on the latest GPS fix.
  pub metrics_document :
      RuntimeStatusSnapshot F
      → MetricsSnapshot F
      → Option (GpsFix F)
      → Option WebRtcDiagnostics
      → Node value
  unfolding rtsp_document queue_document whip_document system_document gps_summary webrtc_document
  metrics_document status metrics gps webrtc = object (
      members_of (
        ("ingest_fps", optional (short_number number) status.video_fps)
        ∷ ("rtsp", optional rtsp_document metrics.rtsp)
        ∷ ("inference_fps", optional (short_number number) status.detector_fps)
        ∷ ("inference_latency_ms", optional (short_number number) status.last_inference_ms)
        ∷ ("inference_queue", queue_document metrics.inference_queue_depth metrics.inference_queue)
        ∷ ("encoder_fps", optional (short_number number) metrics.encoder_fps)
        ∷ (
          "encoder_mode",
          text (if is_some status.encoder then codes "encode" else codes "passthrough"),
        )
        ∷ ("encoded_media_queue", queue_document metrics.encoded_queue_depth metrics.encoded_queue)
        ∷ ("whip", whip_document metrics.whip)
        ∷ ("websocket_clients", natural metrics.websocket_clients)
        ∷ ("webrtc", webrtc_document (diagnostics_or_default webrtc))
        ∷ ("gps", optional gps_summary gps)
        ∷ ("alert_count", optional natural metrics.alert_count)
        ∷ ("system", system_document metrics)
        ∷ ("recent_errors", array (items_of literal metrics.recent_errors))
        ∷ []))
