-- ===== src/Config/Parse/Sections.antt =====
-- The sections of the document, as `parse` of src/config.cpp reads them.
use Prim.Native.String.{String}
use skai_edge_native.Common.{
  ℕ, suc, List, [], ◌∷◌, ◌++◌, Option, none, some, is_some, eqb, if◌then◌else◌, codes, map,
}
use skai_edge_native.Sei.Json.{decimal}
use skai_edge_native.Config.{
  Library, VideoConfig, DetectorConfig, WebConfig, RecordingConfig, StorageConfig, AlertRoi,
  AlertRuleConfig, GpsConfig, WebrtcConfig, WhipConfig, LogLevel, log_trace, log_debug, log_info,
  log_warning, log_error, default_rule, default_roi,
}
use skai_edge_native.Config.Outcome.{Outcome, fine, throws, ◌>>=◌, ◌>>◌, text}
use skai_edge_native.Config.Document.{
  Node, null, scalar, sequence, mapping, Nodes, no_node, node, check_keys, lookup, read_scalar,
}

-- `as<std::string>` on a scalar.
abbrev as_text : List ℕ → Option (List ℕ)
as_text bytes = some bytes

-- The sections but for `video` may be missing.
unfoldable pub optional : {A : Type 0} → Option Node → A → (Node → Outcome A) → Outcome A
optional none value f = fine value
optional (some section) value f = f section

pub parse_webrtc_interfaces : Nodes → Outcome (List (List ℕ))
parse_webrtc_interfaces no_node = fine []
parse_webrtc_interfaces (node (scalar name) rest) =
    let names = parse_webrtc_interfaces rest in names >>= λ ns. fine (name ∷ ns)
parse_webrtc_interfaces (node null rest) =
    throws (text "webrtc.host_interfaces must contain strings")
parse_webrtc_interfaces (node (sequence ns) rest) =
    throws (text "webrtc.host_interfaces must contain strings")
parse_webrtc_interfaces (node (mapping es) rest) =
    throws (text "webrtc.host_interfaces must contain strings")

abbrev interfaces_of : Node → Outcome (List (List ℕ))
interfaces_of (sequence ns) = parse_webrtc_interfaces ns
interfaces_of _ = throws (text "webrtc.host_interfaces must be a sequence")

level_of : List ℕ → Outcome LogLevel
level_of level =
    if eqb level (codes "trace")
    then fine log_trace
    else if eqb level (codes "debug")
    then fine log_debug
    else if eqb level (codes "info")
    then fine log_info
    else if eqb level (codes "warning")
    then fine log_warning
    else if eqb level (codes "error")
    then fine log_error
    else throws (text "logging.level must be trace, debug, info, warning, or error")

-- A missing section leaves the default level.
pub parse_logging : Node → Outcome LogLevel
unfolding level_of
parse_logging section = do
  check_keys section (text "logging") (map codes ("level" ∷ []))
  level ← read_scalar as_text section "level" (text "logging") (codes "info")
  level_of level

-- `if (!field) throw`, for a coordinate.
pub required : Node → List ℕ → String → Outcome (Unit {0})
required section path key =
    if is_some (lookup section (codes key))
    then fine tt
    else throws (path ++ text "." ++ codes key ++ text " is required")

module _ {F : Type 0} (library : Library F) where
  unfoldable pub parse_video : VideoConfig → Node → Outcome VideoConfig
  parse_video video section = do
    let path = text "video"
    check_keys section path (
        map codes (
          "rtsp_url" ∷ "username" ∷ "password" ∷ "transport" ∷ "latency_ms" ∷ "reconnect_delay_ms"
          ∷ "max_reconnect_delay_ms" ∷ "stall_timeout_ms" ∷ "first_frame_timeout_ms" ∷ []))
    rtsp_url ← read_scalar as_text section "rtsp_url" path video.rtsp_url
    username ← read_scalar as_text section "username" path video.username
    password ← read_scalar as_text section "password" path video.password
    transport ← read_scalar as_text section "transport" path video.transport
    latency ← read_scalar library.as_int section "latency_ms" path video.latency_ms
    delay ← read_scalar library.as_int section "reconnect_delay_ms" path video.reconnect_delay_ms
    limit ←
        read_scalar library.as_int section "max_reconnect_delay_ms" path
          video.max_reconnect_delay_ms
    stall ← read_scalar library.as_int section "stall_timeout_ms" path video.stall_timeout_ms
    first ←
        read_scalar library.as_int section "first_frame_timeout_ms" path
          video.first_frame_timeout_ms
    fine (record {
      rtsp_url = rtsp_url;
      username = username;
      password = password;
      transport = transport;
      latency_ms = latency;
      reconnect_delay_ms = delay;
      max_reconnect_delay_ms = limit;
      stall_timeout_ms = stall;
      first_frame_timeout_ms = first;
    })

  pub parse_detector : DetectorConfig F → Node → Outcome (DetectorConfig F)
  parse_detector detector section = do
    let path = text "detector"
    check_keys section path (map codes ("engine" ∷ "confidence" ∷ "nms" ∷ "annotate" ∷ []))
    engine ← read_scalar as_text section "engine" path detector.engine
    confidence ← read_scalar library.as_double section "confidence" path detector.confidence
    nms ← read_scalar library.as_double section "nms" path detector.nms
    annotate ← read_scalar library.as_bool section "annotate" path detector.annotate
    fine (record { engine = engine; confidence = confidence; nms = nms; annotate = annotate })

  pub parse_web : WebConfig → Node → Outcome WebConfig
  parse_web web section = do
    let path = text "web"
    check_keys section path (map codes ("bind" ∷ "port" ∷ "root" ∷ []))
    bind ← read_scalar as_text section "bind" path web.bind
    port ← read_scalar library.as_int section "port" path web.port
    root ← read_scalar as_text section "root" path web.root
    fine (record { bind = bind; port = port; root = root })

  pub parse_recording : RecordingConfig → Node → Outcome RecordingConfig
  parse_recording recording section = do
    let path = text "recording"
    check_keys section path (
        map codes (
          "enabled" ∷ "directory" ∷ "segment_seconds" ∷ "max_storage_mb" ∷ "min_free_space_mb"
          ∷ []))
    enabled ← read_scalar library.as_bool section "enabled" path recording.enabled
    directory ← read_scalar as_text section "directory" path recording.directory
    seconds ← read_scalar library.as_int section "segment_seconds" path recording.segment_seconds
    storage ← read_scalar library.as_uint64 section "max_storage_mb" path recording.max_storage_mb
    space ←
        read_scalar library.as_uint64 section "min_free_space_mb" path recording.min_free_space_mb
    fine (record {
      enabled = enabled;
      directory = directory;
      segment_seconds = seconds;
      max_storage_mb = storage;
      min_free_space_mb = space;
    })

  pub parse_storage : StorageConfig → Node → Outcome StorageConfig
  parse_storage storage section = do
    let path = text "storage"
    check_keys section path (map codes ("database_path" ∷ "alert_directory" ∷ []))
    database ← read_scalar as_text section "database_path" path storage.database_path
    alerts ← read_scalar as_text section "alert_directory" path storage.alert_directory
    fine (record { database_path = database; alert_directory = alerts })

  pub parse_roi : List ℕ → Node → Outcome (Option (AlertRoi F))
  unfolding required default_roi
  parse_roi path section = do
    check_keys section path (map codes ("x1" ∷ "y1" ∷ "x2" ∷ "y2" ∷ []))
    required section path "x1"
    required section path "y1"
    required section path "x2"
    required section path "y2"
    x1 ← read_scalar library.as_double section "x1" path (default_roi library).x1
    y1 ← read_scalar library.as_double section "y1" path (default_roi library).y1
    x2 ← read_scalar library.as_double section "x2" path (default_roi library).x2
    y2 ← read_scalar library.as_double section "y2" path (default_roi library).y2
    fine (some (record { x1 = x1; y1 = y1; x2 = x2; y2 = y2 }))

  -- One round of the loop over the rules.
  unfoldable pub parse_rule : List ℕ → Node → Outcome (AlertRuleConfig F)
  parse_rule path item = do
    let rule = default_rule library
    check_keys item path (
        map codes ("class" ∷ "confidence" ∷ "consecutive_frames" ∷ "cooldown_seconds" ∷ "roi" ∷ []))
    class_name ← read_scalar as_text item "class" path rule.class_name
    confidence ← read_scalar library.as_double item "confidence" path rule.confidence
    frames ← read_scalar library.as_int item "consecutive_frames" path rule.consecutive_frames
    cooldown ← read_scalar library.as_int item "cooldown_seconds" path rule.cooldown_seconds
    roi ← optional (lookup item (codes "roi")) rule.roi (parse_roi (path ++ text ".roi"))
    fine (record {
      class_name = class_name;
      confidence = confidence;
      consecutive_frames = frames;
      cooldown_seconds = cooldown;
      roi = roi;
    })

  unfoldable pub parse_rules : ℕ → Nodes → Outcome (List (AlertRuleConfig F))
  parse_rules index no_node = fine []
  parse_rules index (node item rest) =
      let rules = parse_rules (suc index) rest in
      do
        rule ← parse_rule (text "alerts[" ++ decimal index ++ text "]") item
        later ← rules
        fine (rule ∷ later)

  unfoldable pub parse_alerts : Node → Outcome (List (AlertRuleConfig F))
  unfolding parse_rules
  parse_alerts (sequence items) = parse_rules 0 items
  parse_alerts _ = throws (text "alerts must be a sequence")

  pub parse_gps : GpsConfig F → Node → Outcome (GpsConfig F)
  parse_gps gps section = do
    let path = text "gps"
    check_keys section path
        (map codes ("enabled" ∷ "source" ∷ "latitude" ∷ "longitude" ∷ "altitude_m" ∷ []))
    enabled ← read_scalar library.as_bool section "enabled" path gps.enabled
    source ← read_scalar as_text section "source" path gps.source
    latitude ← read_scalar library.as_double section "latitude" path gps.latitude
    longitude ← read_scalar library.as_double section "longitude" path gps.longitude
    altitude ← read_scalar library.as_double section "altitude_m" path gps.altitude_m
    fine (record {
      enabled = enabled;
      source = source;
      latitude = latitude;
      longitude = longitude;
      altitude_m = altitude;
    })

  unfoldable pub parse_webrtc : WebrtcConfig → Node → Outcome WebrtcConfig
  parse_webrtc webrtc section = do
    let path = text "webrtc"
    check_keys section path (
        map codes (
          "enabled" ∷ "max_peers" ∷ "connection_timeout_ms" ∷ "media_queue_capacity"
          ∷ "host_interfaces" ∷ "ice_log_verbosity" ∷ []))
    enabled ← read_scalar library.as_bool section "enabled" path webrtc.enabled
    peers ← read_scalar library.as_int section "max_peers" path webrtc.max_peers
    timeout ←
        read_scalar library.as_int section "connection_timeout_ms" path webrtc.connection_timeout_ms
    units ←
        read_scalar library.as_int section "media_queue_capacity" path webrtc.media_queue_capacity
    verbosity ← read_scalar library.as_int section "ice_log_verbosity" path webrtc.ice_log_verbosity
    names ← optional (lookup section (codes "host_interfaces")) webrtc.host_interfaces interfaces_of
    fine (record {
      enabled = enabled;
      max_peers = peers;
      connection_timeout_ms = timeout;
      media_queue_capacity = units;
      host_interfaces = names;
      ice_log_verbosity = verbosity;
    })

  pub parse_whip : WhipConfig → Node → Outcome WhipConfig
  parse_whip whip section = do
    let path = text "whip"
    check_keys section path (map codes ("enabled" ∷ "url" ∷ []))
    enabled ← read_scalar library.as_bool section "enabled" path whip.enabled
    url ← read_scalar as_text section "url" path whip.url
    fine (record { enabled = enabled; url = url })
