-- ===== src/Config.antt =====
-- include/skai/config.hpp and src/config.cpp: the configuration and its defaults. `F` is the type of
-- `double`; what the C and C++ libraries and yaml-cpp compute is in `Library`.
pub mod Outcome
pub mod Hosts
pub mod Validate
pub mod Document
pub mod Parse
mod Tests
use Prim.Native.String.{String}
use skai_edge_native.Common.{ℕ, List, [], ◌∷◌, Option, none, Bool, true, false, codes, ℤ, pos}

-- `is_finite`, `leb`, `ltb` and `abs` on `double`; the value of a literal; `YAML::Node::as<T>` on the
-- text of a scalar, where `none` is its exception; `inet_pton` for AF_INET and AF_INET6; and the
-- root directory that the build sets.
pub record Library (F : Type 0) : Type 0 where
  pub is_finite : F → Bool
  pub float_leb : F → F → Bool
  pub float_ltb : F → F → Bool
  pub float_abs : F → F
  pub literal : String → F
  pub as_int : List ℕ → Option ℤ
  pub as_bool : List ℕ → Option Bool
  pub as_double : List ℕ → Option F
  pub as_uint64 : List ℕ → Option ℕ
  pub inet_pton4 : List ℕ → Bool
  pub inet_pton6 : List ℕ → Bool
  pub default_root : List ℕ

pub record VideoConfig : Type 0 where
  pub rtsp_url : List ℕ
  pub username : List ℕ
  pub password : List ℕ
  pub transport : List ℕ
  pub latency_ms : ℤ
  pub reconnect_delay_ms : ℤ
  pub max_reconnect_delay_ms : ℤ
  pub stall_timeout_ms : ℤ
  pub first_frame_timeout_ms : ℤ

pub record DetectorConfig (F : Type 0) : Type 0 where
  pub engine : List ℕ
  pub confidence : F
  pub nms : F
  pub annotate : Bool

pub record WebConfig : Type 0 where
  pub bind : List ℕ
  pub port : ℤ
  pub root : List ℕ

pub record RecordingConfig : Type 0 where
  pub enabled : Bool
  pub directory : List ℕ
  pub segment_seconds : ℤ
  pub max_storage_mb : ℕ
  pub min_free_space_mb : ℕ

pub record StorageConfig : Type 0 where
  pub database_path : List ℕ
  pub alert_directory : List ℕ

pub record AlertRoi (F : Type 0) : Type 0 where
  pub x1 : F
  pub y1 : F
  pub x2 : F
  pub y2 : F

pub record AlertRuleConfig (F : Type 0) : Type 0 where
  pub class_name : List ℕ
  pub confidence : F
  pub consecutive_frames : ℤ
  pub cooldown_seconds : ℤ
  pub roi : Option (AlertRoi F)

pub record GpsConfig (F : Type 0) : Type 0 where
  pub enabled : Bool
  pub source : List ℕ
  pub latitude : F
  pub longitude : F
  pub altitude_m : F

pub record WebrtcConfig : Type 0 where
  pub enabled : Bool
  pub max_peers : ℤ
  pub connection_timeout_ms : ℤ
  pub media_queue_capacity : ℤ
  pub host_interfaces : List (List ℕ)
  pub ice_log_verbosity : ℤ

pub record WhipConfig : Type 0 where
  pub enabled : Bool
  pub url : List ℕ

pub data LogLevel : Type 0 where
  log_trace log_debug log_info log_warning log_error : LogLevel

-- `Config`; `logging` is the level of `LoggingConfig`.
pub record Config (F : Type 0) : Type 0 where
  pub video : VideoConfig
  pub detector : DetectorConfig F
  pub web : WebConfig
  pub recording : RecordingConfig
  pub storage : StorageConfig
  pub alerts : List (AlertRuleConfig F)
  pub gps : GpsConfig F
  pub webrtc : WebrtcConfig
  pub whip : WhipConfig
  pub logging : LogLevel

module _ {F : Type 0} (library : Library F) where
  pub default_rule : AlertRuleConfig F
  default_rule = record {
    class_name = [];
    confidence = library.literal "0.7";
    consecutive_frames = pos 1;
    cooldown_seconds = pos 10;
    roi = none;
  }

  pub default_roi : AlertRoi F
  default_roi = record {
    x1 = library.literal "0.0";
    y1 = library.literal "0.0";
    x2 = library.literal "1.0";
    y2 = library.literal "1.0";
  }

  -- The default member initialisers.
  pub default_config : Config F
  default_config = record {
    video = record {
      rtsp_url = codes "rtsp://127.0.0.1/stream";
      username = [];
      password = [];
      transport = codes "tcp";
      latency_ms = pos 100;
      reconnect_delay_ms = pos 1000;
      max_reconnect_delay_ms = pos 10000;
      stall_timeout_ms = pos 3000;
      first_frame_timeout_ms = pos 15000;
    };
    detector = record {
      engine = codes "models/yolo11s.engine";
      confidence = library.literal "0.35";
      nms = library.literal "0.45";
      annotate = true;
    };
    web = record { bind = codes "0.0.0.0"; port = pos 8080; root = library.default_root };
    recording = record {
      enabled = true;
      directory = codes "recordings";
      segment_seconds = pos 60;
      max_storage_mb = 1024;
      min_free_space_mb = 100;
    };
    storage = record {
      database_path = codes "/var/lib/skai-edge/skai-edge.db";
      alert_directory = codes "/var/lib/skai-edge/alerts";
    };
    alerts = [];
    gps = record {
      enabled = true;
      source = codes "fixed";
      latitude = library.literal "25.033964";
      longitude = library.literal "121.564468";
      altitude_m = library.literal "10.0";
    };
    webrtc = record {
      enabled = true;
      max_peers = pos 2;
      connection_timeout_ms = pos 15000;
      media_queue_capacity = pos 8;
      host_interfaces = codes "eth0" ∷ codes "wlan0" ∷ [];
      ice_log_verbosity = pos 1;
    };
    whip = record { enabled = false; url = [] };
    logging = log_info;
  }
