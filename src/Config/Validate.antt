-- ===== src/Config/Validate.antt =====
-- `validate_video` and `validate` of src/config.cpp, check by check.
pub mod Usable
use skai_edge_native.Common.{
  ℕ, suc, List, [], ◌∷◌, ◌++◌, Option, none, some, is_some, Bool, not, ◌&&◌, ◌||◌, ltb, leb, eqb,
  codes, length, take, drop, starts_with, pos, leb_ℤ, between,
}
use skai_edge_native.Sei.Json.{decimal}
use skai_edge_native.Config.{
  Library, VideoConfig, AlertRoi, AlertRuleConfig, GpsConfig, WebrtcConfig, WhipConfig, Config,
}
use skai_edge_native.Config.Outcome.{Outcome, fine, ◌>>=◌, ◌>>◌, text, check_range}
use skai_edge_native.Config.Hosts.{
  is_empty, find_first_of, valid_rtsp_authority, loopback_http_endpoint,
}

-- The bytes of the URL between the scheme and the path, the query or the fragment.
unfoldable pub authority : List ℕ → List ℕ
authority url =
    let rest = drop 7 url in
    elim (find_first_of (codes "/?#") rest) [ none ↦ rest | some end ↦ take end rest ]

unfoldable pub valid_rtsp_url : (List ℕ → Bool) → (List ℕ → Bool) → List ℕ → Bool
unfolding authority
valid_rtsp_url inet_pton4 inet_pton6 url =
    starts_with (codes "rtsp://") url
    && (valid_rtsp_authority inet_pton4 inet_pton6 (authority url)
        && not (is_some (find_first_of (32 ∷ 9 ∷ 13 ∷ 10 ∷ []) url)))

module _ {F : Type 0} (library : Library F) where
  -- `std::isfinite(a) && a >= 0 && a <= 1`.
  abbrev pub is_share : F → Bool
  is_share a =
      library.is_finite a
      && (library.float_leb (library.literal "0") a && library.float_leb a (library.literal "1"))

  unfoldable pub validate_video : VideoConfig → Outcome (Unit {0})
  validate_video video = do
    check_range (valid_rtsp_url library.inet_pton4 library.inet_pton6 video.rtsp_url)
        (text "video.rtsp_url") "must be a rtsp:// URL with a valid host and optional port"
    check_range (eqb video.transport (codes "tcp") || eqb video.transport (codes "udp"))
        (text "video.transport") "must be tcp or udp"
    check_range (is_empty video.password || not (is_empty video.username)) (text "video.username")
        "must be set when video.password is set"
    check_range (between 0 10000 video.latency_ms) (text "video.latency_ms")
        "must be between 0 and 10000"
    check_range (between 1 60000 video.reconnect_delay_ms) (text "video.reconnect_delay_ms")
        "must be between 1 and 60000"
    check_range
        (leb_ℤ video.reconnect_delay_ms video.max_reconnect_delay_ms
          && leb_ℤ video.max_reconnect_delay_ms (pos 60000))
        (text "video.max_reconnect_delay_ms") "must be between video.reconnect_delay_ms and 60000"
    check_range (between 1 60000 video.stall_timeout_ms) (text "video.stall_timeout_ms")
        "must be between 1 and 60000"
    check_range (between 100 120000 video.first_frame_timeout_ms)
        (text "video.first_frame_timeout_ms") "must be between 100 and 120000"

  -- The checks of `validate` before the alert rules.
  unfoldable pub validate_parts : Config F → Outcome (Unit {0})
  validate_parts config = do
    check_range (not (is_empty config.detector.engine)) (text "detector.engine") "must not be empty"
    check_range (is_share config.detector.confidence) (text "detector.confidence")
        "must be between 0 and 1"
    check_range (is_share config.detector.nms) (text "detector.nms") "must be between 0 and 1"
    check_range (not (is_empty config.web.bind)) (text "web.bind") "must not be empty"
    check_range (between 0 65535 config.web.port) (text "web.port")
        "must be between 0 and 65535 (0 selects an ephemeral port)"
    check_range (not (is_empty config.web.root)) (text "web.root") "must not be empty"
    check_range (not (is_empty config.recording.directory)) (text "recording.directory")
        "must not be empty"
    check_range (leb_ℤ (pos 1) config.recording.segment_seconds) (text "recording.segment_seconds")
        "must be positive"
    check_range (leb 1 config.recording.max_storage_mb) (text "recording.max_storage_mb")
        "must be positive"
    check_range (leb config.recording.min_free_space_mb config.recording.max_storage_mb)
        (text "recording.min_free_space_mb") "must not exceed recording.max_storage_mb"
    check_range (not (is_empty config.storage.database_path)) (text "storage.database_path")
        "must not be empty"
    check_range (not (is_empty config.storage.alert_directory)) (text "storage.alert_directory")
        "must not be empty"

  unfoldable pub validate_roi : List ℕ → Option (AlertRoi F) → Outcome (Unit {0})
  validate_roi field none = fine tt
  validate_roi field (some roi) =
      let zero = library.literal "0" in
      let one = library.literal "1" in
      do
        check_range
            (library.is_finite roi.x1
              && (library.is_finite roi.y1
                  && (library.is_finite roi.x2
                      && (library.is_finite roi.y2
                          && (library.float_leb zero roi.x1
                              && (library.float_leb zero roi.y1
                                  && (library.float_leb roi.x2 one
                                      && library.float_leb roi.y2 one)))))))
            (field ++ text ".roi") "coordinates must be between 0 and 1"
        check_range (library.float_ltb roi.x1 roi.x2 && library.float_ltb roi.y1 roi.y2)
            (field ++ text ".roi") "must have x1 < x2 and y1 < y2"

  unfoldable pub validate_alert : List ℕ → AlertRuleConfig F → Outcome (Unit {0})
  unfolding validate_roi
  validate_alert field rule = do
    check_range (not (is_empty rule.class_name)) (field ++ text ".class") "must not be empty"
    check_range (is_share rule.confidence) (field ++ text ".confidence") "must be between 0 and 1"
    check_range (leb_ℤ (pos 1) rule.consecutive_frames) (field ++ text ".consecutive_frames")
        "must be positive"
    check_range (leb_ℤ (pos 0) rule.cooldown_seconds) (field ++ text ".cooldown_seconds")
        "must not be negative"
    validate_roi field rule.roi

  -- The loop over the rules, from an index.
  unfoldable pub validate_alerts : ℕ → List (AlertRuleConfig F) → Outcome (Unit {0})
  validate_alerts index [] = fine tt
  validate_alerts index (rule ∷ rules) =
      let rest = validate_alerts (suc index) rules in
      validate_alert (text "alerts[" ++ decimal index ++ text "]") rule >>= λ _. rest

  unfoldable pub validate_gps : GpsConfig F → Outcome (Unit {0})
  validate_gps gps = do
    check_range (eqb gps.source (codes "fixed")) (text "gps.source") "must be fixed"
    check_range
        (library.is_finite gps.latitude
          && library.float_leb (library.float_abs gps.latitude) (library.literal "90"))
        (text "gps.latitude") "must be between -90 and 90"
    check_range
        (library.is_finite gps.longitude
          && library.float_leb (library.float_abs gps.longitude) (library.literal "180"))
        (text "gps.longitude") "must be between -180 and 180"
    check_range (library.is_finite gps.altitude_m) (text "gps.altitude_m") "must be finite"

-- The loop over the names of the interfaces.
unfoldable pub validate_interfaces : List (List ℕ) → Outcome (Unit {0})
validate_interfaces [] = fine tt
validate_interfaces (name ∷ names) =
    let rest = validate_interfaces names in
    check_range
      (not (is_empty name) && not (is_some (find_first_of (32 ∷ 47 ∷ 9 ∷ 13 ∷ 10 ∷ []) name)))
      (text "webrtc.host_interfaces") "must contain interface names without spaces or slashes"
    >>= λ _. rest

unfoldable pub validate_webrtc : WebrtcConfig → Outcome (Unit {0})
validate_webrtc webrtc = do
  check_range (between 1 100 webrtc.max_peers) (text "webrtc.max_peers") "must be between 1 and 100"
  check_range (between 1000 300000 webrtc.connection_timeout_ms)
      (text "webrtc.connection_timeout_ms") "must be between 1000 and 300000"
  check_range (between 1 120 webrtc.media_queue_capacity) (text "webrtc.media_queue_capacity")
      "must be between 1 and 120"
  check_range (between 0 5 webrtc.ice_log_verbosity) (text "webrtc.ice_log_verbosity")
      "must be between 0 and 5"
  check_range (not webrtc.enabled || not (leb (length webrtc.host_interfaces) 0))
      (text "webrtc.host_interfaces") "must not be empty when webrtc.enabled is true"
  validate_interfaces webrtc.host_interfaces

unfoldable pub validate_whip : WhipConfig → Outcome (Unit {0})
validate_whip whip = do
  check_range
      (not whip.enabled
        || (starts_with (codes "https://") whip.url || loopback_http_endpoint whip.url))
      (text "whip.url") "must use https or http://127.0.0.1:<port>/<path> when enabled"
  check_range
      (not whip.enabled
        || (ltb 8 (length whip.url)
            && not (is_some (find_first_of (32 ∷ 9 ∷ 13 ∷ 10 ∷ 35 ∷ []) whip.url))))
      (text "whip.url") "must be a valid endpoint without whitespace or fragments"

unfoldable pub validate : {F : Type 0} → Library F → Config F → Outcome (Unit {0})
validate library config = do
  validate_video library config.video
  validate_parts library config
  validate_alerts library 0 config.alerts
  validate_gps library config.gps
  validate_webrtc config.webrtc
  validate_whip config.whip
