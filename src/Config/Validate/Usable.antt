-- ===== src/Config/Validate/Usable.antt =====
-- What the other parts rely on in an accepted configuration.
use skai_edge_native.Common.{
  ℕ, suc, ◌-◌, ◌^◌, ◌≤◌, ◌≡◌, refl, arith, List, [], ◌∷◌, is_some, Bool, true, ◌&&◌, ◌||◌, codes,
  starts_with, ℤ, pos, negsuc, leb_ℤ,
}
use skai_edge_native.BoundedQueue.{make}
use skai_edge_native.BoundedQueue.Invariant.{is_some-make}
use skai_edge_native.Media.{EncodedAccessUnit}
use skai_edge_native.Config.{
  Library, VideoConfig, WebrtcConfig, WhipConfig, AlertRuleConfig, Config,
}
use skai_edge_native.Config.Outcome.{is_fine}
use skai_edge_native.Config.Hosts.{loopback_http_endpoint}
use skai_edge_native.Config.Validate.{
  valid_rtsp_url, validate_video, validate_webrtc, validate_whip, validate, validate_alerts,
  validate_alert,
}

-- `static_cast<std::size_t>` of an `int`.
abbrev pub to_size : ℤ → ℕ
to_size (pos n) = n
to_size (negsuc n) = 2 ^ 64 - 1 - n

-- The delays of the retry policy.
pub record HasDelays (video : VideoConfig) : Type 0 where
  scheme : starts_with (codes "rtsp://") video.rtsp_url ≡ true
  delay : 1 ≤ to_size video.reconnect_delay_ms
  ordered : to_size video.reconnect_delay_ms ≤ to_size video.max_reconnect_delay_ms
  limit : to_size video.max_reconnect_delay_ms ≤ 60_000
  stall : 1 ≤ to_size video.stall_timeout_ms

-- The limits of the viewers; their queues can be made.
pub record HasRoom (webrtc : WebrtcConfig) : Type 0 where
  peers : 1 ≤ to_size webrtc.max_peers
  few : to_size webrtc.max_peers ≤ 100
  queue : is_some (make {T = EncodedAccessUnit} (to_size webrtc.media_queue_capacity)) ≡ true

abbrev positive_rules : {F : Type 0} → List (AlertRuleConfig F) → Bool
positive_rules [] = true
positive_rules (rule ∷ rules) =
    leb_ℤ (pos 1) rule.consecutive_frames
    && (leb_ℤ (pos 0) rule.cooldown_seconds && positive_rules rules)

pub record IsUsable {F : Type 0} (config : Config F) : Type 0 where
  video : HasDelays config.video
  webrtc : HasRoom config.webrtc
  rules : positive_rules config.alerts ≡ true
  uplink :
      config.whip.enabled ≡ true
      → starts_with (codes "https://") config.whip.url || loopback_http_endpoint config.whip.url
        ≡ true

video-HasDelays :
    {F : Type 0} (library : Library F) (video : VideoConfig)
    → is_fine (validate_video library video) ≡ true
    → HasDelays video
unfolding validate_video valid_rtsp_url
video-HasDelays library video h = ground arith

webrtc-HasRoom : (webrtc : WebrtcConfig) → is_fine (validate_webrtc webrtc) ≡ true → HasRoom webrtc
unfolding validate_webrtc
webrtc-HasRoom webrtc h =
    ground (arith, is_some-make EncodedAccessUnit (to_size webrtc.media_queue_capacity))

alerts-positive :
    {F : Type 0} (library : Library F) (index : ℕ) (rules : List (AlertRuleConfig F))
    → is_fine (validate_alerts library index rules) ≡ true
    → positive_rules rules ≡ true
unfolding validate_alerts validate_alert
alerts-positive library index [] h = refl
alerts-positive library index (rule ∷ rules) h =
    ground (arith, alerts-positive library (suc index) rules)

whip-secure :
    (whip : WhipConfig)
    → is_fine (validate_whip whip) ≡ true
    → whip.enabled ≡ true
    → starts_with (codes "https://") whip.url || loopback_http_endpoint whip.url ≡ true
unfolding validate_whip
whip-secure whip h on = ground arith

-- An accepted configuration is usable.
pub validate-IsUsable :
    {F : Type 0} (library : Library F) (config : Config F)
    → is_fine (validate library config) ≡ true
    → IsUsable config
unfolding validate
validate-IsUsable library config h = ground (
  arith,
  video-HasDelays library config.video,
  webrtc-HasRoom config.webrtc,
  alerts-positive library 0 config.alerts,
  whip-secure config.whip,
)
