-- ===== src/RtspSource/Caps.antt =====
-- What src/video/rtsp_source.cpp reads of caps: whether a browser can decode the stream, and the
-- elements for a codec.
use skai_edge_native.Common.{
  ℕ, List, Option, none, some, Bool, false, ◌&&◌, ◌||◌, eqb, if◌then◌else◌, codes,
}

-- The first structure of caps that are not empty: the strings `profile` and `level`.
pub record H264Caps : Type 0 where
  pub profile : Option (List ℕ)
  pub level : Option (List ℕ)

unfoldable pub supported_level : List ℕ → Bool
supported_level level =
    eqb level (codes "1")
    || (eqb level (codes "1b")
        || (eqb level (codes "1.1")
            || (eqb level (codes "1.2")
                || (eqb level (codes "1.3")
                    || (eqb level (codes "2")
                        || (eqb level (codes "2.1")
                            || (eqb level (codes "2.2")
                                || (eqb level (codes "3") || eqb level (codes "3.1")))))))))

-- The end of `browser_compatible_h264_caps`, on the level.
unfoldable pub level_reason : Option (List ℕ) → Option (List ℕ)
level_reason none = some (codes "source H.264 level is unavailable")
level_reason (some level) =
    if supported_level level then none else some (codes "source H.264 must use level 3.1 or lower")

abbrev pub is_baseline : Option (List ℕ) → Bool
is_baseline none = false
is_baseline (some profile) = eqb profile (codes "constrained-baseline")

-- `browser_compatible_h264_caps`: the reason against it, if there is one.
unfoldable pub incompatibility : Option H264Caps → Option (List ℕ)
unfolding level_reason
incompatibility none = some (codes "source H.264 caps are unavailable")
incompatibility (some caps) =
    if is_baseline caps.profile
    then level_reason caps.level
    else some (codes "source H.264 must use constrained-baseline profile")

-- `elements_for`.
pub record ElementNames : Type 0 where
  pub depay : List ℕ
  pub parser : List ℕ
  pub software_decoder : List ℕ

unfoldable pub elements_for : List ℕ → ElementNames
elements_for codec =
    if eqb codec (codes "H265")
    then record {
      depay = codes "rtph265depay";
      parser = codes "h265parse";
      software_decoder = codes "avdec_h265";
    }
    else record {
      depay = codes "rtph264depay";
      parser = codes "h264parse";
      software_decoder = codes "avdec_h264";
    }

-- The decoder and the converter of `connect_rtp_pad`, by the decode mode and the plugins.
unfoldable pub decode_chain : Bool → (List ℕ → Bool) → List ℕ → List ℕ × List ℕ
decode_chain auto plugin_available codec =
    if auto
      && (plugin_available (codes "nvv4l2decoder")
          && (plugin_available (codes "nvvidconv") || plugin_available (codes "nvvideoconvert")))
    then (
      codes "nvv4l2decoder",
      if plugin_available (codes "nvvidconv") then codes "nvvidconv" else codes "nvvideoconvert",
    )
    else ((elements_for codec).software_decoder, codes "identity")
