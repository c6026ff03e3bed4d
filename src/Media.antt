-- ===== src/Media.antt =====
-- include/skai/video/encoded_access_unit.hpp: the H.264 access unit that source, recording, WebRTC
-- and WHIP share.
use skai_edge_native.Common.{ℕ, List, Bool}

-- `EncodedAccessUnit`.
pub record EncodedAccessUnit : Type 0 where
  pub sequence : ℕ
  pub pts_ns : ℕ
  pub dts_ns : ℕ
  pub has_pts : Bool
  pub has_dts : Bool
  pub keyframe : Bool
  pub discontinuity : Bool
  pub source_generation : ℕ
  pub bytes : List ℕ
