-- ===== src/Whip/RtpClock.antt =====
-- `WhipRtpClock` of src/webrtc/whip_policy.cpp and `h264_rtp_timestamp` of
-- include/skai/video/encoded_access_unit.hpp: RTP timestamps of the WHIP stream. Every
-- `std::uint32_t` is a number below 2 ^ 32, and its sums and differences wrap.
pub mod Continuity
mod Tests
use skai_edge_native.Common.{
  ℕ, ◌+◌, ◌*◌, ◌/◌, ◌%◌, ◌^◌, List, [], ◌∷◌, Option, none, some, Bool, true, false, not, ◌&&◌, ltb,
  leb, ◌==◌, if◌then◌else◌, add32, sub32,
}

-- `h264_rtp_timestamp`: 90 kHz ticks of a time in nanoseconds. Its 64-bit products cannot wrap.
pub h264_rtp_timestamp : ℕ → ℕ
h264_rtp_timestamp pts_ns =
    let seconds = pts_ns / 1_000_000_000 in
    let remainder = pts_ns % 1_000_000_000 in
    (seconds * 90_000 + remainder * 90_000 / 1_000_000_000) % 2 ^ 32

-- `WhipRtpClock`.
pub record Clock : Type 0 where
  pub start : ℕ
  pub offset : ℕ
  pub last : ℕ
  pub frame_ticks : ℕ
  pub last_pts_ticks : Option ℕ
  pub generation : ℕ
  pub has_last : Bool

-- The constructor, with the default member initialisers.
pub make : ℕ → Clock
make start_timestamp = record {
  start = start_timestamp;
  offset = 0;
  last = 0;
  frame_ticks = 3000;
  last_pts_ticks = none;
  generation = 0;
  has_last = false;
}

-- `step > 0` for the `std::int32_t` with these bits.
abbrev positive32 : ℕ → Bool
positive32 w = ltb 0 w && ltb w (2 ^ 31)

-- `if (has_last_ && generation != generation_) last_pts_ticks_.reset()`, then the new generation.
enter : ℕ → Clock → Clock
enter generation c = record c {
  last_pts_ticks =
      if c.has_last && not (generation == c.generation) then none else c.last_pts_ticks;
  generation = generation;
}

-- `next` before the PTS is looked at.
following : Clock → ℕ
following c = if c.has_last then add32 c.last c.frame_ticks else c.start

-- The body of `if (has_pts)` up to `next`: the new offset or frame interval.
learn : ℕ → ℕ → Option ℕ → Clock → Clock
learn next ticks none c = if c.has_last then record c { offset = sub32 next ticks } else c
learn next ticks (some previous) c =
    let step = sub32 ticks previous in
    if positive32 step && leb step 9000 then record c { frame_ticks = step } else c

-- The timestamp of the unit and the clock after it, from the clock that entered the generation.
with_pts : ℕ → Clock → ℕ × Clock
with_pts ticks c =
    let learned = learn (following c) ticks c.last_pts_ticks c in
    let next = add32 ticks learned.offset in
    (next, record learned { last_pts_ticks = some ticks; last = next; has_last = true })

without_pts : Clock → ℕ × Clock
without_pts c = (following c, record c { last = following c; has_last = true })

pub timestamp : ℕ → Bool → ℕ → Clock → ℕ × Clock
timestamp generation has_pts pts_ns c =
    if has_pts
    then with_pts (h264_rtp_timestamp pts_ns) (enter generation c)
    else without_pts (enter generation c)

-- What the clock reads of an access unit.
pub record AccessUnit : Type 0 where
  pub source_generation : ℕ
  pub has_pts : Bool
  pub pts_ns : ℕ

-- The timestamps of the units that are sent, each beside its unit.
pub run : List AccessUnit → Clock → List (AccessUnit × ℕ)
run [] c = []
run (u ∷ us) c =
    let (out, c') = timestamp u.source_generation u.has_pts u.pts_ns c in (u, out) ∷ run us c'
