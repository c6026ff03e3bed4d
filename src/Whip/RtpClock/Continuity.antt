-- ===== src/Whip/RtpClock/Continuity.antt =====
-- The WHIP timestamps of consecutive units.
use native.Mathlib.Decide.{ℕ_discrete}
use skai_edge_native.Common.{
  ℕ, ◌^◌, ◌≤◌, ◌<◌, ◌≡◌, ◌≢◌, refl, ap, inl, inr, List, [], ◌∷◌, Option, none, some, Bool, true,
  false, ◌&&◌, leb, ◌==◌, if◌then◌else◌, add32, sub32, arith, is_some, Bool-cases,
}
use skai_edge_native.Whip.RtpClock.{
  Clock, AccessUnit, make, h264_rtp_timestamp, timestamp, run, enter, following, learn, with_pts,
  without_pts,
}

-- 32-bit fields are in range, the frame interval is one that can be learnt, and a PTS is
-- remembered only behind a sent unit.
pub record IsValid (c : Clock) : Type 0 where
  pub last_fits : c.last < 2 ^ 32
  pub start_fits : c.start < 2 ^ 32
  pub offset_fits : c.offset < 2 ^ 32
  pub interval_pos : 1 ≤ c.frame_ticks
  pub interval_le : c.frame_ticks ≤ 9000
  pub remembered : is_some c.last_pts_ticks ≡ true → c.has_last ≡ true

pub make-IsValid : (start : ℕ) → start < 2 ^ 32 → IsValid (make start)
unfolding make
make-IsValid start h = ground arith

learn-IsValid :
    (next ticks : ℕ) (o : Option ℕ) (c : Clock) → IsValid c → IsValid (learn next ticks o c)
unfolding learn
learn-IsValid next ticks none c v = ground arith
learn-IsValid next ticks (some p) c v = ground arith

enter-IsValid : (g : ℕ) (c : Clock) → IsValid c → IsValid (enter g c)
unfolding enter
enter-IsValid g c v = ground arith

with_pts-IsValid :
    (ticks : ℕ) (d : Clock)
    → IsValid d
    → ((with_pts ticks d).0 < 2 ^ 32) × IsValid (with_pts ticks d).1
unfolding with_pts
with_pts-IsValid ticks d v = ground (arith, learn-IsValid (following d) ticks d.last_pts_ticks d v)

without_pts-IsValid :
    (d : Clock) → IsValid d → ((without_pts d).0 < 2 ^ 32) × IsValid (without_pts d).1
unfolding without_pts following
without_pts-IsValid d v = ground arith

-- Every timestamp is below 2 ^ 32, and the clock stays valid.
pub timestamp-IsValid :
    (g : ℕ) (p : Bool) (pts : ℕ) (c : Clock)
    → IsValid c
    → ((timestamp g p pts c).0 < 2 ^ 32) × IsValid (timestamp g p pts c).1
unfolding timestamp
timestamp-IsValid g true pts c v =
    with_pts-IsValid (h264_rtp_timestamp pts) (enter g c) (enter-IsValid g c v)
timestamp-IsValid g false pts c v = without_pts-IsValid (enter g c) (enter-IsValid g c v)

-- What the clock knows of the unit that it stamped last.
record Sent (u : AccessUnit) (out : ℕ) (c : Clock) : Type 0 where
  same_generation : c.generation ≡ u.source_generation
  sent : c.has_last ≡ true
  same_last : c.last ≡ out
  out_fits : out < 2 ^ 32
  ticks_known :
      u.has_pts ≡ true
      → (c.last_pts_ticks ≡ some (h264_rtp_timestamp u.pts_ns))
        × (out ≡ add32 (h264_rtp_timestamp u.pts_ns) c.offset)

learn_keeps :
    (next ticks : ℕ) (o : Option ℕ) (c : Clock)
    → ((learn next ticks o c).generation ≡ c.generation)
      × ((learn next ticks o c).has_last ≡ c.has_last)
unfolding learn
learn_keeps next ticks none c = ground arith
learn_keeps next ticks (some p) c = ground arith

generation-enter : (g : ℕ) (c : Clock) → (enter g c).generation ≡ g
unfolding enter
generation-enter g c = refl

with_pts-Sent :
    (u : AccessUnit) (d : Clock)
    → d.generation ≡ u.source_generation
    → Sent u
        (with_pts (h264_rtp_timestamp u.pts_ns) d).0
        (with_pts (h264_rtp_timestamp u.pts_ns) d).1
unfolding with_pts
with_pts-Sent u d e =
    ground (arith, learn_keeps (following d) (h264_rtp_timestamp u.pts_ns) d.last_pts_ticks d)

without_pts-Sent :
    (u : AccessUnit) (d : Clock)
    → IsValid d
    → u.has_pts ≡ false
    → d.generation ≡ u.source_generation
    → Sent u (without_pts d).0 (without_pts d).1
unfolding without_pts following
without_pts-Sent u d v n e = ground arith

abbrev stamp : AccessUnit → Clock → ℕ × Clock
stamp u c = timestamp u.source_generation u.has_pts u.pts_ns c

stamp-Sent : (u : AccessUnit) (c : Clock) → IsValid c → Sent u (stamp u c).0 (stamp u c).1
unfolding timestamp
stamp-Sent u c v = elim (Bool-cases u.has_pts) [
  | inl e ↦
      simp e
        (with_pts-Sent u (enter u.source_generation c) (generation-enter u.source_generation c))
  | inr e ↦ simp e (
      without_pts-Sent u (enter u.source_generation c) (enter-IsValid u.source_generation c v) e
        (generation-enter u.source_generation c))
]

-- The distance of two 32-bit timestamps is one frame that can be learnt, at 10 fps or faster.
abbrev one_frame : ℕ → ℕ → Bool
one_frame t t' = leb 1 (sub32 t' t) && leb (sub32 t' t) 9000

-- What is due between the timestamps of two consecutive units: inside a generation, units with PTS
-- are as far apart as their own 90 kHz times; at a new generation, and at a unit without PTS, the
-- stream goes on by one frame interval of at most 9000 ticks.
abbrev pub continues : AccessUnit × ℕ → AccessUnit × ℕ → Bool
continues (u, t) (u', t') =
    if u'.has_pts && (u'.source_generation == u.source_generation)
    then (if u.has_pts
        then sub32 t' t == sub32 (h264_rtp_timestamp u'.pts_ns) (h264_rtp_timestamp u.pts_ns)
        else true)
    else one_frame t t'

learn_within :
    (next ticks previous : ℕ) (c : Clock) → (learn next ticks (some previous) c).offset ≡ c.offset
unfolding learn
learn_within next ticks previous c = ground arith

enter_within :
    (u u' : AccessUnit) (out : ℕ) (c : Clock)
    → Sent u out c
    → u'.source_generation ≡ u.source_generation
    → enter u'.source_generation c ≡ c
unfolding enter
enter_within u u' out c s e = ground arith

enter_new :
    (u u' : AccessUnit) (out : ℕ) (c : Clock)
    → Sent u out c
    → u'.source_generation ≢ u.source_generation
    → enter u'.source_generation c
      ≡ record c { last_pts_ticks = none; generation = u'.source_generation }
unfolding enter
enter_new u u' out c s e = ground arith

fits : (pts : ℕ) → h264_rtp_timestamp pts < 2 ^ 32
unfolding h264_rtp_timestamp
fits pts = omega arith

-- A unit with PTS inside a generation whose last unit had one keeps the offset.
with_pts_within :
    (ticks previous : ℕ) (c : Clock)
    → c.last_pts_ticks ≡ some previous
    → (with_pts ticks c).0 ≡ add32 ticks c.offset
unfolding with_pts
with_pts_within ticks previous c e =
    simp e (ap (add32 ticks) (learn_within (following c) ticks previous c))

-- The first unit with PTS of a new generation goes on by the frame interval.
with_pts_new :
    (ticks g : ℕ) (c : Clock)
    → ticks < 2 ^ 32
    → c.has_last ≡ true
    → (with_pts ticks (record c { last_pts_ticks = none; generation = g })).0
      ≡ add32 c.last c.frame_ticks
unfolding with_pts learn following
with_pts_new ticks g c h e = ground arith

without_pts_next : (c : Clock) → c.has_last ≡ true → (without_pts c).0 ≡ add32 c.last c.frame_ticks
unfolding without_pts following
without_pts_next c e = ground arith

next_is_one_frame : (c : Clock) → IsValid c → one_frame c.last (add32 c.last c.frame_ticks) ≡ true
next_is_one_frame c v = ground arith

module _ (u u' : AccessUnit) (out : ℕ) (c : Clock) (v : IsValid c) (s : Sent u out c) where
  continues_within :
      u'.source_generation ≡ u.source_generation
      → u'.has_pts ≡ true
      → continues (u, out) (u', (stamp u' c).0) ≡ true
  unfolding timestamp
  continues_within g e = ground (
    arith,
    enter_within u u' out c s g,
    with_pts_within (h264_rtp_timestamp u'.pts_ns) (h264_rtp_timestamp u.pts_ns) c,
    fits u.pts_ns,
    fits u'.pts_ns,
  )

  continues_new :
      u'.source_generation ≢ u.source_generation
      → u'.has_pts ≡ true
      → continues (u, out) (u', (stamp u' c).0) ≡ true
  unfolding timestamp
  continues_new g e = ground (
    arith,
    enter_new u u' out c s g,
    with_pts_new (h264_rtp_timestamp u'.pts_ns) u'.source_generation c (fits u'.pts_ns),
    next_is_one_frame c v,
  )

  entered_last :
      ((enter u'.source_generation c).last ≡ c.last)
      × ((enter u'.source_generation c).frame_ticks ≡ c.frame_ticks)
      × ((enter u'.source_generation c).has_last ≡ c.has_last)
  unfolding enter
  entered_last = (refl, refl, refl)

  continues_no_pts : u'.has_pts ≡ false → continues (u, out) (u', (stamp u' c).0) ≡ true
  unfolding timestamp
  continues_no_pts e =
      ground (
        arith,
        entered_last,
        without_pts_next (enter u'.source_generation c),
        next_is_one_frame c v,
      )

  stamp-continues : continues (u, out) (u', (stamp u' c).0) ≡ true
  stamp-continues = elim (Bool-cases u'.has_pts) [
    | inl e ↦ elim (ℕ_discrete u'.source_generation u.source_generation) [
      | yes g ↦ continues_within g e
      | no g ↦ continues_new g e
    ]
    | inr e ↦ continues_no_pts e
  ]

-- All pairs of neighbours continue.
abbrev pub all_continue : List (AccessUnit × ℕ) → Bool
all_continue [] = true
all_continue (p ∷ []) = true
all_continue (p ∷ q ∷ rest) = continues p q && all_continue (q ∷ rest)

run_from :
    (us : List AccessUnit) (u : AccessUnit) (out : ℕ) (c : Clock)
    → IsValid c
    → Sent u out c
    → all_continue ((u, out) ∷ run us c) ≡ true
unfolding run
run_from [] u out c v s = refl
run_from (u' ∷ us) u out c v s =
    let next =
      run_from us u' (stamp u' c).0 (stamp u' c).1
        (timestamp-IsValid u'.source_generation u'.has_pts u'.pts_ns c v).1 (stamp-Sent u' c v) in
    rw (stamp-continues u u' out c v s) next

-- The timestamps of any sequence of units, from any start, with restarts of the source anywhere:
-- neighbours inside a generation that both have PTS are exactly as far apart as their own 90 kHz
-- times; at the first unit of another generation, and at any unit without PTS, the timestamp goes
-- forward by one frame interval, from 1 to 9000 ticks (all mod 2 ^ 32).
pub run-all_continue :
    (start : ℕ) (us : List AccessUnit) → start < 2 ^ 32 → all_continue (run us (make start)) ≡ true
unfolding run
run-all_continue start [] h = refl
run-all_continue start (u ∷ us) h =
    let v : IsValid (make start) = make-IsValid start h in
    run_from us u (stamp u (make start)).0 (stamp u (make start)).1
      (timestamp-IsValid u.source_generation u.has_pts u.pts_ns (make start) v).1
      (stamp-Sent u (make start) v)
