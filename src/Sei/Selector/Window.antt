-- ===== src/Sei/Selector/Window.antt =====
-- Which waiting results are due for an access unit, and their distance from it.
use skai_edge_native.Common.{
  ℕ, ◌+◌, ◌-◌, ◌*◌, ◌/◌, ◌%◌, ◌^◌, ◌≤◌, ◌<◌, ◌≡◌, refl, List, [], ◌∷◌, Bool, ◌&&◌, some, ltb, leb,
  ◌==◌, if◌then◌else◌, arith,
}
use skai_edge_native.Sei.Selector.{
  SeiSourceResult, keeps_waiting, expires, is_due, fate, place, partition, sei_dt_ticks,
  result_window_ns,
}

abbrev pub only : {A : Type 0} → (A → Bool) → List A → List A
only p [] = []
only p (x ∷ xs) = if p x then x ∷ only p xs else only p xs

-- The tick of 90 kHz that is nearest to a distance of at most one second: always there.
ticks_lem :
    (pts source : ℕ)
    → source ≤ pts
    → pts - source ≤ result_window_ns
    → (ticks : ℕ) × (sei_dt_ticks pts source ≡ some ticks)
      × (ticks ≤ 90_000)
      × (ticks * 100_000 ≤ (pts - source) * 9 + 50_000)
      × ((pts - source) * 9 + 50_000 < ticks * 100_000 + 100_000)
unfolding sei_dt_ticks
ticks_lem pts source le near =
    let elapsed = pts - source in
    let no_wrap : (elapsed * 9 % 2 ^ 64 + 50_000) % 2 ^ 64 ≡ elapsed * 9 + 50_000 = omega arith in
    let small : (elapsed * 9 + 50_000) / 100_000 % 2 ^ 32 ≡ (elapsed * 9 + 50_000) / 100_000 =
      omega arith in
    ((elapsed * 9 + 50_000) / 100_000, ground arith, omega arith, omega arith, omega arith)

module _ {D : Type 0} (pts generation : ℕ) where
  -- Of the unit's pipeline, not newer than the unit, and at most one second old.
  abbrev pub is_fresh : SeiSourceResult D → Bool
  is_fresh r =
      r.source_generation == generation
      && (leb r.source_pts_ns pts && leb (pts - r.source_pts_ns) result_window_ns)

  abbrev pub is_later : SeiSourceResult D → Bool
  is_later r = ltb generation r.source_generation

  fate_lem :
      (r : SeiSourceResult D)
      → fate pts generation r
        ≡ (if is_later r then keeps_waiting else if is_fresh r then is_due else expires)
  unfolding fate
  fate_lem r = ground arith

  -- The due results are exactly the fresh ones, and exactly those of a later pipeline go on waiting,
  -- both in their order.
  pub partition-only :
      (rs : List (SeiSourceResult D))
      → ((partition pts generation rs).0 ≡ only is_fresh rs)
        × ((partition pts generation rs).1 ≡ only is_later rs)
  unfolding partition place
  partition-only [] = (refl, refl)
  partition-only (r ∷ rs) = ground (arith, fate_lem r, partition-only rs)

  -- A result that is due has a dt: its distance from the unit, of at most one second, in 90 kHz
  -- ticks and rounded to the nearest.
  pub sei_dt_ticks-due :
      (r : SeiSourceResult D)
      → fate pts generation r ≡ is_due
      → (ticks : ℕ) × (sei_dt_ticks pts r.source_pts_ns ≡ some ticks)
        × (ticks ≤ 90_000)
        × (ticks * 100_000 ≤ (pts - r.source_pts_ns) * 9 + 50_000)
        × ((pts - r.source_pts_ns) * 9 + 50_000 < ticks * 100_000 + 100_000)
  sei_dt_ticks-due r h =
      ticks_lem pts r.source_pts_ns (ground (arith, fate_lem r)) (ground (arith, fate_lem r))
