-- ===== src/Sei/Selector/Bound.antt =====
-- The size of what `take_for` returns, and of what waits.
use skai_edge_native.Common.{
  ℕ, ◌^◌, ◌≤◌, ◌<◌, ◌≡◌, refl, ℤ, List, [], ◌∷◌, Bool, true, length, arith,
}
use skai_edge_native.Sei.Sort.{stable_sort}
use skai_edge_native.Sei.Fit.Bounds.{dts_fit, length-encode_fit}
use skai_edge_native.Sei.Selector.{
  SeiSourceResult, SeiResultSelector, sei_dt_ticks, to_result, to_results, is_earlier, partition,
  attach, take_for,
}

dt-to_result : {D : Type 0} (pts : ℕ) (r : SeiSourceResult D) → (to_result pts r).dt < 2 ^ 32
unfolding to_result sei_dt_ticks
dt-to_result pts r = ground arith

module _ {D : Type 0} (scaled : D → ℤ) (greater : D → D → Bool) where
  dts_fit-to_results :
      (pts : ℕ) (rs : List (SeiSourceResult D)) → dts_fit scaled (to_results pts rs) ≡ true
  dts_fit-to_results pts [] = refl
  dts_fit-to_results pts (r ∷ rs) = ground (arith, dt-to_result pts r, dts_fit-to_results pts rs)

  length-attach :
      (pts : ℕ) (due later : List (SeiSourceResult D)) (dropped : ℕ) (s : SeiResultSelector D)
      → length (attach scaled greater pts (due, later, dropped) s).0 ≤ 1024
  unfolding attach
  length-attach pts [] later dropped s = omega arith
  length-attach pts (r ∷ rs) later dropped s =
      let sorted = stable_sort is_earlier (r ∷ rs) in
      length-encode_fit scaled greater (to_results pts sorted) (dts_fit-to_results pts sorted)

  -- Whatever waits, and with any number of boxes, the NAL unit for an access unit has at most 1024
  -- bytes; it is empty when there is none.
  pub length-take_for :
      (pts generation : ℕ) (s : SeiResultSelector D)
      → length (take_for scaled greater pts generation s).0 ≤ 1024
  unfolding take_for
  length-take_for pts generation s =
      let (due, later, dropped) = partition pts generation s.pending in
      length-attach pts due later dropped s
