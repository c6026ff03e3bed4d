-- ===== src/Sei/Selector/Account.antt =====
-- Every result that is added is waiting, attached or counted as dropped.
use skai_edge_native.Common.{
  ℕ, suc, ◌+◌, ◌^◌, ◌%◌, ◌<◌, ◌≡◌, refl, ap, ◌∙◌, ℤ, List, [], ◌∷◌, ◌++◌, Bool, length, take, drop,
  arith, length-append, length-take, length-drop,
}
use skai_edge_native.Sei.Sort.{stable_sort, length-stable_sort}
use skai_edge_native.Sei.Fit.Bounds.{length-fit}
use skai_edge_native.Sei.Selector.{
  SeiSourceResult, SeiResultSelector, Fate, keeps_waiting, expires, is_due, fate, place, to_results,
  is_earlier, oldest_from, erase_oldest, add, partition, attach, take_for,
}

module _ {D : Type 0} where
  length-to_results :
      (pts : ℕ) (rs : List (SeiSourceResult D)) → length (to_results pts rs) ≡ length rs
  length-to_results pts [] = refl
  length-to_results pts (r ∷ rs) = ap suc (length-to_results pts rs)

  place_lem :
      (r : SeiSourceResult D) (f : Fate) (due later : List (SeiSourceResult D)) (dropped : ℕ)
      → let (due', later', dropped') = place r f (due, later, dropped) in
        length due' + length later' + dropped' ≡ suc (length due + length later + dropped)
  unfolding place
  place_lem r keeps_waiting due later dropped = omega arith
  place_lem r expires due later dropped = omega arith
  place_lem r is_due due later dropped = omega arith

  partition_lem :
      (pts generation : ℕ) (rs : List (SeiSourceResult D))
      → let (due, later, dropped) = partition pts generation rs in
        length due + length later + dropped ≡ length rs
  unfolding partition
  partition_lem pts generation [] = refl
  partition_lem pts generation (r ∷ rs) =
      let (due, later, dropped) = partition pts generation rs in
      place_lem r (fate pts generation r) due later dropped
      ∙ ap suc (partition_lem pts generation rs)

  oldest_from_lt :
      (best : SeiSourceResult D) (at i : ℕ) (xs : List (SeiSourceResult D))
      → at < i
      → oldest_from best at i xs < i + length xs
  unfolding oldest_from
  oldest_from_lt best at i [] h = omega arith
  oldest_from_lt best at i (x ∷ xs) h = ground (
    arith,
    oldest_from_lt x i (i + 1) xs (omega arith),
    oldest_from_lt best at (i + 1) xs (omega arith),
  )

  length-erase_oldest :
      (x : SeiSourceResult D) (xs : List (SeiSourceResult D))
      → length (erase_oldest (x ∷ xs)) ≡ length xs
  unfolding erase_oldest
  length-erase_oldest x xs =
      let at = oldest_from x 0 1 xs in
      ground (
        arith,
        oldest_from_lt x 0 1 xs (omega arith),
        length-append (take at (x ∷ xs)) (drop (at + 1) (x ∷ xs)),
        length-take at (x ∷ xs),
        length-drop (at + 1) (x ∷ xs),
      )

-- A call on the selector.
pub data Call (D : Type 0) : Type 0 where
  adds : SeiSourceResult D → Call D
  takes : ℕ → ℕ → Call D

-- The results attached, dropped and waiting together.
abbrev pub accounted : {D : Type 0} → SeiResultSelector D → ℕ
accounted s = (s.stats.results_attached + s.stats.results_dropped + length s.pending) % 2 ^ 64

-- The calls that add a result.
abbrev pub count_adds : {D : Type 0} → List (Call D) → ℕ
count_adds [] = 0
count_adds (adds r ∷ cs) = suc (count_adds cs)
count_adds (takes pts generation ∷ cs) = count_adds cs

module _ {D : Type 0} (scaled : D → ℤ) (greater : D → D → Bool) where
  abbrev pub step : Call D → SeiResultSelector D → SeiResultSelector D
  step (adds r) s = add r s
  step (takes pts generation) s = (take_for scaled greater pts generation s).1

  abbrev pub run : List (Call D) → SeiResultSelector D → SeiResultSelector D
  run [] s = s
  run (c ∷ cs) s = run cs (step c s)

  length-erase_append :
      (xs : List (SeiSourceResult D)) (r : SeiSourceResult D)
      → length (erase_oldest (xs ++ r ∷ [])) ≡ length xs
  length-erase_append [] r = length-erase_oldest r []
  length-erase_append (x ∷ xs) r =
      length-erase_oldest x (xs ++ r ∷ []) ∙ omega (arith, length-append xs (r ∷ []))

  accounted-add :
      (r : SeiSourceResult D) (s : SeiResultSelector D)
      → accounted (add r s) ≡ (accounted s + 1) % 2 ^ 64
  unfolding add
  accounted-add r s =
      ground (arith, length-erase_append s.pending r, length-append s.pending (r ∷ []))

  accounted-attach :
      (pts : ℕ) (due later : List (SeiSourceResult D)) (dropped : ℕ) (s : SeiResultSelector D)
      → length due + length later + dropped ≡ length s.pending
      → accounted (attach scaled greater pts (due, later, dropped) s).1 ≡ accounted s
  unfolding attach
  accounted-attach pts [] later dropped s h = omega arith
  accounted-attach pts (r ∷ rs) later dropped s h =
      let sorted = stable_sort is_earlier (r ∷ rs) in
      ground (
        arith,
        length-fit scaled greater (to_results pts sorted),
        length-to_results pts sorted,
        length-stable_sort is_earlier (r ∷ rs),
      )

  accounted-take_for :
      (pts generation : ℕ) (s : SeiResultSelector D)
      → accounted (take_for scaled greater pts generation s).1 ≡ accounted s
  unfolding take_for
  accounted-take_for pts generation s =
      let (due, later, dropped) = partition pts generation s.pending in
      accounted-attach pts due later dropped s (partition_lem pts generation s.pending)

  -- Over any calls, the results that are attached, dropped or waiting grow by the number of results
  -- added (mod 2 ^ 64): none is lost or counted twice.
  pub run-accounted :
      (cs : List (Call D)) (s : SeiResultSelector D)
      → accounted (run cs s) ≡ (accounted s + count_adds cs) % 2 ^ 64
  run-accounted [] s = omega arith
  run-accounted (adds r ∷ cs) s = run-accounted cs (add r s) ∙ omega (arith, accounted-add r s)
  run-accounted (takes pts generation ∷ cs) s =
      run-accounted cs (take_for scaled greater pts generation s).1
      ∙ omega (arith, accounted-take_for pts generation s)
