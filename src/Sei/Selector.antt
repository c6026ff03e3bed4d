-- ===== src/Sei/Selector.antt =====
-- `SeiResultSelector` of src/webrtc/detection_sei.cpp: which inference results go with the next
-- access unit. A `double` is an element of a type `D`; `scaled` is explained at the JSON payload,
-- and `greater` is the comparison of two scores. The selector belongs to one thread.
pub mod Bound
pub mod Window
pub mod Account
mod Tests
use skai_edge_native.Common.{
  ℕ, zero, suc, ◌+◌, ◌-◌, ◌*◌, ◌/◌, ◌%◌, ◌^◌, ℤ, List, [], ◌∷◌, ◌++◌, Bool, true, false, not, ◌&&◌,
  ◌||◌, Option, some, none, length, take, drop, ltb, leb, ◌==◌, if◌then◌else◌, add64, inc64,
}
use skai_edge_native.Sei.Json.{SeiBox, SeiResult}
use skai_edge_native.Sei.Sort.{stable_sort}
use skai_edge_native.Sei.Fit.{encode_results, fit}

abbrev pub result_window_ns : ℕ
result_window_ns = 1_000_000_000

abbrev recent_dt_samples : ℕ
recent_dt_samples = 4096

-- `SeiSourceResult`.
pub record SeiSourceResult (D : Type 0) : Type 0 where
  pub source_pts_ns : ℕ
  pub source_generation : ℕ
  pub boxes : List (SeiBox D)

-- `SeiUplinkStats`.
pub record SeiUplinkStats : Type 0 where
  pub sei_units : ℕ
  pub results_attached : ℕ
  pub results_dropped : ℕ
  pub boxes_dropped : ℕ

-- `SeiResultSelector`.
pub record SeiResultSelector (D : Type 0) : Type 0 where
  pub max_pending : ℕ
  pub pending : List (SeiSourceResult D)
  pub recent_dt : List ℕ
  pub next_dt : ℕ
  pub stats : SeiUplinkStats

-- `sei_dt_ticks`, with the wrap of its 64-bit product and of the cast.
pub sei_dt_ticks : ℕ → ℕ → Option ℕ
sei_dt_ticks attach_pts_ns source_pts_ns =
    if ltb attach_pts_ns source_pts_ns
    then none
    else some (((attach_pts_ns - source_pts_ns) * 9 % 2 ^ 64 + 50_000) % 2 ^ 64 / 100_000 % 2 ^ 32)

-- `*sei_dt_ticks(...)`, which is called only where there is a value.
abbrev pub value_of : Option ℕ → ℕ
value_of none = 0
value_of (some dt) = dt

-- What `take_for` does with a waiting result.
pub data Fate : Type 0 where
  keeps_waiting expires is_due : Fate

-- `recent_dt_[i] = value`.
set_at : ℕ → ℕ → List ℕ → List ℕ
set_at i value xs = take i xs ++ value ∷ drop (i + 1) xs

module _ {D : Type 0} where
  -- `std::tie(a...) < std::tie(b...)`.
  abbrev is_older : SeiSourceResult D → SeiSourceResult D → Bool
  is_older a b =
      ltb a.source_generation b.source_generation
      || (a.source_generation == b.source_generation && ltb a.source_pts_ns b.source_pts_ns)

  -- `min_element`: the index of the first least element, given the best one so far with its index
  -- and the index of the elements that are left.
  oldest_from : SeiSourceResult D → ℕ → ℕ → List (SeiSourceResult D) → ℕ
  oldest_from best at i [] = at
  oldest_from best at i (x ∷ xs) =
      let newer_best = oldest_from x i (i + 1) xs in
      let same_best = oldest_from best at (i + 1) xs in
      if is_older x best then newer_best else same_best

  erase_oldest : List (SeiSourceResult D) → List (SeiSourceResult D)
  unfolding oldest_from
  erase_oldest [] = []
  erase_oldest (x ∷ xs) =
      let at = oldest_from x 0 1 xs in take at (x ∷ xs) ++ drop (at + 1) (x ∷ xs)

  pub add : SeiSourceResult D → SeiResultSelector D → SeiResultSelector D
  add result s =
      let all = s.pending ++ result ∷ [] in
      if ltb s.max_pending (length all)
      then record s {
        pending = erase_oldest all;
        stats = record s.stats { results_dropped = inc64 s.stats.results_dropped };
      }
      else record s { pending = all }

  pub fate : ℕ → ℕ → SeiSourceResult D → Fate
  fate attach_pts attach_generation r =
      if ltb attach_generation r.source_generation
      then keeps_waiting
      else if ltb r.source_generation attach_generation
          || (ltb attach_pts r.source_pts_ns || ltb result_window_ns (attach_pts - r.source_pts_ns))
      then expires
      else is_due

  -- The first loop of `take_for`: due, later, and how many are dropped.
  place :
      SeiSourceResult D
      → Fate
      → List (SeiSourceResult D) × List (SeiSourceResult D) × ℕ
      → List (SeiSourceResult D) × List (SeiSourceResult D) × ℕ
  place r keeps_waiting (due, later, dropped) = (due, r ∷ later, dropped)
  place r expires (due, later, dropped) = (due, later, suc dropped)
  place r is_due (due, later, dropped) = (r ∷ due, later, dropped)

  pub partition :
      ℕ → ℕ → List (SeiSourceResult D) → List (SeiSourceResult D) × List (SeiSourceResult D) × ℕ
  unfolding place fate
  partition attach_pts attach_generation [] = ([], [], 0)
  partition attach_pts attach_generation (r ∷ rs) =
      place r (fate attach_pts attach_generation r) (partition attach_pts attach_generation rs)

  abbrev pub is_earlier : SeiSourceResult D → SeiSourceResult D → Bool
  is_earlier a b = ltb a.source_pts_ns b.source_pts_ns

  pub to_result : ℕ → SeiSourceResult D → SeiResult D
  unfolding sei_dt_ticks
  to_result attach_pts r = record {
    dt = value_of (sei_dt_ticks attach_pts r.source_pts_ns);
    boxes = r.boxes;
  }

  abbrev pub to_results : ℕ → List (SeiSourceResult D) → List (SeiResult D)
  to_results attach_pts [] = []
  to_results attach_pts (r ∷ rs) = to_result attach_pts r ∷ to_results attach_pts rs

  -- The last loop of `take_for`, on the ring of dt values and its position.
  remember_dt : List (SeiResult D) → List ℕ × ℕ → List ℕ × ℕ
  unfolding set_at
  remember_dt [] ring = ring
  remember_dt (r ∷ rs) (recent, next) =
      let room = remember_dt rs (recent ++ r.dt ∷ [], next) in
      let full = remember_dt rs (set_at next r.dt recent, (next + 1) % recent_dt_samples) in
      if ltb (length recent) recent_dt_samples then room else full

module _ {D : Type 0} (scaled : D → ℤ) (greater : D → D → Bool) where
  abbrev note_stats : ℕ → List (SeiResult D) × ℕ × ℕ → SeiUplinkStats → SeiUplinkStats
  note_stats expired (attached, erased, boxes) stats = record {
    sei_units = inc64 stats.sei_units;
    results_attached = add64 stats.results_attached (length attached);
    results_dropped = add64 stats.results_dropped (expired + erased);
    boxes_dropped = add64 stats.boxes_dropped boxes;
  }

  -- The rest of `take_for`, after the partition.
  attach :
      ℕ
      → List (SeiSourceResult D) × List (SeiSourceResult D) × ℕ
      → SeiResultSelector D
      → List ℕ × SeiResultSelector D
  attach attach_pts ([], later, dropped) s = (
    [],
    record s {
      pending = later;
      stats = record s.stats { results_dropped = add64 s.stats.results_dropped dropped };
    },
  )
  attach attach_pts (r ∷ rs, later, dropped) s =
      let fitted = fit scaled greater (to_results attach_pts (stable_sort is_earlier (r ∷ rs))) in
      let (recent, next) = remember_dt fitted.0 (s.recent_dt, s.next_dt) in
      (
        encode_results scaled fitted.0,
        record s {
          pending = later;
          recent_dt = recent;
          next_dt = next;
          stats = note_stats dropped fitted s.stats;
        },
      )

  -- `take_for`.
  pub take_for : ℕ → ℕ → SeiResultSelector D → List ℕ × SeiResultSelector D
  unfolding attach
  take_for attach_pts attach_generation s =
      attach attach_pts (partition attach_pts attach_generation s.pending) s
