-- ===== src/BoundedQueue.antt =====
-- include/skai/core/bounded_queue.hpp: the bounded producer/consumer queue between the workers.
-- Each method takes the mutex for its whole body, so a method is one step on the state, and the
-- condition variable is the test `ready` that a waiting consumer must see hold.
pub mod Invariant
pub mod Fifo
mod Tests
use skai_edge_native.Common.{
  ℕ, ◌<◌, List, [], ◌∷◌, ◌++◌, Option, none, some, Bool, true, false, not, ◌||◌, max, length, drop,
  ltb, if◌then◌else◌, inc64, add64, ◌==◌,
}

-- `QueueStats`.
pub record QueueStats : Type 0 where
  pub pushed : ℕ
  pub popped : ℕ
  pub dropped : ℕ
  pub discarded : ℕ
  pub high_water_mark : ℕ

abbrev pub zero_stats : QueueStats
zero_stats = record { pushed = 0; popped = 0; dropped = 0; discarded = 0; high_water_mark = 0 }

-- `BoundedQueue<T>`; the head of `items` is the front of the deque.
pub record BoundedQueue {ℓ} (T : Type ℓ) : Type ℓ where
  pub capacity : ℕ
  pub items : List T
  pub stats : QueueStats
  pub is_shutdown : Bool

module _ {ℓ} {T : Type ℓ} where
  -- The constructor; `none` is the exception on a capacity of zero.
  pub make : ℕ → Option (BoundedQueue T)
  make capacity =
      if capacity == 0
      then none
      else some
          (record { capacity = capacity; items = []; stats = zero_stats; is_shutdown = false })

  abbrev is_empty : List T → Bool
  is_empty [] = true
  is_empty (x ∷ xs) = false

  -- `pop_front` when the size is over the capacity: what is left, and the count of drops.
  unfoldable pub trim : ℕ → List T → ℕ → List T × ℕ
  trim capacity xs dropped =
      if ltb capacity (length xs) then (drop 1 xs, inc64 dropped) else (xs, dropped)

  unfoldable pub push : T → BoundedQueue T → Bool × BoundedQueue T
  push value q =
      let (kept, dropped) = trim q.capacity (q.items ++ value ∷ []) q.stats.dropped in
      if q.is_shutdown then (false, q) else (
        true,
        record q {
          items = kept;
          stats = record q.stats {
            pushed = inc64 q.stats.pushed;
            dropped = dropped;
            high_water_mark = max q.stats.high_water_mark (length kept);
          };
        },
      )

  -- The predicate of both waits: a consumer goes on once it holds.
  abbrev pub ready : BoundedQueue T → Bool
  ready q = q.is_shutdown || not (is_empty q.items)

  take_from : List T → BoundedQueue T → Option T × BoundedQueue T
  take_from [] q = (none, q)
  take_from (x ∷ rest) q =
      (some x, record q { items = rest; stats = record q.stats { popped = inc64 q.stats.popped } })

  -- `take_front`.
  pub take_front : BoundedQueue T → Option T × BoundedQueue T
  unfolding take_from
  take_front q = take_from q.items q

  -- `pop`; `none` means that the call still waits.
  pub pop : BoundedQueue T → Option (Option T × BoundedQueue T)
  unfolding take_front
  pop q = if ready q then some (take_front q) else none

  -- `pop_for`, at the time when it returns: by the predicate, or by the timeout.
  pub pop_for : BoundedQueue T → Option T × BoundedQueue T
  unfolding take_front
  pop_for q = if ready q then take_front q else (none, q)

  pub shutdown : BoundedQueue T → BoundedQueue T
  shutdown q = record q { is_shutdown = true }

  unfoldable pub discard_all : BoundedQueue T → ℕ × BoundedQueue T
  discard_all q = (
    length q.items,
    record q {
      items = [];
      stats = record q.stats { discarded = add64 q.stats.discarded (length q.items) };
    },
  )

  pub reset : BoundedQueue T → BoundedQueue T
  reset q = record q { items = []; stats = zero_stats; is_shutdown = false }

  pub size : BoundedQueue T → ℕ
  size q = length q.items

-- The calls that change a queue. Any interleaving of producers and consumers is a list of them,
-- since each runs under the mutex; a `pop` stands where it returns.
pub data Call {ℓ} (T : Type ℓ) : Type ℓ where
  pushes : T → Call T
  pops : Call T
  pops_for : Call T
  shuts_down : Call T
  discards : Call T
  resets : Call T

module _ {ℓ} {T : Type ℓ} where
  -- A `pop` that waits hands out nothing and leaves the queue as it is.
  abbrev after_wait :
      BoundedQueue T → Option (Option T × BoundedQueue T) → Option T × BoundedQueue T
  after_wait q none = (none, q)
  after_wait q (some r) = r

  -- One call: the value it hands to a consumer, and the queue after it.
  pub step : Call T → BoundedQueue T → Option T × BoundedQueue T
  unfolding push pop pop_for shutdown discard_all reset
  step (pushes x) q = (none, (push x q).1)
  step pops q = after_wait q (pop q)
  step pops_for q = pop_for q
  step shuts_down q = (none, shutdown q)
  step discards q = (none, (discard_all q).1)
  step resets q = (none, reset q)

  abbrev opt_cons : Option T → List T → List T
  opt_cons none xs = xs
  opt_cons (some x) xs = x ∷ xs

  -- A history: the values handed out, in order, and the last state.
  pub run : List (Call T) → BoundedQueue T → List T × BoundedQueue T
  run [] q = ([], q)
  run (c ∷ cs) q =
      let (out, q') = step c q in let (outs, last) = run cs q' in (opt_cons out outs, last)
