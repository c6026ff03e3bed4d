-- ===== src/BoundedQueue/Tests.antt =====
-- Runs of the queue on concrete calls, and instances of its theorems.
use mathlib.Core.List.{Sublist}
use skai_edge_native.Common.{ℕ, ◌≡◌, refl, List, [], ◌∷◌, ◌++◌, some, none, true, false, arith}
use skai_edge_native.BoundedQueue.{
  BoundedQueue, zero_stats, make, push, pop, pop_for, shutdown, take_front, take_from, trim, Call,
  pushes, pops, pops_for, shuts_down, step, run,
}
use skai_edge_native.BoundedQueue.Invariant.{IsValid, run-IsValid}
use skai_edge_native.BoundedQueue.Fifo.{run-sublist, shutdown-drain}

abbrev empty_queue : BoundedQueue ℕ
empty_queue = record { capacity = 2; items = []; stats = zero_stats; is_shutdown = false }

abbrev two_waiting : BoundedQueue ℕ
two_waiting = record {
  capacity = 2;
  items = 7 ∷ 8 ∷ [];
  stats = record { pushed = 2; popped = 0; dropped = 0; discarded = 0; high_water_mark = 2 };
  is_shutdown = false;
}

abbrev closed_queue : BoundedQueue ℕ
closed_queue = record two_waiting { is_shutdown = true }

abbrev calls : List (Call ℕ)
calls = pushes 1 ∷ pushes 2 ∷ pushes 3 ∷ pops ∷ shuts_down ∷ pushes 4 ∷ pops_for ∷ pops ∷ []

run_delivers : (run calls empty_queue).0 ≡ 2 ∷ 3 ∷ []
unfolding run step push trim pop pop_for take_front take_from shutdown
run_delivers = refl

make_rejects_zero : make {T = ℕ} 0 ≡ none
unfolding make
make_rejects_zero = refl

empty_queue-IsValid : IsValid empty_queue
empty_queue-IsValid = omega arith

two_waiting-IsValid : IsValid two_waiting
two_waiting-IsValid = omega arith

run-IsValid_example : IsValid (run calls empty_queue).1
run-IsValid_example = run-IsValid calls empty_queue empty_queue-IsValid

run-sublist_example :
    Sublist ((run calls empty_queue).0 ++ (run calls empty_queue).1.items) (1 ∷ 2 ∷ 3 ∷ 4 ∷ [])
run-sublist_example = run-sublist calls empty_queue

shutdown-drain_example :
    ((run (pops ∷ pops ∷ []) closed_queue).0 ≡ 7 ∷ 8 ∷ [])
    × ((run (pops ∷ pops ∷ []) closed_queue).1.items ≡ [])
    × (pop (run (pops ∷ pops ∷ []) closed_queue).1
        ≡ some (none, (run (pops ∷ pops ∷ []) closed_queue).1))
    × (push 9 (run (pops ∷ pops ∷ []) closed_queue).1
        ≡ (false, (run (pops ∷ pops ∷ []) closed_queue).1))
shutdown-drain_example = shutdown-drain 9 (7 ∷ 8 ∷ []) closed_queue refl refl
