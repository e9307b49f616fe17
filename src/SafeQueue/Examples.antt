-- ===== src/SafeQueue/Examples.antt =====
-- Concrete histories of a queue.
use mathlib.Core.List.{Sublist}
use node_management.Common.{ℕ, ◌≡◌, refl, true, false, List, [], ◌∷◌, ◌++◌, arith}
use node_management.SafeQueue.{SafeQueue, push, pop, try_pop, stop, start, wait_and_pop}
use node_management.SafeQueue.Calls.{Call, pushes, pops, tries, awaits, stops, starts, step, run}
use node_management.SafeQueue.Bounds.{IsBounded, run-IsBounded}
use node_management.SafeQueue.Order.{run-sublist}
use node_management.SafeQueue.Delivery.{run_lossless}

abbrev two_values : SafeQueue ℕ
two_values = record { queue = 1 ∷ 2 ∷ []; running = true }

abbrev mixed_calls : List (Call ℕ)
mixed_calls =
    pushes 3 true ∷ pops ∷ awaits ∷ stops ∷ pushes 4 true ∷ starts ∷ pushes 5 false ∷ tries ∷ []

abbrev transfers : List (Call ℕ)
transfers = awaits ∷ pushes 3 true ∷ tries ∷ pushes 4 false ∷ []

run_test : run two_values mixed_calls ≡ (record { queue = 5 ∷ []; running = true }, 2 ∷ 3 ∷ [])
unfolding run step push pop try_pop wait_and_pop stop start
run_test = refl

run-IsBounded_example : IsBounded (run two_values mixed_calls).0
run-IsBounded_example = run-IsBounded two_values mixed_calls (omega arith)

run-sublist_example :
    Sublist
      ((run two_values mixed_calls).1 ++ (run two_values mixed_calls).0.queue)
      (1 ∷ 2 ∷ 3 ∷ 4 ∷ 5 ∷ [])
run-sublist_example = run-sublist two_values mixed_calls

run_lossless_example :
    (run two_values transfers).1 ++ (run two_values transfers).0.queue ≡ 1 ∷ 2 ∷ 3 ∷ 4 ∷ []
run_lossless_example =
    run_lossless two_values transfers (tt, (tt, (tt, (tt, tt)))) refl (omega arith)
