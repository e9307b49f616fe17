-- ===== src/SafeQueue/Threads/Examples.antt =====
-- A thread sleeps on an empty queue, and another pushes.
use node_management.Common.{ℕ, ◌≡◌, ◌≢◌, refl, true, List, [], ◌∷◌, some, get_elem?}
use node_management.SafeQueue.{SafeQueue, new_queue, push_locked, wait_and_pop}
use node_management.SafeQueue.Calls.{pushes, awaits}
use node_management.SafeQueue.Threads.{
  idle, asleep, Action, calls, proceeds, take_step, take_steps, go_on, enter_call, test_predicate,
}
use node_management.SafeQueue.Threads.Wakeup.{fresh_threads, no_lost_wakeup}

-- The second thread tests `m_running` first, and pushes when the other sleeps already.
abbrev four_actions : List (Action ℕ)
four_actions = calls 1 (pushes 7 true) ∷ calls 0 awaits ∷ proceeds 1 ∷ []

abbrev no_numbers : SafeQueue ℕ
no_numbers = new_queue

sleeps :
    get_elem? (take_steps four_actions (fresh_threads no_numbers 2)).phases 0 ≡ some (asleep true)
unfolding take_steps take_step go_on enter_call test_predicate push_locked wait_and_pop
sleeps = refl

has_seven :
    (take_steps four_actions (fresh_threads no_numbers 2)).queue.running ≡ true
    → (take_steps four_actions (fresh_threads no_numbers 2)).queue.queue ≢ []
unfolding take_steps take_step go_on enter_call test_predicate push_locked wait_and_pop
has_seven on e = cc

no_lost_wakeup_example :
    (true ≡ true)
    × (get_elem?
          (take_step (proceeds 0) (take_steps four_actions (fresh_threads no_numbers 2))).phases
          0
        ≡ some idle)
no_lost_wakeup_example = no_lost_wakeup no_numbers 2 four_actions 0 true sleeps has_seven
