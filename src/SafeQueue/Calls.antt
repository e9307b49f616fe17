-- ===== src/SafeQueue/Calls.antt =====
-- A history of calls on one queue, by any threads, in the order in which they take the mutex.
use node_management.Common.{Bool, List, [], ◌∷◌, ◌++◌, Option, none, some}
use node_management.SafeQueue.{
  SafeQueue, WaitResult, waits, failed, unchanged, popped, push, pop, reset_queue, try_pop,
  wait_and_pop, stop, start,
}

pub data Call {ℓ} (A : Type ℓ) : Type ℓ where
  pushes : A → Bool → Call A
  pops tries awaits resets stops starts : Call A

module _ {ℓ} {A : Type ℓ} where
  -- The queue afterwards, and the values that the call hands to its caller. `pop` discards.
  abbrev pub after_try : SafeQueue A × Option A → SafeQueue A × List A
  after_try (q, none) = (q, [])
  after_try (q, some x) = (q, x ∷ [])

  abbrev pub after_wait : SafeQueue A → WaitResult A → SafeQueue A × List A
  after_wait q waits = (q, [])
  after_wait q failed = (q, [])
  after_wait q unchanged = (q, [])
  after_wait q (popped x q') = (q', x ∷ [])

  unfoldable pub step : SafeQueue A → Call A → SafeQueue A × List A
  step q (pushes x force) = (push q x force, [])
  step q pops = ((pop q).0, [])
  step q tries = after_try (try_pop q)
  step q awaits = after_wait q (wait_and_pop q)
  step q resets = (reset_queue q, [])
  step q stops = (stop q, [])
  step q starts = (start q, [])

  -- The final queue, and all values handed out, oldest first.
  unfoldable pub run : SafeQueue A → List (Call A) → SafeQueue A × List A
  run q [] = (q, [])
  run q (c ∷ cs) = ((run (step q c).0 cs).0, (step q c).1 ++ (run (step q c).0 cs).1)

  -- The values that a history pushes.
  abbrev pub pushed_by : Call A → List A
  pushed_by (pushes x force) = x ∷ []
  pushed_by pops = []
  pushed_by tries = []
  pushed_by awaits = []
  pushed_by resets = []
  pushed_by stops = []
  pushed_by starts = []

  abbrev pub pushed : List (Call A) → List A
  pushed [] = []
  pushed (c ∷ cs) = pushed_by c ++ pushed cs
