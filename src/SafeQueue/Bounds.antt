-- ===== src/SafeQueue/Bounds.antt =====
-- The length of a `ThreadSafeQueue` of source/Utils.h and `MAX_SAFE_QUEUE`.
use node_management.Common.{◌-◌, ◌≤◌, ◌≡◌, Bool, List, [], ◌∷◌, arith, length, drop, length-append}
use node_management.SafeQueue.{
  SafeQueue, max_safe_queue, push, pop, reset_queue, try_pop, wait_and_pop, stop, start,
}
use node_management.SafeQueue.Calls.{
  Call, pushes, pops, tries, awaits, resets, stops, starts, step, run,
}

module _ {ℓ} {A : Type ℓ} where
  abbrev pub IsBounded : SafeQueue A → Type 0
  IsBounded q = length q.queue ≤ max_safe_queue

  pub length-tail : (xs : List A) → length (drop 1 xs) ≡ length xs - 1
  length-tail [] = omega arith
  length-tail (x ∷ xs) = omega arith

  push-IsBounded :
      (q : SafeQueue A) (x : A) (force : Bool) → IsBounded q → IsBounded (push q x force)
  unfolding push
  push-IsBounded q x force h = ground (
    arith,
    length-append (drop 1 q.queue) (x ∷ []),
    length-append q.queue (x ∷ []),
    length-tail q.queue,
  )

  step-IsBounded : (q : SafeQueue A) (c : Call A) → IsBounded q → IsBounded (step q c).0
  unfolding step pop try_pop wait_and_pop reset_queue stop start
  step-IsBounded q (pushes x force) h = push-IsBounded q x force h
  step-IsBounded q pops h = ground arith
  step-IsBounded q tries h = ground arith
  step-IsBounded q awaits h = ground arith
  step-IsBounded q resets h = omega arith
  step-IsBounded q stops h = ground arith
  step-IsBounded q starts h = ground arith

  -- A queue that holds at most `MAX_SAFE_QUEUE` elements does so after any history of calls.
  pub run-IsBounded : (q : SafeQueue A) (cs : List (Call A)) → IsBounded q → IsBounded (run q cs).0
  unfolding run
  run-IsBounded q [] h = h
  run-IsBounded q (c ∷ cs) h = run-IsBounded (step q c).0 cs (step-IsBounded q c h)
