-- ===== src/SafeQueue/Order.antt =====
-- The order of a `ThreadSafeQueue` of source/Utils.h: what it is given and what it hands out.
use mathlib.Core.List.{Sublist, append_assoc, append-nil, sublist-append_left}
use mathlib.Core.List.Sublist
use node_management.Common.{
  Bool, true, false, List, [], ◌∷◌, ◌++◌, leb, length, drop, Bool-cases, inl, inr,
}
use node_management.SafeQueue.{
  SafeQueue, max_safe_queue, push, pop, reset_queue, try_pop, wait_and_pop, stop, start,
}
use node_management.SafeQueue.Calls.{
  Call, pushes, pops, tries, awaits, resets, stops, starts, step, run, pushed_by, pushed,
}

module _ {ℓ} {A : Type ℓ} where
  drop-sublist : (xs : List A) → Sublist (drop 1 xs) xs
  drop-sublist [] = Sublist.refl []
  drop-sublist (x ∷ xs) = Sublist.cons x (Sublist.refl xs)

  nil-sublist : (xs : List A) → Sublist [] xs
  nil-sublist [] = Sublist.refl []
  nil-sublist (x ∷ xs) = Sublist.cons x (nil-sublist xs)

  -- By the fields of the queue.
  step_cases :
      (xs : List A) (b : Bool) (c : Call A)
      → let r = step (record { queue = xs; running = b }) c in
        Sublist (r.1 ++ r.0.queue) (xs ++ pushed_by c)
  unfolding step push pop try_pop wait_and_pop reset_queue stop start
  step_cases xs false (pushes x force) = sublist-append_left xs (x ∷ [])
  step_cases xs true (pushes x true) = elim (Bool-cases (leb max_safe_queue (length xs))) [
    | inl full ↦ rw (full, push) (Sublist.append (drop-sublist xs) (Sublist.refl (x ∷ [])))
    | inr fits ↦ rw (fits, push) (Sublist.refl (xs ++ x ∷ []))
  ]
  step_cases xs true (pushes x false) = elim (Bool-cases (leb max_safe_queue (length xs))) [
    | inl full ↦ rw (full, push) (sublist-append_left xs (x ∷ []))
    | inr fits ↦ rw (fits, push) (Sublist.refl (xs ++ x ∷ []))
  ]
  step_cases xs false pops = rw append-nil (Sublist.refl xs)
  step_cases [] true pops = Sublist.refl []
  step_cases (x ∷ xs) true pops = rw append-nil (drop-sublist (x ∷ xs))
  step_cases xs false tries = rw append-nil (Sublist.refl xs)
  step_cases [] true tries = Sublist.refl []
  step_cases (x ∷ xs) true tries = rw append-nil (Sublist.refl (x ∷ xs))
  step_cases xs false awaits = rw append-nil (Sublist.refl xs)
  step_cases [] true awaits = Sublist.refl []
  step_cases (x ∷ xs) true awaits = rw append-nil (Sublist.refl (x ∷ xs))
  step_cases xs b resets = nil-sublist (xs ++ [])
  step_cases xs false stops = rw append-nil (Sublist.refl xs)
  step_cases xs true stops = rw append-nil (Sublist.refl xs)
  step_cases xs false starts = rw append-nil (Sublist.refl xs)
  step_cases xs true starts = rw append-nil (Sublist.refl xs)

  step-sublist :
      (q : SafeQueue A) (c : Call A)
      → Sublist ((step q c).1 ++ (step q c).0.queue) (q.queue ++ pushed_by c)
  step-sublist q c = step_cases q.queue q.running c

  -- The values handed out, followed by those still held, are a subsequence of those held at first,
  -- followed by those pushed.
  pub run-sublist :
      (q : SafeQueue A) (cs : List (Call A))
      → Sublist ((run q cs).1 ++ (run q cs).0.queue) (q.queue ++ pushed cs)
  unfolding run
  run-sublist q [] = rw append-nil (Sublist.refl q.queue)
  run-sublist q (c ∷ cs) =
      rw (append_assoc (step q c).1 (run (step q c).0 cs).1 (run (step q c).0 cs).0.queue) (
        Sublist.trans (Sublist.append (Sublist.refl (step q c).1) (run-sublist (step q c).0 cs)) (
          rw
            (
              ← append_assoc (step q c).1 (step q c).0.queue (pushed cs),
              ← append_assoc q.queue (pushed_by c) (pushed cs),
            )
            (Sublist.append (step-sublist q c) (Sublist.refl (pushed cs)))))
