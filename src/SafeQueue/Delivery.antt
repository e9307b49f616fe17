-- ===== src/SafeQueue/Delivery.antt =====
-- When a queue loses nothing, and what a consumer of a queue gets.
use mathlib.Core.List.{append_assoc, append-nil}
use node_management.Common.{
  ◌+◌, ◌≤◌, ◌≡◌, sym, ◌⊎◌, refl, Bool, true, false, List, [], ◌∷◌, ◌++◌, arith, leb, length,
  length-append, inl, inr, ap,
}
use node_management.SafeQueue.{
  SafeQueue, max_safe_queue, push, try_pop, wait_and_pop, waits, failed, popped,
}
use node_management.SafeQueue.Calls.{
  Call, pushes, pops, tries, awaits, resets, stops, starts, step, run, pushed_by, pushed,
}

module _ {ℓ} {A : Type ℓ} where
  wait_fields :
      (xs : List A) (b : Bool)
      → let q : SafeQueue A = record { queue = xs; running = b } in
        ((b ≡ false) × (wait_and_pop q ≡ failed))
        ⊎ ((b ≡ true) × (xs ≡ []) × (wait_and_pop q ≡ waits))
        ⊎ ((x : A) × (rest : List A) × (b ≡ true)
            × (xs ≡ x ∷ rest)
            × (wait_and_pop q ≡ popped x (record { queue = rest; running = true })))
  unfolding wait_and_pop
  wait_fields xs false = inl (refl, refl)
  wait_fields [] true = inr (inl (refl, refl, refl))
  wait_fields (x ∷ xs) true = inr (inr (x, xs, refl, refl, refl))

  -- `waitAndPop` fails on a stopped queue, sleeps on a running queue that is empty, and on any other
  -- takes the oldest element and keeps the rest; it never returns 0 without a value.
  pub wait_and_pop_cases :
      (q : SafeQueue A)
      → ((q.running ≡ false) × (wait_and_pop q ≡ failed))
        ⊎ ((q.running ≡ true) × (q.queue ≡ []) × (wait_and_pop q ≡ waits))
        ⊎ ((x : A) × (rest : List A) × (q.running ≡ true)
            × (q.queue ≡ x ∷ rest)
            × (wait_and_pop q ≡ popped x (record { queue = rest; running = true })))
  wait_and_pop_cases q = wait_fields q.queue q.running

  -- The calls of a producer and of consumers that keep what they take.
  abbrev pub IsTransfer : Call A → Type 0
  IsTransfer (pushes x force) = Unit
  IsTransfer pops = ⊥
  IsTransfer tries = Unit
  IsTransfer awaits = Unit
  IsTransfer resets = ⊥
  IsTransfer stops = ⊥
  IsTransfer starts = ⊥

  abbrev pub AllTransfer : List (Call A) → Type 0
  AllTransfer [] = Unit
  AllTransfer (c ∷ cs) = IsTransfer c × AllTransfer cs

  step_transfer :
      (xs : List A) (b : Bool) (c : Call A)
      → IsTransfer c
      → b ≡ true
      → length xs + length (pushed_by c) ≤ max_safe_queue
      → let r = step (record { queue = xs; running = b }) c in
        (r.0.running ≡ true) × (r.1 ++ r.0.queue ≡ xs ++ pushed_by c)
  unfolding step push try_pop wait_and_pop
  step_transfer xs false c k on h = cc
  step_transfer xs true (pushes x force) k on h = rw (fits, push) (refl, refl)
    where
      fits : leb max_safe_queue (length xs) ≡ false
      fits = ground arith
  step_transfer xs true pops k on h = absurd k
  step_transfer [] true tries k on h = (refl, refl)
  step_transfer (x ∷ xs) true tries k on h = (refl, rw append-nil)
  step_transfer [] true awaits k on h = (refl, refl)
  step_transfer (x ∷ xs) true awaits k on h = (refl, rw append-nil)
  step_transfer xs true resets k on h = absurd k
  step_transfer xs true stops k on h = absurd k
  step_transfer xs true starts k on h = absurd k

  -- On a running queue with room for all that is pushed, by calls of `push`, `tryPop` and
  -- `waitAndPop`, nothing is lost, doubled or reordered: what is handed out, followed by what is
  -- still held, is what was held, followed by what was pushed.
  pub run_lossless :
      (q : SafeQueue A) (cs : List (Call A))
      → AllTransfer cs
      → q.running ≡ true
      → length q.queue + length (pushed cs) ≤ max_safe_queue
      → (run q cs).1 ++ (run q cs).0.queue ≡ q.queue ++ pushed cs
  unfolding run
  run_lossless q [] k on h = sym (append-nil q.queue)
  run_lossless q (c ∷ cs) k on h =
      let (on', e) =
        step_transfer q.queue q.running c k.0 on
          (omega (arith, length-append (pushed_by c) (pushed cs))) in
      let size : length (step q c).1 + length (step q c).0.queue
          ≡ length q.queue + length (pushed_by c) =
        omega (
          arith,
          ap length e,
          length-append (step q c).1 (step q c).0.queue,
          length-append q.queue (pushed_by c),
        ) in
      rw
        (
          append_assoc (step q c).1 (run (step q c).0 cs).1 (run (step q c).0 cs).0.queue,
          run_lossless (step q c).0 cs k.1 on'
              (omega (arith, length-append (pushed_by c) (pushed cs))),
          ← append_assoc (step q c).1 (step q c).0.queue (pushed cs),
          e,
        )
        (append_assoc q.queue (pushed_by c) (pushed cs))

  -- A consumer that sleeps is woken by a push: the pushed value is what it takes.
  pub wait_and_pop-push :
      (q : SafeQueue A) (x : A) (force : Bool)
      → wait_and_pop q ≡ waits
      → wait_and_pop (push q x force) ≡ popped x q
  unfolding wait_and_pop push
  wait_and_pop-push q x force h = ground arith
