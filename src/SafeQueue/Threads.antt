-- ===== src/SafeQueue/Threads.antt =====
-- Any number of threads on one `ThreadSafeQueue` of source/Utils.h, below whole calls: the test of
-- `m_running` before the mutex is a step of its own, and a thread in `m_cv.wait` sleeps until it is
-- notified. A thread may also wake up without being notified.
pub mod Minding
pub mod Wakeup
mod Examples
use node_management.Common.{
  ℕ, Bool, true, false, not, ◌||◌, List, [], ◌∷◌, ◌++◌, Option, none, some, leb, if◌then◌else◌,
  length, drop, get_elem?, set, map,
}
use node_management.SafeQueue.{
  SafeQueue, max_safe_queue, WaitResult, waits, failed, unchanged, popped, push_locked, reset_queue,
  wait_and_pop, stop, start,
}
use node_management.SafeQueue.Calls.{Call, pushes, pops, tries, awaits, resets, stops, starts}

-- A thread outside of the queue, between the test of `m_running` and the mutex in `push`, `pop` and
-- `tryPop`, or in `m_cv.wait`, where the flag tells whether it has been notified.
pub data Phase {ℓ} (A : Type ℓ) : Type ℓ where
  idle popping trying : Phase A
  pushing : A → Bool → Phase A
  asleep : Bool → Phase A

-- What a thread does in one step: its next phase, the queue, whether it calls `notify_all`, and the
-- value that its call returns.
pub record Outcome {ℓ} (A : Type ℓ) : Type ℓ where
  pub phase : Phase A
  pub queue : SafeQueue A
  pub notifies : Bool
  pub given : List A

module _ {ℓ} {A : Type ℓ} where
  abbrev pub passes : Phase A → SafeQueue A → Outcome A
  passes phase q = record { phase = phase; queue = q; notifies = false; given = [] }

  -- The predicate of `waitAndPop` is tested, with what follows.
  unfoldable pub test_predicate : SafeQueue A → Outcome A
  test_predicate q = elim (wait_and_pop q) [
    | waits ↦ passes (asleep false) q
    | failed ↦ passes idle q
    | unchanged ↦ passes idle q
    | popped x rest ↦ record { phase = idle; queue = rest; notifies = false; given = x ∷ [] }
  ]

  -- A call, up to the mutex or to its end.
  unfoldable pub enter_call : Call A → SafeQueue A → Outcome A
  enter_call (pushes x force) q = passes (if not q.running then idle else pushing x force) q
  enter_call pops q = passes (if not q.running then idle else popping) q
  enter_call tries q = passes (if not q.running then idle else trying) q
  enter_call awaits q = test_predicate q
  enter_call resets q = record { phase = idle; queue = reset_queue q; notifies = true; given = [] }
  enter_call stops q = record { phase = idle; queue = stop q; notifies = q.running; given = [] }
  enter_call starts q = record {
    phase = idle;
    queue = start q;
    notifies = not q.running;
    given = [];
  }

  -- The next step of a call. A full queue that is not forced returns before the notification.
  unfoldable pub go_on : Phase A → SafeQueue A → Outcome A
  go_on idle q = passes idle q
  go_on (pushing x force) q = record {
    phase = idle;
    queue = push_locked q x force;
    notifies = not (leb max_safe_queue (length q.queue)) || force;
    given = [];
  }
  go_on popping q = passes idle (record q { queue = drop 1 q.queue })
  go_on trying q = elim q.queue [
    | [] ↦ passes idle q
    | x ∷ xs ↦ record {
      phase = idle;
      queue = record q { queue = xs };
      notifies = false;
      given = x ∷ [];
    }
  ]
  go_on (asleep true) q = test_predicate q
  go_on (asleep false) q = passes (asleep false) q

  -- `notify_all`.
  abbrev pub notified : Phase A → Phase A
  notified idle = idle
  notified (pushing x force) = pushing x force
  notified popping = popping
  notified trying = trying
  notified (asleep b) = asleep true

-- The queue, the threads, and all values that calls have returned, oldest first.
pub record Threads {ℓ} (A : Type ℓ) : Type ℓ where
  pub queue : SafeQueue A
  pub phases : List (Phase A)
  pub given : List A

-- Thread number `i` calls, goes on, or wakes up unasked.
pub data Action {ℓ} (A : Type ℓ) : Type ℓ where
  calls : ℕ → Call A → Action A
  proceeds stirs : ℕ → Action A

module _ {ℓ} {A : Type ℓ} where
  abbrev pub settle : ℕ → Outcome A → Threads A → Threads A
  settle i o s =
      let phases = set s.phases i o.phase in
      record {
        queue = o.queue;
        phases = if o.notifies then map notified phases else phases;
        given = s.given ++ o.given;
      }

  abbrev pub may_call : Call A → Phase A → SafeQueue A → Outcome A
  may_call c idle q = enter_call c q
  may_call c (pushing x force) q = passes (pushing x force) q
  may_call c popping q = passes popping q
  may_call c trying q = passes trying q
  may_call c (asleep b) q = passes (asleep b) q

  abbrev pub stirred : Phase A → SafeQueue A → Outcome A
  stirred phase q = passes (notified phase) q

  abbrev pub thread_step : ℕ → (Phase A → SafeQueue A → Outcome A) → Threads A → Threads A
  thread_step i f s = elim (get_elem? s.phases i) [
    | none ↦ s
    | some phase ↦ settle i (f phase s.queue) s
  ]

  unfoldable pub take_step : Action A → Threads A → Threads A
  take_step (calls i c) s = thread_step i (may_call c) s
  take_step (proceeds i) s = thread_step i go_on s
  take_step (stirs i) s = thread_step i stirred s

  unfoldable pub take_steps : List (Action A) → Threads A → Threads A
  take_steps [] s = s
  take_steps (a ∷ actions) s = take_steps actions (take_step a s)
