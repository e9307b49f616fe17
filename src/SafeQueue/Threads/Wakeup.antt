-- ===== src/SafeQueue/Threads/Wakeup.antt =====
-- No wake-up of `ThreadSafeQueue` of source/Utils.h is lost.
use mathlib.Core.Path.{subst}
use mathlib.Core.Option.{some-injective}
use node_management.Common.{
  ℕ, zero, suc, ◌≡◌, ◌≢◌, refl, inl, inr, Bool, true, false, List, [], ◌∷◌, some, if◌then◌else◌,
  get_elem?, set, map, replicate, All, Option-cases,
}
use node_management.SafeQueue.{SafeQueue}
use node_management.SafeQueue.Delivery.{wait_and_pop_cases}
use node_management.SafeQueue.Threads.{
  Phase, idle, popping, trying, pushing, asleep, Outcome, test_predicate, go_on, notified, Threads,
  Action, calls, proceeds, stirs, settle, may_call, stirred, thread_step, take_step, take_steps,
}
use node_management.SafeQueue.Threads.Minding.{
  IsQuiet, IsCovered, Minds, notified-IsCovered, passes-Minds, go_on-Minds, may_call-Minds,
}

module _ {A : Type 0} where
  still-IsCovered :
      (q r : SafeQueue A) (p : Phase A) → (IsQuiet q → IsQuiet r) → IsCovered q p → IsCovered r p
  still-IsCovered q r idle f h = tt
  still-IsCovered q r (pushing x force) f h = tt
  still-IsCovered q r popping f h = tt
  still-IsCovered q r trying f h = tt
  still-IsCovered q r (asleep true) f h = tt
  still-IsCovered q r (asleep false) f h = f h

  All-notified : (q : SafeQueue A) (ps : List (Phase A)) → All (IsCovered q) (map notified ps)
  All-notified q [] = tt
  All-notified q (p ∷ ps) = (notified-IsCovered q p, All-notified q ps)

  All-still :
      (q r : SafeQueue A) (ps : List (Phase A))
      → (IsQuiet q → IsQuiet r)
      → All (IsCovered q) ps
      → All (IsCovered r) ps
  All-still q r [] f h = tt
  All-still q r (p ∷ ps) f h = (still-IsCovered q r p f h.0, All-still q r ps f h.1)

  All-set :
      (r : SafeQueue A) (ps : List (Phase A)) (i : ℕ) (p : Phase A)
      → All (IsCovered r) ps
      → IsCovered r p
      → All (IsCovered r) (set ps i p)
  All-set r [] i p h c = tt
  All-set r (x ∷ ps) zero p h c = (c, h.1)
  All-set r (x ∷ ps) (suc i) p h c = (h.0, All-set r ps i p h.1 c)

  All-get :
      (q : SafeQueue A) (ps : List (Phase A)) (i : ℕ) (p : Phase A)
      → All (IsCovered q) ps
      → get_elem? ps i ≡ some p
      → IsCovered q p
  All-get q [] i p h g = cc
  All-get q (x ∷ ps) zero p h g = subst (IsCovered q) (some-injective x p g) h.0
  All-get q (x ∷ ps) (suc i) p h g = All-get q ps i p h.1 g

  abbrev AllCovered : Threads A → Type 0
  AllCovered s = All (IsCovered s.queue) s.phases

  settle-AllCovered :
      (i : ℕ) (o : Outcome A) (s : Threads A)
      → Minds s.queue o
      → AllCovered s
      → AllCovered (settle i o s)
  settle-AllCovered i o s m h =
      elim o.notifies
          as (λ b.
            (o.notifies ≡ b)
            → All (IsCovered o.queue)
                (if b then map notified (set s.phases i o.phase) else set s.phases i o.phase)) [
                  | true ↦ λ e. All-notified o.queue (set s.phases i o.phase)
                  | false ↦ λ e.
                      All-set o.queue s.phases i o.phase
                        (All-still s.queue o.queue s.phases (m.others e) h) m.own
                ]
        refl

  thread_step-AllCovered :
      (i : ℕ) (f : Phase A → SafeQueue A → Outcome A) (s : Threads A)
      → ((p : Phase A) → IsCovered s.queue p → Minds s.queue (f p s.queue))
      → AllCovered s
      → AllCovered (thread_step i f s)
  thread_step-AllCovered i f s m h = elim (Option-cases (get_elem? s.phases i)) [
    | inl e ↦ rw (e, thread_step) h
    | inr (p, e) ↦
        rw (e, thread_step)
          (settle-AllCovered i (f p s.queue) s (m p (All-get s.queue s.phases i p h e)) h)
  ]

  take_step-AllCovered : (a : Action A) (s : Threads A) → AllCovered s → AllCovered (take_step a s)
  unfolding take_step
  take_step-AllCovered (calls i c) s h =
      thread_step-AllCovered i (may_call c) s (λ p. may_call-Minds c p s.queue) h
  take_step-AllCovered (proceeds i) s h =
      thread_step-AllCovered i go_on s (λ p. go_on-Minds p s.queue) h
  take_step-AllCovered (stirs i) s h =
      thread_step-AllCovered i stirred s
        (λ p c. passes-Minds s.queue (notified p) (notified-IsCovered s.queue p)) h

  take_steps-AllCovered :
      (actions : List (Action A)) (s : Threads A) → AllCovered s → AllCovered (take_steps actions s)
  unfolding take_steps
  take_steps-AllCovered [] s h = h
  take_steps-AllCovered (a ∷ actions) s h =
      take_steps-AllCovered actions (take_step a s) (take_step-AllCovered a s h)

  idle-AllCovered : (q : SafeQueue A) (n : ℕ) → All (IsCovered q) (replicate n idle)
  idle-AllCovered q zero = tt
  idle-AllCovered q (suc n) = (tt, idle-AllCovered q n)

  get_elem?-set :
      (xs : List (Phase A)) (i : ℕ) (x y : Phase A)
      → get_elem? xs i ≡ some x
      → get_elem? (set xs i y) i ≡ some y
  get_elem?-set [] i x y g = cc
  get_elem?-set (z ∷ xs) zero x y g = refl
  get_elem?-set (z ∷ xs) (suc i) x y g = get_elem?-set xs i x y g

  -- Where the predicate of the wait holds, the wait ends.
  test_ends :
      (q : SafeQueue A)
      → (q.running ≡ true → q.queue ≢ [])
      → ((test_predicate q).phase ≡ idle) × ((test_predicate q).notifies ≡ false)
  unfolding test_predicate
  test_ends q holds = elim (wait_and_pop_cases q) [
    | inl (off, e) ↦ rw (e, test_predicate) (refl, refl)
    | inr (inl (on, empty, e)) ↦ absurd (holds on empty)
    | inr (inr (x, rest, on, full, e)) ↦ rw (e, test_predicate) (refl, refl)
  ]

  covered-awake :
      (q : SafeQueue A) (b : Bool)
      → (q.running ≡ true → q.queue ≢ [])
      → IsCovered q (asleep b)
      → b ≡ true
  covered-awake q true holds h = refl
  covered-awake q false holds h = absurd (holds h.0 h.1)

  woken :
      (s : Threads A) (i : ℕ)
      → get_elem? s.phases i ≡ some (asleep true)
      → (s.queue.running ≡ true → s.queue.queue ≢ [])
      → get_elem? (take_step (proceeds i) s).phases i ≡ some idle
  unfolding take_step go_on
  woken s i g holds =
      let t = test_ends s.queue holds in
      rw (g, thread_step, t.0, t.1) (get_elem?-set s.phases i (asleep true) idle g)

-- Any number of threads, none of them in a call.
abbrev pub fresh_threads : {A : Type 0} → SafeQueue A → ℕ → Threads A
fresh_threads q n = record { queue = q; phases = replicate n idle; given = [] }

-- However the steps of any number of threads on a queue interleave: when a thread sleeps in
-- `waitAndPop` and the queue is stopped or has an element, the thread has been notified, and its next
-- step ends its call.
pub no_lost_wakeup :
    {A : Type 0} (q : SafeQueue A) (n : ℕ) (actions : List (Action A)) (i : ℕ) (b : Bool)
    → get_elem? (take_steps actions (fresh_threads q n)).phases i ≡ some (asleep b)
    → ((take_steps actions (fresh_threads q n)).queue.running ≡ true
        → (take_steps actions (fresh_threads q n)).queue.queue ≢ [])
    → (b ≡ true)
      × (get_elem? (take_step (proceeds i) (take_steps actions (fresh_threads q n))).phases i
          ≡ some idle)
no_lost_wakeup {A} q n actions i b g holds =
    (awake, woken s i (subst (λ c. get_elem? s.phases i ≡ some (asleep c)) awake g) holds)
  where
    s : Threads A
    s = take_steps actions (fresh_threads q n)

    awake : b ≡ true
    awake = covered-awake s.queue b holds (
        All-get s.queue s.phases i (asleep b)
          (take_steps-AllCovered actions (fresh_threads q n) (idle-AllCovered q n)) g)
