-- ===== src/SafeQueue/Threads/Minding.antt =====
-- What each step of a thread on `ThreadSafeQueue` of source/Utils.h owes to those that sleep.
use mathlib.Core.Path.{subst}
use node_management.Common.{
  ◌≡◌, refl, sym, ◌∙◌, ap, inl, inr, Bool, true, false, not, ◌||◌, List, [], ◌∷◌, leb,
  if◌then◌else◌, length, drop, arith,
}
use node_management.SafeQueue.{SafeQueue, max_safe_queue, start}
use node_management.SafeQueue.Calls.{Call, pushes, pops, tries, awaits, resets, stops, starts}
use node_management.SafeQueue.Delivery.{wait_and_pop_cases}
use node_management.SafeQueue.Threads.{
  Phase, idle, popping, trying, pushing, asleep, Outcome, passes, test_predicate, enter_call, go_on,
  notified, may_call,
}

module _ {A : Type 0} where
  -- There is nothing to wake up for.
  abbrev pub IsQuiet : SafeQueue A → Type 0
  IsQuiet q = (q.running ≡ true) × (q.queue ≡ [])

  -- A thread that sleeps and has not been notified has nothing to wake up for.
  abbrev pub IsCovered : SafeQueue A → Phase A → Type 0
  IsCovered q idle = Unit
  IsCovered q (pushing x force) = Unit
  IsCovered q popping = Unit
  IsCovered q trying = Unit
  IsCovered q (asleep true) = Unit
  IsCovered q (asleep false) = IsQuiet q

  -- A step leaves the queue quiet for the others, or notifies them.
  pub record Minds (q : SafeQueue A) (o : Outcome A) : Type 0 where
    pub own : IsCovered o.queue o.phase
    pub others : o.notifies ≡ false → IsQuiet q → IsQuiet o.queue

  pub notified-IsCovered : (q : SafeQueue A) (p : Phase A) → IsCovered q (notified p)
  notified-IsCovered q idle = tt
  notified-IsCovered q (pushing x force) = tt
  notified-IsCovered q popping = tt
  notified-IsCovered q trying = tt
  notified-IsCovered q (asleep b) = tt

  pub passes-Minds : (q : SafeQueue A) (p : Phase A) → IsCovered q p → Minds q (passes p q)
  passes-Minds q p h = record { own = h; others = λ e quiet. quiet }

  test_predicate-Minds : (q : SafeQueue A) → Minds q (test_predicate q)
  unfolding test_predicate
  test_predicate-Minds q = elim (wait_and_pop_cases q) [
    | inl (off, e) ↦ rw (e, test_predicate) (passes-Minds q idle tt)
    | inr (inl (on, empty, e)) ↦ rw (e, test_predicate) (passes-Minds q (asleep false) (on, empty))
    | inr (inr (x, rest, on, full, e)) ↦
        rw (e, test_predicate)
          (record { own = tt; others = λ n quiet. absurd (nonempty (sym full ∙ quiet.1)) })
  ]
    where
      nonempty : {x : A} {xs : List A} → x ∷ xs ≡ [] → ⊥
      nonempty h = cc

  returns-Minds :
      (q : SafeQueue A) (b : Bool) (p : Phase A)
      → IsCovered q p
      → Minds q (passes (if b then idle else p) q)
  returns-Minds q true p h = passes-Minds q idle tt
  returns-Minds q false p h = passes-Minds q p h

  enter_call-Minds : (c : Call A) (q : SafeQueue A) → Minds q (enter_call c q)
  unfolding enter_call start
  enter_call-Minds (pushes x force) q = returns-Minds q (not q.running) (pushing x force) tt
  enter_call-Minds pops q = returns-Minds q (not q.running) popping tt
  enter_call-Minds tries q = returns-Minds q (not q.running) trying tt
  enter_call-Minds awaits q = test_predicate-Minds q
  enter_call-Minds resets q = record { own = tt; others = λ e quiet. cc }
  enter_call-Minds stops q = record {
    own = tt;
    others = λ e quiet. absurd (ground (arith, e, quiet.0));
  }
  enter_call-Minds starts q = record {
    own = tt;
    others = λ e quiet. ground (arith, quiet.0, quiet.1);
  }

  trying-Minds :
      (xs : List A) (b : Bool)
      → let q : SafeQueue A = record { queue = xs; running = b } in Minds q (go_on trying q)
  unfolding go_on
  trying-Minds [] b = record { own = tt; others = λ e quiet. quiet }
  trying-Minds (x ∷ xs) b = record { own = tt; others = λ e quiet. cc }

  -- A push on an empty queue notifies.
  push_notifies :
      (xs : List A) (force : Bool) → xs ≡ [] → not (leb max_safe_queue (length xs)) || force ≡ true
  push_notifies xs force e =
      subst (λ ys. not (leb max_safe_queue (length ys)) || force ≡ true) (sym e) refl

  pub go_on-Minds : (p : Phase A) (q : SafeQueue A) → IsCovered q p → Minds q (go_on p q)
  unfolding go_on
  go_on-Minds idle q h = passes-Minds q idle tt
  go_on-Minds (pushing x force) q h = record {
    own = tt;
    others = λ e quiet. absurd (differs (sym (push_notifies q.queue force quiet.1) ∙ e));
  }
    where
      differs : true ≡ false → ⊥
      differs h = cc
  go_on-Minds popping q h = record { own = tt; others = λ e quiet. (quiet.0, ap (drop 1) quiet.1) }
  go_on-Minds trying q h = trying-Minds q.queue q.running
  go_on-Minds (asleep true) q h = test_predicate-Minds q
  go_on-Minds (asleep false) q h = passes-Minds q (asleep false) h

  pub may_call-Minds :
      (c : Call A) (p : Phase A) (q : SafeQueue A) → IsCovered q p → Minds q (may_call c p q)
  may_call-Minds c idle q h = enter_call-Minds c q
  may_call-Minds c (pushing x force) q h = passes-Minds q (pushing x force) h
  may_call-Minds c popping q h = passes-Minds q popping h
  may_call-Minds c trying q h = passes-Minds q trying h
  may_call-Minds c (asleep b) q h = passes-Minds q (asleep b) h
