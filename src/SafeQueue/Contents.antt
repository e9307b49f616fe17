-- ===== src/SafeQueue/Contents.antt =====
-- What holds of all elements of a `ThreadSafeQueue` of source/Utils.h, through `push`, `start` and
-- `stop`.
use node_management.Common.{
  ◌≡◌, arith, Bool, true, false, not, List, [], ◌∷◌, ◌++◌, leb, if◌then◌else◌, All, length, drop,
}
use node_management.SafeQueue.{SafeQueue, max_safe_queue, push, start, stop}

module _ {A : Type 0} (P : A → Type 0) where
  pub tail-All : (xs : List A) → All P xs → All P (drop 1 xs)
  tail-All [] h = tt
  tail-All (x ∷ xs) h = h.1

  pub snoc-All : (xs : List A) (x : A) → All P xs → P x → All P (xs ++ x ∷ [])
  snoc-All [] x h p = (p, tt)
  snoc-All (y ∷ xs) x h p = (h.0, snoc-All xs x h.1 p)

  pub push-All :
      (q : SafeQueue A) (x : A) (force : Bool) → All P q.queue → P x → All P (push q x force).queue
  unfolding push
  push-All q x force h p = by_tests q.running (leb max_safe_queue (length q.queue)) force
    where
      by_tests :
          (running full force : Bool)
          → All P
              (if not running
                then q
                else if full
                then if force then record q { queue = drop 1 q.queue ++ x ∷ [] } else q
                else record q { queue = q.queue ++ x ∷ [] }).queue
      by_tests false full force = h
      by_tests true true true = snoc-All (drop 1 q.queue) x (tail-All q.queue h) p
      by_tests true true false = h
      by_tests true false force = snoc-All q.queue x h p

pub push-running :
    {A : Type 0} (q : SafeQueue A) (x : A) (force : Bool) → (push q x force).running ≡ q.running
unfolding push
push-running q x force = ground arith

-- Stopping and starting leave the elements alone.
module _ {ℓ} {A : Type ℓ} (q : SafeQueue A) where
  pub start-running : (start q).running ≡ true
  unfolding start
  start-running = ground arith

  pub start-queue : (start q).queue ≡ q.queue
  unfolding start
  start-queue = ground arith

  pub stop-queue : (stop q).queue ≡ q.queue
  unfolding stop
  stop-queue = ground arith
