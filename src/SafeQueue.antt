-- ===== src/SafeQueue.antt =====
-- `ThreadSafeQueue` of source/Utils.h. Each method runs under the queue's mutex, so a method is one
-- step; only `push`, `pop` and `tryPop` read `m_running` before they take it. For `push` the two
-- parts are two functions, since another thread may stop the queue between them.
pub mod Calls
pub mod Bounds
pub mod Order
pub mod Delivery
pub mod Contents
pub mod Threads
mod Examples
use node_management.Common.{
  ℕ, ◌≤◌, Bool, true, false, not, ◌||◌, List, [], ◌∷◌, ◌++◌, Option, none, some, leb, if◌then◌else◌,
  length, drop,
}

abbrev pub max_safe_queue : ℕ
max_safe_queue = 100_000

pub record SafeQueue {ℓ} (A : Type ℓ) : Type ℓ where
  pub queue : List A
  pub running : Bool

-- What a call of `waitAndPop` does: it sleeps, or returns -1, or returns 0 with a value, or would
-- return 0 and leave the value as it was.
pub data WaitResult {ℓ} (A : Type ℓ) : Type ℓ where
  waits failed unchanged : WaitResult A
  popped : A → SafeQueue A → WaitResult A

module _ {ℓ} {A : Type ℓ} where
  abbrev pub new_queue : SafeQueue A
  new_queue = record { queue = []; running = true }

  abbrev pub is_empty : List A → Bool
  is_empty [] = true
  is_empty (x ∷ xs) = false

  -- `push` behind its test of `m_running`.
  unfoldable pub push_locked : SafeQueue A → A → Bool → SafeQueue A
  push_locked q value force =
      if leb max_safe_queue (length q.queue)
      then if force then record q { queue = drop 1 q.queue ++ value ∷ [] } else q
      else record q { queue = q.queue ++ value ∷ [] }

  unfoldable pub push : SafeQueue A → A → Bool → SafeQueue A
  unfolding push_locked
  push q value force = if not q.running then q else push_locked q value force

  -- `none` is the result `false`, which leaves the value as it was.
  unfoldable pub peek : SafeQueue A → Option A
  peek q = elim q.queue [ [] ↦ none | x ∷ xs ↦ some x ]

  unfoldable pub pop : SafeQueue A → SafeQueue A × Bool
  pop q =
      if not q.running
      then (q, false)
      else elim q.queue [ [] ↦ (q, false) | x ∷ xs ↦ (record q { queue = xs }, true) ]

  unfoldable pub reset_queue : SafeQueue A → SafeQueue A
  reset_queue q = record q { queue = [] }

  unfoldable pub try_pop : SafeQueue A → SafeQueue A × Option A
  try_pop q =
      if not q.running
      then (q, none)
      else elim q.queue [ [] ↦ (q, none) | x ∷ xs ↦ (record q { queue = xs }, some x) ]

  unfoldable pub get_size : SafeQueue A → ℕ
  get_size q = length q.queue

  unfoldable pub wait_and_pop : SafeQueue A → WaitResult A
  wait_and_pop q =
      if not q.running || not (is_empty q.queue)
      then if not q.running
        then failed
        else elim q.queue [ [] ↦ unchanged | x ∷ xs ↦ popped x (record q { queue = xs }) ]
      else waits

  unfoldable pub stop : SafeQueue A → SafeQueue A
  stop q = if q.running then record q { running = false } else q

  unfoldable pub start : SafeQueue A → SafeQueue A
  start q = if not q.running then record q { running = true } else q
