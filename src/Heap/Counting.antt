-- ===== src/Heap/Counting.antt =====
-- How often an address stands in a list, through `delete` and `push`.
use node_management.Common.{
  ℕ, ◌+◌, ◌≤◌, ◌≡◌, inl, inr, Bool, true, false, not, List, [], ◌∷◌, ◌++◌, some, ◌==◌, arith,
  if◌then◌else◌, leb, drop, length, Bool-cases,
}
use node_management.SafeQueue.{SafeQueue, push, max_safe_queue}
use node_management.Heap.{delete}

abbrev pub one : ℕ → ℕ → ℕ
one x p = if x == p then 1 else 0

abbrev pub count : ℕ → List ℕ → ℕ
count p [] = 0
count p (x ∷ xs) = one x p + count p xs

-- An object that is alive can be deleted, once.
pub delete_cases :
    (p : ℕ) (xs : List ℕ)
    → 1 ≤ count p xs
    → (rest : List ℕ) × (delete p xs ≡ some rest) × ((q : ℕ) → count q rest + one p q ≡ count q xs)
unfolding delete
delete_cases p [] h = absurd (omega arith)
delete_cases p (x ∷ xs) h = elim (Bool-cases (x == p)) [
  | inl here ↦ (xs, ground (arith, here), λ q. ground (arith, here))
  | inr there ↦
      let (rest, e, c) = delete_cases p xs (ground (arith, there, h)) in
      (x ∷ rest, ground (arith, there, e), λ q. ground (arith, c q))
]

count-snoc : (p x : ℕ) (xs : List ℕ) → count p (xs ++ x ∷ []) ≡ count p xs + one x p
count-snoc p x [] = omega arith
count-snoc p x (y ∷ xs) = omega (arith, count-snoc p x xs)

count-tail : (p : ℕ) (xs : List ℕ) → count p (drop 1 xs) ≤ count p xs
count-tail p [] = omega arith
count-tail p (x ∷ xs) = omega arith

pub count-push :
    (p x : ℕ) (q : SafeQueue ℕ) → count p (push q x true).queue ≤ count p q.queue + one x p
unfolding push
count-push p x q = by_tests q.running (leb max_safe_queue (length q.queue))
  where
    by_tests :
        (running full : Bool)
        → count p
            (if not running
              then q
              else if full
              then if true then record q { queue = drop 1 q.queue ++ x ∷ [] } else q
              else record q { queue = q.queue ++ x ∷ [] }).queue
          ≤ count p q.queue + one x p
    by_tests false full = omega arith
    by_tests true true = omega (arith, count-snoc p x (drop 1 q.queue), count-tail p q.queue)
    by_tests true false = omega (arith, count-snoc p x q.queue)
