-- ===== src/Heap/Owners.antt =====
-- No packet is deleted twice or read after it was deleted, and no two pointers are to one packet.
use mathlib.Core.Path.{subst}
use node_management.Common.{
  ℕ, ◌+◌, ◌≤◌, ◌≡◌, refl, sym, ap, inl, inr, Bool, true, false, List, [], ◌∷◌, Option, none, some,
  ◌>>=◌, arith, if◌then◌else◌,
}
use node_management.SafeQueue.{SafeQueue}
use node_management.SafeQueue.Contents.{start-queue, stop-queue}
use node_management.SafeQueue.Delivery.{wait_and_pop_cases}
use node_management.Heap.{
  Local, no_thread, null, holds, Lane, Side, received, sent, Store, new_store, lane, with_lane,
  push_new, begin_thread, begun, behind_wait, from_wait, turned, turn, Event, pushes, begins, stops,
  starts, turns, apply, apply_all,
}
use node_management.Heap.Counting.{one, count, delete_cases, count-push}

-- How many pointers to the object a thread and a queue have.
abbrev pub local_held : ℕ → Local → ℕ
local_held p no_thread = 0
local_held p null = 0
local_held p (holds x) = one x p

abbrev pub lane_held : ℕ → Lane → ℕ
lane_held p l = count p l.queue.queue + local_held p l.pointer

abbrev pub other : Side → Store → Lane
other received s = s.send_io
other sent s = s.received_io

-- No more pointers to an object than there are such objects alive, and never two objects at one
-- address.
pub record IsOwned (s : Store) : Type 0 where
  pub owned : (p : ℕ) → lane_held p s.received_io + lane_held p s.send_io ≤ count p s.live
  pub fresh : (p : ℕ) → s.next ≤ p → count p s.live ≡ 0
  pub single : (p : ℕ) → count p s.live ≤ 1

owned_at :
    (side : Side) (s : Store)
    → IsOwned s
    → (p : ℕ) → lane_held p (lane side s) + lane_held p (other side s) ≤ count p s.live
owned_at received s v p = v.owned p
owned_at sent s v p = omega (arith, v.owned p)

own :
    (side : Side) (l : Lane) (s : Store)
    → ((p : ℕ) → lane_held p l + lane_held p (other side s) ≤ count p s.live)
    → ((p : ℕ) → s.next ≤ p → count p s.live ≡ 0)
    → ((p : ℕ) → count p s.live ≤ 1)
    → IsOwned (with_lane side l s)
own received l s o f u = record { owned = o; fresh = f; single = u }
own sent l s o f u = record { owned = λ p. omega (arith, o p); fresh = f; single = u }

-- The store with one object more.
abbrev with_new : Store → Store
with_new s = record s { next = s.next + 1; live = s.next ∷ s.live }

with_new-fresh : (s : Store) → IsOwned s → (p : ℕ) → s.next + 1 ≤ p → count p (with_new s).live ≡ 0
with_new-fresh s v p l = ground (arith, v.fresh p (omega arith))

with_new-single : (s : Store) → IsOwned s → (p : ℕ) → count p (with_new s).live ≤ 1
with_new-single s v p = ground (arith, v.single p, v.fresh s.next (omega arith))

other_new : (side : Side) (s : Store) → other side (with_new s) ≡ other side s
other_new received s = refl
other_new sent s = refl

-- A lane with at most one pointer more, to the new object.
own_new :
    (side : Side) (l : Lane) (s : Store)
    → IsOwned s
    → ((p : ℕ) → lane_held p l ≤ lane_held p (lane side s) + one s.next p)
    → IsOwned (with_lane side l (with_new s))
own_new side l s v more =
    own side l (with_new s)
      (λ p.
        subst (λ o. lane_held p l + lane_held p o ≤ count p (with_new s).live)
          (sym (other_new side s)) (omega (arith, more p, owned_at side s v p)))
      (with_new-fresh s v) (with_new-single s v)

push_new-IsOwned : (side : Side) (s : Store) → IsOwned s → IsOwned (push_new side s)
unfolding push_new
push_new-IsOwned side s v =
    own_new side _ s v (λ p. omega (arith, count-push p s.next (lane side s).queue))

begin_thread-IsOwned : (side : Side) (s : Store) → IsOwned s → IsOwned (begin_thread side s)
unfolding begin_thread
begin_thread-IsOwned side s v = go (lane side s).pointer refl
  where
    go : (l : Local) → (lane side s).pointer ≡ l → IsOwned (begun side l s)
    go no_thread e = own_new side _ s v (λ p.
        subst
          (λ l.
            count p (lane side s).queue.queue + one s.next p
            ≤ count p (lane side s).queue.queue + local_held p l + one s.next p)
          (sym e) (omega arith))
    go null e = v
    go (holds p) e = v

-- The call returns, with the objects owned.
abbrev pub Returns : Option Store → Type 0
Returns none = ⊥
Returns (some s) = IsOwned s

ended_held : (b : Bool) (p : ℕ) → local_held p (if b then null else no_thread) ≡ 0
ended_held true p = refl
ended_held false p = refl

other_live :
    (side : Side) (s : Store) (xs : List ℕ) → other side (record s { live = xs }) ≡ other side s
other_live received s xs = refl
other_live sent s xs = refl

-- The object of the local pointer is deleted.
deleted-IsOwned :
    (running : Bool) (side : Side) (x : ℕ) (q : SafeQueue ℕ) (s : Store) (rest : List ℕ)
    → IsOwned s
    → ((p : ℕ) → count p q.queue + one x p + lane_held p (other side s) ≤ count p s.live)
    → ((p : ℕ) → count p rest + one x p ≡ count p s.live)
    → IsOwned (
        with_lane side
          (record { queue = q; pointer = if running then null else no_thread })
          (record s { live = rest }))
deleted-IsOwned running side x q s rest v h c =
    own side _ (record s { live = rest })
      (λ p.
        subst
          (λ o.
            count p q.queue + local_held p (if running then null else no_thread) + lane_held p o
            ≤ count p rest)
          (sym (other_live side s rest)) (omega (arith, h p, c p, ended_held running p)))
      (λ p l. omega (arith, c p, v.fresh p l)) (λ p. omega (arith, c p, v.single p))

behind_wait-Returns :
    (running : Bool) (side : Side) (l : Local) (q : SafeQueue ℕ) (s : Store)
    → IsOwned s
    → ((p : ℕ) → count p q.queue + local_held p l + lane_held p (other side s) ≤ count p s.live)
    → Returns (behind_wait running side l q s)
unfolding behind_wait
behind_wait-Returns running side no_thread q s v h = v
behind_wait-Returns running side null q s v h =
    own side _ s (λ p. omega (arith, h p, ended_held running p)) v.fresh v.single
behind_wait-Returns running side (holds x) q s v h =
    let (rest, e, c) = delete_cases x s.live (ground (arith, h x)) in
    subst
      (λ r. Returns (
        r >>= (λ live. some (
          with_lane side (record { queue = q; pointer = if running then null else no_thread })
            (record s { live = live })))))
      (sym e) (deleted-IsOwned running side x q s rest v h c)

from_wait-Returns :
    (running : Bool) (side : Side) (l : Local) (s : Store)
    → (lane side s).pointer ≡ l
    → IsOwned s
    → Returns (from_wait running side l s)
unfolding from_wait
from_wait-Returns running side l s at v = elim (wait_and_pop_cases (lane side s).queue) [
  | inl (off, e) ↦
      rw (e, from_wait) (behind_wait-Returns running side l (lane side s).queue s v held)
  | inr (inl (on, empty, e)) ↦ rw (e, from_wait) v
  | inr (inr (x, rest, on, full, e)) ↦
      rw (e, from_wait)
        (behind_wait-Returns running side (holds x) (record { queue = rest; running = true }) s v
          (taken x rest full))
]
  where
    held :
        (p : ℕ)
        → count p (lane side s).queue.queue + local_held p l + lane_held p (other side s)
          ≤ count p s.live
    held p =
        subst
          (λ j.
            count p (lane side s).queue.queue + local_held p j + lane_held p (other side s)
            ≤ count p s.live)
          at (owned_at side s v p)

    taken :
        (x : ℕ) (rest : List ℕ)
        → (lane side s).queue.queue ≡ x ∷ rest
        → (p : ℕ) → count p rest + one x p + lane_held p (other side s) ≤ count p s.live
    taken x rest full p = omega (arith, owned_at side s v p, ap (count p) full)

turn-Returns :
    (running : Bool) (side : Side) (s : Store) → IsOwned s → Returns (turn running side s)
unfolding turn
turn-Returns running side s v = go (lane side s).pointer refl
  where
    go : (l : Local) → (lane side s).pointer ≡ l → Returns (turned running side l s)
    go no_thread e = v
    go null e = from_wait-Returns running side null s e v
    go (holds p) e = from_wait-Returns running side (holds p) s e v

requeued-IsOwned :
    (side : Side) (q : SafeQueue ℕ) (s : Store)
    → q.queue ≡ (lane side s).queue.queue
    → IsOwned s
    → IsOwned (with_lane side (record (lane side s) { queue = q }) s)
requeued-IsOwned side q s same v =
    own side _ s (λ p. omega (arith, owned_at side s v p, ap (count p) same)) v.fresh v.single

apply-Returns : (e : Event) (s : Store) → IsOwned s → Returns (apply e s)
unfolding apply
apply-Returns (pushes side) s v = push_new-IsOwned side s v
apply-Returns (begins side) s v = begin_thread-IsOwned side s v
apply-Returns (stops side) s v = requeued-IsOwned side _ s (stop-queue (lane side s).queue) v
apply-Returns (starts side) s v = requeued-IsOwned side _ s (start-queue (lane side s).queue) v
apply-Returns (turns running side) s v = turn-Returns running side s v

apply_all-Returns : (events : List Event) (s : Store) → IsOwned s → Returns (apply_all events s)
unfolding apply_all
apply_all-Returns [] s v = v
apply_all-Returns (e ∷ events) s v =
    elim (apply e s) as (λ r. Returns r → Returns (r >>= apply_all events)) [
      | none ↦ λ h. absurd h
      | some t ↦ λ h. apply_all-Returns events t h
    ]
      (apply-Returns e s v)

-- In every history of packets made and pushed, of the two threads, in any number of lives each, and of
-- stops and starts of the two queues, no packet is deleted twice or read when it is not alive; and at
-- its end each pointer in the queues and in the threads is the only one to an object that is alive.
pub no_double_delete : (events : List Event) → Returns (apply_all events new_store)
no_double_delete events =
    apply_all-Returns events new_store
      (record { owned = λ p. omega arith; fresh = λ p l. refl; single = λ p. omega arith })
