-- ===== src/Heap.antt =====
-- Who owns the packets. A packet is an object made by `new`; source/IOHandler.cpp and
-- source/NodeManagament.cpp pass pointers to it through two queues, and the thread that takes one
-- deletes it. Here a packet is its address alone: what is in it, and what is done with it while it is
-- alive, is in the other parts. An access to an object that is not alive, and a second `delete`, are
-- faults.
pub mod Counting
pub mod Owners
mod Examples
use node_management.Common.{
  ℕ, ◌+◌, Bool, true, false, not, List, [], ◌∷◌, Option, none, some, ◌>>=◌, ◌==◌, if◌then◌else◌,
}
use node_management.SafeQueue
use node_management.SafeQueue.{
  SafeQueue, waits, failed, unchanged, popped, wait_and_pop, push, new_queue,
}

-- The local pointer of the thread that reads a queue, if the thread is there.
pub data Local : Type 0 where
  no_thread null : Local
  holds : ℕ → Local

-- A queue of pointers with the thread that reads it: `g_receivedIOQueue` with `handleReceivedData`,
-- and `g_sendIOQueue` with `handleTxThread`.
pub record Lane : Type 0 where
  pub queue : SafeQueue ℕ
  pub pointer : Local

pub data Side : Type 0 where
  received sent : Side

-- The next address, the objects that are alive, and the two lanes.
pub record Store : Type 0 where
  pub next : ℕ
  pub live : List ℕ
  pub received_io : Lane
  pub send_io : Lane

abbrev pub new_lane : Lane
new_lane = record { queue = new_queue; pointer = no_thread }

abbrev pub new_store : Store
new_store = record { next = 0; live = []; received_io = new_lane; send_io = new_lane }

abbrev pub lane : Side → Store → Lane
lane received s = s.received_io
lane sent s = s.send_io

abbrev pub with_lane : Side → Lane → Store → Store
with_lane received l s = record s { received_io = l }
with_lane sent l s = record s { send_io = l }

-- `delete`.
unfoldable pub delete : ℕ → List ℕ → Option (List ℕ)
delete p [] = none
delete p (x ∷ xs) =
    let rest = delete p xs in if x == p then some xs else (rest >>= λ ys. some (x ∷ ys))

-- `new`, and the pointer to it pushed: `pushMessageReceived`, `checkPingMessage` and each turn of the
-- loop of `checkNotifyMessage`.
unfoldable pub push_new : Side → Store → Store
push_new side s =
    with_lane side (record (lane side s) { queue = push (lane side s).queue s.next true })
      (record s { next = s.next + 1; live = s.next ∷ s.live })

-- The thread starts, with `Packet* packet = new Packet()`. It is started only when it is not there.
abbrev pub begun : Side → Local → Store → Store
begun side no_thread s =
    with_lane side (record (lane side s) { pointer = holds s.next })
      (record s { next = s.next + 1; live = s.next ∷ s.live })
begun side null s = s
begun side (holds p) s = s

unfoldable pub begin_thread : Side → Store → Store
begin_thread side s = begun side (lane side s).pointer s

-- The loop behind `waitAndPop`: a thread that is to stop deletes what it has and ends; else it handles
-- the packet, which it reads, and deletes it.
unfoldable pub behind_wait : Bool → Side → Local → SafeQueue ℕ → Store → Option Store
behind_wait running side no_thread q s = some s
behind_wait running side null q s =
    some (with_lane side (record { queue = q; pointer = if running then null else no_thread }) s)
behind_wait running side (holds p) q s = do
  live ← delete p s.live
  some (
      with_lane side (record { queue = q; pointer = if running then null else no_thread })
        (record s { live = live }))

-- The loop from `waitAndPop` on, which overwrites the local pointer; `running` is `m_running` of the
-- class of the thread.
unfoldable pub from_wait : Bool → Side → Local → Store → Option Store
from_wait running side l s = elim (wait_and_pop (lane side s).queue) [
  | waits ↦ some s
  | failed ↦ behind_wait running side l (lane side s).queue s
  | unchanged ↦ behind_wait running side l (lane side s).queue s
  | popped p rest ↦ behind_wait running side (holds p) rest s
]

-- A turn of the thread, if it is there.
abbrev pub turned : Bool → Side → Local → Store → Option Store
turned running side no_thread s = some s
turned running side null s = from_wait running side null s
turned running side (holds p) s = from_wait running side (holds p) s

unfoldable pub turn : Bool → Side → Store → Option Store
turn running side s = turned running side (lane side s).pointer s

abbrev pub stop_queue : Side → Store → Store
stop_queue side s =
    with_lane side (record (lane side s) { queue = SafeQueue.stop (lane side s).queue }) s

abbrev pub start_queue : Side → Store → Store
start_queue side s =
    with_lane side (record (lane side s) { queue = SafeQueue.start (lane side s).queue }) s

pub data Event : Type 0 where
  pushes begins stops starts : Side → Event
  turns : Bool → Side → Event

unfoldable pub apply : Event → Store → Option Store
apply (pushes side) s = some (push_new side s)
apply (begins side) s = some (begin_thread side s)
apply (stops side) s = some (stop_queue side s)
apply (starts side) s = some (start_queue side s)
apply (turns running side) s = turn running side s

unfoldable pub apply_all : List Event → Store → Option Store
apply_all [] s = some s
apply_all (e ∷ events) s = apply e s >>= apply_all events
