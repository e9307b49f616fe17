-- ===== src/Manager/History.antt =====
-- The history of the manager: the turns of its two threads, its `start` and `stop`, the threads of
-- the nodes, and all other users of the queues, interleaved in any order.
use mathlib.Core.Path.{subst}
use node_management.Common.{
  ℕ, ◌≡◌, Bool, true, false, not, List, [], ◌∷◌, Option, if◌then◌else◌, arith, All,
}
use node_management.Types.{MessageState}
use node_management.Packet.{AnyPacket}
use node_management.SafeQueue.{SafeQueue}
use node_management.Node.{NodeBase, get_port_info}
use node_management.Node.Life.{SameNode}
use node_management.Manager.{
  Manager, new_manager, goes_on, handle_send_data, handle_received_data, start, stop,
}
use node_management.Manager.Registry.{IsRegistry, IsFree, DistinctPorts, IsNumbered, IsClass}
use node_management.Manager.Invariant.{AfterTurn}
use node_management.Manager.Turns.{handle_send_data-IsRegistry, handle_received_data-IsRegistry}

-- The same nodes, whatever their states and flags are.
abbrev pub SameNodes : List NodeBase → List NodeBase → Type 0
SameNodes [] [] = Unit
SameNodes [] (b ∷ after) = ⊥
SameNodes (a ∷ nodes) [] = ⊥
SameNodes (a ∷ nodes) (b ∷ after) = SameNode a b × SameNodes nodes after

IsFree-SameNodes :
    (port : ℕ) (nodes after : List NodeBase)
    → SameNodes nodes after
    → IsFree port nodes
    → IsFree port after
IsFree-SameNodes port [] [] s h = tt
IsFree-SameNodes port [] (b ∷ after) s h = absurd s
IsFree-SameNodes port (a ∷ nodes) [] s h = absurd s
IsFree-SameNodes port (a ∷ nodes) (b ∷ after) s h =
    (λ e. h.0 (ground (arith, s.0.same_addr)), IsFree-SameNodes port nodes after s.1 h.1)

DistinctPorts-SameNodes :
    (nodes after : List NodeBase)
    → SameNodes nodes after
    → DistinctPorts nodes
    → DistinctPorts after
DistinctPorts-SameNodes [] [] s h = tt
DistinctPorts-SameNodes [] (b ∷ after) s h = absurd s
DistinctPorts-SameNodes (a ∷ nodes) [] s h = absurd s
DistinctPorts-SameNodes (a ∷ nodes) (b ∷ after) s h = (
  rw s.0.same_addr (IsFree-SameNodes (get_port_info a) nodes after s.1 h.0),
  DistinctPorts-SameNodes nodes after s.1 h.1,
)

IsNumbered-SameNodes :
    (low high : ℕ) (nodes after : List NodeBase)
    → SameNodes nodes after
    → IsNumbered low high nodes
    → IsNumbered low high after
IsNumbered-SameNodes low high [] [] s h = h
IsNumbered-SameNodes low high [] (b ∷ after) s h = absurd s
IsNumbered-SameNodes low high (a ∷ nodes) [] s h = absurd s
IsNumbered-SameNodes low high (a ∷ nodes) (b ∷ after) s h =
    rw s.0.same_id (h.0, IsNumbered-SameNodes a.object_node_id high nodes after s.1 h.1)

classes-SameNodes :
    (nodes after : List NodeBase)
    → SameNodes nodes after
    → All (λ node. IsClass node.node_type) nodes
    → All (λ node. IsClass node.node_type) after
classes-SameNodes [] [] s h = tt
classes-SameNodes [] (b ∷ after) s h = absurd s
classes-SameNodes (a ∷ nodes) [] s h = absurd s
classes-SameNodes (a ∷ nodes) (b ∷ after) s h =
    (rw s.0.same_type h.0, classes-SameNodes nodes after s.1 h.1)

either-IsRegistry :
    (b : Bool) (x y : Manager × Bool)
    → IsRegistry x.0
    → IsRegistry y.0
    → IsRegistry (if b then x else y).0
either-IsRegistry true x y hx hy = hx
either-IsRegistry false x y hx hy = hy

start-IsRegistry : (m : Manager) → IsRegistry m → IsRegistry (start m).0
unfolding start
start-IsRegistry m v =
    either-IsRegistry (not m.running) _ _
      (record { distinct = v.distinct; numbered = v.numbered; classes = v.classes }) v

stop-IsRegistry : (m : Manager) → IsRegistry m → IsRegistry (stop m).0
unfolding stop
stop-IsRegistry m v =
    either-IsRegistry m.running _ _
      (record { distinct = v.distinct; numbered = v.numbered; classes = v.classes }) v

pub data Reachable : Manager → Type 0 where
  begins : Reachable new_manager
  sends :
      {m n : Manager} (s t : MessageState)
      → Reachable m
      → handle_send_data s m ≡ goes_on (t, n)
      → Reachable n
  receives :
      {m n : Manager} (p q : Option AnyPacket)
      → Reachable m
      → handle_received_data p m ≡ goes_on (q, n)
      → Reachable n
  starts : {m : Manager} → Reachable m → Reachable (start m).0
  stops : {m : Manager} → Reachable m → Reachable (stop m).0
  queues :
      {m : Manager} (q : SafeQueue MessageState) (r s : SafeQueue AnyPacket)
      → Reachable m
      → Reachable (record m { message_node_queue = q; received_io_queue = r; send_io_queue = s })
  nodes :
      {m : Manager} (after : List NodeBase)
      → Reachable m
      → SameNodes m.vec_node_base after
      → Reachable (record m { vec_node_base = after })

-- In every state that the two threads of the manager, `start`, `stop`, the threads of the nodes and
-- any use of the queues by others can reach, no two nodes share a port, the numbers rise along the
-- vector and stay within the counter, and each node has one of the three types.
pub Reachable-IsRegistry : {m : Manager} → Reachable m → IsRegistry m
Reachable-IsRegistry begins = record { distinct = tt; numbered = omega arith; classes = tt }
Reachable-IsRegistry (sends {m} s t r e) =
    subst (AfterTurn (λ r. IsRegistry r.1)) e
      (handle_send_data-IsRegistry s m (Reachable-IsRegistry r))
Reachable-IsRegistry (receives {m} p q r e) =
    subst (AfterTurn (λ r. IsRegistry r.1)) e
      (handle_received_data-IsRegistry p m (Reachable-IsRegistry r))
Reachable-IsRegistry (starts {m} r) = start-IsRegistry m (Reachable-IsRegistry r)
Reachable-IsRegistry (stops {m} r) = stop-IsRegistry m (Reachable-IsRegistry r)
Reachable-IsRegistry (queues q s t r) =
    let v = Reachable-IsRegistry r in
    record { distinct = v.distinct; numbered = v.numbered; classes = v.classes }
Reachable-IsRegistry (nodes {m} after r s) =
    let v = Reachable-IsRegistry r in
    record {
      distinct = DistinctPorts-SameNodes m.vec_node_base after s v.distinct;
      numbered = IsNumbered-SameNodes 0 m.last_id m.vec_node_base after s v.numbered;
      classes = classes-SameNodes m.vec_node_base after s v.classes;
    }
