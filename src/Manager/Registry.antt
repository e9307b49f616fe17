-- ===== src/Manager/Registry.antt =====
-- The invariant of the vector of nodes: no two nodes have one port, the numbers rise along the vector
-- and stay within the counter, and each node has one of the three types.
use node_management.Common.{ℕ, ◌≤◌, ◌<◌, ◌≢◌, List, [], ◌∷◌, arith, All}
use node_management.Types.{TypeNode, base, data_plane, control_plane, oam, unnamed}
use node_management.Packet.{AnyPacket}
use node_management.Node.{NodeBase, get_port_info}
use node_management.Manager.{Manager, answer, erase_node, check_pong_message}

-- No node of the list has the port.
abbrev pub IsFree : ℕ → List NodeBase → Type 0
IsFree port = All (λ node. get_port_info node ≢ port)

abbrev pub DistinctPorts : List NodeBase → Type 0
DistinctPorts [] = Unit
DistinctPorts (node ∷ nodes) = IsFree (get_port_info node) nodes × DistinctPorts nodes

-- The numbers rise strictly, from above `low` to at most `high`.
abbrev pub IsNumbered : ℕ → ℕ → List NodeBase → Type 0
IsNumbered low high [] = low ≤ high
IsNumbered low high (node ∷ nodes) =
    (low < node.object_node_id) × IsNumbered node.object_node_id high nodes

abbrev pub IsClass : TypeNode → Type 0
IsClass base = ⊥
IsClass data_plane = Unit
IsClass control_plane = Unit
IsClass oam = Unit
IsClass (unnamed n) = ⊥

pub record IsRegistry (m : Manager) : Type 0 where
  pub distinct : DistinctPorts m.vec_node_base
  pub numbered : IsNumbered 0 m.last_id m.vec_node_base
  pub classes : All (λ node. IsClass node.node_type) m.vec_node_base

answer-IsFree : (port p : ℕ) (nodes : List NodeBase) → IsFree p nodes → IsFree p (answer port nodes)
unfolding answer
answer-IsFree port p [] h = tt
answer-IsFree port p (node ∷ nodes) h = ground (arith, answer-IsFree port p nodes h.1)

pub answer-DistinctPorts :
    (port : ℕ) (nodes : List NodeBase) → DistinctPorts nodes → DistinctPorts (answer port nodes)
unfolding answer
answer-DistinctPorts port [] h = tt
answer-DistinctPorts port (node ∷ nodes) h =
    ground (
      arith,
      answer-IsFree port (get_port_info node) nodes h.0,
      answer-DistinctPorts port nodes h.1,
    )

answer-IsNumbered :
    (port low high : ℕ) (nodes : List NodeBase)
    → IsNumbered low high nodes
    → IsNumbered low high (answer port nodes)
unfolding answer
answer-IsNumbered port low high [] h = h
answer-IsNumbered port low high (node ∷ nodes) h =
    ground (arith, answer-IsNumbered port node.object_node_id high nodes h.1)

answer-classes :
    (port : ℕ) (nodes : List NodeBase)
    → All (λ node. IsClass node.node_type) nodes
    → All (λ node. IsClass node.node_type) (answer port nodes)
unfolding answer
answer-classes port [] h = tt
answer-classes port (node ∷ nodes) h = ground (arith, answer-classes port nodes h.1)

pub check_pong_message-IsRegistry :
    (packet : AnyPacket) (m : Manager) → IsRegistry m → IsRegistry (check_pong_message packet m)
unfolding check_pong_message
check_pong_message-IsRegistry packet m v = record {
  distinct = answer-DistinctPorts _ m.vec_node_base v.distinct;
  numbered = answer-IsNumbered _ 0 m.last_id m.vec_node_base v.numbered;
  classes = answer-classes _ m.vec_node_base v.classes;
}

pub erase_node-IsFree :
    (port p : ℕ) (nodes : List NodeBase) → IsFree p nodes → IsFree p (erase_node port nodes)
unfolding erase_node
erase_node-IsFree port p [] h = tt
erase_node-IsFree port p (node ∷ nodes) h = ground (arith, erase_node-IsFree port p nodes h.1)

pub erase_node-DistinctPorts :
    (port : ℕ) (nodes : List NodeBase) → DistinctPorts nodes → DistinctPorts (erase_node port nodes)
unfolding erase_node
erase_node-DistinctPorts port [] h = tt
erase_node-DistinctPorts port (node ∷ nodes) h = ground (
  arith,
  erase_node-IsFree port (get_port_info node) nodes h.0,
  erase_node-DistinctPorts port nodes h.1,
)

IsNumbered-weaken :
    (low low' high : ℕ) (nodes : List NodeBase)
    → low' ≤ low
    → IsNumbered low high nodes
    → IsNumbered low' high nodes
IsNumbered-weaken low low' high [] le h = omega arith
IsNumbered-weaken low low' high (node ∷ nodes) le h = (omega arith, h.1)

pub erase_node-IsNumbered :
    (port low high : ℕ) (nodes : List NodeBase)
    → IsNumbered low high nodes
    → IsNumbered low high (erase_node port nodes)
unfolding erase_node
erase_node-IsNumbered port low high [] h = h
erase_node-IsNumbered port low high (node ∷ nodes) h = ground (
  arith,
  erase_node-IsNumbered port node.object_node_id high nodes h.1,
  IsNumbered-weaken node.object_node_id low high nodes (omega arith) h.1,
)

pub erase_node-classes :
    (port : ℕ) (nodes : List NodeBase)
    → All (λ node. IsClass node.node_type) nodes
    → All (λ node. IsClass node.node_type) (erase_node port nodes)
unfolding erase_node
erase_node-classes port [] h = tt
erase_node-classes port (node ∷ nodes) h = ground (arith, erase_node-classes port nodes h.1)
