-- ===== src/Manager/Log.antt =====
-- The lines of the log file about new nodes of source/NodeManagament.cpp, before the prefix of
-- `DEBUG_LOG`, with their numbers kept as numbers.
use Prim.Native.String.{String}
use node_management.Common.{ℕ, ◌+◌, ◌≡◌, ◌⊎◌, List, [], ◌∷◌, ◌++◌, if◌then◌else◌, length}
use node_management.Types.{base, data_plane, control_plane, oam, unnamed}
use node_management.Packet.{Packet, RigisterPacket}
use node_management.Node
use node_management.Node.{NodeBase, get_port_info, set_client_infor}
use node_management.Node.Log.{ntohs}
use node_management.Manager.{Manager, is_monitored}

-- "Add ... to NoM, NumofNode[...] NodeID[...] Port[...]".
pub record AddLine : Type 0 where
  pub text : String
  pub num_of_node : ℕ
  pub node_id : ℕ
  pub port : ℕ

-- The line about a new node, whose number is one above the counter.
abbrev pub add_line : String → RigisterPacket → Manager → AddLine
add_line text p m = record {
  text = text;
  num_of_node = length m.vec_node_base + 1;
  node_id = m.last_id + 1;
  port = ntohs p.client_addr.sin_port;
}

unfoldable pub push_log : RigisterPacket → Manager → List AddLine
push_log p m = elim p.type_node [
  | data_plane ↦ add_line "Add a DATA_PLANENode to NoM" p m ∷ []
  | control_plane ↦ add_line "Add a CONTROL_PLANE to NoM" p m ∷ []
  | oam ↦ add_line "Add an OAM to NoM" p m ∷ []
  | base ↦ []
  | unnamed n ↦ []
]

unfoldable pub register_log : RigisterPacket → Manager → List AddLine
register_log p m = if is_monitored p.client_addr.sin_port m.vec_node_base then [] else push_log p m

-- The line tells the truth about the manager after the registration: a node was put at the end of the
-- vector, with that number and port, and the vector has that many nodes.
pub record Tells (m after : Manager) (line : AddLine) : Type 0 where
  pub node : NodeBase
  pub at_end : after.vec_node_base ≡ m.vec_node_base ++ node ∷ []
  pub same_id : node.object_node_id ≡ line.node_id
  pub same_port : ntohs (get_port_info node) ≡ line.port
  pub same_num : length after.vec_node_base ≡ line.num_of_node

-- Nothing is written and nothing changes, or one true line is written.
abbrev pub IsTruthful : Manager → Manager → List AddLine → Type 0
IsTruthful m after log =
    ((after ≡ m) × (log ≡ [])) ⊎ ((line : AddLine) × (log ≡ line ∷ []) × Tells m after line)
