-- ===== src/Manager/Refinement.antt =====
-- The vector of nodes of source/NodeManagament.cpp as a directory, which maps a port to the node that
-- is monitored there, and the three operations of such a directory.
use node_management.Common.{
  ℕ, ◌+◌, ◌≡◌, refl, inl, inr, Bool, true, false, not, ◌&&◌, List, [], ◌∷◌, ◌++◌, Option, none,
  some, arith, ◌==◌, if◌then◌else◌, Bool-cases,
}
use node_management.Types.{
  TypeNode, base, data_plane, control_plane, oam, unnamed, StateList, SockaddrIn, MessageState,
}
use node_management.Packet.{AnyPacket, RigisterPacket, base_of}
use node_management.Node
use node_management.Node.{NodeBase, get_port_info, new_node, set_pong_state, set_client_infor}
use node_management.Manager.{
  Manager, answer, is_monitored, added, check_register_message, erase_node, check_notify_message,
  check_pong_message,
}
use node_management.Manager.Registry.{IsFree, DistinctPorts, IsClass, IsRegistry}
use node_management.Manager.Invariant.{push_cases}

-- What identifies a monitored node.
pub record Entry : Type 0 where
  pub node_type : TypeNode
  pub node_id : ℕ
  pub addr : SockaddrIn

abbrev pub entry : NodeBase → Entry
entry node = record {
  node_type = node.node_type;
  node_id = node.object_node_id;
  addr = node.client_addr;
}

abbrev pub Directory : Type 0
Directory = ℕ → Option Entry

abbrev pub find : List NodeBase → Directory
find [] port = none
find (node ∷ nodes) port = if get_port_info node == port then some (entry node) else find nodes port

abbrev pub view : Manager → Directory
view m = find m.vec_node_base

abbrev pub is_class : TypeNode → Bool
is_class base = false
is_class data_plane = true
is_class control_plane = true
is_class oam = true
is_class (unnamed n) = false

abbrev is_absent : Option Entry → Bool
is_absent none = true
is_absent (some e) = false

-- The operations of a directory: a node with a known type is entered at a free port, and a port is
-- cleared.
abbrev pub enter : Entry → Directory → Directory
enter e d port =
    if is_class e.node_type && is_absent (d e.addr.sin_port) && (e.addr.sin_port == port)
    then some e
    else d port

abbrev pub clear : ℕ → Directory → Directory
clear gone d port = if gone == port then none else d port

find-answer :
    (told : ℕ) (nodes : List NodeBase) (port : ℕ) → find (answer told nodes) port ≡ find nodes port
unfolding answer
find-answer told [] port = refl
find-answer told (node ∷ nodes) port = ground (arith, find-answer told nodes port)

find_free : (nodes : List NodeBase) (port : ℕ) → IsFree port nodes → find nodes port ≡ none
find_free [] port f = refl
find_free (node ∷ nodes) port f = ground (arith, find_free nodes port f.1)

find-erase_node :
    (gone : ℕ) (nodes : List NodeBase) (port : ℕ)
    → DistinctPorts nodes
    → find (erase_node gone nodes) port ≡ clear gone (find nodes) port
unfolding erase_node
find-erase_node gone [] port d = ground arith
find-erase_node gone (node ∷ nodes) port d =
    ground (arith, find-erase_node gone nodes port d.1, find_free nodes (get_port_info node) d.0)

find-snoc :
    (nodes : List NodeBase) (new : NodeBase) (port : ℕ)
    → find (nodes ++ new ∷ []) port ≡ (
        if is_absent (find nodes port) && (get_port_info new == port)
        then some (entry new)
        else find nodes port)
find-snoc [] new port = ground arith
find-snoc (node ∷ nodes) new port = ground (arith, find-snoc nodes new port)

is_monitored-find :
    (nodes : List NodeBase) (port : ℕ) → is_monitored port nodes ≡ not (is_absent (find nodes port))
unfolding is_monitored
is_monitored-find [] port = refl
is_monitored-find (node ∷ nodes) port = ground (arith, is_monitored-find nodes port)

-- A pong changes no entry.
pub view-check_pong_message :
    (packet : AnyPacket) (m : Manager) (port : ℕ)
    → view (check_pong_message packet m) port ≡ view m port
unfolding check_pong_message
view-check_pong_message packet m port =
    find-answer (base_of packet).client_addr.sin_port m.vec_node_base port

is_class_of : (t : TypeNode) → IsClass t → is_class t ≡ true
is_class_of base c = absurd c
is_class_of data_plane c = refl
is_class_of control_plane c = refl
is_class_of oam c = refl
is_class_of (unnamed n) c = absurd c

not_class_of : (t : TypeNode) → ¬ IsClass t → is_class t ≡ false
not_class_of base c = refl
not_class_of data_plane c = absurd (c tt)
not_class_of control_plane c = absurd (c tt)
not_class_of oam c = absurd (c tt)
not_class_of (unnamed n) c = refl

-- The entry that a REGISTER packet asks for, under the next number.
abbrev pub asked : RigisterPacket → Manager → Entry
asked p m = record { node_type = p.type_node; node_id = m.last_id + 1; addr = p.client_addr }

view-added :
    (p : RigisterPacket) (m : Manager) (port : ℕ)
    → IsClass p.type_node
    → is_monitored p.client_addr.sin_port m.vec_node_base ≡ false
    → view (added p.type_node p.client_addr m) port ≡ enter (asked p m) (view m) port
unfolding added new_node Node.start
view-added p m port c new = ground (
  arith,
  find-snoc m.vec_node_base
      (Node.start (set_client_infor p.client_addr (new_node p.type_node m.last_id p.client_addr)))
      port,
  is_class_of p.type_node c,
  is_monitored-find m.vec_node_base p.client_addr.sin_port,
)

-- A REGISTER packet enters the node that it names, under the next number, exactly if its type is one
-- of the three and its port is free; no other port changes.
pub view-check_register_message :
    (p : RigisterPacket) (m : Manager) (port : ℕ)
    → view (check_register_message p m) port ≡ enter (asked p m) (view m) port
unfolding check_register_message
view-check_register_message p m port =
    elim (Bool-cases (is_monitored p.client_addr.sin_port m.vec_node_base)) [
      | inl old ↦ rw old (ground (arith, is_monitored-find m.vec_node_base p.client_addr.sin_port))
      | inr new ↦ rw new (elim (push_cases p m) [
        | inl (c, e) ↦ rw e (view-added p m port c new)
        | inr (c, e) ↦ rw e (ground (arith, not_class_of p.type_node c))
      ])
    ]

-- If the nodes satisfy the invariant, the message of a dead node clears its port and no other.
pub view-check_notify_message :
    (s : MessageState) (m : Manager) (port : ℕ)
    → IsRegistry m
    → s.state ≡ StateList.dead
    → view (check_notify_message s m) port ≡ clear s.client_addr.sin_port (view m) port
unfolding check_notify_message
view-check_notify_message s m port v e =
    rw (e, check_notify_message)
      (find-erase_node s.client_addr.sin_port m.vec_node_base port v.distinct)

is_monitored-added :
    (t : TypeNode) (addr : SockaddrIn) (m : Manager)
    → is_monitored addr.sin_port (added t addr m).vec_node_base ≡ true
unfolding added new_node Node.start
is_monitored-added t addr m =
    let new = Node.start (set_client_infor addr (new_node t m.last_id addr)) in
    ground (
      arith,
      is_monitored-find (m.vec_node_base ++ new ∷ []) addr.sin_port,
      find-snoc m.vec_node_base new addr.sin_port,
    )

-- A REGISTER packet that is handled twice in a row leaves the manager as after the first time.
pub check_register_message_twice :
    (p : RigisterPacket) (m : Manager)
    → check_register_message p (check_register_message p m) ≡ check_register_message p m
unfolding check_register_message
check_register_message_twice p m =
    elim (Bool-cases (is_monitored p.client_addr.sin_port m.vec_node_base)) [
      | inl old ↦ simp old
      | inr new ↦ rw new (elim (push_cases p m) [
        | inl (c, e) ↦ rw e (rw (is_monitored-added p.type_node p.client_addr m) refl)
        | inr (c, e) ↦ rw e (rw new e)
      ])
    ]
