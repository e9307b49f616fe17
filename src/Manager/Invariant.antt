-- ===== src/Manager/Invariant.antt =====
-- The handlers of source/NodeManagament.cpp and the invariant of the vector of nodes.
use node_management.Common.{
  ℕ, ◌+◌, ◌≡◌, ◌≢◌, refl, sym, ◌⊎◌, inl, inr, false, List, [], ◌∷◌, ◌++◌, arith, ◌==◌, All,
  Bool-cases,
}
use node_management.Types.{
  TypeNode, base, data_plane, control_plane, oam, unnamed, StateList, SockaddrIn, MessageState,
}
use node_management.Packet.{Packet, RigisterPacket}
use node_management.Node
use node_management.Node.{NodeBase, get_port_info, new_node, set_pong_state, set_client_infor}
use node_management.Manager.{
  Manager, is_monitored, added, push_node_to_vector, check_register_message, check_notify_message,
  check_ping_message, dispatch_message, Turn, sleeps, ends, fault, goes_on,
}
use node_management.Manager.Registry.{
  IsFree, DistinctPorts, IsNumbered, IsClass, IsRegistry, erase_node-DistinctPorts,
  erase_node-IsNumbered, erase_node-classes,
}

-- A port that the search does not find is free.
pub is_monitored-IsFree :
    (port : ℕ) (nodes : List NodeBase) → is_monitored port nodes ≡ false → IsFree port nodes
unfolding is_monitored
is_monitored-IsFree port [] h = tt
is_monitored-IsFree port (node ∷ nodes) h = ground (arith, is_monitored-IsFree port nodes)

module _ (new : NodeBase) where
  IsFree-snoc :
      (p : ℕ) (nodes : List NodeBase)
      → IsFree p nodes
      → get_port_info new ≢ p
      → IsFree p (nodes ++ new ∷ [])
  IsFree-snoc p [] h ne = (ne, tt)
  IsFree-snoc p (node ∷ nodes) h ne = (h.0, IsFree-snoc p nodes h.1 ne)

  pub DistinctPorts-snoc :
      (nodes : List NodeBase)
      → DistinctPorts nodes
      → IsFree (get_port_info new) nodes
      → DistinctPorts (nodes ++ new ∷ [])
  DistinctPorts-snoc [] d f = (tt, tt)
  DistinctPorts-snoc (node ∷ nodes) d f = (
    IsFree-snoc (get_port_info node) nodes d.0 (λ e. f.0 (sym e)),
    DistinctPorts-snoc nodes d.1 f.1,
  )

  IsNumbered-snoc :
      (low high : ℕ) (nodes : List NodeBase)
      → IsNumbered low high nodes
      → new.object_node_id ≡ high + 1
      → IsNumbered low (high + 1) (nodes ++ new ∷ [])
  IsNumbered-snoc low high [] h e = (omega arith, omega arith)
  IsNumbered-snoc low high (node ∷ nodes) h e =
      (h.0, IsNumbered-snoc node.object_node_id high nodes h.1 e)

  classes-snoc :
      (nodes : List NodeBase)
      → All (λ node. IsClass node.node_type) nodes
      → IsClass new.node_type
      → All (λ node. IsClass node.node_type) (nodes ++ new ∷ [])
  classes-snoc [] h c = (c, tt)
  classes-snoc (node ∷ nodes) h c = (h.0, classes-snoc nodes h.1 c)

added-IsRegistry :
    (node_type : TypeNode) (addr : SockaddrIn) (m : Manager)
    → IsClass node_type
    → IsFree addr.sin_port m.vec_node_base
    → IsRegistry m
    → IsRegistry (added node_type addr m)
unfolding added new_node Node.start
added-IsRegistry node_type addr m c f v = record {
  distinct = DistinctPorts-snoc _ m.vec_node_base v.distinct f;
  numbered = IsNumbered-snoc _ 0 m.last_id m.vec_node_base v.numbered refl;
  classes = classes-snoc _ m.vec_node_base v.classes c;
}

push_by_type :
    (packet : Packet) (t : TypeNode) (m : Manager)
    → let p : RigisterPacket = record { packet = packet; type_node = t } in
      (IsClass t × (push_node_to_vector p m ≡ added t packet.client_addr m))
      ⊎ ((¬ IsClass t) × (push_node_to_vector p m ≡ m))
unfolding push_node_to_vector
push_by_type packet base m = inr (λ c. c, refl)
push_by_type packet data_plane m = inl (tt, refl)
push_by_type packet control_plane m = inl (tt, refl)
push_by_type packet oam m = inl (tt, refl)
push_by_type packet (unnamed n) m = inr (λ c. c, refl)

-- A node is made exactly for the three types.
pub push_cases :
    (p : RigisterPacket) (m : Manager)
    → (IsClass p.type_node × (push_node_to_vector p m ≡ added p.type_node p.client_addr m))
      ⊎ ((¬ IsClass p.type_node) × (push_node_to_vector p m ≡ m))
push_cases p m = push_by_type p.packet p.type_node m

pub check_register_message-IsRegistry :
    (p : RigisterPacket) (m : Manager) → IsRegistry m → IsRegistry (check_register_message p m)
unfolding check_register_message
check_register_message-IsRegistry p m v =
    elim (Bool-cases (is_monitored p.client_addr.sin_port m.vec_node_base)) [
      | inl old ↦ rw old v
      | inr new ↦ rw new (elim (push_cases p m) [
        | inl (c, e) ↦ rw e (
            added-IsRegistry p.type_node p.client_addr m c
              (is_monitored-IsFree p.client_addr.sin_port m.vec_node_base new) v)
        | inr (c, e) ↦ rw e v
      ])
    ]

check_notify_message-IsRegistry :
    (s : MessageState) (m : Manager) → IsRegistry m → IsRegistry (check_notify_message s m)
unfolding check_notify_message
check_notify_message-IsRegistry s m v = by_state s.state refl
  where
    by_state : (t : StateList) → s.state ≡ t → IsRegistry (check_notify_message s m)
    by_state StateList.timeout e =
        rw (e, check_notify_message)
          (record { distinct = v.distinct; numbered = v.numbered; classes = v.classes })
    by_state StateList.dead e =
        rw (e, check_notify_message)
          (record {
            distinct = erase_node-DistinctPorts s.client_addr.sin_port m.vec_node_base v.distinct;
            numbered =
                erase_node-IsNumbered s.client_addr.sin_port 0 m.last_id m.vec_node_base v.numbered;
            classes = erase_node-classes s.client_addr.sin_port m.vec_node_base v.classes;
          })
    by_state StateList.init e = rw (e, check_notify_message) v
    by_state StateList.alive e = rw (e, check_notify_message) v
    by_state StateList.max e = rw (e, check_notify_message) v

-- What holds of the state with which a thread goes on.
abbrev pub AfterTurn {ℓ} : {A : Type ℓ} → (A → Type 0) → Turn A → Type 0
AfterTurn P sleeps = Unit
AfterTurn P ends = Unit
AfterTurn P fault = Unit
AfterTurn P (goes_on a) = P a

pub dispatch_message-IsRegistry :
    (s : MessageState) (m : Manager) → IsRegistry m → IsRegistry (dispatch_message s m)
unfolding dispatch_message check_ping_message
dispatch_message-IsRegistry s m v = elim (Bool-cases (s.message_type == 0)) [
  | inl ping ↦
      rw ping (record { distinct = v.distinct; numbered = v.numbered; classes = v.classes })
  | inr other ↦ rw other (elim (Bool-cases (s.message_type == 1)) [
    | inl notify ↦ rw notify (check_notify_message-IsRegistry s m v)
    | inr neither ↦ rw neither v
  ])
]
