-- ===== src/Manager/Turns.antt =====
-- What a turn of each thread of the manager keeps, from what its handlers keep.
use node_management.Common.{
  ◌≡◌, refl, inl, inr, Bool, true, false, not, Option, none, some, if◌then◌else◌, Option-cases,
}
use node_management.Types.{TypeMessage, MessageState}
use node_management.Packet.{AnyPacket, RigisterPacket, base_of, as_rigister}
use node_management.SafeQueue.{SafeQueue}
use node_management.SafeQueue.Delivery.{wait_and_pop_cases}
use node_management.Manager.{
  Manager, dispatch_message, dispatch_packet, Turn, sleeps, ends, fault, goes_on, handle_send_data,
  handle_received_data, handle_message, handle_packet, handled, check_pong_message,
  check_register_message,
}
use node_management.Manager.Registry.{IsRegistry, check_pong_message-IsRegistry}
use node_management.Manager.Invariant.{
  AfterTurn, dispatch_message-IsRegistry, check_register_message-IsRegistry,
}

unless_ended :
    {A : Type 0} (P : A → Type 0) (b : Bool) (t : Turn A)
    → AfterTurn P t
    → AfterTurn P (if not b then ends else t)
unless_ended P true t h = h
unless_ended P false t h = tt

-- A predicate on the manager, as one on what a thread goes on with.
abbrev pub OfManager : {L : Type 0} → (Manager → Type 0) → L × Manager → Type 0
OfManager P r = P r.1

module _ (P : Manager → Type 0) where
  pub handle_message-keeps :
      (t : MessageState) (n : Manager)
      → P (dispatch_message t n)
      → AfterTurn (OfManager P) (handle_message t n)
  unfolding handle_message
  handle_message-keeps t n h =
      unless_ended (OfManager P) n.running (goes_on (t, dispatch_message t n)) h

  handled-keeps : (t : Turn Manager) → AfterTurn P t → AfterTurn (OfManager P) (handled t)
  handled-keeps sleeps h = tt
  handled-keeps ends h = tt
  handled-keeps fault h = tt
  handled-keeps (goes_on m) h = h

  module _ (pong : (packet : AnyPacket) (m : Manager) → P m → P (check_pong_message packet m))
      (register : (p : RigisterPacket) (m : Manager) → P m → P (check_register_message p m))
      (takes : (q : SafeQueue AnyPacket) (m : Manager)
        → P m
        → P (record m { received_io_queue = q })) where
    dispatch_packet-keeps :
        (packet : AnyPacket) (m : Manager) → P m → AfterTurn P (dispatch_packet packet m)
    unfolding dispatch_packet
    dispatch_packet-keeps packet m v = by_type (base_of packet).type_message refl
      where
        by_type :
            (t : TypeMessage)
            → (base_of packet).type_message ≡ t
            → AfterTurn P (dispatch_packet packet m)
        by_type TypeMessage.pong e = rw (e, dispatch_packet) (pong packet m v)
        by_type TypeMessage.register e = elim (Option-cases (as_rigister packet)) [
          | inl bad ↦ rw (e, bad, dispatch_packet) tt
          | inr (p, good) ↦ rw (e, good, dispatch_packet) (register p m v)
        ]
        by_type TypeMessage.ping e = rw (e, dispatch_packet) v
        by_type TypeMessage.notify e = rw (e, dispatch_packet) v
        by_type TypeMessage.other e = rw (e, dispatch_packet) v
        by_type (TypeMessage.unnamed n) e = rw (e, dispatch_packet) v

    handle_packet-keeps :
        (local : Option AnyPacket) (n : Manager)
        → P n
        → AfterTurn (OfManager P) (handle_packet local n)
    unfolding handle_packet
    handle_packet-keeps none n v = unless_ended (OfManager P) n.running (goes_on (none, n)) v
    handle_packet-keeps (some packet) n v =
        unless_ended (OfManager P) n.running (handled (dispatch_packet packet n))
          (handled-keeps (dispatch_packet packet n) (dispatch_packet-keeps packet n v))

    -- A turn of the receiving thread keeps what its two handlers and the taking of a packet keep.
    pub handle_received_data-keeps :
        (local : Option AnyPacket) (m : Manager)
        → P m
        → AfterTurn (OfManager P) (handle_received_data local m)
    unfolding handle_received_data
    handle_received_data-keeps local m v = elim (wait_and_pop_cases m.received_io_queue) [
      | inl (off, e) ↦ rw (e, handle_received_data) (handle_packet-keeps local m v)
      | inr (inl (on, empty, e)) ↦ rw (e, handle_received_data) tt
      | inr (inr (packet, rest, on, full, e)) ↦
          rw (e, handle_received_data)
            (handle_packet-keeps (some packet)
              (record m { received_io_queue = record { queue = rest; running = true } })
              (takes (record { queue = rest; running = true }) m v))
    ]

-- A turn of the sending thread keeps the vector of nodes in order, whatever message it takes.
pub handle_send_data-IsRegistry :
    (s : MessageState) (m : Manager)
    → IsRegistry m
    → AfterTurn (λ r. IsRegistry r.1) (handle_send_data s m)
unfolding handle_send_data
handle_send_data-IsRegistry s m v = elim (wait_and_pop_cases m.message_node_queue) [
  | inl (off, e) ↦
      rw (e, handle_send_data)
        (handle_message-keeps IsRegistry s m (dispatch_message-IsRegistry s m v))
  | inr (inl (on, empty, e)) ↦ rw (e, handle_send_data) tt
  | inr (inr (t, rest, on, full, e)) ↦
      let n = record m { message_node_queue = record { queue = rest; running = true } } in
      rw (e, handle_send_data)
        (handle_message-keeps IsRegistry t n (
          dispatch_message-IsRegistry t n
            (record { distinct = v.distinct; numbered = v.numbered; classes = v.classes })))
]

-- A turn of the receiving thread keeps it in order too, whatever packet it takes.
pub handle_received_data-IsRegistry :
    (local : Option AnyPacket) (m : Manager)
    → IsRegistry m
    → AfterTurn (λ r. IsRegistry r.1) (handle_received_data local m)
handle_received_data-IsRegistry =
    handle_received_data-keeps IsRegistry check_pong_message-IsRegistry
      check_register_message-IsRegistry
      (λ q m v. record { distinct = v.distinct; numbered = v.numbered; classes = v.classes })
