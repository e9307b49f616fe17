-- ===== src/AppCtrl/Safety.antt =====
-- The sending thread of source/IOHandler.cpp on the packets of the manager.
use mathlib.Core.Path.{subst}
use node_management.Common.{
  ℕ, ◌⊎◌, ◌≡◌, ◌≢◌, inl, inr, Bool, true, false, not, if◌then◌else◌, List, [], Option, none, some,
  All, Option-cases,
}
use node_management.Packet.{AnyPacket, plain_packet, base_of, new_packet}
use node_management.SafeQueue.{SafeQueue}
use node_management.SafeQueue.Delivery.{wait_and_pop_cases}
use node_management.Udp
use node_management.Manager.{Turn, ends, fault, goes_on}
use node_management.IoHandler.{IoHandler, serialize, send_all, tx_packet, handle_tx_thread}
use node_management.IoHandler.Sending.{IsSendable, serialize_lem}
use node_management.AppCtrl.Soundness.{IsGood}

-- A packet that the sending thread can handle.
abbrev pub IsOutgoing : Option AnyPacket → Type 0
IsOutgoing none = Unit
IsOutgoing (some packet) = serialize packet ≢ none

pub plain-IsOutgoing : IsOutgoing (some (plain_packet new_packet))
unfolding serialize
plain-IsOutgoing = λ e. cc

sendable-IsOutgoing : (packet : AnyPacket) → IsSendable packet → IsOutgoing (some packet)
sendable-IsOutgoing packet h = λ e. cc (serialize_lem packet h)

abbrev pub HasTransmitted : Option AnyPacket × SafeQueue AnyPacket × List Udp.Sending → Type 0
HasTransmitted (local, q, sent) = IsOutgoing local × All IsSendable q.queue

tx_packet-IsGood :
    (fails : Bool) (local : Option AnyPacket) (io : IoHandler) (q : SafeQueue AnyPacket)
    → IsOutgoing local
    → All IsSendable q.queue
    → IsGood HasTransmitted (tx_packet fails local io q)
unfolding tx_packet
tx_packet-IsGood fails none io q o h = by_running io.running
  where
    by_running :
        (on : Bool) → IsGood HasTransmitted (if not on then ends else goes_on (none, q, []))
    by_running true = (tt, h)
    by_running false = tt
tx_packet-IsGood fails (some packet) io q o h =
    by_running io.running (Option-cases (serialize packet))
  where
    by_running :
        (on : Bool)
        → (serialize packet ≡ none) ⊎ ((ms : List (List ℕ)) × (serialize packet ≡ some ms))
        → IsGood HasTransmitted (
            if not on
            then ends
            else elim (serialize packet)
                as (λ r. Turn (Option AnyPacket × SafeQueue AnyPacket × List Udp.Sending)) [
                  | none ↦ fault
                  | some messages ↦
                      goes_on (none, q, send_all (base_of packet).client_addr fails io.ctx messages)
                ])
    by_running false r = tt
    by_running true (inl bad) = absurd (o bad)
    by_running true (inr (ms, good)) = rw good (tt, h)

pub handle_tx_thread-IsGood :
    (fails : Bool) (local : Option AnyPacket) (io : IoHandler) (q : SafeQueue AnyPacket)
    → IsOutgoing local
    → All IsSendable q.queue
    → IsGood HasTransmitted (handle_tx_thread fails local io q)
unfolding handle_tx_thread
handle_tx_thread-IsGood fails local io q o h = elim (wait_and_pop_cases q) [
  | inl (off, e) ↦ rw (e, handle_tx_thread) (tx_packet-IsGood fails local io q o h)
  | inr (inl (on, empty, e)) ↦ rw (e, handle_tx_thread) tt
  | inr (inr (packet, rest, on, full, e)) ↦
      let both = subst (All IsSendable) full h in
      rw (e, handle_tx_thread)
        (tx_packet-IsGood fails (some packet) io (record { queue = rest; running = true })
          (sendable-IsOutgoing packet both.0) both.1)
]
