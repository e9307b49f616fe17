-- ===== src/Manager/Casts.antt =====
-- The casts to `RigisterPacket*` in the receiving thread of source/NodeManagament.cpp.
use mathlib.Core.Path.{subst}
use node_management.Common.{
  ◌≡◌, ◌≢◌, refl, inl, inr, Bool, true, false, not, Option, none, some, arith, if◌then◌else◌, All,
  Bool-cases, Option-cases,
}
use node_management.Types.{TypeMessage}
use node_management.Packet.{AnyPacket, base_of, as_rigister}
use node_management.SafeQueue
use node_management.SafeQueue.{SafeQueue, wait_and_pop, waits, failed, unchanged, popped}
use node_management.SafeQueue.Delivery.{wait_and_pop_cases}
use node_management.Manager.{
  Manager, start, stop, dispatch_packet, Turn, sleeps, ends, fault, goes_on, handle_received_data,
  handle_packet, handled,
}

-- A packet that says REGISTER is an object of `RigisterPacket`.
abbrev pub IsTagged : AnyPacket → Type 0
IsTagged packet = (base_of packet).type_message ≡ TypeMessage.register → as_rigister packet ≢ none

-- While the manager runs, so do the two queues that its threads read.
pub record IsServed (m : Manager) : Type 0 where
  pub receiving : m.running ≡ true → m.received_io_queue.running ≡ true
  pub sending : m.running ≡ true → m.message_node_queue.running ≡ true

dispatch_packet-ne-fault :
    (packet : AnyPacket) (m : Manager) → IsTagged packet → dispatch_packet packet m ≢ fault
unfolding dispatch_packet
dispatch_packet-ne-fault packet m tagged = by_type (base_of packet).type_message refl
  where
    by_type :
        (t : TypeMessage) → (base_of packet).type_message ≡ t → dispatch_packet packet m ≢ fault
    by_type TypeMessage.pong e = rw (e, dispatch_packet) (λ h. cc)
    by_type TypeMessage.register e = elim (Option-cases (as_rigister packet)) [
      | inl bad ↦ absurd (tagged e bad)
      | inr (p, good) ↦ rw (e, good, dispatch_packet) (λ h. cc)
    ]
    by_type TypeMessage.ping e = rw (e, dispatch_packet) (λ h. cc)
    by_type TypeMessage.notify e = rw (e, dispatch_packet) (λ h. cc)
    by_type TypeMessage.other e = rw (e, dispatch_packet) (λ h. cc)
    by_type (TypeMessage.unnamed n) e = rw (e, dispatch_packet) (λ h. cc)

handled-ne-fault : (t : Turn Manager) → t ≢ fault → handled t ≢ fault
handled-ne-fault sleeps h = λ e. cc
handled-ne-fault ends h = λ e. cc
handled-ne-fault fault h = λ e. h refl
handled-ne-fault (goes_on m) h = λ e. cc

handle_packet-ne-fault :
    (packet : AnyPacket) (m : Manager) → IsTagged packet → handle_packet (some packet) m ≢ fault
unfolding handle_packet
handle_packet-ne-fault packet m tagged = by_running m.running
  where
    by_running : (b : Bool) → (if not b then ends else handled (dispatch_packet packet m)) ≢ fault
    by_running true =
        handled-ne-fault (dispatch_packet packet m) (dispatch_packet-ne-fault packet m tagged)
    by_running false = λ e. cc

stopped_turn :
    (local : Option AnyPacket) (m : Manager) → m.running ≡ false → handle_packet local m ≡ ends
unfolding handle_packet
stopped_turn none m off = ground arith
stopped_turn (some packet) m off = ground arith

-- If every queued packet that says REGISTER is a `RigisterPacket`, and the queue runs while the
-- manager does, no turn of the receiving thread faults, whatever packet its local pointer holds.
pub handle_received_data-ne-fault :
    (local : Option AnyPacket) (m : Manager)
    → IsServed m
    → All IsTagged m.received_io_queue.queue
    → handle_received_data local m ≢ fault
unfolding handle_received_data
handle_received_data-ne-fault local m served tagged =
    elim (wait_and_pop_cases m.received_io_queue) [
      | inl (off, e) ↦ rw (e, handle_received_data, stopped_turn local m (idle off)) (λ h. cc)
      | inr (inl (on, empty, e)) ↦ rw (e, handle_received_data) (λ h. cc)
      | inr (inr (packet, rest, on, full, e)) ↦
          rw (e, handle_received_data)
            (handle_packet-ne-fault packet _ (subst (All IsTagged) full tagged).0)
    ]
  where
    idle : m.received_io_queue.running ≡ false → m.running ≡ false
    idle off = elim (Bool-cases m.running) [
      | inl on ↦ cc (served.receiving on)
      | inr no_run ↦ no_run
    ]

-- `start` makes the queues run with the manager, from any state.
pub start-IsServed : (m : Manager) → IsServed m → IsServed (start m).0
unfolding start SafeQueue.start
start-IsServed m v = ground arith

-- So does `stop`, after which neither runs.
pub stop-IsServed : (m : Manager) → IsServed m → IsServed (stop m).0
unfolding stop SafeQueue.stop
stop-IsServed m v = ground arith
