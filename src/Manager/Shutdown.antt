-- ===== src/Manager/Shutdown.antt =====
-- `stop` of source/NodeManagament.cpp and the two threads that it joins.
use node_management.Common.{◌≡◌, refl, Bool, true, false, List, Option, none, some}
use node_management.Types.{MessageState}
use node_management.Packet.{AnyPacket}
use node_management.SafeQueue
use node_management.SafeQueue.{SafeQueue, wait_and_pop, failed}
use node_management.Manager.{
  Manager, ends, stop, handle_message, handle_send_data, handle_packet, handle_received_data,
}

module _ {ℓ} {A : Type ℓ} where
  stopped_queue : (q : SafeQueue A) → (SafeQueue.stop q).running ≡ false
  unfolding SafeQueue.stop
  stopped_queue q = by_running q.queue q.running
    where
      by_running :
          (xs : List A) (b : Bool)
          → (SafeQueue.stop (record { queue = xs; running = b })).running ≡ false
      by_running xs true = refl
      by_running xs false = refl

  -- A queue that was stopped wakes its consumers with an error.
  pub stopped_wait : (q : SafeQueue A) → wait_and_pop (SafeQueue.stop q) ≡ failed
  unfolding wait_and_pop
  stopped_wait q = rw (stopped_queue q) refl

pub stopped_packet :
    (local : Option AnyPacket) (m : Manager) → m.running ≡ false → handle_packet local m ≡ ends
unfolding handle_packet
stopped_packet none m off = rw off refl
stopped_packet (some packet) m off = rw off refl

-- The state after `stop` was called while the manager ran.
abbrev halted : Manager → Manager
halted m = record m {
  running = false;
  received_io_queue = SafeQueue.stop m.received_io_queue;
  message_node_queue = SafeQueue.stop m.message_node_queue;
}

stop_running : (m : Manager) → m.running ≡ true → (stop m).0 ≡ halted m
unfolding stop
stop_running m on = rw on refl

halted_sending : (s : MessageState) (m : Manager) → handle_send_data s (halted m) ≡ ends
unfolding handle_send_data handle_message
halted_sending s m = rw (stopped_wait m.message_node_queue, handle_send_data) refl

halted_receiving :
    (local : Option AnyPacket) (m : Manager) → handle_received_data local (halted m) ≡ ends
unfolding handle_received_data
halted_receiving local m =
    rw (stopped_wait m.received_io_queue, handle_received_data)
      (stopped_packet local (halted m) refl)

-- Once a running manager was stopped, the next turn of each of its threads leaves the loop, whatever
-- the queues hold; neither sleeps.
pub stop-ends :
    (s : MessageState) (local : Option AnyPacket) (m : Manager)
    → m.running ≡ true
    → (handle_send_data s (stop m).0 ≡ ends) × (handle_received_data local (stop m).0 ≡ ends)
stop-ends s local m on = rw (stop_running m on) (halted_sending s m, halted_receiving local m)
