-- ===== src/IoHandler/Shutdown.antt =====
-- `stop` of source/IOHandler.cpp and the two threads that it joins.
use node_management.Common.{◌≡◌, refl, Bool, true, false, Option, none, some}
use node_management.Packet.{AnyPacket}
use node_management.SafeQueue
use node_management.SafeQueue.{SafeQueue}
use node_management.Udp.{DataReceivedUdp}
use node_management.Manager.{ends}
use node_management.Manager.Shutdown.{stopped_wait}
use node_management.IoHandler.{
  IoHandler, stop, rx_received, handle_rx_thread, tx_packet, handle_tx_thread,
}

stopped_tx :
    (fails : Bool) (local : Option AnyPacket) (io : IoHandler) (q : SafeQueue AnyPacket)
    → io.running ≡ false
    → tx_packet fails local io q ≡ ends
unfolding tx_packet
stopped_tx fails none io q off = rw off refl
stopped_tx fails (some packet) io q off = rw off refl

-- The state after `stop` was called while the handler ran.
abbrev halted : IoHandler → IoHandler
halted io = record io { running = false; buffer_udp_recv = SafeQueue.stop io.buffer_udp_recv }

stop_running :
    (io : IoHandler) (q : SafeQueue AnyPacket)
    → io.running ≡ true
    → stop io q ≡ (halted io, SafeQueue.stop q, true)
unfolding stop
stop_running io q on = rw on refl

halted_rx :
    (d : DataReceivedUdp) (io : IoHandler) (r : SafeQueue AnyPacket)
    → handle_rx_thread d (halted io) r ≡ ends
unfolding handle_rx_thread rx_received
halted_rx d io r = rw (stopped_wait io.buffer_udp_recv, handle_rx_thread) refl

halted_tx :
    (fails : Bool) (local : Option AnyPacket) (io : IoHandler) (q : SafeQueue AnyPacket)
    → handle_tx_thread fails local (halted io) (SafeQueue.stop q) ≡ ends
unfolding handle_tx_thread
halted_tx fails local io q =
    rw (stopped_wait q, handle_tx_thread)
      (stopped_tx fails local (halted io) (SafeQueue.stop q) refl)

-- Once a running handler was stopped, the next turn of its receiving and of its sending thread leaves
-- the loop, whatever the queues hold.
pub stop_handler-ends :
    (d : DataReceivedUdp) (fails : Bool) (local : Option AnyPacket) (io : IoHandler)
    (q r : SafeQueue AnyPacket)
    → io.running ≡ true
    → (handle_rx_thread d (stop io q).0 r ≡ ends)
      × (handle_tx_thread fails local (stop io q).0 (stop io q).1 ≡ ends)
stop_handler-ends d fails local io q r on =
    rw (stop_running io q on) (halted_rx d io r, halted_tx fails local io q)
