-- ===== src/IoHandler.antt =====
-- `IOHandler` of source/IOHandler.cpp with `checkMessageType` of source/Utils.cpp. The queues of
-- packets belong to the manager and are passed to the functions that use them.
pub mod Receiving
pub mod Sending
pub mod Shutdown
mod Examples
use node_management.Common.{
  ℕ, Bool, true, false, not, List, [], ◌∷◌, Option, none, some, ◌>>=◌, if◌then◌else◌,
}
use node_management.Types.{TypeMessage, SockaddrIn, to_type_message}
use node_management.Wire.{get_bits}
use node_management.Packet.{
  Packet, RigisterPacket, AnyPacket, rigister_packet, pong_packet, base_of, as_ping, as_notify,
  new_packet, new_rigister_packet, set_sockaddr, decode_rigister, decode_pong, encode_ping,
  encode_notify,
}
use node_management.SafeQueue
use node_management.SafeQueue.{
  SafeQueue, waits, failed, unchanged, popped, wait_and_pop, push, new_queue,
}
use node_management.Udp
use node_management.Udp.{
  SharedContext, shared_context, DataReceivedUdp, UdpReceived, new_udp_received, send_data_udp,
}
use node_management.Manager.{Turn, sleeps, ends, fault, goes_on}

pub record IoHandler : Type 0 where
  pub running : Bool
  pub ctx : SharedContext
  pub udp_received : UdpReceived
  pub buffer_udp_recv : SafeQueue DataReceivedUdp

abbrev pub new_io_handler : IoHandler
new_io_handler = record {
  running = false;
  ctx = shared_context;
  udp_received = new_udp_received;
  buffer_udp_recv = new_queue;
}

abbrev pub set_udp_socket : SharedContext → IoHandler → IoHandler
set_udp_socket ctx io = record io { ctx = ctx }

-- `start` and `stop` without their threads, on the handler and the sending queue.
unfoldable pub start : IoHandler → SafeQueue AnyPacket → IoHandler × SafeQueue AnyPacket × Bool
start io q =
    if not io.running
    then (
      record io {
        running = true;
        udp_received = (Udp.start io.ctx io.udp_received).0;
        buffer_udp_recv = SafeQueue.start io.buffer_udp_recv;
      },
      SafeQueue.start q,
      true,
    )
    else (io, q, false)

unfoldable pub stop : IoHandler → SafeQueue AnyPacket → IoHandler × SafeQueue AnyPacket × Bool
stop io q =
    if io.running
    then (
      record io { running = false; buffer_udp_recv = SafeQueue.stop io.buffer_udp_recv },
      SafeQueue.stop q,
      true,
    )
    else (io, q, false)

-- `checkMessageType`.
unfoldable pub check_message_type : List ℕ → Option TypeMessage
check_message_type buffer = do
  (type_message, _) ← get_bits buffer 0 8
  some (to_type_message type_message)

-- The packet that `pushMessageReceived` makes, if it makes one; `none` is a fault.
unfoldable pub parse : TypeMessage → List ℕ → SockaddrIn → Option (List AnyPacket)
parse TypeMessage.register buffer addr = do
  p ← decode_rigister buffer new_rigister_packet
  some (rigister_packet (record p { packet = set_sockaddr addr p.packet }) ∷ [])
parse TypeMessage.pong buffer addr = do
  p ← decode_pong buffer new_packet
  some (pong_packet (set_sockaddr addr p) ∷ [])
parse TypeMessage.ping buffer addr = some []
parse TypeMessage.notify buffer addr = some []
parse TypeMessage.other buffer addr = some []
parse (TypeMessage.unnamed n) buffer addr = some []

abbrev pub push_all : SafeQueue AnyPacket → List AnyPacket → SafeQueue AnyPacket
push_all q [] = q
push_all q (p ∷ ps) = push_all (push q p true) ps

unfoldable pub push_message_received :
    TypeMessage → List ℕ → SockaddrIn → SafeQueue AnyPacket → Option (SafeQueue AnyPacket)
push_message_received type_message buffer addr q = do
  packets ← parse type_message buffer addr
  some (push_all q packets)

-- What `handleRxThread` does with a buffer.
unfoldable pub receive : DataReceivedUdp → SafeQueue AnyPacket → Option (SafeQueue AnyPacket)
receive data_pdu q = do
  type_message ← check_message_type data_pdu.buffer
  push_message_received type_message data_pdu.buffer data_pdu.client_addr q

-- A turn of `handleRxThread` behind the queue, and the whole turn, with its local variable.
unfoldable pub rx_received :
    DataReceivedUdp
    → IoHandler
    → SafeQueue AnyPacket
    → Turn (DataReceivedUdp × IoHandler × SafeQueue AnyPacket)
rx_received data_pdu io q =
    if not io.running
    then ends
    else elim (receive data_pdu q) [ none ↦ fault | some q' ↦ goes_on (data_pdu, io, q') ]

unfoldable pub handle_rx_thread :
    DataReceivedUdp
    → IoHandler
    → SafeQueue AnyPacket
    → Turn (DataReceivedUdp × IoHandler × SafeQueue AnyPacket)
handle_rx_thread data_pdu io q = elim (wait_and_pop io.buffer_udp_recv) [
  | waits ↦ sleeps
  | failed ↦ rx_received data_pdu io q
  | unchanged ↦ rx_received data_pdu io q
  | popped next rest ↦ rx_received next (record io { buffer_udp_recv = rest }) q
]

-- The bytes that `handleTxThread` makes of a packet: none for a packet that it does not send, a
-- fault for an undefined cast or an access outside the buffer.
unfoldable pub serialize : AnyPacket → Option (List (List ℕ))
serialize packet = elim (base_of packet).type_message [
  | TypeMessage.ping ↦ (do p ← as_ping packet; st_buffer ← encode_ping p; some (st_buffer ∷ []))
  | TypeMessage.notify ↦ (do
    p ← as_notify packet
    st_buffer ← encode_notify p
    some (st_buffer ∷ []))
  | TypeMessage.register ↦ some []
  | TypeMessage.pong ↦ some []
  | TypeMessage.other ↦ some []
  | TypeMessage.unnamed n ↦ some []
]

abbrev pub send_all : SockaddrIn → Bool → SharedContext → List (List ℕ) → List Udp.Sending
send_all addr fails ctx [] = []
send_all addr fails ctx (m ∷ ms) = (send_data_udp addr fails m ctx).1

-- A turn of `handleTxThread` behind the queue, and the whole turn, with its local pointer and the
-- calls of `sendto`; `fails` is whether those fail, which changes nothing. The pointer is null after
-- a packet was handled and deleted, and starts at a packet of the base class.
unfoldable pub tx_packet :
    Bool
    → Option AnyPacket
    → IoHandler
    → SafeQueue AnyPacket
    → Turn (Option AnyPacket × SafeQueue AnyPacket × List Udp.Sending)
tx_packet fails none io q = if not io.running then ends else goes_on (none, q, [])
tx_packet fails (some packet) io q = if not io.running then ends else elim (serialize packet) [
  | none ↦ fault
  | some messages ↦ goes_on (none, q, send_all (base_of packet).client_addr fails io.ctx messages)
]

unfoldable pub handle_tx_thread :
    Bool
    → Option AnyPacket
    → IoHandler
    → SafeQueue AnyPacket
    → Turn (Option AnyPacket × SafeQueue AnyPacket × List Udp.Sending)
handle_tx_thread fails local io q = elim (wait_and_pop q) [
  | waits ↦ sleeps
  | failed ↦ tx_packet fails local io q
  | unchanged ↦ tx_packet fails local io q
  | popped packet rest ↦ tx_packet fails (some packet) io rest
]
