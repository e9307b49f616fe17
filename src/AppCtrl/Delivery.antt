-- ===== src/AppCtrl/Delivery.antt =====
-- The way of a datagram through the three receiving threads.
use node_management.Common.{
  ℕ, ◌+◌, ◌-◌, ◌≤◌, ◌≡◌, refl, ap, ◌∙◌, if◌then◌else◌, Bool, true, false, List, [], ◌∷◌, ◌++◌, none,
  arith, All, length, take, replicate, length-append, length-replicate,
}
use node_management.Types.{TypeNode, TypeMessage, SockaddrIn, to_type_node}
use node_management.Wire.Octets.{IsBytes, zeros-IsBytes, append-IsBytes}
use node_management.Packet.{AnyPacket, RigisterPacket, c_string}
use node_management.SafeQueue.{SafeQueue, new_queue, push, wait_and_pop}
use node_management.Udp.{
  Received, datagram, DataReceivedUdp, data_received_udp, rx_round, buffer_size,
}
use node_management.Udp.Buffers.{
  IsError, IsEmptyAnswer, address_of, wait_for-datagram, rx_round-empty,
}
use node_management.Manager.{
  Manager, Turn, sleeps, ends, fault, goes_on, check_register_message, is_monitored,
  push_node_to_vector, handle_packet, dispatch_packet, handle_received_data,
}
use node_management.Manager.Refinement.{view, enter, view-check_register_message}
use node_management.IoHandler.{IoHandler, handle_rx_thread, rx_received}
use node_management.IoHandler.Receiving.{receive_lem}

abbrev pub then_manager :
    Manager → Turn (DataReceivedUdp × IoHandler × SafeQueue AnyPacket) → Turn Manager
then_manager m sleeps = sleeps
then_manager m ends = ends
then_manager m fault = fault
then_manager m (goes_on (d, io, q)) =
    elim (handle_received_data none (record m { received_io_queue = q })) [
      | sleeps ↦ sleeps
      | ends ↦ ends
      | fault ↦ fault
      | goes_on r ↦ goes_on r.1
    ]

-- One round of the receiving thread of `UDPReceived`, one turn of that of `IOHandler`, and one turn
-- of that of `NodeManagament`, in this order.
unfoldable pub deliver :
    SockaddrIn → List Received → DataReceivedUdp → IoHandler → Manager → Turn Manager
deliver found attempts local io m = then_manager m (
    handle_rx_thread local
      (record io { buffer_udp_recv = rx_round found attempts io.buffer_udp_recv })
      m.received_io_queue)

-- The REGISTER packet for a datagram.
abbrev pub request : ℕ → ℕ → List ℕ → SockaddrIn → RigisterPacket
request n k rest addr = record {
  packet = record {
    type_message = TypeMessage.register;
    payload_lengh = n;
    mes = c_string (take (n - 3) rest);
    client_addr = addr;
  };
  type_node = to_type_node k;
}

-- A running handler and a running manager, with nothing in their queues.
abbrev pub idle_io : IoHandler → IoHandler
idle_io io = record io { running = true; buffer_udp_recv = new_queue }

abbrev pub idle_manager : Manager → Manager
idle_manager m = record m { running = true; received_io_queue = new_queue }

-- A request of the base type changes nothing, whether its port is monitored or not.
base_ignored :
    (p : RigisterPacket) (m : Manager)
    → p.type_node ≡ TypeNode.base
    → check_register_message p m ≡ m
unfolding check_register_message push_node_to_vector
base_ignored p m e = by_test (is_monitored p.client_addr.sin_port m.vec_node_base)
  where
    by_test : (b : Bool) → (if b then m else push_node_to_vector p m) ≡ m
    by_test true = refl
    by_test false = rw e refl

module _ (io : IoHandler) (m : Manager) (found : SockaddrIn) (local : DataReceivedUdp) where
  rest_of_way :
      (attempts : List Received) (n k : ℕ) (rest : List ℕ) (addr : SockaddrIn)
      → rx_round found attempts new_queue ≡ record {
        queue = record { buffer = 0 ∷ n ∷ k ∷ rest; client_addr = addr } ∷ [];
        running = true;
      }
      → length rest ≡ 253
      → IsBytes (0 ∷ n ∷ k ∷ rest)
      → deliver found attempts local (idle_io io) (idle_manager m)
        ≡ goes_on (check_register_message (request n k rest addr) (idle_manager m))
  unfolding deliver handle_rx_thread rx_received wait_and_pop push handle_received_data
      handle_packet dispatch_packet
  rest_of_way attempts n k rest addr e filled bytes =
      rw (e, receive_lem n k rest addr filled 0 new_queue bytes) refl

-- A datagram of at most 255 bytes that starts with the byte 0, a length byte `n` and a type byte `k`,
-- received after any number of failed attempts while both parts run and their queues are empty,
-- reaches the manager, which then has the node of type `k` at the sender's address under the next number, exactly if `k`
-- is one of the three types and the port is free; no other port changes.
pub register_datagram :
    (io : IoHandler) (m : Manager) (found : SockaddrIn) (local : DataReceivedUdp)
    (before after : List Received) (n k : ℕ) (text : List ℕ) (addr : SockaddrIn)
    → All IsError before
    → length text ≤ 252
    → IsBytes (0 ∷ n ∷ k ∷ text)
    → (next : Manager) × (deliver found
          (before ++ datagram (0 ∷ n ∷ k ∷ text) addr ∷ after)
          local
          (idle_io io)
          (idle_manager m)
        ≡ goes_on next)
      × ((port : ℕ)
          → view next port
            ≡ enter
                (record { node_type = to_type_node k; node_id = m.last_id + 1; addr = addr })
                (view m)
                port)
unfolding rx_round push
register_datagram io m found local before after n k text addr errors short bytes = (
  check_register_message (request n k whole addr) (idle_manager m),
  rest_of_way io m found local (before ++ datagram (0 ∷ n ∷ k ∷ text) addr ∷ after) n k whole addr
      (rw
        (wait_for-datagram before after 0 (n ∷ k ∷ text) addr (data_received_udp found) errors
          (omega arith))
        refl)
      (omega (arith, length-append text padding, length-replicate {A = ℕ} count 0))
      (append-IsBytes (0 ∷ n ∷ k ∷ text) padding bytes (zeros-IsBytes count)),
  λ port. view-check_register_message (request n k whole addr) (idle_manager m) port,
)
  where
    count : ℕ
    count = buffer_size - length (0 ∷ n ∷ k ∷ text)

    padding : List ℕ
    padding = replicate count 0

    whole : List ℕ
    whole = text ++ padding

-- An empty datagram or `WSAECONNRESET`, while both parts run and their queues are empty, passes through
-- all three threads, and the manager is as before.
pub empty_datagram :
    (io : IoHandler) (m : Manager) (found : SockaddrIn) (local : DataReceivedUdp) (r : Received)
    (after : List Received)
    → IsEmptyAnswer r
    → deliver found (r ∷ after) local (idle_io io) (idle_manager m) ≡ goes_on (idle_manager m)
unfolding push
empty_datagram io m found local r after h =
    rest_of_way io m found local (r ∷ after) 0 0 (replicate 253 0) (address_of r)
      (rx_round-empty found r after new_queue h) refl (zeros-IsBytes 256)
    ∙ ap goes_on (base_ignored (request 0 0 (replicate 253 0) (address_of r)) (idle_manager m) refl)
