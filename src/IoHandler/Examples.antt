-- ===== src/IoHandler/Examples.antt =====
-- Concrete buffers and packets.
use node_management.Common.{ℕ, ◌≡◌, refl, true, false, List, [], ◌∷◌, none, arith, replicate}
use node_management.Types.{
  TypeNode, TypeMessage, StateList, SockaddrIn, MessageState, message_state,
}
use node_management.Wire.Octets.{IsBytes, zeros-IsBytes}
use node_management.Packet.{Packet, ping_packet}
use node_management.Packet.Encoding.{terminated}
use node_management.SafeQueue.{new_queue}
use node_management.Udp.{data_received_udp, shared_context}
use node_management.Manager.{ends, goes_on}
use node_management.IoHandler.{IoHandler, new_io_handler, stop, handle_rx_thread, handle_tx_thread}
use node_management.IoHandler.Sending.{handle_tx_thread_lem}
use node_management.IoHandler.Shutdown.{stop_handler-ends}

abbrev an_address : SockaddrIn
an_address = record { sin_port = 4660; sin_addr = 16777343 }

abbrev pong_tail : List ℕ
pong_tail = replicate 253 0

pong_buffer-IsBytes : IsBytes (2 ∷ 3 ∷ 79 ∷ pong_tail)
pong_buffer-IsBytes = (omega arith, (omega arith, (omega arith, zeros-IsBytes 253)))

abbrev running_io : IoHandler
running_io = record new_io_handler { running = true }

-- A running handler with a PONG in its queue.
abbrev pong_io : IoHandler
pong_io = record running_io {
  buffer_udp_recv = record {
    queue = record { buffer = 2 ∷ 3 ∷ 79 ∷ pong_tail; client_addr = an_address } ∷ [];
    running = true;
  };
}

abbrev a_ping : Packet
a_ping = record {
  type_message = TypeMessage.ping;
  payload_lengh = 20;
  mes = 80 ∷ [];
  client_addr = an_address;
}

handle_tx_thread_example :
    handle_tx_thread false none running_io
      (record { queue = ping_packet a_ping ∷ []; running = true })
    ≡ goes_on (
      none,
      record { queue = []; running = true },
      record {
        through = shared_context;
        message = 1 ∷ 20 ∷ terminated 17 (80 ∷ []);
        target_addr = an_address;
      }
          ∷ [],
    )
handle_tx_thread_example =
    handle_tx_thread_lem false none running_io (ping_packet a_ping) [] refl
      (refl, (omega arith, tt))

abbrev ping_wanted : MessageState
ping_wanted = record (message_state 1 TypeNode.oam StateList.alive 0 an_address) {
  message = 80 ∷ [];
}

stop_handler-ends_example :
    (handle_rx_thread (data_received_udp an_address) (stop running_io new_queue).0 new_queue ≡ ends)
    × (handle_tx_thread false none (stop running_io new_queue).0 (stop running_io new_queue).1
        ≡ ends)
stop_handler-ends_example =
    stop_handler-ends (data_received_udp an_address) false none running_io new_queue new_queue refl
