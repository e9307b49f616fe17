-- ===== src/AppCtrl/System.antt =====
-- All threads of the program as one step relation. A step is one turn of a thread, a call of the menu,
-- or what a node does on its own; the local variables of the threads are part of the state.
use node_management.Common.{◌≡◌, Bool, true, List, Option, some, All}
use node_management.Types.{SockaddrIn, MessageState}
use node_management.Wire.Octets.{IsBytes}
use node_management.Packet.{AnyPacket, plain_packet, new_packet}
use node_management.SafeQueue.{SafeQueue, push}
use node_management.Node.{NodeBase}
use node_management.Udp
use node_management.Udp.{
  DataReceivedUdp, data_received_udp, Received, rx_round, SetUp, init_udp_sock, shared_context,
  success_code,
}
use node_management.Udp.Buffers.{IsReceived}
use node_management.Manager
use node_management.Manager.{Manager, new_manager, goes_on, handle_send_data, handle_received_data}
use node_management.IoHandler
use node_management.IoHandler.{
  IoHandler, new_io_handler, set_udp_socket, handle_rx_thread, handle_tx_thread,
}

pub record System : Type 0 where
  pub manager : Manager
  pub io : IoHandler
  pub buffer : DataReceivedUdp
  pub outgoing : Option AnyPacket
  pub incoming : Option AnyPacket
  pub message : MessageState

-- The local variables when the threads start, with whatever stands in the addresses.
abbrev pub with_new_locals : SockaddrIn → MessageState → System → System
with_new_locals found message s = record s {
  buffer = data_received_udp found;
  outgoing = some (plain_packet new_packet);
  incoming = some (plain_packet new_packet);
  message = message;
}

abbrev pub new_system : SockaddrIn → MessageState → System
new_system found message = record {
  manager = new_manager;
  io = new_io_handler;
  buffer = data_received_udp found;
  outgoing = some (plain_packet new_packet);
  incoming = some (plain_packet new_packet);
  message = message;
}

pub data Reaches : System → Type 0 where
  begins :
      (found : SockaddrIn) (message : MessageState)
      → IsBytes message.message
      → Reaches (new_system found message)
  restarts :
      {s : System} (found : SockaddrIn) (message : MessageState)
      → Reaches s
      → IsBytes message.message
      → Reaches (with_new_locals found message s)
  udp_round :
      {s : System} (found : SockaddrIn) (attempts : List Received)
      → Reaches s
      → All IsReceived attempts
      → Reaches (record s {
        io = record s.io { buffer_udp_recv = rx_round found attempts s.io.buffer_udp_recv };
      })
  rx_turn :
      {s : System} {d : DataReceivedUdp} {io : IoHandler} {q : SafeQueue AnyPacket}
      → Reaches s
      → handle_rx_thread s.buffer s.io s.manager.received_io_queue ≡ goes_on (d, io, q)
      → Reaches
          (record s { buffer = d; io = io; manager = record s.manager { received_io_queue = q } })
  tx_turn :
      {s : System} {p : Option AnyPacket} {q : SafeQueue AnyPacket} {sent : List Udp.Sending}
      (fails : Bool)
      → Reaches s
      → handle_tx_thread fails s.outgoing s.io s.manager.send_io_queue ≡ goes_on (p, q, sent)
      → Reaches (record s { outgoing = p; manager = record s.manager { send_io_queue = q } })
  send_turn :
      {s : System} {t : MessageState} {m : Manager}
      → Reaches s
      → handle_send_data s.message s.manager ≡ goes_on (t, m)
      → Reaches (record s { message = t; manager = m })
  receive_turn :
      {s : System} {p : Option AnyPacket} {m : Manager}
      → Reaches s
      → handle_received_data s.incoming s.manager ≡ goes_on (p, m)
      → Reaches (record s { incoming = p; manager = m })
  node_sends :
      {s : System} (message : MessageState)
      → Reaches s
      → IsBytes message.message
      → Reaches (record s {
        manager = record s.manager {
          message_node_queue = push s.manager.message_node_queue message true;
        };
      })
  nodes_change :
      {s : System} (nodes : List NodeBase)
      → Reaches s
      → Reaches (record s { manager = record s.manager { vec_node_base = nodes } })
  sets_socket :
      {s : System} (answers : SetUp)
      → Reaches s
      → (init_udp_sock answers shared_context).1 ≡ success_code
      → Reaches (record s { io = set_udp_socket (init_udp_sock answers shared_context).0 s.io })
  starts_manager :
      {s : System} → Reaches s → Reaches (record s { manager = (Manager.start s.manager).0 })
  stops_manager :
      {s : System} → Reaches s → Reaches (record s { manager = (Manager.stop s.manager).0 })
  starts_io :
      {s : System}
      → Reaches s
      → Reaches (record s {
        io = (IoHandler.start s.io s.manager.send_io_queue).0;
        manager = record s.manager {
          send_io_queue = (IoHandler.start s.io s.manager.send_io_queue).1;
        };
      })
  stops_io :
      {s : System}
      → Reaches s
      → Reaches (record s {
        io = (IoHandler.stop s.io s.manager.send_io_queue).0;
        manager = record s.manager {
          send_io_queue = (IoHandler.stop s.io s.manager.send_io_queue).1;
        };
      })
