-- ===== src/Manager/Notices.antt =====
-- What the manager sends: a PING for each message of a node, and a NOTIFY for each node when one has
-- a timeout, down to the bytes.
use mathlib.Core.List.{append-nil, append_assoc}
use node_management.Common.{
  ◌+◌, ◌/◌, ◌%◌, ◌≤◌, ◌<◌, ◌≡◌, refl, ◌∙◌, true, List, [], ◌∷◌, ◌++◌, map, some, arith, length,
  length-append,
}
use node_management.Types.{TypeMessage, MessageState, type_node_int, timeout}
use node_management.Wire.Octets.{IsBytes}
use node_management.Packet.{
  AnyPacket, ping_packet, notify_packet, encode_ping, encode_notify, Packet, new_packet,
  set_message, set_message_type, set_payload_lengh, set_sockaddr, ping_playloadlength,
}
use node_management.Packet.Encoding.{terminated, encode_ping_lem, encode_notify_lem}
use node_management.SafeQueue.{SafeQueue, max_safe_queue, push}
use node_management.Node.{NodeBase}
use node_management.Manager.{
  Manager, notify_for, notify_all_nodes, check_notify_message, check_ping_message,
}

push_room :
    (q : SafeQueue AnyPacket) (p : AnyPacket)
    → q.running ≡ true
    → length q.queue < max_safe_queue
    → push q p true ≡ record { queue = q.queue ++ p ∷ []; running = true }
unfolding push
push_room q p on room = ground arith

notifies :
    (s : MessageState) (m : Manager)
    → s.state ≡ timeout
    → check_notify_message s m
      ≡ record m { send_io_queue = notify_all_nodes s m.vec_node_base m.send_io_queue }
unfolding check_notify_message
notifies s m e = rw e refl

notify_all_nodes_lem :
    (s : MessageState) (nodes : List NodeBase) (q : SafeQueue AnyPacket)
    → q.running ≡ true
    → length q.queue + length nodes ≤ max_safe_queue
    → notify_all_nodes s nodes q ≡ record {
      queue = q.queue ++ map (λ node. notify_packet (notify_for s node)) nodes;
      running = true;
    }
unfolding notify_all_nodes
notify_all_nodes_lem s [] q on room = rw append-nil (ground arith)
notify_all_nodes_lem s (node ∷ nodes) q on room =
    rw
      (
        push_room q (notify_packet (notify_for s node)) on (omega arith),
        notify_all_nodes_lem s nodes
            (record { queue = q.queue ++ notify_packet (notify_for s node) ∷ []; running = true })
            refl (omega (arith, length-append q.queue (notify_packet (notify_for s node) ∷ []))),
        append_assoc,
      )
      refl

-- When a node has a timeout, and the sending queue runs and has room, one NOTIFY packet for each
-- monitored node, that node itself included, joins the queue in the order of the vector: each goes to
-- the address of the node that it is for, with length 40, the message, and the type, port and state
-- TIMEOUT of the node that has the timeout. Nothing else of the manager changes.
pub check_notify_message-timeout :
    (s : MessageState) (m : Manager)
    → s.state ≡ timeout
    → m.send_io_queue.running ≡ true
    → length m.send_io_queue.queue + length m.vec_node_base ≤ max_safe_queue
    → check_notify_message s m ≡ record m {
      send_io_queue = record {
        queue =
            m.send_io_queue.queue
            ++ map
                (λ node. notify_packet (record {
                  packet = record {
                    type_message = TypeMessage.notify;
                    payload_lengh = 40;
                    mes = s.message;
                    client_addr = node.client_addr;
                  };
                  type_node = s.type_node;
                  port_node_notify = s.client_addr.sin_port;
                  state_node_notify = timeout;
                }))
                m.vec_node_base;
        running = true;
      };
    }
check_notify_message-timeout s m e on room =
    notifies s m e
    ∙ (λ i. record m {
      send_io_queue = notify_all_nodes_lem s m.vec_node_base m.send_io_queue on room i;
    })
    ∙ (λ i. record m {
      send_io_queue = record {
        queue =
            m.send_io_queue.queue
            ++ map (λ node. notify_packet (record (notify_for s node) { state_node_notify = e i }))
                m.vec_node_base;
        running = true;
      };
    })

-- The bytes of that packet: type 3, length 40, the type of the node with the timeout, its port as it
-- stands in its address, state 2, and the message.
pub encode_notify-notify_for :
    (s : MessageState) (node : NodeBase)
    → IsBytes s.message
    → s.state ≡ timeout
    → encode_notify (notify_for s node)
      ≡ some (
          3
          ∷ 40
          ∷ type_node_int s.type_node % 256
          ∷ s.client_addr.sin_port / 256 % 256
          ∷ s.client_addr.sin_port % 256
          ∷ 2
          ∷ terminated 33 s.message)
encode_notify-notify_for s node bytes e = encode_notify_lem (notify_for s node) bytes ∙ (rw e refl)

abbrev ping_for : MessageState → Packet
ping_for s = set_sockaddr s.client_addr (
    set_payload_lengh ping_playloadlength
      (set_message s.message (set_message_type TypeMessage.ping new_packet)))

-- A ping message of a node puts one packet at the end of a sending queue that runs and has room; the
-- packet goes to the node's address, and its bytes are type 1, length 20, and the message.
pub check_ping_message_lem :
    (s : MessageState) (m : Manager)
    → IsBytes s.message
    → m.send_io_queue.running ≡ true
    → length m.send_io_queue.queue < max_safe_queue
    → (p : Packet) × (check_ping_message s m ≡ record m {
      send_io_queue = record {
        queue = m.send_io_queue.queue ++ ping_packet p ∷ [];
        running = true;
      };
    })
      × (p.client_addr ≡ s.client_addr)
      × (p.type_message ≡ TypeMessage.ping)
      × (encode_ping p ≡ some (1 ∷ 20 ∷ terminated 17 s.message))
unfolding check_ping_message
check_ping_message_lem s m bytes on room = (
  ping_for s,
  (λ i. record m {
    send_io_queue = push_room m.send_io_queue (ping_packet (ping_for s)) on room i;
  }),
  refl,
  refl,
  encode_ping_lem (ping_for s) bytes,
)
