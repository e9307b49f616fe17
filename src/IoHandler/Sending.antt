-- ===== src/IoHandler/Sending.antt =====
-- From a packet in the queue of the manager to a datagram.
use node_management.Common.{
  ℕ, ◌/◌, ◌%◌, ◌≡◌, refl, ap, ◌∙◌, Bool, true, false, List, [], ◌∷◌, Option, none, some, All,
  if◌then◌else◌, ◌==◌,
}
use node_management.Types.{TypeMessage, StateList, MessageState, type_node_int, state_int}
use node_management.Wire.Octets.{IsBytes}
use node_management.Packet.{
  Packet, NotifyPacket, AnyPacket, plain_packet, ping_packet, pong_packet, rigister_packet,
  notify_packet, base_of, set_message_type,
}
use node_management.Packet.Encoding.{terminated, encode_ping_lem, encode_notify_lem}
use node_management.SafeQueue.{SafeQueue, push, wait_and_pop}
use node_management.SafeQueue.Contents.{push-All}
use node_management.Node.{NodeBase}
use node_management.Udp
use node_management.Udp.{send_data_udp}
use node_management.Manager.{
  Manager, goes_on, notify_for, notify_all_nodes, erase_node, check_ping_message,
  check_notify_message, dispatch_message,
}
use node_management.IoHandler.{IoHandler, serialize, send_all, tx_packet, handle_tx_thread}

-- A packet that the manager may put into the sending queue.
abbrev pub IsSendable : AnyPacket → Type 0
IsSendable (ping_packet p) = (p.type_message ≡ TypeMessage.ping) × IsBytes p.mes
IsSendable (notify_packet p) = (p.type_message ≡ TypeMessage.notify) × IsBytes p.mes
IsSendable (plain_packet p) = ⊥
IsSendable (pong_packet p) = ⊥
IsSendable (rigister_packet p) = ⊥

-- The bytes of such a packet.
abbrev pub wire_of : AnyPacket → List ℕ
wire_of (ping_packet p) = 1 ∷ p.payload_lengh % 256 ∷ terminated 17 p.mes
wire_of (notify_packet p) =
    3
    ∷ p.payload_lengh % 256
    ∷ type_node_int p.type_node % 256
    ∷ p.port_node_notify / 256 % 256
    ∷ p.port_node_notify % 256
    ∷ state_int p.state_node_notify % 256
    ∷ terminated 33 p.mes
wire_of (plain_packet p) = []
wire_of (pong_packet p) = []
wire_of (rigister_packet p) = []

serialize_ping :
    (p : Packet)
    → IsBytes p.mes
    → serialize (ping_packet (set_message_type TypeMessage.ping p))
      ≡ some (wire_of (ping_packet p) ∷ [])
unfolding serialize
serialize_ping p b = rw (encode_ping_lem (set_message_type TypeMessage.ping p) b) refl

abbrev as_notifying : NotifyPacket → NotifyPacket
as_notifying p = record p { packet = set_message_type TypeMessage.notify p.packet }

serialize_notify :
    (p : NotifyPacket)
    → IsBytes p.mes
    → serialize (notify_packet (as_notifying p)) ≡ some (wire_of (notify_packet p) ∷ [])
unfolding serialize
serialize_notify p b = rw (encode_notify_lem (as_notifying p) b) refl

pub serialize_lem :
    (packet : AnyPacket) → IsSendable packet → serialize packet ≡ some (wire_of packet ∷ [])
serialize_lem (ping_packet p) (e, b) =
    ap (λ x. serialize (ping_packet x)) {x = p} {y = set_message_type TypeMessage.ping p}
      (λ i. record p { type_message = e i })
    ∙ serialize_ping p b
serialize_lem (notify_packet p) (e, b) =
    ap (λ x. serialize (notify_packet x)) {x = p} {y = as_notifying p}
      (λ i. record p { packet = record p.packet { type_message = e i } })
    ∙ serialize_notify p b
serialize_lem (plain_packet p) h = absurd h
serialize_lem (pong_packet p) h = absurd h
serialize_lem (rigister_packet p) h = absurd h

sent_lem :
    (packet : AnyPacket) (fails : Bool) (ctx : Udp.SharedContext)
    → IsSendable packet
    → send_all (base_of packet).client_addr fails ctx (wire_of packet ∷ [])
      ≡ record {
        through = ctx;
        message = wire_of packet;
        target_addr = (base_of packet).client_addr;
      }
        ∷ []
unfolding send_data_udp
sent_lem (ping_packet p) fails ctx h = refl
sent_lem (notify_packet p) fails ctx h = refl
sent_lem (plain_packet p) fails ctx h = absurd h
sent_lem (pong_packet p) fails ctx h = absurd h
sent_lem (rigister_packet p) fails ctx h = absurd h

-- If the handler and the queue run, and the oldest packet is a PING or a NOTIFY packet with a text of
-- bytes, a turn of the sending thread takes it and sends its bytes once, to its address, through the
-- socket of the handler, whether `sendto` fails or not.
pub handle_tx_thread_lem :
    (fails : Bool) (local : Option AnyPacket) (io : IoHandler) (packet : AnyPacket)
    (rest : List AnyPacket)
    → io.running ≡ true
    → IsSendable packet
    → handle_tx_thread fails local io (record { queue = packet ∷ rest; running = true })
      ≡ goes_on (
        none,
        record { queue = rest; running = true },
        record {
          through = io.ctx;
          message = wire_of packet;
          target_addr = (base_of packet).client_addr;
        }
            ∷ [],
      )
unfolding handle_tx_thread tx_packet wait_and_pop
handle_tx_thread_lem fails local io packet rest on h =
    rw (on, serialize_lem packet h, sent_lem packet fails io.ctx h) refl

abbrev Sends : Manager → Type 0
Sends m = All IsSendable m.send_io_queue.queue

notify_all_nodes-IsSendable :
    (s : MessageState) (nodes : List NodeBase) (q : SafeQueue AnyPacket)
    → IsBytes s.message
    → All IsSendable q.queue
    → All IsSendable (notify_all_nodes s nodes q).queue
unfolding notify_all_nodes
notify_all_nodes-IsSendable s [] q b h = h
notify_all_nodes-IsSendable s (node ∷ nodes) q b h =
    notify_all_nodes-IsSendable s nodes (push q (notify_packet (notify_for s node)) true) b
      (push-All IsSendable q (notify_packet (notify_for s node)) true h (refl, b))

check_notify-IsSendable :
    (s : MessageState) (m : Manager)
    → IsBytes s.message
    → All IsSendable m.send_io_queue.queue
    → All IsSendable (check_notify_message s m).send_io_queue.queue
unfolding check_notify_message
check_notify-IsSendable s m b h = by_state s.state
  where
    by_state :
        (state : StateList)
        → Sends (elim state as (λ st. Manager) [
          | StateList.timeout ↦ record m {
            send_io_queue = notify_all_nodes s m.vec_node_base m.send_io_queue;
          }
          | StateList.dead ↦ record m {
            vec_node_base = erase_node s.client_addr.sin_port m.vec_node_base;
          }
          | StateList.init ↦ m
          | StateList.alive ↦ m
          | StateList.max ↦ m
        ])
    by_state StateList.timeout = notify_all_nodes-IsSendable s m.vec_node_base m.send_io_queue b h
    by_state StateList.dead = h
    by_state StateList.init = h
    by_state StateList.alive = h
    by_state StateList.max = h

check_ping-IsSendable :
    (s : MessageState) (m : Manager)
    → IsBytes s.message
    → All IsSendable m.send_io_queue.queue
    → All IsSendable (check_ping_message s m).send_io_queue.queue
unfolding check_ping_message
check_ping-IsSendable s m b h = push-All IsSendable m.send_io_queue _ true h (refl, b)

-- Whatever message of a node the manager handles, if its text is bytes, the sending queue keeps
-- holding nothing but packets that the handler can cast and encode.
pub dispatch_message-IsSendable :
    (s : MessageState) (m : Manager)
    → IsBytes s.message
    → All IsSendable m.send_io_queue.queue
    → All IsSendable (dispatch_message s m).send_io_queue.queue
unfolding dispatch_message
dispatch_message-IsSendable s m b h = by_type (s.message_type == 0) (s.message_type == 1)
  where
    by_type :
        (p n : Bool)
        → Sends (if p then check_ping_message s m else if n then check_notify_message s m else m)
    by_type true n = check_ping-IsSendable s m b h
    by_type false true = check_notify-IsSendable s m b h
    by_type false false = h
