-- ===== src/Manager.antt =====
-- `NodeManagament` of source/NodeManagament.cpp with the three queues that it reads and fills. The
-- vector owns the nodes; what a node's own thread does is in Node.
pub mod Registry
pub mod Invariant
pub mod Turns
pub mod History
pub mod Refinement
pub mod Casts
pub mod Notices
pub mod Shutdown
pub mod Removal
pub mod Frame
pub mod Log
pub mod Watch
mod Examples
use node_management.Common.{
  ℕ, zero, suc, ◌+◌, Bool, true, false, not, List, [], ◌∷◌, ◌++◌, Option, none, some, ◌==◌,
  if◌then◌else◌,
}
use node_management.Types.{
  TypeNode, base, data_plane, control_plane, oam, unnamed, TypeMessage, StateList, SockaddrIn,
  MessageState, message_state,
}
use node_management.Packet.{
  Packet, RigisterPacket, NotifyPacket, AnyPacket, ping_packet, notify_packet, plain_packet,
  base_of, as_rigister, new_packet, new_notify_packet, set_message_type, set_message, set_sockaddr,
  set_payload_lengh, ping_playloadlength, notify_playloadlength,
}
use node_management.SafeQueue
use node_management.SafeQueue.{
  SafeQueue, WaitResult, waits, failed, unchanged, popped, wait_and_pop, push,
}
use node_management.Node
use node_management.Node.{NodeBase, new_node, set_client_infor, set_pong_state, get_port_info}

-- `last_id` is the static counter of `NodeBase`, which only this class raises.
pub record Manager : Type 0 where
  pub vec_node_base : List NodeBase
  pub running : Bool
  pub last_id : ℕ
  pub message_node_queue : SafeQueue MessageState
  pub send_io_queue : SafeQueue AnyPacket
  pub received_io_queue : SafeQueue AnyPacket

-- The state before the first call.
abbrev pub new_manager : Manager
new_manager = record {
  vec_node_base = [];
  running = false;
  last_id = 0;
  message_node_queue = SafeQueue.new_queue;
  send_io_queue = SafeQueue.new_queue;
  received_io_queue = SafeQueue.new_queue;
}

-- `start` and `stop`, without the threads; the result is that of the call.
unfoldable pub start : Manager → Manager × Bool
start m =
    if not m.running
    then (
      record m {
        running = true;
        received_io_queue = SafeQueue.start m.received_io_queue;
        message_node_queue = SafeQueue.start m.message_node_queue;
      },
      true,
    )
    else (m, false)

unfoldable pub stop : Manager → Manager × Bool
stop m =
    if m.running
    then (
      record m {
        running = false;
        received_io_queue = SafeQueue.stop m.received_io_queue;
        message_node_queue = SafeQueue.stop m.message_node_queue;
      },
      true,
    )
    else (m, false)

-- The loop of `checkPongMessage`: the first node with that port is told.
unfoldable pub answer : ℕ → List NodeBase → List NodeBase
answer port [] = []
answer port (node ∷ nodes) =
    if get_port_info node == port
    then set_pong_state true node ∷ nodes
    else node ∷ answer port nodes

unfoldable pub check_pong_message : AnyPacket → Manager → Manager
check_pong_message packet m = record m {
  vec_node_base = answer (base_of packet).client_addr.sin_port m.vec_node_base;
}

-- The loop of `checkRegisterMessage`: is there a node with that port?
unfoldable pub is_monitored : ℕ → List NodeBase → Bool
is_monitored port [] = false
is_monitored port (node ∷ nodes) =
    if get_port_info node == port then true else is_monitored port nodes

-- A new node of one of the three classes, at the end of the vector, started. What stands in the
-- address of a new object does not matter, since it is overwritten.
unfoldable pub added : TypeNode → SockaddrIn → Manager → Manager
added node_type addr m = record m {
  vec_node_base =
      m.vec_node_base
      ++ Node.start (set_client_infor addr (new_node node_type m.last_id addr)) ∷ [];
  last_id = m.last_id + 1;
}

unfoldable pub push_node_to_vector : RigisterPacket → Manager → Manager
push_node_to_vector p m = elim p.type_node [
  | data_plane ↦ added data_plane p.client_addr m
  | control_plane ↦ added control_plane p.client_addr m
  | oam ↦ added oam p.client_addr m
  | base ↦ m
  | unnamed n ↦ m
]

unfoldable pub check_register_message : RigisterPacket → Manager → Manager
check_register_message p m =
    if is_monitored p.client_addr.sin_port m.vec_node_base then m else push_node_to_vector p m

-- `checkPingMessage`.
unfoldable pub check_ping_message : MessageState → Manager → Manager
check_ping_message s m = record m {
  send_io_queue =
      push m.send_io_queue
        (ping_packet (
          set_sockaddr s.client_addr (
            set_payload_lengh ping_playloadlength
              (set_message s.message (set_message_type TypeMessage.ping new_packet)))))
        true;
}

-- The packet of `checkNotifyMessage` for one node of the vector.
abbrev pub notify_for : MessageState → NodeBase → NotifyPacket
notify_for s node = record new_notify_packet {
  packet = set_payload_lengh notify_playloadlength (
      set_message s.message
        (set_message_type TypeMessage.notify (set_sockaddr node.client_addr new_packet)));
  type_node = s.type_node;
  state_node_notify = s.state;
  port_node_notify = s.client_addr.sin_port;
}

unfoldable pub notify_all_nodes :
    MessageState → List NodeBase → SafeQueue AnyPacket → SafeQueue AnyPacket
notify_all_nodes s [] q = q
notify_all_nodes s (node ∷ nodes) q =
    notify_all_nodes s nodes (push q (notify_packet (notify_for s node)) true)

-- The loop that deletes the dead node: the first one with that port.
unfoldable pub erase_node : ℕ → List NodeBase → List NodeBase
erase_node port [] = []
erase_node port (node ∷ nodes) =
    if get_port_info node == port then nodes else node ∷ erase_node port nodes

unfoldable pub check_notify_message : MessageState → Manager → Manager
check_notify_message s m = elim s.state [
  | StateList.timeout ↦ record m {
    send_io_queue = notify_all_nodes s m.vec_node_base m.send_io_queue;
  }
  | StateList.dead ↦ record m { vec_node_base = erase_node s.client_addr.sin_port m.vec_node_base }
  | StateList.init ↦ m
  | StateList.alive ↦ m
  | StateList.max ↦ m
]

-- One turn of a thread's loop: it sleeps in its queue, leaves the loop, goes on, or faults.
pub data Turn {ℓ} (A : Type ℓ) : Type ℓ where
  sleeps ends fault : Turn A
  goes_on : A → Turn A

-- The part of `handleSendData` behind the queue.
unfoldable pub dispatch_message : MessageState → Manager → Manager
dispatch_message s m =
    if s.message_type == 0
    then check_ping_message s m
    else if s.message_type == 1
    then check_notify_message s m
    else m

-- A turn of `handleSendData` behind the queue, and the whole turn; `s` is its local variable, which
-- keeps the last message.
unfoldable pub handle_message : MessageState → Manager → Turn (MessageState × Manager)
handle_message s m = if not m.running then ends else goes_on (s, dispatch_message s m)

unfoldable pub handle_send_data : MessageState → Manager → Turn (MessageState × Manager)
handle_send_data s m = elim (wait_and_pop m.message_node_queue) [
  | waits ↦ sleeps
  | failed ↦ handle_message s m
  | unchanged ↦ handle_message s m
  | popped t q ↦ handle_message t (record m { message_node_queue = q })
]

-- The part of `handleReceivedData` behind the queue.
unfoldable pub dispatch_packet : AnyPacket → Manager → Turn Manager
dispatch_packet packet m = elim (base_of packet).type_message [
  | TypeMessage.pong ↦ goes_on (check_pong_message packet m)
  | TypeMessage.register ↦ elim (as_rigister packet) [
    | none ↦ fault
    | some p ↦ goes_on (check_register_message p m)
  ]
  | TypeMessage.ping ↦ goes_on m
  | TypeMessage.notify ↦ goes_on m
  | TypeMessage.other ↦ goes_on m
  | TypeMessage.unnamed n ↦ goes_on m
]

-- The local pointer is null after a packet was handled and deleted.
abbrev pub handled : Turn Manager → Turn (Option AnyPacket × Manager)
handled sleeps = sleeps
handled ends = ends
handled fault = fault
handled (goes_on m) = goes_on (none, m)

-- A turn of `handleReceivedData` behind the queue, with its local pointer, and the whole turn. The
-- pointer starts at a packet of the base class.
unfoldable pub handle_packet : Option AnyPacket → Manager → Turn (Option AnyPacket × Manager)
handle_packet none m = if not m.running then ends else goes_on (none, m)
handle_packet (some packet) m = if not m.running then ends else handled (dispatch_packet packet m)

unfoldable pub handle_received_data : Option AnyPacket → Manager → Turn (Option AnyPacket × Manager)
handle_received_data local m = elim (wait_and_pop m.received_io_queue) [
  | waits ↦ sleeps
  | failed ↦ handle_packet local m
  | unchanged ↦ handle_packet local m
  | popped packet q ↦ handle_packet (some packet) (record m { received_io_queue = q })
]
