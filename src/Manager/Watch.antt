-- ===== src/Manager/Watch.antt =====
-- The manager of source/NodeManagament.cpp and the threads of its nodes together: a history of their
-- turns in any order, with `start` and `stop`. A round of a node is one step here, so that no step of
-- the manager falls between the message of a death and the `stop` behind it. The packets that the IO
-- handler takes and brings are arbitrary.
pub mod Ports
pub mod Keeping
pub mod Lost
pub mod Unheard
pub mod Honest
pub mod News
pub mod Deletion
pub mod Deaths
mod Examples
use node_management.Common.{ℕ, ◌≡◌, Bool, true, List, [], ◌∷◌, Option, some, get_elem?, set}
use node_management.Types.{MessageState}
use node_management.Packet.{AnyPacket}
use node_management.SafeQueue.{SafeQueue, push}
use node_management.Node.{NodeBase, Round, thread_round}
use node_management.Manager.{Manager, start, stop, goes_on, handle_send_data, handle_received_data}

-- With the local variable of `handleSendData`.
pub record Watch : Type 0 where
  pub manager : Manager
  pub message : MessageState

abbrev pub watch : Manager → MessageState → Watch
watch m s = record { manager = m; message = s }

-- The messages of a node go to the queue in their order.
unfoldable pub push_messages : List MessageState → SafeQueue MessageState → SafeQueue MessageState
push_messages [] q = q
push_messages (s ∷ messages) q = push_messages messages (push q s true)

-- After a round of the thread of node number `i` of the vector.
abbrev pub after_round : ℕ → NodeBase → List MessageState → Manager → Manager
after_round i after sent m = record m {
  vec_node_base = set m.vec_node_base i after;
  message_node_queue = push_messages sent m.message_node_queue;
}

pub data Watches (first : Watch) : Watch → Type 0 where
  begins : Watches first first
  sends :
      {w : Watch} {s : MessageState} {m : Manager}
      → Watches first w
      → handle_send_data w.message w.manager ≡ goes_on (s, m)
      → Watches first (watch m s)
  receives :
      {w : Watch} {m : Manager} (before after : Option AnyPacket)
      → Watches first w
      → handle_received_data before w.manager ≡ goes_on (after, m)
      → Watches first (watch m w.message)
  rounds :
      {w : Watch} {node after : NodeBase} {sent : List MessageState} {over : Bool} (i : ℕ)
      (r : Round)
      → Watches first w
      → get_elem? w.manager.vec_node_base i ≡ some node
      → thread_round r node ≡ some (after, sent, over)
      → Watches first (watch (after_round i after sent w.manager) w.message)
  packets :
      {w : Watch} (received sending : SafeQueue AnyPacket)
      → Watches first w
      → received.running ≡ w.manager.received_io_queue.running
      → Watches first (
          watch
            (record w.manager { received_io_queue = received; send_io_queue = sending })
            w.message)
  starts :
      {w : Watch} (s : MessageState) → Watches first w → Watches first (watch (start w.manager).0 s)
  stops : {w : Watch} → Watches first w → Watches first (watch (stop w.manager).0 w.message)
