-- ===== src/Manager/Frame.antt =====
-- What the handlers of the manager leave alone.
use node_management.Common.{◌≡◌, refl, Bool, true, false, if◌then◌else◌, ◌==◌}
use node_management.Types.{TypeNode, base, data_plane, control_plane, oam, StateList, MessageState}
use node_management.Packet.{RigisterPacket}
use node_management.Manager.{
  Manager, added, is_monitored, push_node_to_vector, check_register_message, check_ping_message,
  check_notify_message, notify_all_nodes, erase_node, dispatch_message,
}

-- The flag of the manager and the two queues that it reads.
pub record SameInputs (m n : Manager) : Type 0 where
  pub same_running : n.running ≡ m.running
  pub same_received : n.received_io_queue ≡ m.received_io_queue
  pub same_messages : n.message_node_queue ≡ m.message_node_queue

-- These and the queue that it fills.
pub record SameQueues (m n : Manager) : Type 0 where
  pub inputs : SameInputs m n
  pub same_sending : n.send_io_queue ≡ m.send_io_queue

pub same_inputs : (m : Manager) → SameInputs m m
same_inputs m = record { same_running = refl; same_received = refl; same_messages = refl }

pub same_queues : (m : Manager) → SameQueues m m
same_queues m = record { inputs = same_inputs m; same_sending = refl }

added-SameQueues :
    (t : TypeNode) (p : RigisterPacket) (m : Manager) → SameQueues m (added t p.client_addr m)
unfolding added
added-SameQueues t p m = record {
  inputs = record { same_running = refl; same_received = refl; same_messages = refl };
  same_sending = refl;
}

pub check_register-SameQueues :
    (p : RigisterPacket) (m : Manager) → SameQueues m (check_register_message p m)
unfolding check_register_message push_node_to_vector
check_register-SameQueues p m =
    by_test (is_monitored p.client_addr.sin_port m.vec_node_base) p.type_node
  where
    by_type :
        (t : TypeNode)
        → SameQueues m (elim t as (λ t. Manager) [
          | data_plane ↦ added data_plane p.client_addr m
          | control_plane ↦ added control_plane p.client_addr m
          | oam ↦ added oam p.client_addr m
          | base ↦ m
          | TypeNode.unnamed n ↦ m
        ])
    by_type data_plane = added-SameQueues data_plane p m
    by_type control_plane = added-SameQueues control_plane p m
    by_type oam = added-SameQueues oam p m
    by_type base = same_queues m
    by_type (TypeNode.unnamed n) = same_queues m

    by_test : (b : Bool) (t : TypeNode) → SameQueues m (if b then m else push_node_to_vector p m)
    by_test true t = same_queues m
    by_test false t = by_type p.type_node

check_notify-SameInputs : (s : MessageState) (m : Manager) → SameInputs m (check_notify_message s m)
unfolding check_notify_message
check_notify-SameInputs s m = by_state s.state
  where
    by_state :
        (state : StateList)
        → SameInputs m (elim state as (λ st. Manager) [
          | StateList.timeout ↦ record m {
            send_io_queue = notify_all_nodes s m.vec_node_base m.send_io_queue;
          }
          | StateList.dead ↦ record m {
            vec_node_base = erase_node s.client_addr.sin_port m.vec_node_base;
          }
          | StateList.init ↦ m
          | StateList.alive ↦ m
          | StateList.max ↦ m
        ])
    by_state StateList.timeout = record {
      same_running = refl;
      same_received = refl;
      same_messages = refl;
    }
    by_state StateList.dead = record {
      same_running = refl;
      same_received = refl;
      same_messages = refl;
    }
    by_state StateList.init = same_inputs m
    by_state StateList.alive = same_inputs m
    by_state StateList.max = same_inputs m

pub dispatch_message-SameInputs :
    (s : MessageState) (m : Manager) → SameInputs m (dispatch_message s m)
unfolding dispatch_message check_ping_message
dispatch_message-SameInputs s m = by_type (s.message_type == 0) (s.message_type == 1)
  where
    by_type :
        (p n : Bool)
        → SameInputs m
            (if p then check_ping_message s m else if n then check_notify_message s m else m)
    by_type true n = record { same_running = refl; same_received = refl; same_messages = refl }
    by_type false true = check_notify-SameInputs s m
    by_type false false = same_inputs m
