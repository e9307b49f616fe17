-- ===== src/Manager/Examples.antt =====
-- A manager with one node, through registration, silence and death.
use node_management.Common.{ℕ, List, ◌≡◌, refl, true, false, [], ◌∷◌, some, none, arith}
use node_management.Types.{
  TypeMessage, TypeNode, StateList, SockaddrIn, MessageState, message_state,
}
use node_management.Packet.{AnyPacket, rigister_packet, notify_packet, RigisterPacket, new_packet}
use node_management.SafeQueue.{SafeQueue, new_queue, wait_and_pop}
use node_management.Node.{NodeBase, new_node, set_client_infor}
use node_management.Node
use node_management.Manager.{
  Manager, new_manager, start, stop, check_register_message, check_notify_message, handle_send_data,
  handle_received_data, handle_packet, dispatch_packet, is_monitored, push_node_to_vector, goes_on,
  ends, added,
}
use node_management.Node.{Round, handle_thread}
use node_management.Node.Silence.{IsSilentRound, in_state}
use node_management.Manager.Removal.{dispatch_all, silent_node_removed}
use node_management.Manager.Shutdown.{stop-ends}
use node_management.Manager.Registry.{IsRegistry}
use node_management.Manager.History.{
  Reachable, begins, starts, queues, receives, Reachable-IsRegistry,
}
use node_management.Manager.Refinement.{
  view, enter, clear, asked, view-check_register_message, view-check_notify_message,
}
use node_management.Manager.Casts.{IsTagged, IsServed}
use node_management.Manager.Notices.{check_notify_message-timeout}

abbrev an_address : SockaddrIn
an_address = record { sin_port = 4660; sin_addr = 16777343 }

abbrev a_request : RigisterPacket
a_request = record {
  packet = record new_packet { client_addr = an_address };
  type_node = TypeNode.oam;
}

abbrev one_request : SafeQueue AnyPacket
one_request = record { queue = rigister_packet a_request ∷ []; running = true }

-- Running, with the request in the queue.
abbrev asked_manager : Manager
asked_manager = record new_manager { running = true; received_io_queue = one_request }

-- The node has been entered.
abbrev the_node : NodeBase
the_node = record {
  node_type = TypeNode.oam;
  object_node_id = 1;
  current_state = some StateList.init;
  client_addr = an_address;
  running = true;
  pong_state = false;
}

abbrev one_node : Manager
one_node = record new_manager { running = true; last_id = 1; vec_node_base = the_node ∷ [] }

registers : handle_received_data none asked_manager ≡ goes_on (none, one_node)
unfolding handle_received_data wait_and_pop handle_packet dispatch_packet check_register_message
    is_monitored push_node_to_vector added new_node Node.start
registers = refl

asked_manager-Reachable : Reachable asked_manager
unfolding start
asked_manager-Reachable = queues new_queue one_request new_queue (starts begins)

one_node-Reachable : Reachable one_node
one_node-Reachable = receives none none asked_manager-Reachable registers

Reachable-IsRegistry_example : IsRegistry one_node
Reachable-IsRegistry_example = Reachable-IsRegistry one_node-Reachable

abbrev death : MessageState
death = message_state 1 TypeNode.oam StateList.dead 1 an_address

abbrev a_timeout : MessageState
a_timeout = record (message_state 1 TypeNode.oam StateList.timeout 1 an_address) {
  message = 84 ∷ [];
}

abbrev ping_wanted : MessageState
ping_wanted = record (message_state 1 TypeNode.oam StateList.alive 0 an_address) {
  message = 80 ∷ [];
}

-- The death of the node is in the queue.
abbrev mourning : Manager
mourning = record one_node { message_node_queue = record { queue = death ∷ []; running = true } }

view-check_register_message_example :
    view (check_register_message a_request asked_manager) 4660
    ≡ enter (asked a_request asked_manager) (view asked_manager) 4660
view-check_register_message_example = view-check_register_message a_request asked_manager 4660

view-check_notify_message_example :
    view (check_notify_message death one_node) 4660 ≡ clear 4660 (view one_node) 4660
view-check_notify_message_example =
    view-check_notify_message death one_node 4660 (Reachable-IsRegistry one_node-Reachable) refl

new_manager-IsServed : IsServed new_manager
new_manager-IsServed = record { receiving = λ e. refl; sending = λ e. refl }

a_request-IsTagged : IsTagged (rigister_packet a_request)
a_request-IsTagged = λ e f. cc

check_notify_message-timeout_example : check_notify_message a_timeout one_node ≡ record one_node {
  send_io_queue = record {
    queue =
        notify_packet (record {
          packet = record {
            type_message = TypeMessage.notify;
            payload_lengh = 40;
            mes = a_timeout.message;
            client_addr = the_node.client_addr;
          };
          type_node = a_timeout.type_node;
          port_node_notify = 4660;
          state_node_notify = StateList.timeout;
        })
        ∷ [];
    running = true;
  };
}
check_notify_message-timeout_example =
    check_notify_message-timeout a_timeout one_node refl refl (omega arith)

stop-ends_example :
    (handle_send_data a_timeout (stop one_node).0 ≡ ends)
    × (handle_received_data none (stop one_node).0 ≡ ends)
stop-ends_example = stop-ends a_timeout none one_node refl

abbrev quiet_round : Round
quiet_round = record {
  stopped = false;
  now = [];
  wakes = λ i. record { last_id = 1; pong = false; stopped = false };
}

quiet_round-IsSilentRound : IsSilentRound quiet_round
quiet_round-IsSilentRound = record { not_stopped = refl; silent = λ i p. (refl, refl) }

silent_node_removed_example :
    (sent : List MessageState) × (handle_thread
        (quiet_round ∷ quiet_round ∷ quiet_round ∷ quiet_round ∷ [])
        the_node
      ≡ some (in_state TypeNode.oam 1 an_address StateList.init false false, sent, true))
    × ((m : Manager) (port : ℕ)
        → IsRegistry m
        → view (dispatch_all sent m) port ≡ clear 4660 (view m) port)
silent_node_removed_example =
    silent_node_removed TypeNode.oam 1 an_address quiet_round quiet_round quiet_round quiet_round
      quiet_round-IsSilentRound quiet_round-IsSilentRound refl
