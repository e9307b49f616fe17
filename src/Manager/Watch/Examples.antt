-- ===== src/Manager/Watch/Examples.antt =====
-- A node that dies while the manager is stopped, and what is left of it when the manager runs again.
use node_management.Common.{All, ℕ, ◌≡◌, refl, true, false, List, [], ◌∷◌, ◌++◌, none, some}
use node_management.Types.{TypeNode, StateList, SockaddrIn, MessageState, message_state}
use node_management.Packet.{AnyPacket, rigister_packet, RigisterPacket, new_packet}
use node_management.SafeQueue
use node_management.SafeQueue.{SafeQueue, new_queue, wait_and_pop, push}
use node_management.Node
use node_management.Node.{
  NodeBase, Wake, Round, thread_round, new_node, handle_state, handle_init, handle_timeout,
  handle_dead, retry_loop, send_ping, change_message, change_state, retry_num,
}
use node_management.Node.Retry.{pings, notice}
use node_management.Node.States.{ping_of}
use node_management.Node.Moves.Steps.{farewell}
use node_management.Node.Moves.Rounds.{running_round}
use node_management.Manager
use node_management.Manager.{
  Manager, new_manager, is_monitored, check_register_message, handle_received_data, handle_packet,
  dispatch_packet, push_node_to_vector, added, goes_on, handle_send_data, handle_message,
  dispatch_message, check_ping_message, check_notify_message, notify_all_nodes, erase_node,
}
use node_management.Manager.Watch.{
  watch, after_round, Watches, begins, starts, packets, receives, rounds, push_messages,
}
use node_management.Manager.Watch.Honest.{ToldOnce}
use node_management.Manager.Watch.Deaths.{IsOfNode, told_once}
use node_management.Manager.Watch.Lost.{IsLost, stays_for_good}
use node_management.Manager.Watch.Unheard.{death_unheard}

abbrev an_address : SockaddrIn
an_address = record { sin_port = 4660; sin_addr = 16777343 }

abbrev dying : NodeBase
dying = record {
  node_type = TypeNode.oam;
  object_node_id = 1;
  current_state = some StateList.dead;
  client_addr = an_address;
  running = true;
  pong_state = false;
}

abbrev stopped_manager : Manager
stopped_manager = record new_manager {
  last_id = 1;
  vec_node_base = dying ∷ [];
  message_node_queue = record { queue = []; running = false };
}

abbrev noon : List ℕ
noon = 49 ∷ 50 ∷ []

abbrev quiet : ℕ → Wake
quiet i = record { last_id = 1; pong = false; stopped = false }

death_unheard_example :
    (after : NodeBase) × (sent : List MessageState) × (thread_round (running_round noon quiet) dying
      ≡ some (after, sent, false))
    × IsLost 4660 (after_round 0 after sent stopped_manager)
death_unheard_example =
    death_unheard stopped_manager 0 noon quiet dying (tt, tt) refl refl tt refl refl refl

abbrev remains : NodeBase
remains = record dying { current_state = some StateList.init; running = false }

abbrev left_alone : Manager
left_alone = record stopped_manager { vec_node_base = remains ∷ [] }

left_alone-IsLost : IsLost 4660 left_alone
unfolding is_monitored
left_alone-IsLost = record { served = λ on. cc; kept = refl; off = (λ e. refl, tt); untold = tt }

abbrev a_message : MessageState
a_message = message_state 1 TypeNode.oam StateList.init 0 an_address

-- The manager runs again.
started_again : Watches (watch left_alone a_message) (watch (Manager.start left_alone).0 a_message)
started_again = starts a_message begins

abbrev a_request : RigisterPacket
a_request = record {
  packet = record new_packet { client_addr = an_address };
  type_node = TypeNode.oam;
}

stays_for_good_example :
    IsLost 4660 (Manager.start left_alone).0
    × (check_register_message a_request (Manager.start left_alone).0 ≡ (Manager.start left_alone).0)
stays_for_good_example = stays_for_good 4660 a_request left_alone-IsLost refl started_again

-- The node registers, is silent for three rounds, and its messages are handled up to the last.
abbrev asked : SafeQueue AnyPacket
asked = record { queue = rigister_packet a_request ∷ []; running = true }

abbrev silence : Round
silence = running_round noon quiet

abbrev taken_in : NodeBase
taken_in = record dying { current_state = some StateList.init }

abbrev registered : Manager
registered = record new_manager { running = true; last_id = 1; vec_node_base = taken_in ∷ [] }

registers : Watches (watch new_manager a_message) (watch registered a_message)
unfolding Manager.start SafeQueue.start handle_received_data wait_and_pop handle_packet
    dispatch_packet check_register_message is_monitored push_node_to_vector added new_node
    Node.start
registers = receives none none (packets asked new_queue (starts a_message begins) refl) refl

abbrev news : List MessageState
news =
    ping_of 1 StateList.init taken_in
    ∷ notice noon taken_in
    ∷ (pings quiet TypeNode.oam an_address 0 retry_num ++ farewell noon taken_in ∷ [])

abbrev died : Manager
died = record registered {
  vec_node_base = remains ∷ [];
  message_node_queue = record { queue = news; running = true };
}

three_rounds : Watches (watch new_manager a_message) (watch died a_message)
unfolding thread_round handle_state handle_init handle_timeout handle_dead retry_loop send_ping
    change_message change_state Node.stop push_messages push
three_rounds =
    rounds 0 silence (rounds 0 silence (rounds 0 silence registers refl refl) refl refl) refl refl

-- A second node has registered meanwhile.
abbrev another_address : SockaddrIn
another_address = record { sin_port = 4661; sin_addr = 16777343 }

abbrev second : NodeBase
second = record taken_in { object_node_id = 2; client_addr = another_address }

abbrev asked_again : SafeQueue AnyPacket
asked_again = record {
  queue =
      rigister_packet
        (record a_request { packet = record new_packet { client_addr = another_address } })
      ∷ [];
  running = true;
}

abbrev both : Manager
both = record died { last_id = 2; vec_node_base = remains ∷ second ∷ [] }

second_registers : Watches (watch new_manager a_message) (watch both a_message)
unfolding handle_received_data wait_and_pop handle_packet dispatch_packet check_register_message
    is_monitored push_node_to_vector added new_node Node.start
second_registers = receives none none (packets asked_again new_queue three_rounds refl) refl

told_once_example : ToldOnce news × All (IsOfNode (remains ∷ second ∷ [])) news
told_once_example = told_once a_message second_registers
