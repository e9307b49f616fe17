-- ===== src/Node/Moves/Examples.antt =====
-- A node that is answered before its wait begins, one that is stopped while it waits, and one that
-- dies.
use node_management.Common.{ℕ, ◌≡◌, ◌≢◌, refl, true, false, List, [], ◌∷◌, some, arith}
use node_management.Types.{TypeNode, StateList, init, alive, dead, SockaddrIn}
use node_management.Node.{NodeBase, send_ping, change_message}
use node_management.Node.States.{ping_of}
use node_management.Node.Moves.{
  at_top, reported, waiting, worker, moves, fault, move, move_top, move_entered, pong, halt, act,
  Runs, begins, own, other,
}
use node_management.Node.Moves.Steps.{farewell}
use node_management.Node.Moves.Histories.{move-ne-fault}
use node_management.Node.Moves.Hearing.{first, waiting-hears}
use node_management.Node.Moves.Ending.{Event, runs, acts, play, Ends, halt-Ends, reported-Ends}

abbrev an_address : SockaddrIn
an_address = record { sin_port = 4660; sin_addr = 16777343 }

abbrev a_node : StateList → NodeBase
a_node state = record {
  node_type = TypeNode.oam;
  object_node_id = 3;
  current_state = some state;
  client_addr = an_address;
  running = true;
  pong_state = false;
}

abbrev noon : List ℕ
noon = 49 ∷ 50 ∷ []

-- The pong comes between `setPongState(false)` and `sendPing`.
early_pong :
    Runs
      (a_node init)
      (ping_of 7 init (a_node init) ∷ [])
      (worker (record (a_node init) { pong_state = true }) (waiting 0))
unfolding move move_top move_entered act send_ping
early_pong =
    own false 7 noon (other pong (own false 7 noon (own false 7 noon begins refl) refl)) refl

waiting-hears_example :
    move false 8 noon (worker (record (a_node init) { pong_state = true }) (waiting 0))
    ≡ moves (worker (record (a_node alive) { pong_state = true }) at_top) []
unfolding early_pong
waiting-hears_example = waiting-hears false 8 noon first early_pong refl refl

in_its_wait :
    Runs (a_node init) (ping_of 7 init (a_node init) ∷ []) (worker (a_node init) (waiting 0))
unfolding move move_top move_entered send_ping
in_its_wait = own false 7 noon (own false 7 noon (own false 7 noon begins refl) refl) refl

move-ne-fault_example : move true 8 noon (worker (a_node init) (waiting 0)) ≢ fault
move-ne-fault_example = move-ne-fault true 8 noon tt in_its_wait

abbrev turn : Event
turn = runs false 7 noon

abbrev five_turns : List Event
five_turns = turn ∷ acts pong ∷ turn ∷ turn ∷ acts halt ∷ turn ∷ turn ∷ []

halt-Ends_example : Ends (play five_turns (worker (act halt (a_node init)) (waiting 0)))
halt-Ends_example = halt-Ends five_turns tt in_its_wait (omega arith)

death_told : Runs (a_node dead) (farewell noon (a_node dead) ∷ []) (worker (a_node dead) reported)
unfolding move move_top move_entered change_message
death_told = own false 7 noon (own false 7 noon begins refl) refl

reported-Ends_example : Ends (play (turn ∷ acts pong ∷ turn ∷ []) (worker (a_node dead) reported))
reported-Ends_example =
    reported-Ends (turn ∷ acts pong ∷ turn ∷ []) tt death_told refl (omega arith)
