-- ===== src/Node/States.antt =====
-- The state machine of a node against its abstract form: the transitions that the table allows, and
-- the handlers as refinements of them.
use node_management.Common.{
  ℕ, ◌≡◌, refl, ◌↔◌, true, false, not, ◌&&◌, List, [], ◌∷◌, some, arith, if◌then◌else◌,
}
use node_management.Types.{StateList, init, alive, timeout, dead, MessageState, message_state}
use node_management.Node.{
  NodeBase, may_change, change_state, Wake, handle_init, handle_alive, handle_dead, send_ping,
  change_message, ping_text,
}

-- The transitions of a node: a node that answers is alive, one that misses a period has a timeout,
-- one with a timeout comes back or dies, and a dead one is reset.
pub data Transition : StateList → StateList → Type 0 where
  answered : Transition init alive
  never_answered : Transition init timeout
  missed : Transition alive timeout
  came_back : Transition timeout alive
  gave_up : Transition timeout dead
  was_reset : Transition dead init

-- The table of state changes allows exactly the transitions of that relation: INIT to ALIVE and
-- TIMEOUT, ALIVE to TIMEOUT, TIMEOUT to ALIVE and DEAD, DEAD to INIT.
pub may_change_iff : (from to : StateList) → (may_change from to ≡ some true) ↔ Transition from to
may_change_iff from to = (sound from to, complete)
  where
    sound : (f t : StateList) → may_change f t ≡ some true → Transition f t
    sound init alive e = answered
    sound init timeout e = never_answered
    sound alive timeout e = missed
    sound timeout alive e = came_back
    sound timeout dead e = gave_up
    sound dead init e = was_reset
    sound f t e = cc

    complete : {f t : StateList} → Transition f t → may_change f t ≡ some true
    complete answered = refl
    complete never_answered = refl
    complete missed = refl
    complete came_back = refl
    complete gave_up = refl
    complete was_reset = refl

-- The ping that a node in `state` sends.
abbrev pub ping_of : ℕ → StateList → NodeBase → MessageState
ping_of last_id state node =
    record (message_state last_id node.node_type state 0 node.client_addr) { message = ping_text }

-- What a wait leaves of a node whose flag was cleared before it.
abbrev pub waited : Wake → NodeBase → NodeBase
waited w node = record node { pong_state = w.pong; running = node.running && not w.stopped }

-- A node in INIT pings once. Stopped, it stays; with a pong it is ALIVE; else it has a TIMEOUT.
pub handle_init_lem :
    (w : Wake) (node : NodeBase)
    → node.current_state ≡ some init
    → handle_init w node
      ≡ some (
        record (waited w node) {
          current_state =
              some
                (if node.running && not w.stopped then if w.pong then alive else timeout else init);
        },
        ping_of w.last_id init node ∷ [],
      )
unfolding handle_init send_ping change_state
handle_init_lem w node e = ground arith

-- A node in ALIVE pings once, and leaves the state only when it runs and no pong came.
pub handle_alive_lem :
    (w : Wake) (node : NodeBase)
    → node.current_state ≡ some alive
    → handle_alive w node
      ≡ some (
        record (waited w node) {
          current_state =
              some (
                if node.running && not w.stopped then if w.pong then alive else timeout else alive);
        },
        ping_of w.last_id alive node ∷ [],
      )
unfolding handle_alive send_ping change_state
handle_alive_lem w node e = ground arith

-- A node in DEAD tells the manager, is reset to INIT and stops.
pub handle_dead_lem :
    (now : List ℕ) (node : NodeBase)
    → node.current_state ≡ some dead
    → handle_dead now node
      ≡ some (
        record node { current_state = some init; running = false },
        record (message_state node.object_node_id node.node_type dead 1 node.client_addr) {
          message = now;
        }
            ∷ [],
      )
unfolding handle_dead change_message change_state
handle_dead_lem now node e = ground arith
