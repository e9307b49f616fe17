-- ===== src/Node/Moves.antt =====
-- The thread of a node of source/node_service/NodeBase.cpp in small steps: between two steps any other
-- thread may call `setPongState(true)` or `stop`. A step touches what is shared at most once. A handler
-- holds the mutex from the end of its wait to its return, so that this is one step; without the mutex
-- it touches only the state, which belongs to the thread.
pub mod Steps
pub mod Rounds
pub mod Covered
pub mod Covering
pub mod Histories
pub mod Hearing
pub mod Stopping
pub mod Ending
mod Examples
use node_management.Common.{
  ℕ, ◌+◌, Bool, true, false, not, ◌||◌, List, [], ◌∷◌, ◌++◌, Option, none, some, ◌>>=◌,
  if◌then◌else◌, ltb, ◌≡◌,
}
use node_management.Types.{StateList, init, alive, timeout, dead, MessageState, save_time}
use node_management.Node.{
  NodeBase, change_state, send_ping, change_message, set_pong_state, stop, retry_num, timeout_text,
}

-- Where the thread stands: before the test of `m_running`, at the start of a handler, before the test
-- of `retryTime`, before `sendPing`, in the wait, in `DeadState::handleState` behind the push, or at
-- its end. The number is `retryTime`, and 0 in the other handlers.
pub data Position : Type 0 where
  at_top entered reported ended : Position
  retrying pinging waiting : ℕ → Position

pub record Worker : Type 0 where
  pub node : NodeBase
  pub position : Position

abbrev pub worker : NodeBase → Position → Worker
worker node position = record { node = node; position = position }

-- A step of the thread: it sleeps or has ended, it faults, or it moves and pushes messages.
pub data Move : Type 0 where
  blocked fault : Move
  moves : Worker → List MessageState → Move

abbrev pub goes : Position → Option NodeBase → Move
goes position none = fault
goes position (some node) = moves (worker node position) []

abbrev pub pushes : Worker → Option MessageState → Move
pushes w none = fault
pushes w (some message) = moves w (message ∷ [])

-- The head of the loop of `handleThread`.
unfoldable pub move_top : NodeBase → Move
move_top node = if not node.running then goes ended (some node) else elim node.current_state [
  | none ↦ goes at_top (some node)
  | some state ↦ goes entered (some node)
]

-- The start of the handler of the state.
unfoldable pub move_entered : List ℕ → NodeBase → Move
move_entered now node = elim node.current_state [
  | none ↦ fault
  | some init ↦ goes (pinging 0) (some (set_pong_state false node))
  | some alive ↦ goes (pinging 0) (some (set_pong_state false node))
  | some timeout ↦ pushes (worker node (retrying 0)) (do
    mes_timeout ← change_message node
    some (save_time now (record mes_timeout { message = timeout_text })))
  | some dead ↦
      pushes (worker node reported)
        (do mes_timeout ← change_message node; some (save_time now mes_timeout))
  | some StateList.max ↦ fault
]

-- The loop of `TimeoutState::handleState`.
unfoldable pub move_retrying : ℕ → NodeBase → Move
move_retrying retry_time node =
    if ltb retry_time retry_num
    then goes (pinging retry_time) (some (set_pong_state false node))
    else goes at_top (change_state dead node)

-- The end of a wait whose predicate holds, and of one whose period has passed.
unfoldable pub move_woken : NodeBase → Move
move_woken node = elim node.current_state [
  | none ↦ fault
  | some init ↦ goes at_top (if not node.running then some node else change_state alive node)
  | some alive ↦ goes at_top (if not node.running then change_state init node else some node)
  | some timeout ↦
      goes at_top (if not node.running then change_state init node else change_state alive node)
  | some dead ↦ fault
  | some StateList.max ↦ fault
]

unfoldable pub move_expired : ℕ → NodeBase → Move
move_expired retry_time node = elim node.current_state [
  | none ↦ fault
  | some init ↦ goes at_top (change_state timeout node)
  | some alive ↦ goes at_top (change_state timeout node)
  | some timeout ↦ goes (retrying (retry_time + 1)) (some node)
  | some dead ↦ fault
  | some StateList.max ↦ fault
]

-- One step; `expired` tells whether the period of a wait has passed, `last_id` is the static counter,
-- and `now` the text of the local time.
unfoldable pub move : Bool → ℕ → List ℕ → Worker → Move
unfolding stop
move expired last_id now w = elim w.position [
  | at_top ↦ move_top w.node
  | entered ↦ move_entered now w.node
  | reported ↦ goes at_top (do node ← change_state init w.node; some (stop node))
  | ended ↦ blocked
  | retrying k ↦ move_retrying k w.node
  | pinging k ↦ pushes (worker w.node (waiting k)) (send_ping last_id w.node)
  | waiting k ↦
      if w.node.pong_state || not w.node.running
      then move_woken w.node
      else if expired
      then move_expired k w.node
      else blocked
]

-- What other threads do to a node.
pub data Act : Type 0 where
  pong halt : Act

unfoldable pub act : Act → NodeBase → NodeBase
unfolding stop
act pong node = set_pong_state true node
act halt node = stop node

-- A history of the thread and of the others, with all messages pushed so far, oldest first.
pub data Runs (start : NodeBase) : List MessageState → Worker → Type 0 where
  begins : Runs start [] (worker start at_top)
  own :
      {sent more : List MessageState} {w after : Worker} (expired : Bool) (last_id : ℕ)
      (now : List ℕ)
      → Runs start sent w
      → move expired last_id now w ≡ moves after more
      → Runs start (sent ++ more) after
  other :
      {sent : List MessageState} {w : Worker} (a : Act)
      → Runs start sent w
      → Runs start sent (worker (act a w.node) w.position)
