-- ===== src/Node/Moves/Steps.antt =====
-- The small steps of source/node_service/NodeBase.cpp position by position, on a node of which others
-- have changed the pong flag and `m_running` since the round began.
use node_management.Common.{
  ℕ, ◌+◌, ◌<◌, ◌≤◌, ◌≡◌, refl, Bool, true, false, not, ◌||◌, List, [], ◌∷◌, none, some, arith,
  if◌then◌else◌,
}
use node_management.Types.{StateList, init, alive, timeout, dead, MessageState, message_state}
use node_management.Node.{NodeBase, send_ping, change_state, change_message, retry_num}
use node_management.Node.States.{ping_of}
use node_management.Node.Retry.{notice}
use node_management.Node.Moves.{
  at_top, entered, reported, ended, retrying, pinging, waiting, worker, blocked, moves, move,
  move_top, move_entered, move_retrying, move_woken, move_expired,
}

-- A node of which others have set the flag and the running.
abbrev pub since : Bool → Bool → NodeBase → NodeBase
since p b node = record node { pong_state = p; running = b }

abbrev pub in_state : StateList → NodeBase → NodeBase
in_state state node = record node { current_state = some state }

-- The message with which a dead node takes its leave.
abbrev pub farewell : List ℕ → NodeBase → MessageState
farewell now node =
    record (message_state node.object_node_id node.node_type dead 1 node.client_addr) {
      message = now;
    }

-- The states that ping once in a round.
pub data Pinger : StateList → Type 0 where
  in_init : Pinger init
  in_alive : Pinger alive

-- Where a wait in INIT or ALIVE leads.
abbrev pub verdict : StateList → Bool → Bool → StateList
verdict state b p = if b then if p then alive else timeout else state

module _ (expired : Bool) (last_id : ℕ) (now : List ℕ) (node : NodeBase) where
  pub move_top-over :
      node.running ≡ false
      → move expired last_id now (worker node at_top) ≡ moves (worker node ended) []
  unfolding move move_top
  move_top-over e = ground (arith, e)

  pub move_top-idle :
      node.running ≡ true
      → node.current_state ≡ none
      → move expired last_id now (worker node at_top) ≡ moves (worker node at_top) []
  unfolding move move_top
  move_top-idle on e = ground (arith, on, e)

  pub move_top-enters :
      (state : StateList)
      → node.running ≡ true
      → node.current_state ≡ some state
      → move expired last_id now (worker node at_top) ≡ moves (worker node entered) []
  unfolding move move_top
  move_top-enters state on e = ground (arith, on, e)

module _ (expired : Bool) (last_id : ℕ) (now : List ℕ) (node : NodeBase) (p b : Bool) where
  pub move_entered-Pinger :
      {state : StateList}
      → Pinger state
      → node.current_state ≡ some state
      → move expired last_id now (worker (since p b node) entered)
        ≡ moves (worker (since false b node) (pinging 0)) []
  unfolding move move_entered
  move_entered-Pinger in_init e = rw e refl
  move_entered-Pinger in_alive e = rw e refl

  pub move_entered-timeout :
      node.current_state ≡ some timeout
      → move expired last_id now (worker (since p b node) entered)
        ≡ moves (worker (since p b node) (retrying 0)) (notice now node ∷ [])
  unfolding move move_entered change_message
  move_entered-timeout e = rw e refl

  pub move_entered-dead :
      node.current_state ≡ some dead
      → move expired last_id now (worker (since p b node) entered)
        ≡ moves (worker (since p b node) reported) (farewell now node ∷ [])
  unfolding move move_entered change_message
  move_entered-dead e = rw e refl

  pub move_reported :
      node.current_state ≡ some dead
      → move expired last_id now (worker (since p b node) reported)
        ≡ moves (worker (in_state init (since p false node)) at_top) []
  unfolding move change_state
  move_reported e = ground (arith, e)

  pub move_retrying-ping :
      (k : ℕ)
      → k < retry_num
      → move expired last_id now (worker (since p b node) (retrying k))
        ≡ moves (worker (since false b node) (pinging k)) []
  unfolding move move_retrying
  move_retrying-ping k l = ground arith

  pub move_retrying-dead :
      (k : ℕ)
      → retry_num ≤ k
      → node.current_state ≡ some timeout
      → move expired last_id now (worker (since p b node) (retrying k))
        ≡ moves (worker (in_state dead (since p b node)) at_top) []
  unfolding move move_retrying change_state
  move_retrying-dead k l e = ground arith

  pub move_pinging :
      (k : ℕ) (state : StateList)
      → node.current_state ≡ some state
      → move expired last_id now (worker (since p b node) (pinging k))
        ≡ moves (worker (since p b node) (waiting k)) (ping_of last_id state node ∷ [])
  unfolding move send_ping
  move_pinging k state e = rw e refl

  pub move-waiting-blocked :
      (k : ℕ)
      → p || not b || expired ≡ false
      → move expired last_id now (worker (since p b node) (waiting k)) ≡ blocked
  unfolding move
  move-waiting-blocked k h = ground arith

  pub move-waiting-Pinger :
      (k : ℕ) {state : StateList}
      → Pinger state
      → p || not b || expired ≡ true
      → node.current_state ≡ some state
      → move expired last_id now (worker (since p b node) (waiting k))
        ≡ moves (worker (in_state (verdict state b p) (since p b node)) at_top) []
  unfolding move move_woken move_expired change_state
  move-waiting-Pinger k in_init h e = ground arith
  move-waiting-Pinger k in_alive h e = ground arith

  pub move-waiting-heard :
      (k : ℕ)
      → p || not b ≡ true
      → node.current_state ≡ some timeout
      → move expired last_id now (worker (since p b node) (waiting k))
        ≡ moves (worker (in_state (if b then alive else timeout) (since p b node)) at_top) []
  unfolding move move_woken change_state
  move-waiting-heard k h e = ground arith

  pub move-waiting-silent :
      (k : ℕ)
      → expired ≡ true
      → p || not b ≡ false
      → node.current_state ≡ some timeout
      → move expired last_id now (worker (since p b node) (waiting k))
        ≡ moves (worker (since p b node) (retrying (k + 1))) []
  unfolding move move_expired
  move-waiting-silent k x h e = ground arith
