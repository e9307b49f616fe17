-- ===== src/Node.antt =====
-- A monitored node: source/node_service. The classes derived from `NodeState` carry nothing but
-- their `StateList`, which stands for them; the pointer to the current one is null until `start`.
-- A handler is a function of the node and of what the other threads do while it waits. The messages
-- that it pushes to `g_messageNodeQueue` are returned, oldest first; `none` is a fault.
pub mod States
pub mod Retry
pub mod Life
pub mod Silence
pub mod Moves
pub mod Turning
pub mod Voice
pub mod Obituary
pub mod Log
mod Examples
use node_management.Common.{
  ℕ, zero, suc, ◌+◌, Bool, true, false, not, ◌&&◌, ◌||◌, List, [], ◌∷◌, ◌++◌, Option, none, some,
  ◌>>=◌, ◌==◌, if◌then◌else◌, get_elem?,
}
use node_management.Types.{
  TypeNode, StateList, init, alive, timeout, dead, state_int, SockaddrIn, MessageState,
  message_state, save_time,
}

abbrev pub retry_num : ℕ
retry_num = 5

pub record NodeBase : Type 0 where
  pub node_type : TypeNode
  pub object_node_id : ℕ
  pub current_state : Option StateList
  pub client_addr : SockaddrIn
  pub running : Bool
  pub pong_state : Bool

-- The constructors. `last_id` is the static counter `NodeBase::m_nodeID` before the call, which
-- leaves it one higher; the address is whatever stands in the new object.
unfoldable pub new_node : TypeNode → ℕ → SockaddrIn → NodeBase
new_node node_type last_id found = record {
  node_type = node_type;
  object_node_id = last_id + 1;
  current_state = none;
  client_addr = found;
  running = false;
  pong_state = false;
}

abbrev pub set_client_infor : SockaddrIn → NodeBase → NodeBase
set_client_infor addr node = record node { client_addr = addr }

abbrev pub get_port_info : NodeBase → ℕ
get_port_info node = node.client_addr.sin_port

abbrev pub set_pong_state : Bool → NodeBase → NodeBase
set_pong_state flag node = record node { pong_state = flag }

unfoldable pub start : NodeBase → NodeBase
start node =
    if not node.running then record node { running = true; current_state = some init } else node

unfoldable pub stop : NodeBase → NodeBase
stop node = if node.running then record node { running = false } else node

-- `g_stateChangeTable`: the row is the present state, the column the next one.
abbrev pub state_change_table : List (List Bool)
state_change_table =
    (false ∷ true ∷ true ∷ false ∷ [])
    ∷ (false ∷ false ∷ true ∷ false ∷ [])
    ∷ (false ∷ true ∷ false ∷ true ∷ [])
    ∷ (true ∷ false ∷ false ∷ false ∷ [])
    ∷ []

abbrev pub may_change : StateList → StateList → Option Bool
may_change from to = do
  row ← get_elem? state_change_table (state_int from)
  get_elem? row (state_int to)

-- `changeState`, whose argument is never null here.
unfoldable pub change_state : StateList → NodeBase → Option NodeBase
change_state to node = do
  from ← node.current_state
  allowed ← may_change from to
  some (if allowed then record node { current_state = some to } else node)

-- "Ping" and "Timeout ".
abbrev pub ping_text : List ℕ
ping_text = b'P' ∷ b'i' ∷ b'n' ∷ b'g' ∷ []

abbrev pub timeout_text : List ℕ
timeout_text = b'T' ∷ b'i' ∷ b'm' ∷ b'e' ∷ b'o' ∷ b'u' ∷ b't' ∷ b' ' ∷ []

-- `sendPing`: the number in the message is the static counter, not the number of this node.
unfoldable pub send_ping : ℕ → NodeBase → Option MessageState
send_ping last_id node = do
  state ← node.current_state
  some (record (message_state last_id node.node_type state 0 node.client_addr) {
    message = ping_text;
  })

-- A state change message of this node, before its text.
unfoldable pub change_message : NodeBase → Option MessageState
change_message node = do
  state ← node.current_state
  some (message_state node.object_node_id node.node_type state 1 node.client_addr)

-- What the other threads do between `setPongState(false)` and the end of the wait that follows: the
-- counter that `sendPing` reads, whether a pong is set, and whether the node is stopped.
pub record Wake : Type 0 where
  pub last_id : ℕ
  pub pong : Bool
  pub stopped : Bool

-- `m_cv.wait_for`: the node afterwards, and the value of the predicate, which is false only when the
-- period has passed.
unfoldable pub wait_for : Wake → NodeBase → NodeBase × Bool
wait_for w node =
    let woken = record node {
      pong_state = node.pong_state || w.pong;
      running = node.running && not w.stopped;
    } in
    (woken, woken.pong_state || not woken.running)

-- Messages pushed before those of the rest of a handler.
abbrev pub then_sends :
    List MessageState
    → Option (NodeBase × List MessageState)
    → Option (NodeBase × List MessageState)
then_sends sent none = none
then_sends sent (some (node, more)) = some (node, sent ++ more)

-- The end of a handler that pushes nothing more.
abbrev pub moved : Option NodeBase → Option (NodeBase × List MessageState)
moved none = none
moved (some node) = some (node, [])

-- `InitState::handleState`.
unfoldable pub handle_init : Wake → NodeBase → Option (NodeBase × List MessageState)
unfolding wait_for
handle_init w node = do
  let node = set_pong_state false node
  ping ← send_ping w.last_id node
  let (node, woken) = wait_for w node
  then_sends (ping ∷ []) (
      if woken
      then if not node.running then some (node, []) else moved (change_state alive node)
      else moved (change_state timeout node))

-- `AliveState::handleState`.
unfoldable pub handle_alive : Wake → NodeBase → Option (NodeBase × List MessageState)
unfolding wait_for
handle_alive w node = do
  let node = set_pong_state false node
  ping ← send_ping w.last_id node
  let (node, woken) = wait_for w node
  then_sends (ping ∷ []) (
      if woken
      then if not node.running then moved (change_state init node) else some (node, [])
      else moved (change_state timeout node))

-- The loop of `TimeoutState::handleState` with `left` rounds to go, and what follows it.
unfoldable pub retry_loop : (ℕ → Wake) → ℕ → ℕ → NodeBase → Option (NodeBase × List MessageState)
unfolding wait_for
retry_loop wakes zero retry_time node =
    if retry_time == retry_num then moved (change_state dead node) else some (node, [])
retry_loop wakes (suc left) retry_time node = do
  let node = set_pong_state false node
  ping ← send_ping (wakes retry_time).last_id node
  let (node, woken) = wait_for (wakes retry_time) node
  let rest = retry_loop wakes left (retry_time + 1) node
  then_sends (ping ∷ []) (
      if woken
      then if not node.running
        then moved (change_state init node)
        else moved (change_state alive node)
      else rest)

-- `TimeoutState::handleState`; `now` is the text of the local time.
unfoldable pub handle_timeout :
    List ℕ → (ℕ → Wake) → NodeBase → Option (NodeBase × List MessageState)
handle_timeout now wakes node = do
  mes_timeout ← change_message node
  then_sends (save_time now (record mes_timeout { message = timeout_text }) ∷ [])
      (retry_loop wakes retry_num 0 node)

-- `DeadState::handleState`.
unfoldable pub handle_dead : List ℕ → NodeBase → Option (NodeBase × List MessageState)
unfolding stop
handle_dead now node = do
  mes_timeout ← change_message node
  node' ← change_state init node
  some (stop node', save_time now mes_timeout ∷ [])

-- The virtual call of `handleState`.
unfoldable pub handle_state :
    StateList → List ℕ → (ℕ → Wake) → NodeBase → Option (NodeBase × List MessageState)
handle_state init now wakes node = handle_init (wakes 0) node
handle_state alive now wakes node = handle_alive (wakes 0) node
handle_state timeout now wakes node = handle_timeout now wakes node
handle_state dead now wakes node = handle_dead now node
handle_state StateList.max now wakes node = none

-- One round of `handleThread`: the other threads may have stopped the node before the test.
pub record Round : Type 0 where
  pub stopped : Bool
  pub now : List ℕ
  pub wakes : ℕ → Wake

-- One turn of the loop in `handleThread`; the last result tells whether the loop ended.
unfoldable pub thread_round : Round → NodeBase → Option (NodeBase × List MessageState × Bool)
thread_round r node =
    let node = record node { running = node.running && not r.stopped } in
    if not node.running then some (node, [], true) else elim node.current_state [
      | none ↦ some (node, [], false)
      | some state ↦ elim (handle_state state r.now r.wakes node) [
        | none ↦ none
        | some (after, sent) ↦ some (after, sent, false)
      ]
    ]

abbrev pub then_sent :
    List MessageState
    → Option (NodeBase × List MessageState × Bool)
    → Option (NodeBase × List MessageState × Bool)
then_sent sent none = none
then_sent sent (some (node, more, ended)) = some (node, sent ++ more, ended)

-- `handleThread` for as many rounds as are listed.
unfoldable pub handle_thread : List Round → NodeBase → Option (NodeBase × List MessageState × Bool)
handle_thread [] node = some (node, [], false)
handle_thread (r ∷ rounds) node = elim (thread_round r node) [
  | none ↦ none
  | some (after, sent, true) ↦ some (after, sent, true)
  | some (after, sent, false) ↦ then_sent sent (handle_thread rounds after)
]
