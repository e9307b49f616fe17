-- ===== src/Node/Life.antt =====
-- The handlers of source/node_service/NodeBase.cpp against the transitions of a node.
use node_management.Common.{
  ℕ, ◌≡◌, ◌≢◌, refl, ◌⊎◌, inl, inr, Bool, true, false, not, ◌&&◌, List, ◌∷◌, Option, some,
  if◌then◌else◌,
}
use node_management.Types.{StateList, init, alive, timeout, dead, MessageState}
use node_management.Node.{NodeBase, Wake, handle_state, retry_num}
use node_management.Node.States.{
  Transition, answered, never_answered, missed, came_back, gave_up, was_reset, handle_init_lem,
  handle_alive_lem, handle_dead_lem,
}
use node_management.Node.Retry.{
  pings, notice, handle_timeout_silent, handle_timeout_heard, first_heard,
}

-- What no handler changes.
pub record SameNode (node after : NodeBase) : Type 0 where
  pub same_type : after.node_type ≡ node.node_type
  pub same_id : after.object_node_id ≡ node.object_node_id
  pub same_addr : after.client_addr ≡ node.client_addr

-- The handler of `state` returns; the node is in the same state or has made a transition.
pub record Follows (state : StateList) (node : NodeBase)
    (result : Option (NodeBase × List MessageState)) : Type 0 where
  pub after : NodeBase
  pub sent : List MessageState
  pub next : StateList
  pub returns : result ≡ some (after, sent)
  pub now_in : after.current_state ≡ some next
  pub allowed : (next ≡ state) ⊎ Transition state next
  pub same : SameNode node after

timeout-Follows :
    (now : List ℕ) (wakes : ℕ → Wake) (node : NodeBase)
    → node.running ≡ true
    → node.current_state ≡ some timeout
    → Follows timeout node (handle_state timeout now wakes node)
unfolding handle_state
timeout-Follows now wakes node on e = elim (first_heard wakes retry_num) [
  | inl silent ↦ record {
    after = record node { current_state = some dead; running = true; pong_state = false };
    sent = notice now node ∷ pings wakes node.node_type node.client_addr 0 retry_num;
    next = dead;
    returns = handle_timeout_silent now wakes node on e silent;
    now_in = refl;
    allowed = inr gave_up;
    same = record { same_type = refl; same_id = refl; same_addr = refl };
  }
  | inr (k, below, before, heard) ↦ record {
    after = _;
    sent = _;
    next = if (wakes k).stopped then timeout else alive;
    returns = handle_timeout_heard now wakes node on e k below before heard;
    now_in = refl;
    allowed = back (wakes k).stopped;
    same = record { same_type = refl; same_id = refl; same_addr = refl };
  }
]
  where
    back :
        (b : Bool)
        → ((if b then timeout else alive) ≡ timeout)
          ⊎ Transition timeout (if b then timeout else alive)
    back true = inl refl
    back false = inr came_back

init-Follows :
    (now : List ℕ) (wakes : ℕ → Wake) (node : NodeBase)
    → node.current_state ≡ some init
    → Follows init node (handle_state init now wakes node)
unfolding handle_state
init-Follows now wakes node e = record {
  after = _;
  sent = _;
  next = if b then if c then alive else timeout else init;
  returns = handle_init_lem (wakes 0) node e;
  now_in = refl;
  allowed = go b c;
  same = record { same_type = refl; same_id = refl; same_addr = refl };
}
  where
    b : Bool
    b = node.running && not (wakes 0).stopped

    c : Bool
    c = (wakes 0).pong

    go :
        (x y : Bool)
        → let s : StateList = if x then if y then alive else timeout else init in
          (s ≡ init) ⊎ Transition init s
    go true true = inr answered
    go true false = inr never_answered
    go false y = inl refl

alive-Follows :
    (now : List ℕ) (wakes : ℕ → Wake) (node : NodeBase)
    → node.current_state ≡ some alive
    → Follows alive node (handle_state alive now wakes node)
unfolding handle_state
alive-Follows now wakes node e = record {
  after = _;
  sent = _;
  next = if b then if c then alive else timeout else alive;
  returns = handle_alive_lem (wakes 0) node e;
  now_in = refl;
  allowed = go b c;
  same = record { same_type = refl; same_id = refl; same_addr = refl };
}
  where
    b : Bool
    b = node.running && not (wakes 0).stopped

    c : Bool
    c = (wakes 0).pong

    go :
        (x y : Bool)
        → let s : StateList = if x then if y then alive else timeout else alive in
          (s ≡ alive) ⊎ Transition alive s
    go true true = inl refl
    go true false = inr missed
    go false y = inl refl

dead-Follows :
    (now : List ℕ) (wakes : ℕ → Wake) (node : NodeBase)
    → node.current_state ≡ some dead
    → Follows dead node (handle_state dead now wakes node)
unfolding handle_state
dead-Follows now wakes node e = record {
  after = _;
  sent = _;
  next = init;
  returns = handle_dead_lem now node e;
  now_in = refl;
  allowed = inr was_reset;
  same = record { same_type = refl; same_id = refl; same_addr = refl };
}

-- On a running node the handler of the node's state returns without a fault, whatever the other
-- threads do; it leaves the node in its state or takes one of the transitions, and it keeps the
-- node's type, number and address.
pub handle_state-Follows :
    (state : StateList) (now : List ℕ) (wakes : ℕ → Wake) (node : NodeBase)
    → state ≢ StateList.max
    → node.running ≡ true
    → node.current_state ≡ some state
    → Follows state node (handle_state state now wakes node)
handle_state-Follows init now wakes node m on e = init-Follows now wakes node e
handle_state-Follows alive now wakes node m on e = alive-Follows now wakes node e
handle_state-Follows timeout now wakes node m on e = timeout-Follows now wakes node on e
handle_state-Follows dead now wakes node m on e = dead-Follows now wakes node e
handle_state-Follows StateList.max now wakes node m on e = absurd (m refl)
