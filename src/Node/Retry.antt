-- ===== src/Node/Retry.antt =====
-- The retries of `TimeoutState::handleState` of source/node_service/NodeBase.cpp.
use native.Mathlib.Decide.{ℕ_discrete}
use node_management.Common.{
  ℕ, zero, suc, ◌+◌, ◌≤◌, ◌<◌, ◌≡◌, refl, ◌⊎◌, inl, inr, Bool, true, false, not, ◌||◌, List, [],
  ◌∷◌, ◌++◌, some, arith, if◌then◌else◌,
}
use node_management.Types.{TypeNode, alive, timeout, dead, SockaddrIn, MessageState, message_state}
use node_management.Node.{
  NodeBase, change_state, Wake, retry_loop, handle_timeout, send_ping, change_message, retry_num,
  timeout_text, ping_text, then_sends,
}

-- Nobody sets the pong flag of the node or stops it during that wait.
abbrev pub IsSilent : Wake → Type 0
IsSilent w = (w.pong ≡ false) × (w.stopped ≡ false)

-- The pings of `count` retries, from number `first` on.
abbrev pub pings : (ℕ → Wake) → TypeNode → SockaddrIn → ℕ → ℕ → List MessageState
pings wakes node_type addr first zero = []
pings wakes node_type addr first (suc count) =
    record (message_state (wakes first).last_id node_type timeout 0 addr) { message = ping_text }
    ∷ pings wakes node_type addr (first + 1) count

abbrev last_flag : ℕ → Bool → Bool
last_flag zero p = p
last_flag (suc left) p = false

module _ (node_type : TypeNode) (object_node_id : ℕ) (client_addr : SockaddrIn)
    (wakes : ℕ → Wake) where
  -- A running node in TIMEOUT.
  abbrev waiting : Bool → NodeBase
  waiting pong_state = record {
    node_type = node_type;
    object_node_id = object_node_id;
    current_state = some timeout;
    client_addr = client_addr;
    running = true;
    pong_state = pong_state;
  }

  abbrev pings_from : ℕ → ℕ → List MessageState
  pings_from = pings wakes node_type client_addr

  silent_round :
      (left first : ℕ) (p : Bool)
      → IsSilent (wakes first)
      → retry_loop wakes (suc left) first (waiting p)
        ≡ then_sends (pings_from first 1) (retry_loop wakes left (first + 1) (waiting false))
  unfolding retry_loop send_ping
  silent_round left first p s = rw (s.0, s.1) refl

  retry_loop_silent :
      (left first : ℕ) (p : Bool)
      → first + left ≡ retry_num
      → ((i : ℕ) → first ≤ i → i < retry_num → IsSilent (wakes i))
      → retry_loop wakes left first (waiting p)
        ≡ some (
          record (waiting (last_flag left p)) { current_state = some dead },
          pings_from first left,
        )
  retry_loop_silent zero first p e s = ends
    where
      ends :
          retry_loop wakes zero first (waiting p)
          ≡ some (record (waiting p) { current_state = some dead }, [])
      ends = unfold retry_loop change_state in ground arith
  retry_loop_silent (suc left) first p e s =
      rw
        (
          silent_round left first p (s first (omega arith) (omega arith)),
          retry_loop_silent left (first + 1) false (omega arith) (λ i a b. s i (omega arith) b),
        )
        (flag left)
    where
      flag :
          (l : ℕ)
          → then_sends (pings_from first 1) (
              some (
                record (waiting (last_flag l false)) { current_state = some dead },
                pings_from (first + 1) left,
              ))
            ≡ some
                (record (waiting false) { current_state = some dead }, pings_from first (suc left))
      flag zero = refl
      flag (suc l) = refl

  heard_round :
      (left first : ℕ) (p : Bool)
      → (wakes first).pong || (wakes first).stopped ≡ true
      → retry_loop wakes (suc left) first (waiting p)
        ≡ some (
          record (waiting (wakes first).pong) {
            running = not (wakes first).stopped;
            current_state = some (if (wakes first).stopped then timeout else alive);
          },
          pings_from first 1,
        )
  unfolding retry_loop send_ping change_state
  heard_round left first p h = ground arith

  retry_loop_heard :
      (k left first last : ℕ) (p : Bool)
      → last ≡ first + k
      → k < left
      → ((i : ℕ) → first ≤ i → i < last → IsSilent (wakes i))
      → (wakes last).pong || (wakes last).stopped ≡ true
      → retry_loop wakes left first (waiting p)
        ≡ some (
          record (waiting (wakes last).pong) {
            running = not (wakes last).stopped;
            current_state = some (if (wakes last).stopped then timeout else alive);
          },
          pings_from first (suc k),
        )
  retry_loop_heard k zero first last p e l s h = absurd (omega arith)
  retry_loop_heard zero (suc left) first last p e l s h =
      let same : last ≡ first = omega arith in rw same (heard_round left first p (rw same at h))
  retry_loop_heard (suc k) (suc left) first last p e l s h =
      rw
        (
          silent_round left first p (s first (omega arith) (omega arith)),
          retry_loop_heard k left (first + 1) last false (omega arith) (omega arith)
              (λ i a b. s i (omega arith) b) h,
        )
        refl

-- The message of a node in TIMEOUT to the manager.
abbrev pub notice : List ℕ → NodeBase → MessageState
notice now node =
    record (message_state node.object_node_id node.node_type timeout 1 node.client_addr) {
      message = timeout_text ++ now;
    }

module _ (now : List ℕ) (wakes : ℕ → Wake) (node : NodeBase) (on : node.running ≡ true)
    (state : node.current_state ≡ some timeout) where
  as_waiting :
      node ≡ waiting node.node_type node.object_node_id node.client_addr wakes node.pong_state
  as_waiting = λ i. record node { current_state = state i; running = on i }

  -- The loop started by the handler.
  handle_timeout_loop :
      {after : NodeBase} {sent : List MessageState}
      → retry_loop wakes retry_num 0
          (waiting node.node_type node.object_node_id node.client_addr wakes node.pong_state)
        ≡ some (after, sent)
      → handle_timeout now wakes node ≡ some (after, notice now node ∷ sent)
  unfolding handle_timeout change_message
  handle_timeout_loop h = ground (arith, as_waiting, h)

  -- A running node in TIMEOUT that hears nothing in five retries tells the manager of the timeout,
  -- pings five times, and is DEAD.
  pub handle_timeout_silent :
      ((i : ℕ) → i < retry_num → IsSilent (wakes i))
      → handle_timeout now wakes node
        ≡ some (
          record node { current_state = some dead; running = true; pong_state = false },
          notice now node ∷ pings wakes node.node_type node.client_addr 0 retry_num,
        )
  handle_timeout_silent s = handle_timeout_loop (
      retry_loop_silent node.node_type node.object_node_id node.client_addr wakes retry_num 0
        node.pong_state refl (λ i a b. s i b))

  -- If retry number `k` of a running node in TIMEOUT is the first to be answered, by a pong or by a
  -- stop, the node tells the manager of the timeout, pings `k + 1` times, and is then ALIVE, or, if
  -- stopped, still in TIMEOUT.
  pub handle_timeout_heard :
      (k : ℕ)
      → k < retry_num
      → ((i : ℕ) → i < k → IsSilent (wakes i))
      → (wakes k).pong || (wakes k).stopped ≡ true
      → handle_timeout now wakes node
        ≡ some (
          record node {
            current_state = some (if (wakes k).stopped then timeout else alive);
            running = not (wakes k).stopped;
            pong_state = (wakes k).pong;
          },
          notice now node ∷ pings wakes node.node_type node.client_addr 0 (suc k),
        )
  handle_timeout_heard k l s h = handle_timeout_loop (
      retry_loop_heard node.node_type node.object_node_id node.client_addr wakes k retry_num 0 k
        node.pong_state (omega arith) l (λ i a b. s i b) h)

IsSilent-or_heard : (w : Wake) → IsSilent w ⊎ (w.pong || w.stopped ≡ true)
IsSilent-or_heard w = ground arith

-- Among the first `n` waits all are silent, or there is a first that is not.
pub first_heard :
    (wakes : ℕ → Wake) (n : ℕ)
    → ((i : ℕ) → i < n → IsSilent (wakes i))
      ⊎ ((k : ℕ) × (k < n)
          × ((i : ℕ) → i < k → IsSilent (wakes i))
          × ((wakes k).pong || (wakes k).stopped ≡ true))
first_heard wakes zero = inl (λ i p. absurd (omega arith))
first_heard wakes (suc n) = elim (first_heard wakes n) [
  | inl all ↦ elim (IsSilent-or_heard (wakes n)) [
    | inl last ↦
        inl (λ i p. elim (ℕ_discrete i n) [ yes e ↦ rw e last | no ne ↦ all i (omega arith) ])
    | inr heard ↦ inr (n, omega arith, all, heard)
  ]
  | inr (k, below, before, heard) ↦ inr (k, omega arith, before, heard)
]
