-- ===== src/Node/Moves/Rounds.antt =====
-- Whole rounds of `handleThread` of source/node_service/NodeBase.cpp with what others do between
-- them, and the round of each handler.
use native.Mathlib.Decide.{ℕ_discrete}
use node_management.Common.{
  ℕ, zero, suc, ◌+◌, ◌<◌, ◌≤◌, ◌≡◌, refl, ◌∙◌, ap, Bool, true, false, not, ◌||◌, List, [], ◌∷◌,
  ◌++◌, none, some, arith, if◌then◌else◌, ◌==◌,
}
use node_management.Types.{
  TypeNode, SockaddrIn, StateList, init, alive, timeout, dead, MessageState, message_state,
}
use node_management.Node.{NodeBase, Wake, Round, thread_round, handle_state, retry_num, ping_text}
use node_management.Node.States.{ping_of, handle_init_lem, handle_alive_lem, handle_dead_lem}
use node_management.Node.Retry.{
  IsSilent, pings, notice, handle_timeout_silent, handle_timeout_heard,
}
use node_management.Node.Moves.{Act, act}
use node_management.Node.Moves.Steps.{since, in_state, farewell, Pinger, in_init, in_alive, verdict}

-- A history of whole rounds: each round is one step, with answers to its waits that are free, and
-- others act between the rounds. The last argument tells whether the thread has left its loop.
pub data Rounds (start : NodeBase) : List MessageState → NodeBase → Bool → Type 0 where
  begins : Rounds start [] start false
  round :
      {sent more : List MessageState} {node after : NodeBase} {over : Bool} (r : Round)
      → Rounds start sent node false
      → thread_round r node ≡ some (after, more, over)
      → Rounds start (sent ++ more) after over
  other :
      {sent : List MessageState} {node : NodeBase} {over : Bool} (a : Act)
      → Rounds start sent node over
      → Rounds start sent (act a node) over

-- A round that begins on a running node, with its waits.
abbrev pub running_round : List ℕ → (ℕ → Wake) → Round
running_round now wakes = record { stopped = false; now = now; wakes = wakes }

module _ (now : List ℕ) (node : NodeBase) where
  pub round-stopped :
      (wakes : ℕ → Wake)
      → node.running ≡ false
      → thread_round (running_round now wakes) node ≡ some (node, [], true)
  unfolding thread_round
  round-stopped wakes e = ground (arith, e)

  pub round-idle :
      (wakes : ℕ → Wake)
      → node.running ≡ true
      → node.current_state ≡ none
      → thread_round (running_round now wakes) node ≡ some (node, [], false)
  unfolding thread_round
  round-idle wakes on e = ground (arith, on, e)

  -- The round of a running node is that of its handler.
  round-handler :
      (wakes : ℕ → Wake) (state : StateList) {after : NodeBase} {sent : List MessageState}
      → node.running ≡ true
      → node.current_state ≡ some state
      → handle_state state now wakes node ≡ some (after, sent)
      → thread_round (running_round now wakes) node ≡ some (after, sent, false)
  unfolding thread_round
  round-handler wakes state on e h = ground (arith, on, e, h)

  pub round-Pinger :
      (w : Wake) {state : StateList}
      → Pinger state
      → node.running ≡ true
      → node.current_state ≡ some state
      → thread_round (running_round now (λ i. w)) node
        ≡ some (
          in_state (verdict state (not w.stopped) w.pong) (since w.pong (not w.stopped) node),
          ping_of w.last_id state node ∷ [],
          false,
        )
  unfolding handle_state
  round-Pinger w in_init on e =
      round-handler (λ i. w) init on e (handle_init_lem w node e ∙ ground (arith, on))
  round-Pinger w in_alive on e =
      round-handler (λ i. w) alive on e (handle_alive_lem w node e ∙ ground (arith, on))

  pub round-silent :
      (wakes : ℕ → Wake)
      → node.running ≡ true
      → node.current_state ≡ some timeout
      → ((i : ℕ) → i < retry_num → IsSilent (wakes i))
      → thread_round (running_round now wakes) node
        ≡ some (
          in_state dead (since false true node),
          notice now node ∷ pings wakes node.node_type node.client_addr 0 retry_num,
          false,
        )
  unfolding handle_state
  round-silent wakes on e s =
      round-handler wakes timeout on e (handle_timeout_silent now wakes node on e s)

  pub round-heard :
      (wakes : ℕ → Wake) (k : ℕ)
      → node.running ≡ true
      → node.current_state ≡ some timeout
      → k < retry_num
      → ((i : ℕ) → i < k → IsSilent (wakes i))
      → (wakes k).pong || (wakes k).stopped ≡ true
      → thread_round (running_round now wakes) node
        ≡ some (
          in_state
              (if (wakes k).stopped then timeout else alive)
              (since (wakes k).pong (not (wakes k).stopped) node),
          notice now node ∷ pings wakes node.node_type node.client_addr 0 (suc k),
          false,
        )
  unfolding handle_state
  round-heard wakes k on e l s h =
      round-handler wakes timeout on e (handle_timeout_heard now wakes node on e k l s h)

  pub round-dead :
      (wakes : ℕ → Wake)
      → node.running ≡ true
      → node.current_state ≡ some dead
      → thread_round (running_round now wakes) node
        ≡ some (in_state init (record node { running = false }), farewell now node ∷ [], false)
  unfolding handle_state
  round-dead wakes on e = round-handler wakes dead on e (handle_dead_lem now node e)

-- One wait of a sequence replaced.
abbrev pub update : (ℕ → Wake) → ℕ → Wake → ℕ → Wake
update wakes k w i = if i == k then w else wakes i

module _ (wakes : ℕ → Wake) (node_type : TypeNode) (addr : SockaddrIn) where
  abbrev ping_number : ℕ → MessageState
  ping_number i = record (message_state (wakes i).last_id node_type timeout 0 addr) {
    message = ping_text;
  }

  pings-snoc :
      (count first last : ℕ)
      → last ≡ first + count
      → pings wakes node_type addr first (suc count)
        ≡ pings wakes node_type addr first count ++ ping_number last ∷ []
  pings-snoc zero first last e = ground (arith, e)
  pings-snoc (suc count) first last e =
      ap (◌∷◌ (ping_number first)) (pings-snoc count (first + 1) last (omega arith))

  pings-update :
      (w : Wake) (k count first : ℕ)
      → first + count ≤ k
      → pings (update wakes k w) node_type addr first count ≡ pings wakes node_type addr first count
  pings-update w k zero first l = refl
  pings-update w k (suc count) first l =
      ground (arith, pings-update w k count (first + 1) (omega arith))

abbrev pub retry_ping : ℕ → NodeBase → MessageState
retry_ping last_id node = record (message_state last_id node.node_type timeout 0 node.client_addr) {
  message = ping_text;
}

-- The messages of TIMEOUT up to retry `k`.
abbrev pub retried_to : List ℕ → (ℕ → Wake) → ℕ → NodeBase → List MessageState
retried_to now wakes k node = notice now node ∷ pings wakes node.node_type node.client_addr 0 k

-- A wait set at the end of a sequence adds its ping.
pub pings-extend :
    (wakes : ℕ → Wake) (node : NodeBase) (w : Wake) (k next : ℕ)
    → next ≡ suc k
    → pings (update wakes k w) node.node_type node.client_addr 0 next
      ≡ pings wakes node.node_type node.client_addr 0 k ++ retry_ping w.last_id node ∷ []
pings-extend wakes node w k next e =
    ap (pings (update wakes k w) node.node_type node.client_addr 0) e
    ∙ ground (
      arith,
      pings-snoc (update wakes k w) node.node_type node.client_addr k 0 k (omega arith),
      pings-update wakes node.node_type node.client_addr w k k 0 (omega arith),
    )

module _ (wakes : ℕ → Wake) (k : ℕ) (w : Wake) where
  update_at : update wakes k w k ≡ w
  update_at = ground arith

  pub update-IsSilent :
      ((i : ℕ) → i < k → IsSilent (wakes i)) → (i : ℕ) → i < k → IsSilent (update wakes k w i)
  update-IsSilent s i l = ground (arith, s i l)

  pub update-IsSilent_to :
      w.pong ≡ false
      → w.stopped ≡ false
      → ((i : ℕ) → i < k → IsSilent (wakes i))
      → (i : ℕ) → i < k + 1
      → IsSilent (update wakes k w i)
  update-IsSilent_to a b s i l = elim (ℕ_discrete i k) [
    | yes e ↦ ground (arith, a, b, e)
    | no ne ↦ update-IsSilent s i (omega arith)
  ]

  -- The round whose last wait is `w`.
  pub round-answered :
      (now : List ℕ) (node : NodeBase)
      → node.running ≡ true
      → node.current_state ≡ some timeout
      → k < retry_num
      → ((i : ℕ) → i < k → IsSilent (wakes i))
      → w.pong || w.stopped ≡ true
      → thread_round (running_round now (update wakes k w)) node
        ≡ some (
          in_state (if w.stopped then timeout else alive) (since w.pong (not w.stopped) node),
          retried_to now wakes k node ++ retry_ping w.last_id node ∷ [],
          false,
        )
  round-answered now node on e l s h =
      round-heard now node (update wakes k w) k on e l (update-IsSilent s)
        (ground (arith, update_at, h))
      ∙ λ i. some (
        in_state (if (update_at i).stopped then timeout else alive)
            (since (update_at i).pong (not (update_at i).stopped) node),
        notice now node ∷ pings-extend wakes node w k (suc k) refl i,
        false,
      )
