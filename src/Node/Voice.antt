-- ===== src/Node/Voice.antt =====
-- Whose messages the thread of a node of source/node_service/NodeBase.cpp pushes: its own, and none
-- when it is stopped.
use mathlib.Core.Path.{subst}
use node_management.Common.{
  ℕ, zero, suc, ◌+◌, ◌≡◌, refl, sym, inl, inr, Bool, true, false, List, [], Option, none, some,
  arith, All,
}
use node_management.Types.{
  TypeNode, SockaddrIn, StateList, init, alive, timeout, dead, MessageState,
}
use node_management.Node.{NodeBase, Wake, Round, handle_state, thread_round, retry_num}
use node_management.Node.Turning.{AfterHandler, AfterRound, thread_round-AfterRound}
use node_management.Node.States.{handle_init_lem, handle_alive_lem, handle_dead_lem}
use node_management.Node.Retry.{pings, handle_timeout_silent, handle_timeout_heard, first_heard}

-- A message that carries the address.
abbrev pub IsFrom : SockaddrIn → MessageState → Type 0
IsFrom addr s = s.client_addr ≡ addr

pings-IsFrom :
    (wakes : ℕ → Wake) (node_type : TypeNode) (addr : SockaddrIn) (first count : ℕ)
    → All (IsFrom addr) (pings wakes node_type addr first count)
pings-IsFrom wakes node_type addr first zero = tt
pings-IsFrom wakes node_type addr first (suc count) =
    (refl, pings-IsFrom wakes node_type addr (first + 1) count)

-- The node keeps its address, and its messages carry it; a node that is stopped does nothing.
abbrev pub Spoken : NodeBase → NodeBase → List MessageState → Type 0
Spoken node after sent =
    (after.client_addr ≡ node.client_addr)
    × All (IsFrom node.client_addr) sent
    × (node.running ≡ false → (after.running ≡ false) × (sent ≡ []))

-- The same of what a handler or a round returns.
abbrev Speaks : NodeBase → Option (NodeBase × List MessageState) → Type 0
Speaks node = AfterHandler (Spoken node)

abbrev pub SpeaksRound : NodeBase → Option (NodeBase × List MessageState × Bool) → Type 0
SpeaksRound node = AfterRound (Spoken node)

speaks :
    {result : Option (NodeBase × List MessageState)} {after : NodeBase} {sent : List MessageState}
    (node : NodeBase)
    → result ≡ some (after, sent)
    → node.running ≡ true
    → after.client_addr ≡ node.client_addr
    → All (IsFrom node.client_addr) sent
    → Speaks node result
speaks node e on same from =
    subst (Speaks node) (sym e) (same, from, λ off. absurd (ground (arith, on, off)))

handle_state-Speaks :
    (state : StateList) (now : List ℕ) (wakes : ℕ → Wake) (node : NodeBase)
    → node.running ≡ true
    → node.current_state ≡ some state
    → Speaks node (handle_state state now wakes node)
unfolding handle_state
handle_state-Speaks init now wakes node on e =
    speaks node (handle_init_lem (wakes 0) node e) on refl (refl, tt)
handle_state-Speaks alive now wakes node on e =
    speaks node (handle_alive_lem (wakes 0) node e) on refl (refl, tt)
handle_state-Speaks timeout now wakes node on e = elim (first_heard wakes retry_num) [
  | inl silent ↦
      speaks node (handle_timeout_silent now wakes node on e silent) on refl
        (refl, pings-IsFrom wakes node.node_type node.client_addr 0 retry_num)
  | inr (k, below, before, heard) ↦
      speaks node (handle_timeout_heard now wakes node on e k below before heard) on refl
        (refl, pings-IsFrom wakes node.node_type node.client_addr 0 (suc k))
]
handle_state-Speaks dead now wakes node on e =
    speaks node (handle_dead_lem now node e) on refl (refl, tt)
handle_state-Speaks StateList.max now wakes node on e = tt

running-Speaks :
    (node : NodeBase)
    → node.running ≡ true
    → (result : Option (NodeBase × List MessageState))
    → Speaks (record node { running = true }) result
    → Speaks node result
running-Speaks node on none h = tt
running-Speaks node on (some (after, sent)) h = (h.0, h.1, λ off. absurd (ground (arith, on, off)))

-- Every message that a round of a node's thread pushes carries the address of the node, which the node
-- keeps; a round of a node that is stopped leaves it stopped and pushes nothing.
pub thread_round-SpeaksRound :
    (r : Round) (node : NodeBase) → SpeaksRound node (thread_round r node)
thread_round-SpeaksRound r node =
    thread_round-AfterRound (Spoken node) r node (refl, tt, λ off. (refl, refl))
      (λ on. (refl, tt, λ off. absurd (ground (arith, on, off))))
      (λ state on e.
        running-Speaks node on (handle_state state r.now r.wakes (record node { running = true }))
          (handle_state-Speaks state r.now r.wakes (record node { running = true }) refl e))
