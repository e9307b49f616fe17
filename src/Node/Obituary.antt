-- ===== src/Node/Obituary.antt =====
-- When the thread of a node of source/node_service/NodeBase.cpp tells of its death: once, in the round
-- that stops it.
use mathlib.Core.Path.{subst}
use node_management.Common.{
  ℕ, zero, suc, ◌+◌, ◌≡◌, ◌≢◌, refl, sym, ◌⊎◌, inl, inr, Bool, true, false, List, [], ◌∷◌, Option,
  some, All,
}
use node_management.Types.{
  TypeNode, SockaddrIn, StateList, init, alive, timeout, dead, MessageState,
}
use node_management.Node.{NodeBase, Wake, Round, handle_state, thread_round, retry_num}
use node_management.Node.Turning.{AfterHandler, AfterRound, thread_round-AfterRound}
use node_management.Node.States.{handle_init_lem, handle_alive_lem, handle_dead_lem}
use node_management.Node.Retry.{pings, handle_timeout_silent, handle_timeout_heard, first_heard}

-- Does not tell of a death.
abbrev pub IsOther : MessageState → Type 0
IsOther s = s.state ≢ dead

-- All messages are others, or there is one that tells of the death, and the node is stopped.
abbrev pub Tells : NodeBase → List MessageState → Type 0
Tells after sent =
    All IsOther sent ⊎ ((s : MessageState) × (sent ≡ s ∷ []) × (after.running ≡ false))

abbrev TellsIn : Option (NodeBase × List MessageState) → Type 0
TellsIn = AfterHandler Tells

abbrev pub TellsRound : Option (NodeBase × List MessageState × Bool) → Type 0
TellsRound = AfterRound Tells

tells :
    {result : Option (NodeBase × List MessageState)} {after : NodeBase} {sent : List MessageState}
    → result ≡ some (after, sent)
    → Tells after sent
    → TellsIn result
tells e h = subst TellsIn (sym e) h

init-ne-dead : init ≢ dead
init-ne-dead e = cc

alive-ne-dead : alive ≢ dead
alive-ne-dead e = cc

timeout-ne-dead : timeout ≢ dead
timeout-ne-dead e = cc

pings-IsOther :
    (wakes : ℕ → Wake) (node_type : TypeNode) (addr : SockaddrIn) (first count : ℕ)
    → All IsOther (pings wakes node_type addr first count)
pings-IsOther wakes node_type addr first zero = tt
pings-IsOther wakes node_type addr first (suc count) =
    (timeout-ne-dead, pings-IsOther wakes node_type addr (first + 1) count)

handle_state-Tells :
    (state : StateList) (now : List ℕ) (wakes : ℕ → Wake) (node : NodeBase)
    → node.running ≡ true
    → node.current_state ≡ some state
    → TellsIn (handle_state state now wakes node)
unfolding handle_state
handle_state-Tells init now wakes node on e =
    tells (handle_init_lem (wakes 0) node e) (inl (init-ne-dead, tt))
handle_state-Tells alive now wakes node on e =
    tells (handle_alive_lem (wakes 0) node e) (inl (alive-ne-dead, tt))
handle_state-Tells timeout now wakes node on e = elim (first_heard wakes retry_num) [
  | inl silent ↦
      tells (handle_timeout_silent now wakes node on e silent)
        (inl (timeout-ne-dead, pings-IsOther wakes node.node_type node.client_addr 0 retry_num))
  | inr (k, below, before, heard) ↦
      tells (handle_timeout_heard now wakes node on e k below before heard)
        (inl (timeout-ne-dead, pings-IsOther wakes node.node_type node.client_addr 0 (suc k)))
]
handle_state-Tells dead now wakes node on e =
    tells (handle_dead_lem now node e) (inr (_, refl, refl))
handle_state-Tells StateList.max now wakes node on e = tt

-- A round tells of no death, or its only message does, and then the node is stopped.
pub thread_round-TellsRound : (r : Round) (node : NodeBase) → TellsRound (thread_round r node)
thread_round-TellsRound r node =
    thread_round-AfterRound Tells r node (inl tt) (λ on. inl tt)
      (λ state on e. handle_state-Tells state r.now r.wakes (record node { running = true }) refl e)
