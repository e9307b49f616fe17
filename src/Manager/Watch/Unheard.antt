-- ===== src/Manager/Watch/Unheard.antt =====
-- How the manager of source/NodeManagament.cpp loses a node: the node dies while the manager is
-- stopped.
use node_management.Common.{
  ℕ, zero, suc, ◌≡◌, ◌≢◌, refl, sym, ap, ◌∙◌, true, false, List, [], ◌∷◌, some, arith, get_elem?,
  set, All,
}
use mathlib.Core.Path.{subst}
use mathlib.Core.Option.{some-injective}
use node_management.Types.{StateList, MessageState}
use node_management.SafeQueue.{SafeQueue, push}
use node_management.Node.{NodeBase, Wake, thread_round, get_port_info}
use node_management.Node.Moves.Steps.{in_state, farewell}
use node_management.Node.Moves.Rounds.{running_round, round-dead}
use node_management.Manager.{Manager, is_monitored}
use node_management.Manager.Registry.{IsFree, DistinctPorts}
use node_management.Manager.Watch.{push_messages, after_round}
use node_management.Manager.Watch.Ports.{IsOff, IsNoObituary, set-kept}
use node_management.Manager.Watch.Lost.{IsLost}

module _ (node : NodeBase) where
  pub found-monitored :
      (nodes : List NodeBase) (i : ℕ)
      → get_elem? nodes i ≡ some node
      → is_monitored (get_port_info node) nodes ≡ true
  unfolding is_monitored
  found-monitored [] i g = cc
  found-monitored (x ∷ nodes) zero g = ground (arith, ap get_port_info (some-injective x node g))
  found-monitored (x ∷ nodes) (suc i) g = ground (arith, found-monitored nodes i g)

  free-IsOff : (port : ℕ) (nodes : List NodeBase) → IsFree port nodes → All (IsOff port) nodes
  free-IsOff port [] h = tt
  free-IsOff port (x ∷ nodes) h = (λ e. absurd (h.0 e), free-IsOff port nodes h.1)

  pub free-get :
      (port : ℕ) (nodes : List NodeBase) (i : ℕ)
      → IsFree port nodes
      → get_elem? nodes i ≡ some node
      → get_port_info node ≢ port
  free-get port [] i h g = cc
  free-get port (x ∷ nodes) zero h g =
      subst (λ n. get_port_info n ≢ port) (some-injective x node g) h.0
  free-get port (x ∷ nodes) (suc i) h g = free-get port nodes i h.1 g

  -- Where no two nodes share a port, one stopped node is enough.
  pub distinct-IsOff :
      (nodes : List NodeBase) (i : ℕ) (after : NodeBase)
      → DistinctPorts nodes
      → get_elem? nodes i ≡ some node
      → after.running ≡ false
      → All (IsOff (get_port_info node)) (set nodes i after)
  distinct-IsOff [] i after d g off = tt
  distinct-IsOff (x ∷ nodes) zero after d g off = (
    λ e. off,
    free-IsOff (get_port_info node) nodes
        (subst (λ n. IsFree (get_port_info n) nodes) (some-injective x node g) d.0),
  )
  distinct-IsOff (x ∷ nodes) (suc i) after d g off = (
    λ e. absurd (free-get (get_port_info x) nodes i d.0 g (sym e)),
    distinct-IsOff nodes i after d.1 g off,
  )

push-stopped :
    (q : SafeQueue MessageState) (s : MessageState)
    → q.running ≡ false
    → push_messages (s ∷ []) q ≡ q
unfolding push_messages push
push-stopped q s off = ground (arith, off)

-- If the queue of messages is stopped and holds no word of the node's death, the round in which a
-- node dies loses it.
pub death_unheard :
    (m : Manager) (i : ℕ) (now : List ℕ) (wakes : ℕ → Wake) (node : NodeBase)
    → DistinctPorts m.vec_node_base
    → m.running ≡ false
    → m.message_node_queue.running ≡ false
    → All (IsNoObituary (get_port_info node)) m.message_node_queue.queue
    → get_elem? m.vec_node_base i ≡ some node
    → node.running ≡ true
    → node.current_state ≡ some StateList.dead
    → (after : NodeBase) × (sent : List MessageState) × (thread_round (running_round now wakes) node
        ≡ some (after, sent, false))
      × IsLost (get_port_info node) (after_round i after sent m)
death_unheard m i now wakes node d off stopped untold g on e = (
  in_state StateList.init (record node { running = false }),
  farewell now node ∷ [],
  round-dead now node wakes on e,
  record {
    served = λ h. absurd (ground (arith, h, off));
    kept =
        set-kept (get_port_info node) m.vec_node_base i node _ g refl
        ∙ found-monitored node m.vec_node_base i g;
    off = distinct-IsOff node m.vec_node_base i _ d g refl;
    untold =
        subst (λ q. All (IsNoObituary (get_port_info node)) q.queue)
          (sym (push-stopped m.message_node_queue (farewell now node) stopped)) untold;
  },
)
