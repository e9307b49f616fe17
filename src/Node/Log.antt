-- ===== src/Node/Log.antt =====
-- The lines of the log file about a node of source/node_service/NodeBase.cpp, before the prefix of
-- `DEBUG_LOG`, with their numbers kept as numbers.
use Prim.Native.String.{String}
use node_management.Common.{
  ℕ, zero, suc, ◌+◌, ◌*◌, ◌/◌, ◌%◌, ◌≡◌, refl, ap, ◌∙◌, inl, inr, Bool, true, false, ◌||◌, List, [],
  ◌∷◌, Option, none, some, ◌<◌, arith, if◌then◌else◌,
}
use node_management.Types.{
  TypeNode, base, data_plane, control_plane, oam, unnamed, StateList, init, alive, timeout, dead,
  MessageState,
}
use node_management.Node.{NodeBase, Wake, handle_state, retry_num, get_port_info}
use node_management.Node.Retry.{IsSilent, handle_timeout_silent, handle_timeout_heard, first_heard}

-- `getNameType`.
unfoldable pub get_name_type : TypeNode → String
get_name_type data_plane = "DATA_PLANE"
get_name_type control_plane = "CONTROL_PLANE"
get_name_type oam = "OAM"
get_name_type base = ""
get_name_type (unnamed n) = ""

-- `ntohs`: the two bytes in the other order.
abbrev pub ntohs : ℕ → ℕ
ntohs port = port % 256 * 256 + port / 256 % 256

-- "NodeID[...] Type[...] Port[...] word".
pub record LogLine : Type 0 where
  pub node_id : ℕ
  pub type_id : String
  pub port : ℕ
  pub word : String

abbrev pub log_line : NodeBase → String → LogLine
log_line node word = record {
  node_id = node.object_node_id;
  type_id = get_name_type node.node_type;
  port = ntohs (get_port_info node);
  word = word;
}

-- The rest of `TimeoutState::handleState` from retry `retry_time` on: a line when a pong came.
unfoldable pub retry_log : (ℕ → Wake) → ℕ → ℕ → NodeBase → List LogLine
retry_log wakes zero retry_time node = []
retry_log wakes (suc left) retry_time node =
    let w = wakes retry_time in
    let rest = retry_log wakes left (retry_time + 1) node in
    if w.pong || w.stopped then if w.stopped then [] else log_line node "Alive" ∷ [] else rest

-- The lines of the handler of a state, of a node that runs.
unfoldable pub handle_log : StateList → (ℕ → Wake) → NodeBase → List LogLine
handle_log init wakes node = []
handle_log alive wakes node = []
handle_log timeout wakes node = log_line node "timeout" ∷ retry_log wakes retry_num 0 node
handle_log dead wakes node = log_line node "dead" ∷ []
handle_log StateList.max wakes node = []

module _ (wakes : ℕ → Wake) (node : NodeBase) where
  silent_log :
      (left first : ℕ)
      → first + left ≡ retry_num
      → ((i : ℕ) → i < retry_num → IsSilent (wakes i))
      → retry_log wakes left first node ≡ []
  unfolding retry_log
  silent_log zero first e s = refl
  silent_log (suc left) first e s =
      rw ((s first (omega arith)).0, (s first (omega arith)).1)
        (silent_log left (first + 1) (omega arith) s)

  heard_log :
      (k left first last : ℕ)
      → last ≡ first + k
      → k < left
      → ((i : ℕ) → i < last → IsSilent (wakes i))
      → (wakes last).pong || (wakes last).stopped ≡ true
      → retry_log wakes left first node
        ≡ (if (wakes last).stopped then [] else log_line node "Alive" ∷ [])
  unfolding retry_log
  heard_log k zero first last e l s h = absurd (omega arith)
  heard_log zero (suc left) first last e l s h =
      let same : last ≡ first = omega arith in rw (same, rw same at h) refl
  heard_log (suc k) (suc left) first last e l s h =
      rw ((s first (omega arith)).0, (s first (omega arith)).1)
        (heard_log k left (first + 1) last (omega arith) (omega arith) s h)

-- What a node that had a timeout writes when it has come to a state.
abbrev pub outcome_log : NodeBase → Option StateList → List LogLine
outcome_log node none = []
outcome_log node (some init) = []
outcome_log node (some alive) = log_line node "Alive" ∷ []
outcome_log node (some timeout) = []
outcome_log node (some dead) = []
outcome_log node (some StateList.max) = []

-- A running node in TIMEOUT writes that it had a timeout, and then that it is alive exactly when its
-- handler leaves it in ALIVE.
pub timeout_log_lem :
    (now : List ℕ) (wakes : ℕ → Wake) (node : NodeBase)
    → node.running ≡ true
    → node.current_state ≡ some timeout
    → (after : NodeBase) × (sent : List MessageState) × (handle_state timeout now wakes node
        ≡ some (after, sent))
      × (handle_log timeout wakes node
          ≡ log_line node "timeout" ∷ outcome_log node after.current_state)
unfolding handle_state handle_log
timeout_log_lem now wakes node on e = elim (first_heard wakes retry_num) [
  | inl silent ↦ (
    _,
    _,
    handle_timeout_silent now wakes node on e silent,
    ap (◌∷◌ (log_line node "timeout")) (silent_log wakes node retry_num 0 refl silent),
  )
  | inr (k, below, before, heard) ↦ (
    _,
    _,
    handle_timeout_heard now wakes node on e k below before heard,
    ap (◌∷◌ (log_line node "timeout")) (
        heard_log wakes node k retry_num 0 k (omega arith) below before heard
        ∙ by_stop (wakes k).stopped),
  )
]
  where
    by_stop :
        (b : Bool)
        → (if b then [] else log_line node "Alive" ∷ [])
          ≡ outcome_log node (some (if b then timeout else alive))
    by_stop true = refl
    by_stop false = refl
