-- ===== src/Manager/Watch/Ports.antt =====
-- One port in the vector of nodes of source/NodeManagament.cpp, through each change of the vector.
use mathlib.Core.Path.{subst}
use mathlib.Core.Option.{some-injective}
use node_management.Common.{
  ℕ, zero, suc, ◌≡◌, ◌≢◌, refl, sym, ap, ◌∙◌, true, false, List, [], ◌∷◌, ◌++◌, some, arith, ◌==◌,
  if◌then◌else◌, get_elem?, set, All,
}
use node_management.Types.{StateList, MessageState}
use node_management.Node.{NodeBase, get_port_info}
use node_management.Manager.{answer, is_monitored, erase_node}

-- The nodes of the port, if any, are stopped.
abbrev pub IsOff : ℕ → NodeBase → Type 0
IsOff port node = get_port_info node ≡ port → node.running ≡ false

-- A message that does not tell the death of the node of the port.
abbrev pub IsNoObituary : ℕ → MessageState → Type 0
IsNoObituary port s = s.state ≡ StateList.dead → s.client_addr.sin_port ≢ port

module _ (port : ℕ) where
  pub erase_node-kept :
      (other : ℕ) (nodes : List NodeBase)
      → other ≢ port
      → is_monitored port nodes ≡ true
      → is_monitored port (erase_node other nodes) ≡ true
  unfolding erase_node is_monitored
  erase_node-kept other [] ne h = h
  erase_node-kept other (node ∷ nodes) ne h = ground (arith, erase_node-kept other nodes ne)

  pub erase_node-IsOff :
      (other : ℕ) (nodes : List NodeBase)
      → All (IsOff port) nodes
      → All (IsOff port) (erase_node other nodes)
  unfolding erase_node
  erase_node-IsOff other [] h = tt
  erase_node-IsOff other (node ∷ nodes) h =
      elim (get_port_info node == other)
        as (λ b. All (IsOff port) (if b then nodes else node ∷ erase_node other nodes)) [
          | true ↦ h.1
          | false ↦ (h.0, erase_node-IsOff other nodes h.1)
        ]

  pub answer-kept :
      (other : ℕ) (nodes : List NodeBase)
      → is_monitored port (answer other nodes) ≡ is_monitored port nodes
  unfolding answer is_monitored
  answer-kept other [] = refl
  answer-kept other (node ∷ nodes) = ground (arith, answer-kept other nodes)

  pub answer-IsOff :
      (other : ℕ) (nodes : List NodeBase)
      → All (IsOff port) nodes
      → All (IsOff port) (answer other nodes)
  unfolding answer
  answer-IsOff other [] h = tt
  answer-IsOff other (node ∷ nodes) h =
      elim (get_port_info node == other)
        as (λ b.
          All (IsOff port)
            (if b then record node { pong_state = true } ∷ nodes else node ∷ answer other nodes)) [
              | true ↦ (h.0, h.1)
              | false ↦ (h.0, answer-IsOff other nodes h.1)
            ]

  pub snoc-kept :
      (nodes : List NodeBase) (new : NodeBase)
      → is_monitored port nodes ≡ true
      → is_monitored port (nodes ++ new ∷ []) ≡ true
  unfolding is_monitored
  snoc-kept [] new h = ground (arith, h)
  snoc-kept (node ∷ nodes) new h = ground (arith, snoc-kept nodes new)

  pub snoc-IsOff :
      (nodes : List NodeBase) (new : NodeBase)
      → All (IsOff port) nodes
      → get_port_info new ≢ port
      → All (IsOff port) (nodes ++ new ∷ [])
  snoc-IsOff [] new h ne = (λ e. absurd (ne e), tt)
  snoc-IsOff (node ∷ nodes) new h ne = (h.0, snoc-IsOff nodes new h.1 ne)

  pub set-kept :
      (nodes : List NodeBase) (i : ℕ) (node after : NodeBase)
      → get_elem? nodes i ≡ some node
      → after.client_addr ≡ node.client_addr
      → is_monitored port (set nodes i after) ≡ is_monitored port nodes
  unfolding is_monitored
  set-kept [] i node after g e = refl
  set-kept (x ∷ nodes) zero node after g e =
      ap (λ p. if p == port then true else is_monitored port nodes) same
    where
      same : get_port_info after ≡ get_port_info x
      same = ap (λ a. a.sin_port) e ∙ ap get_port_info (sym (some-injective x node g))
  set-kept (x ∷ nodes) (suc i) node after g e = ground (arith, set-kept nodes i node after g e)

  pub set-IsOff :
      (nodes : List NodeBase) (i : ℕ) (after : NodeBase)
      → All (IsOff port) nodes
      → IsOff port after
      → All (IsOff port) (set nodes i after)
  set-IsOff [] i after h o = tt
  set-IsOff (x ∷ nodes) zero after h o = (o, h.1)
  set-IsOff (x ∷ nodes) (suc i) after h o = (h.0, set-IsOff nodes i after h.1 o)

  pub get-IsOff :
      (nodes : List NodeBase) (i : ℕ) (node : NodeBase)
      → All (IsOff port) nodes
      → get_elem? nodes i ≡ some node
      → IsOff port node
  get-IsOff [] i node h g = cc
  get-IsOff (x ∷ nodes) zero node h g = subst (IsOff port) (some-injective x node g) h.0
  get-IsOff (x ∷ nodes) (suc i) node h g = get-IsOff nodes i node h.1 g
