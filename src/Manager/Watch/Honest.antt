-- ===== src/Manager/Watch/Honest.antt =====
-- The messages of deaths in the queue of source/NodeManagament.cpp between whole rounds of the nodes:
-- each is about one node of the vector, which is stopped, and no two are about the same. In the source
-- the node is stopped right behind its message.
use mathlib.Core.Path.{subst}
use mathlib.Core.Option.{some-injective}
use node_management.Common.{
  ℕ, zero, suc, ◌≡◌, ◌≢◌, sym, ap, ◌∙◌, true, false, List, [], ◌∷◌, ◌++◌, some, arith, get_elem?,
  set, All,
}
use node_management.Types.{StateList, MessageState}
use node_management.Node.{NodeBase, get_port_info}
use node_management.Manager.{Manager, is_monitored, answer, erase_node}
use node_management.Manager.Registry.{IsFree, DistinctPorts}
use node_management.Manager.Watch.Ports.{
  IsOff, IsNoObituary, erase_node-kept, erase_node-IsOff, answer-kept, answer-IsOff, snoc-kept,
  snoc-IsOff, set-kept, set-IsOff, get-IsOff,
}
use node_management.Manager.Watch.Unheard.{free-get}

-- A message of a death is about a stopped node of the vector.
abbrev pub IsTrue : List NodeBase → MessageState → Type 0
IsTrue nodes s =
    s.state ≡ StateList.dead
    → (is_monitored s.client_addr.sin_port nodes ≡ true) × All (IsOff s.client_addr.sin_port) nodes

-- No node's death is told twice.
abbrev pub ToldOnce : List MessageState → Type 0
ToldOnce [] = Unit
ToldOnce (s ∷ rest) =
    (s.state ≡ StateList.dead → All (IsNoObituary s.client_addr.sin_port) rest) × ToldOnce rest

pub record IsHonest (m : Manager) : Type 0 where
  pub served : m.running ≡ true → m.message_node_queue.running ≡ true
  pub distinct : DistinctPorts m.vec_node_base
  pub true_news : All (IsTrue m.vec_node_base) m.message_node_queue.queue
  pub once : ToldOnce m.message_node_queue.queue

pub All-map :
    {A : Type 0} (P Q : A → Type 0) (xs : List A) → ((x : A) → P x → Q x) → All P xs → All Q xs
All-map P Q [] f h = tt
All-map P Q (x ∷ xs) f h = (f x h.0, All-map P Q xs f h.1)

module _ (nodes : List NodeBase) (messages : List MessageState) where
  pub answer-IsTrue :
      (port : ℕ) → All (IsTrue nodes) messages → All (IsTrue (answer port nodes)) messages
  answer-IsTrue port = All-map (IsTrue nodes) (IsTrue (answer port nodes)) messages (λ s t e. (
    answer-kept s.client_addr.sin_port port nodes ∙ (t e).0,
    answer-IsOff s.client_addr.sin_port port nodes (t e).1,
  ))

  pub snoc-IsTrue :
      (new : NodeBase)
      → is_monitored (get_port_info new) nodes ≡ false
      → All (IsTrue nodes) messages
      → All (IsTrue (nodes ++ new ∷ [])) messages
  snoc-IsTrue new free = All-map (IsTrue nodes) (IsTrue (nodes ++ new ∷ [])) messages (λ s t e. (
    snoc-kept s.client_addr.sin_port nodes new (t e).0,
    snoc-IsOff s.client_addr.sin_port nodes new (t e).1
        (λ q. absurd (ground (arith, subst (λ p. is_monitored p nodes ≡ false) q free, (t e).0))),
  ))

  -- A node takes a turn; it was stopped, or no message is about it.
  pub set-IsTrue :
      (i : ℕ) (node after : NodeBase)
      → get_elem? nodes i ≡ some node
      → after.client_addr ≡ node.client_addr
      → (node.running ≡ false → after.running ≡ false)
      → All (IsTrue nodes) messages
      → All (IsTrue (set nodes i after)) messages
  set-IsTrue i node after g same off =
      All-map (IsTrue nodes) (IsTrue (set nodes i after)) messages (λ s t e. (
        set-kept s.client_addr.sin_port nodes i node after g same ∙ (t e).0,
        set-IsOff s.client_addr.sin_port nodes i after (t e).1 (λ q. off (
            get-IsOff s.client_addr.sin_port nodes i node (t e).1 g
              (ap (λ a. a.sin_port) (sym same) ∙ q))),
      ))

-- The node of another port is deleted.
pub erase-IsTrue :
    (nodes : List NodeBase) (port : ℕ) (messages : List MessageState)
    → All (IsNoObituary port) messages
    → All (IsTrue nodes) messages
    → All (IsTrue (erase_node port nodes)) messages
erase-IsTrue nodes port [] o t = tt
erase-IsTrue nodes port (s ∷ messages) o t = (
  λ e. (
    erase_node-kept s.client_addr.sin_port port nodes (λ q. o.0 e (sym q)) (t.0 e).0,
    erase_node-IsOff s.client_addr.sin_port port nodes (t.0 e).1,
  ),
  erase-IsTrue nodes port messages o.1 t.1,
)

-- What was true of one port is no news of it.
pub other_port :
    (port : ℕ) (nodes : List NodeBase) (messages : List MessageState) (i : ℕ) (node : NodeBase)
    → get_elem? nodes i ≡ some node
    → node.running ≡ true
    → get_port_info node ≡ port
    → All (IsTrue nodes) messages
    → All (IsNoObituary port) messages
other_port port nodes messages i node g on here =
    All-map (IsTrue nodes) (IsNoObituary port) messages (λ s t e q.
      absurd (
        ground (arith, on, get-IsOff s.client_addr.sin_port nodes i node (t e).1 g (here ∙ sym q))))

set-IsFree :
    (port : ℕ) (nodes : List NodeBase) (i : ℕ) (after : NodeBase)
    → IsFree port nodes
    → get_port_info after ≢ port
    → IsFree port (set nodes i after)
set-IsFree port [] i after h ne = tt
set-IsFree port (x ∷ nodes) zero after h ne = (ne, h.1)
set-IsFree port (x ∷ nodes) (suc i) after h ne = (h.0, set-IsFree port nodes i after h.1 ne)

pub set-DistinctPorts :
    (nodes : List NodeBase) (i : ℕ) (node after : NodeBase)
    → get_elem? nodes i ≡ some node
    → after.client_addr ≡ node.client_addr
    → DistinctPorts nodes
    → DistinctPorts (set nodes i after)
set-DistinctPorts [] i node after g same d = tt
set-DistinctPorts (x ∷ nodes) zero node after g same d = (
  subst (λ port. IsFree port nodes)
      (ap get_port_info (some-injective x node g) ∙ ap (λ a. a.sin_port) (sym same)) d.0,
  d.1,
)
set-DistinctPorts (x ∷ nodes) (suc i) node after g same d = (
  set-IsFree (get_port_info x) nodes i after d.0
      (λ e. free-get node (get_port_info x) nodes i d.0 g (ap (λ a. a.sin_port) (sym same) ∙ e)),
  set-DistinctPorts nodes i node after g same d.1,
)
