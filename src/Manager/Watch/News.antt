-- ===== src/Manager/Watch/News.antt =====
-- The queue of messages of source/NodeManagament.cpp through the turns of the nodes: its messages of
-- deaths stay true, and none comes twice.
use mathlib.Core.Path.{subst}
use node_management.Common.{
  ℕ, ◌≡◌, sym, ap, ◌∙◌, inl, inr, Bool, true, false, not, List, [], ◌∷◌, ◌++◌, some, leb,
  if◌then◌else◌, get_elem?, set, All, Bool-cases, length, drop,
}
use node_management.Types.{StateList, MessageState}
use node_management.SafeQueue.{SafeQueue, push, max_safe_queue}
use node_management.SafeQueue.Contents.{snoc-All, tail-All, push-All}
use node_management.Node.{NodeBase, get_port_info}
use node_management.Node.Voice.{IsFrom}
use node_management.Node.Obituary.{IsOther, Tells}
use node_management.Manager.{is_monitored}
use node_management.Manager.Registry.{DistinctPorts}
use node_management.Manager.Watch.{push_messages}
use node_management.Manager.Watch.Ports.{IsOff, IsNoObituary, set-kept}
use node_management.Manager.Watch.Unheard.{found-monitored, distinct-IsOff}
use node_management.Manager.Watch.Honest.{IsTrue, ToldOnce, set-IsTrue, other_port}

once-snoc :
    (messages : List MessageState) (s : MessageState)
    → (s.state ≡ StateList.dead → All (IsNoObituary s.client_addr.sin_port) messages)
    → ToldOnce messages
    → ToldOnce (messages ++ s ∷ [])
once-snoc [] s h o = (λ e. tt, tt)
once-snoc (x ∷ messages) s h o = (
  λ e. snoc-All (IsNoObituary x.client_addr.sin_port) messages s (o.0 e) (λ d q. (h d).0 e (sym q)),
  once-snoc messages s (λ d. (h d).1) o.1,
)

once-tail : (messages : List MessageState) → ToldOnce messages → ToldOnce (drop 1 messages)
once-tail [] o = tt
once-tail (x ∷ messages) o = o.1

push-ToldOnce :
    (q : SafeQueue MessageState) (s : MessageState)
    → (s.state ≡ StateList.dead → All (IsNoObituary s.client_addr.sin_port) q.queue)
    → ToldOnce q.queue
    → ToldOnce (push q s true).queue
unfolding push
push-ToldOnce q s h o = by_tests q.running (leb max_safe_queue (length q.queue))
  where
    by_tests :
        (running full : Bool)
        → ToldOnce
            (if not running
              then q
              else if full
              then if true then record q { queue = drop 1 q.queue ++ s ∷ [] } else q
              else record q { queue = q.queue ++ s ∷ [] }).queue
    by_tests false full = o
    by_tests true true =
        once-snoc (drop 1 q.queue) s
          (λ e. tail-All (IsNoObituary s.client_addr.sin_port) q.queue (h e)) (once-tail q.queue o)
    by_tests true false = once-snoc q.queue s h o

-- What the queue owes to the vector, through the messages of a round.
abbrev pub Keeps : List NodeBase → SafeQueue MessageState → Type 0
Keeps nodes q = All (IsTrue nodes) q.queue × ToldOnce q.queue

push-Keeps :
    (nodes : List NodeBase) (q : SafeQueue MessageState) (s : MessageState)
    → IsTrue nodes s
    → (s.state ≡ StateList.dead → All (IsNoObituary s.client_addr.sin_port) q.queue)
    → Keeps nodes q
    → Keeps nodes (push q s true)
push-Keeps nodes q s t h k = (push-All (IsTrue nodes) q s true k.0 t, push-ToldOnce q s h k.1)

others-Keeps :
    (nodes : List NodeBase) (sent : List MessageState) (q : SafeQueue MessageState)
    → All IsOther sent
    → Keeps nodes q
    → Keeps nodes (push_messages sent q)
unfolding push_messages
others-Keeps nodes [] q h k = k
others-Keeps nodes (s ∷ sent) q h k =
    others-Keeps nodes sent (push q s true) h.1
      (push-Keeps nodes q s (λ e. absurd (h.0 e)) (λ e. absurd (h.0 e)) k)

module _ (nodes : List NodeBase) (q : SafeQueue MessageState) (i : ℕ) (node after : NodeBase)
    (g : get_elem? nodes i ≡ some node) (same : after.client_addr ≡ node.client_addr)
    (distinct : DistinctPorts nodes) where
  obituary-IsTrue :
      (s : MessageState)
      → after.running ≡ false
      → s.client_addr ≡ node.client_addr
      → IsTrue (set nodes i after) s
  obituary-IsTrue s off from e =
      subst
        (λ port.
          (is_monitored port (set nodes i after) ≡ true) × All (IsOff port) (set nodes i after))
        (ap (λ a. a.sin_port) (sym from))
        (
          set-kept (get_port_info node) nodes i node after g same ∙ found-monitored node nodes i g,
          distinct-IsOff node nodes i after distinct g off,
        )

  -- The messages of a round of a node.
  pub round-Keeps :
      (sent : List MessageState)
      → All (IsFrom node.client_addr) sent
      → Tells after sent
      → (node.running ≡ false → (after.running ≡ false) × (sent ≡ []))
      → Keeps nodes q
      → Keeps (set nodes i after) (push_messages sent q)
  unfolding push_messages
  round-Keeps sent from tells off k = elim tells [
    | inl others ↦ others-Keeps (set nodes i after) sent q others kept
    | inr (s, one, stopped) ↦ elim (Bool-cases node.running) [
      | inr idle ↦
          subst (λ m. Keeps (set nodes i after) (push_messages m q)) (sym (off idle).1) kept
      | inl on ↦
          let by_node : s.client_addr ≡ node.client_addr =
            (subst (All (IsFrom node.client_addr)) one from).0 in
          subst (λ m. Keeps (set nodes i after) (push_messages m q)) (sym one)
            (push-Keeps (set nodes i after) q s (obituary-IsTrue s stopped by_node)
              (λ e.
                other_port s.client_addr.sin_port nodes q.queue i node g on
                  (ap (λ a. a.sin_port) (sym by_node)) k.0)
              kept)
    ]
  ]
    where
      kept : Keeps (set nodes i after) q
      kept = (set-IsTrue nodes q.queue i node after g same (λ e. (off e).0) k.0, k.1)
