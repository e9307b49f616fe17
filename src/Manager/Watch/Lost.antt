-- ===== src/Manager/Watch/Lost.antt =====
-- A node whose death the manager of source/NodeManagament.cpp was not told: it stays for good.
use native.Mathlib.Decide.{ℕ_discrete}
use mathlib.Core.Path.{subst}
use node_management.Common.{
  ℕ, ◌≡◌, ◌≢◌, refl, sym, ap, ◌∙◌, Bool, true, false, List, [], ◌∷◌, some, arith, get_elem?, All,
}
use node_management.Types.{MessageState, SockaddrIn, TypeNode}
use node_management.Packet.{RigisterPacket}
use node_management.SafeQueue.{SafeQueue, push}
use node_management.SafeQueue.Contents.{push-All, push-running}
use node_management.Node
use node_management.Node.{NodeBase, Round, thread_round, get_port_info, new_node, set_client_infor}
use node_management.Node.Voice.{IsFrom, SpeaksRound, thread_round-SpeaksRound}
use node_management.Manager.{Manager, is_monitored, added, check_register_message}
use node_management.Manager.Watch.{Watch, push_messages, after_round, Watches}
use node_management.Manager.Watch.Ports.{
  IsOff, IsNoObituary, erase_node-kept, erase_node-IsOff, answer-kept, answer-IsOff, snoc-kept,
  snoc-IsOff, set-kept, set-IsOff, get-IsOff,
}
use node_management.Manager.Watch.Keeping.{IsKept, Watches-keeps}

-- The manager still has a node of the port, whose thread is over, and no word of its death is on the
-- way.
pub record IsLost (port : ℕ) (m : Manager) : Type 0 where
  pub served : m.running ≡ true → m.message_node_queue.running ≡ true
  pub kept : is_monitored port m.vec_node_base ≡ true
  pub off : All (IsOff port) m.vec_node_base
  pub untold : All (IsNoObituary port) m.message_node_queue.queue

pub push_messages-running :
    (sent : List MessageState) (q : SafeQueue MessageState)
    → (push_messages sent q).running ≡ q.running
unfolding push_messages
push_messages-running [] q = refl
push_messages-running (s ∷ sent) q =
    push_messages-running sent (push q s true) ∙ push-running q s true

module _ (port : ℕ) where
  added-IsLost :
      (node_type : TypeNode) (addr : SockaddrIn) (m : Manager)
      → is_monitored addr.sin_port m.vec_node_base ≡ false
      → IsLost port m
      → IsLost port (added node_type addr m)
  unfolding added new_node Node.start
  added-IsLost node_type addr m free v = record {
    served = v.served;
    kept = snoc-kept port m.vec_node_base _ v.kept;
    off = snoc-IsOff port m.vec_node_base _ v.off (λ e.
        absurd
          (ground (arith, subst (λ p. is_monitored p m.vec_node_base ≡ false) e free, v.kept)));
    untold = v.untold;
  }

  push_messages-untold :
      (sent : List MessageState) (q : SafeQueue MessageState)
      → All (IsNoObituary port) sent
      → All (IsNoObituary port) q.queue
      → All (IsNoObituary port) (push_messages sent q).queue
  unfolding push_messages
  push_messages-untold [] q h u = u
  push_messages-untold (s ∷ sent) q h u =
      push_messages-untold sent (push q s true) h.1 (push-All (IsNoObituary port) q s true u h.0)

  of_another :
      (addr : SockaddrIn) (sent : List MessageState)
      → addr.sin_port ≢ port
      → All (IsFrom addr) sent
      → All (IsNoObituary port) sent
  of_another addr [] ne h = tt
  of_another addr (s ∷ sent) ne h =
      (λ e q. ne (ap (λ a. a.sin_port) (sym h.0) ∙ q), of_another addr sent ne h.1)

  round-IsLost :
      (m : Manager) (i : ℕ) (r : Round) (node after : NodeBase) (sent : List MessageState)
      (over : Bool)
      → get_elem? m.vec_node_base i ≡ some node
      → thread_round r node ≡ some (after, sent, over)
      → IsLost port m
      → IsLost port (after_round i after sent m)
  round-IsLost m i r node after sent over g e v = record {
    served = λ on. push_messages-running sent m.message_node_queue ∙ v.served on;
    kept = set-kept port m.vec_node_base i node after g spoken.0 ∙ v.kept;
    off = set-IsOff port m.vec_node_base i after v.off (λ q. (spoken.2 (was_off q)).0);
    untold = push_messages-untold sent m.message_node_queue own v.untold;
  }
    where
      spoken : SpeaksRound node (some (after, sent, over))
      spoken = subst (SpeaksRound node) e (thread_round-SpeaksRound r node)

      was_off : get_port_info after ≡ port → node.running ≡ false
      was_off q =
          get-IsOff port m.vec_node_base i node v.off g (ap (λ a. a.sin_port) (sym spoken.0) ∙ q)

      own : All (IsNoObituary port) sent
      own = elim (ℕ_discrete (get_port_info node) port) [
        | yes same ↦
            subst (All (IsNoObituary port))
              (sym (spoken.2 (get-IsOff port m.vec_node_base i node v.off g same)).1) tt
        | no another ↦ of_another node.client_addr sent another spoken.1
      ]

  -- The message that is taken does not tell the death of the node.
  abbrev IsNoObituaryOf : MessageState → Manager → Type 0
  IsNoObituaryOf s m = IsNoObituary port s

  IsLost-IsKept : IsKept (IsLost port) IsNoObituaryOf
  IsLost-IsKept = record {
    served = λ m v. v.served;
    takes = λ m s rest full v.
        let told : All (IsNoObituary port) (s ∷ rest) =
          subst (All (IsNoObituary port)) full v.untold in
        (record { served = λ on. refl; kept = v.kept; off = v.off; untold = told.1 }, told.0);
    other_queues =
        λ m r s v. record { served = v.served; kept = v.kept; off = v.off; untold = v.untold };
    erases = λ m s dead other v. record {
      served = v.served;
      kept = erase_node-kept port s.client_addr.sin_port m.vec_node_base (other dead) v.kept;
      off = erase_node-IsOff port s.client_addr.sin_port m.vec_node_base v.off;
      untold = v.untold;
    };
    answers = λ m other v. record {
      served = v.served;
      kept = answer-kept port other m.vec_node_base ∙ v.kept;
      off = answer-IsOff port other m.vec_node_base v.off;
      untold = v.untold;
    };
    adds = λ m node_type addr free v. added-IsLost node_type addr m free v;
    plays = round-IsLost;
    switches = λ m b r q on same v. record {
      served = on;
      kept = v.kept;
      off = v.off;
      untold = subst (All (IsNoObituary port)) (sym same) v.untold;
    };
  }

-- While the manager has a stopped node of a port, and neither the queue nor the node can tell of the
-- node's death, this stays so in every history of the manager, of the threads of the nodes, and of
-- `start` and `stop`: the node is never deleted, and a registration from its port changes nothing.
pub stays_for_good :
    (port : ℕ) (p : RigisterPacket) {first w : Watch}
    → IsLost port first.manager
    → p.client_addr.sin_port ≡ port
    → Watches first w
    → IsLost port w.manager × (check_register_message p w.manager ≡ w.manager)
unfolding check_register_message
stays_for_good port p lost e r =
    let v = Watches-keeps (IsLost port) (IsNoObituaryOf port) (IsLost-IsKept port) lost r in
    (v, ground (arith, e, v.kept))
