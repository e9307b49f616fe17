-- ===== src/Manager/Watch/Deletion.antt =====
-- The messages of deaths through the changes of the manager of source/NodeManagament.cpp.
use mathlib.Core.Path.{subst}
use node_management.Common.{
  ℕ, ◌≡◌, refl, sym, ◌∙◌, Bool, false, List, ◌∷◌, some, get_elem?, set, All,
}
use node_management.Types.{StateList, MessageState, SockaddrIn, TypeNode}
use node_management.Node
use node_management.Node.{NodeBase, Round, thread_round, get_port_info, new_node, set_client_infor}
use node_management.Node.Voice.{SpeaksRound, thread_round-SpeaksRound}
use node_management.Node.Obituary.{TellsRound, thread_round-TellsRound}
use node_management.Manager.{Manager, is_monitored, added}
use node_management.Manager.Registry.{answer-DistinctPorts, erase_node-DistinctPorts}
use node_management.Manager.Invariant.{is_monitored-IsFree, DistinctPorts-snoc}
use node_management.Manager.Watch.{Watch, push_messages, after_round, Watches}
use node_management.Manager.Watch.Ports.{IsNoObituary}
use node_management.Manager.Watch.Lost.{push_messages-running}
use node_management.Manager.Watch.Honest.{
  IsTrue, ToldOnce, IsHonest, answer-IsTrue, snoc-IsTrue, erase-IsTrue, set-DistinctPorts,
}
use node_management.Manager.Watch.News.{round-Keeps}
use node_management.Manager.Watch.Keeping.{IsKept, Watches-keeps}

added-IsHonest :
    (node_type : TypeNode) (addr : SockaddrIn) (m : Manager)
    → is_monitored addr.sin_port m.vec_node_base ≡ false
    → IsHonest m
    → IsHonest (added node_type addr m)
unfolding added new_node Node.start
added-IsHonest node_type addr m free v = record {
  served = v.served;
  distinct =
      DistinctPorts-snoc _ m.vec_node_base v.distinct
        (is_monitored-IsFree addr.sin_port m.vec_node_base free);
  true_news = snoc-IsTrue m.vec_node_base m.message_node_queue.queue _ free v.true_news;
  once = v.once;
}

-- A message that has been taken from the queue: true, and no other is about the same death.
abbrev Taken : MessageState → Manager → Type 0
Taken s m =
    IsTrue m.vec_node_base s
    × (s.state ≡ StateList.dead
        → All (IsNoObituary s.client_addr.sin_port) m.message_node_queue.queue)

round-IsHonest :
    (m : Manager) (i : ℕ) (r : Round) (node after : NodeBase) (sent : List MessageState)
    (over : Bool)
    → get_elem? m.vec_node_base i ≡ some node
    → thread_round r node ≡ some (after, sent, over)
    → IsHonest m
    → IsHonest (after_round i after sent m)
round-IsHonest m i r node after sent over g e v = record {
  served = λ on. push_messages-running sent m.message_node_queue ∙ v.served on;
  distinct = set-DistinctPorts m.vec_node_base i node after g spoken.0 v.distinct;
  true_news = kept.0;
  once = kept.1;
}
  where
    spoken : SpeaksRound node (some (after, sent, over))
    spoken = subst (SpeaksRound node) e (thread_round-SpeaksRound r node)

    kept :
        All (IsTrue (set m.vec_node_base i after)) (push_messages sent m.message_node_queue).queue
        × ToldOnce (push_messages sent m.message_node_queue).queue
    kept =
        round-Keeps m.vec_node_base m.message_node_queue i node after g spoken.0 v.distinct sent
          spoken.1 (subst TellsRound e (thread_round-TellsRound r node)) spoken.2
          (v.true_news, v.once)

IsHonest-IsKept : IsKept IsHonest Taken
IsHonest-IsKept = record {
  served = λ m v. v.served;
  takes = λ m s rest full v.
      let news : All (IsTrue m.vec_node_base) (s ∷ rest) =
        subst (All (IsTrue m.vec_node_base)) full v.true_news in
      let one : ToldOnce (s ∷ rest) = subst ToldOnce full v.once in
      (
        record { served = λ on. refl; distinct = v.distinct; true_news = news.1; once = one.1 },
        (news.0, one.0),
      );
  other_queues = λ m r s v. record {
    served = v.served;
    distinct = v.distinct;
    true_news = v.true_news;
    once = v.once;
  };
  erases = λ m s dead taken v. record {
    served = v.served;
    distinct = erase_node-DistinctPorts s.client_addr.sin_port m.vec_node_base v.distinct;
    true_news =
        erase-IsTrue m.vec_node_base s.client_addr.sin_port m.message_node_queue.queue
          (taken.1 dead) v.true_news;
    once = v.once;
  };
  answers = λ m port v. record {
    served = v.served;
    distinct = answer-DistinctPorts port m.vec_node_base v.distinct;
    true_news = answer-IsTrue m.vec_node_base m.message_node_queue.queue port v.true_news;
    once = v.once;
  };
  adds = λ m node_type addr free v. added-IsHonest node_type addr m free v;
  plays = round-IsHonest;
  switches = λ m b r q on same v. record {
    served = on;
    distinct = v.distinct;
    true_news = subst (All (IsTrue m.vec_node_base)) (sym same) v.true_news;
    once = subst ToldOnce (sym same) v.once;
  };
}

pub Watches-IsHonest :
    {first w : Watch} → IsHonest first.manager → Watches first w → IsHonest w.manager
Watches-IsHonest v r = Watches-keeps IsHonest Taken IsHonest-IsKept v r
