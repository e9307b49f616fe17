-- ===== src/Manager/Watch/Deaths.antt =====
-- The deaths in the queue of messages of source/NodeManagament.cpp.
use node_management.Common.{◌≡◌, refl, true, List, All}
use node_management.Types.{StateList, MessageState}
use node_management.Node.{NodeBase}
use node_management.Manager.{new_manager, is_monitored}
use node_management.Manager.Watch.{Watch, watch, Watches}
use node_management.Manager.Watch.Honest.{IsTrue, ToldOnce, IsHonest, All-map}
use node_management.Manager.Watch.Deletion.{Watches-IsHonest}

new_manager-IsHonest : IsHonest new_manager
new_manager-IsHonest = record { served = λ on. refl; distinct = tt; true_news = tt; once = tt }

-- If the message is of a death, the vector has a node of its port.
abbrev pub IsOfNode : List NodeBase → MessageState → Type 0
IsOfNode nodes s = s.state ≡ StateList.dead → is_monitored s.client_addr.sin_port nodes ≡ true

-- In every history of the manager from its beginning, with the threads of its nodes and with `start`
-- and `stop`, the queue of messages never holds two messages of the death of one port's node, and each
-- that it holds is about a node that the vector still has.
pub told_once :
    (found : MessageState) {w : Watch}
    → Watches (watch new_manager found) w
    → ToldOnce w.manager.message_node_queue.queue
      × All (IsOfNode w.manager.vec_node_base) w.manager.message_node_queue.queue
told_once found {w} r =
    let v = Watches-IsHonest new_manager-IsHonest r in
    (
      v.once,
      All-map (IsTrue w.manager.vec_node_base) (IsOfNode w.manager.vec_node_base)
          w.manager.message_node_queue.queue (λ s h e. (h e).0) v.true_news,
    )
