-- ===== src/Manager/Watch/Keeping.antt =====
-- How a predicate on the manager of source/NodeManagament.cpp is carried through every history of the
-- manager and its nodes: from what the changes of the state keep.
use mathlib.Core.Path.{subst}
use node_management.Common.{
  ℕ, ◌≡◌, refl, inl, inr, Bool, true, false, not, List, ◌∷◌, some, arith, ◌==◌, if◌then◌else◌,
  get_elem?, Bool-cases,
}
use node_management.Types.{StateList, MessageState, SockaddrIn, TypeNode}
use node_management.Packet.{AnyPacket, RigisterPacket, base_of}
use node_management.SafeQueue.{SafeQueue}
use node_management.SafeQueue.Contents.{start-running, start-queue, stop-queue}
use node_management.SafeQueue.Delivery.{wait_and_pop_cases}
use node_management.Node.{NodeBase, Round, thread_round}
use node_management.Manager.{
  Manager, start, stop, is_monitored, added, answer, erase_node, notify_all_nodes,
  check_register_message, check_notify_message, check_pong_message, dispatch_message,
  check_ping_message, handle_send_data, handle_message, ends,
}
use node_management.Manager.Invariant.{AfterTurn, push_cases}
use node_management.Manager.Turns.{OfManager, handle_message-keeps, handle_received_data-keeps}
use node_management.Manager.Watch.{
  Watch, after_round, Watches, begins, sends, receives, rounds, packets, starts, stops,
}

-- The manager behind the taking of a message.
abbrev pub without_first : List MessageState → Manager → Manager
without_first rest m = record m { message_node_queue = record { queue = rest; running = true } }

-- What `P` keeps, and what `Taken` says of a message that was taken from the queue.
pub record IsKept (P : Manager → Type 0) (Taken : MessageState → Manager → Type 0) : Type 0 where
  pub served : (m : Manager) → P m → m.running ≡ true → m.message_node_queue.running ≡ true
  pub takes :
      (m : Manager) (s : MessageState) (rest : List MessageState)
      → m.message_node_queue.queue ≡ s ∷ rest
      → P m
      → P (without_first rest m) × Taken s (without_first rest m)
  pub other_queues :
      (m : Manager) (r s : SafeQueue AnyPacket)
      → P m
      → P (record m { received_io_queue = r; send_io_queue = s })
  pub erases :
      (m : Manager) (s : MessageState)
      → s.state ≡ StateList.dead
      → Taken s m
      → P m
      → P (record m { vec_node_base = erase_node s.client_addr.sin_port m.vec_node_base })
  pub answers :
      (m : Manager) (port : ℕ) → P m → P (record m { vec_node_base = answer port m.vec_node_base })
  pub adds :
      (m : Manager) (node_type : TypeNode) (addr : SockaddrIn)
      → is_monitored addr.sin_port m.vec_node_base ≡ false
      → P m
      → P (added node_type addr m)
  pub plays :
      (m : Manager) (i : ℕ) (r : Round) (node after : NodeBase) (sent : List MessageState)
      (over : Bool)
      → get_elem? m.vec_node_base i ≡ some node
      → thread_round r node ≡ some (after, sent, over)
      → P m
      → P (after_round i after sent m)
  pub switches :
      (m : Manager) (b : Bool) (r : SafeQueue AnyPacket) (q : SafeQueue MessageState)
      → (b ≡ true → q.running ≡ true)
      → q.queue ≡ m.message_node_queue.queue
      → P m
      → P (record m { running = b; received_io_queue = r; message_node_queue = q })

idle_turn : (s : MessageState) (m : Manager) → m.running ≡ false → handle_message s m ≡ ends
unfolding handle_message
idle_turn s m off = ground (arith, off)

-- A turn of the sending thread, from what the handling of the oldest message leads to.
pub send_turn-keeps :
    (R : Manager → Type 0) (s : MessageState) (m : Manager)
    → (m.running ≡ true → m.message_node_queue.running ≡ true)
    → ((t : MessageState) (rest : List MessageState)
        → m.message_node_queue.queue ≡ t ∷ rest
        → R (dispatch_message t (without_first rest m)))
    → AfterTurn (OfManager R) (handle_send_data s m)
unfolding handle_send_data
send_turn-keeps R s m served h = elim (wait_and_pop_cases m.message_node_queue) [
  | inl (off, e) ↦ elim (Bool-cases m.running) [
    | inl on ↦ absurd (ground (arith, off, served on))
    | inr idle ↦ rw (e, handle_send_data, idle_turn s m idle) tt
  ]
  | inr (inl (on, empty, e)) ↦ rw (e, handle_send_data) tt
  | inr (inr (t, rest, on, full, e)) ↦
      rw (e, handle_send_data) (handle_message-keeps R t (without_first rest m) (h t rest full))
]

module _ (P : Manager → Type 0) (Taken : MessageState → Manager → Type 0) (k : IsKept P Taken) where
  register-keeps : (p : RigisterPacket) (m : Manager) → P m → P (check_register_message p m)
  unfolding check_register_message
  register-keeps p m v = elim (Bool-cases (is_monitored p.client_addr.sin_port m.vec_node_base)) [
    | inl old ↦ rw old v
    | inr new ↦ rw new (elim (push_cases p m) [
      | inl (c, e) ↦ rw e (k.adds m p.type_node p.client_addr new v)
      | inr (c, e) ↦ rw e v
    ])
  ]

  pong-keeps : (packet : AnyPacket) (m : Manager) → P m → P (check_pong_message packet m)
  unfolding check_pong_message
  pong-keeps packet m v = k.answers m (base_of packet).client_addr.sin_port v

  notify-keeps : (s : MessageState) (m : Manager) → Taken s m → P m → P (check_notify_message s m)
  unfolding check_notify_message
  notify-keeps s m taken v = by_state s.state refl
    where
      by_state : (t : StateList) → s.state ≡ t → P (check_notify_message s m)
      by_state StateList.timeout e =
          rw (e, check_notify_message)
            (k.other_queues m m.received_io_queue
              (notify_all_nodes s m.vec_node_base m.send_io_queue) v)
      by_state StateList.dead e = rw (e, check_notify_message) (k.erases m s e taken v)
      by_state StateList.init e = rw (e, check_notify_message) v
      by_state StateList.alive e = rw (e, check_notify_message) v
      by_state StateList.max e = rw (e, check_notify_message) v

  dispatch-keeps : (s : MessageState) (m : Manager) → Taken s m → P m → P (dispatch_message s m)
  unfolding dispatch_message check_ping_message
  dispatch-keeps s m taken v = elim (Bool-cases (s.message_type == 0)) [
    | inl ping ↦ rw ping (k.other_queues m m.received_io_queue _ v)
    | inr more ↦ rw more (elim (Bool-cases (s.message_type == 1)) [
      | inl notify ↦ rw notify (notify-keeps s m taken v)
      | inr neither ↦ rw neither v
    ])
  ]

  either-keeps : (b : Bool) (x y : Manager × Bool) → P x.0 → P y.0 → P (if b then x else y).0
  either-keeps true x y hx hy = hx
  either-keeps false x y hx hy = hy

  start-keeps : (m : Manager) → P m → P (start m).0
  unfolding start
  start-keeps m v =
      either-keeps (not m.running) _ _
        (k.switches m true _ _ (λ on. start-running m.message_node_queue)
          (start-queue m.message_node_queue) v)
        v

  stop-keeps : (m : Manager) → P m → P (stop m).0
  unfolding stop
  stop-keeps m v =
      either-keeps m.running _ _
        (k.switches m false _ _ (λ on. cc) (stop-queue m.message_node_queue) v) v

  pub Watches-keeps : {first w : Watch} → P first.manager → Watches first w → P w.manager
  Watches-keeps v begins = v
  Watches-keeps v (sends {w} r e) =
      let h = Watches-keeps v r in
      subst (AfterTurn (OfManager P)) e (
        send_turn-keeps P w.message w.manager (k.served w.manager h) (λ t rest full.
          let n = k.takes w.manager t rest full h in
          dispatch-keeps t (without_first rest w.manager) n.1 n.0))
  Watches-keeps v (receives {w} before after r e) = subst (AfterTurn (OfManager P)) e (
      handle_received_data-keeps P pong-keeps register-keeps
        (λ q m. k.other_queues m q m.send_io_queue) before w.manager (Watches-keeps v r))
  Watches-keeps v (rounds {w} {node} {after} {sent} {over} i t r g e) =
      k.plays w.manager i t node after sent over g e (Watches-keeps v r)
  Watches-keeps v (packets {w} received sending r e) =
      k.other_queues w.manager received sending (Watches-keeps v r)
  Watches-keeps v (starts {w} s r) = start-keeps w.manager (Watches-keeps v r)
  Watches-keeps v (stops {w} r) = stop-keeps w.manager (Watches-keeps v r)
