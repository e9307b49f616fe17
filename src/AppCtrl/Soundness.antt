-- ===== src/AppCtrl/Soundness.antt =====
-- The queues of the manager of source/NodeManagament.cpp through the turns of its two threads.
use mathlib.Core.Path.{subst}
use node_management.Common.{
  ◌≡◌, refl, sym, ap, ◌∙◌, inl, inr, Bool, true, false, not, if◌then◌else◌, Option, some, All,
  Option-cases, Bool-cases,
}
use node_management.Types.{TypeMessage, MessageState}
use node_management.Wire.Octets.{IsBytes}
use node_management.Packet.{AnyPacket, base_of, as_rigister}
use node_management.SafeQueue.{SafeQueue}
use node_management.SafeQueue.Delivery.{wait_and_pop_cases}
use node_management.Manager.{
  Manager, Turn, sleeps, ends, fault, goes_on, dispatch_message, handle_message, handle_send_data,
  check_register_message, check_pong_message, dispatch_packet, handled, handle_packet,
  handle_received_data,
}
use node_management.Manager.Casts.{IsTagged, IsServed}
use node_management.Manager.Shutdown.{stopped_packet}
use node_management.IoHandler.Sending.{IsSendable, dispatch_message-IsSendable}
use node_management.Manager.Frame.{
  SameInputs, check_register-SameQueues, dispatch_message-SameInputs,
}

-- The turn does not fault, and what it leaves has the property.
abbrev pub IsGood : {A : Type 0} → (A → Type 0) → Turn A → Type 0
IsGood P sleeps = Unit
IsGood P ends = Unit
IsGood P fault = ⊥
IsGood P (goes_on a) = P a

abbrev pub HasText : MessageState → Type 0
HasText s = IsBytes s.message

pub record IsSound (m : Manager) : Type 0 where
  pub served : IsServed m
  pub tagged : All IsTagged m.received_io_queue.queue
  pub texts : All HasText m.message_node_queue.queue
  pub sendable : All IsSendable m.send_io_queue.queue

pub SameInputs-IsSound :
    (m n : Manager) → SameInputs m n → All IsSendable n.send_io_queue.queue → IsSound m → IsSound n
SameInputs-IsSound m n same sendable v = record {
  sendable = sendable;
  served = record {
    receiving = λ e.
        ap (λ (q : SafeQueue AnyPacket). q.running) same.same_received
        ∙ v.served.receiving (sym same.same_running ∙ e);
    sending = λ e.
        ap (λ (q : SafeQueue MessageState). q.running) same.same_messages
        ∙ v.served.sending (sym same.same_running ∙ e);
  };
  tagged =
      subst (λ (q : SafeQueue AnyPacket). All IsTagged q.queue) (sym same.same_received) v.tagged;
  texts =
      subst (λ (q : SafeQueue MessageState). All HasText q.queue) (sym same.same_messages) v.texts;
}

abbrev pub HasSent : MessageState × Manager → Type 0
HasSent (s, m) = HasText s × IsSound m

abbrev pub HasReceived : Option AnyPacket × Manager → Type 0
HasReceived (packet, m) = IsSound m

handle_message-IsGood :
    (s : MessageState) (m : Manager) → HasText s → IsSound m → IsGood HasSent (handle_message s m)
unfolding handle_message
handle_message-IsGood s m b v = by_running m.running
  where
    by_running :
        (on : Bool) → IsGood HasSent (if not on then ends else goes_on (s, dispatch_message s m))
    by_running true = (
      b,
      SameInputs-IsSound m (dispatch_message s m) (dispatch_message-SameInputs s m)
          (dispatch_message-IsSendable s m b v.sendable) v,
    )
    by_running false = tt

pub handle_send_data-IsGood :
    (s : MessageState) (m : Manager) → HasText s → IsSound m → IsGood HasSent (handle_send_data s m)
unfolding handle_send_data
handle_send_data-IsGood s m b v = elim (wait_and_pop_cases m.message_node_queue) [
  | inl (off, e) ↦ rw (e, handle_send_data) (handle_message-IsGood s m b v)
  | inr (inl (on, empty, e)) ↦ rw (e, handle_send_data) tt
  | inr (inr (t, rest, on, full, e)) ↦
      let both = subst (All HasText) full v.texts in
      rw (e, handle_send_data)
        (handle_message-IsGood t
          (record m { message_node_queue = record { queue = rest; running = true } }) both.0
          (record {
            served = record { receiving = v.served.receiving; sending = λ e. refl };
            tagged = v.tagged;
            texts = both.1;
            sendable = v.sendable;
          }))
]

unless_ended :
    {A : Type 0} (P : A → Type 0) (on : Bool) (t : Turn A)
    → IsGood P t
    → IsGood P (if not on then ends else t)
unless_ended P true t g = g
unless_ended P false t g = tt

handled-IsGood : (t : Turn Manager) → IsGood IsSound t → IsGood HasReceived (handled t)
handled-IsGood sleeps g = tt
handled-IsGood ends g = tt
handled-IsGood fault g = g
handled-IsGood (goes_on m) g = g

check_pong-IsSound :
    (packet : AnyPacket) (m : Manager) → IsSound m → IsSound (check_pong_message packet m)
unfolding check_pong_message
check_pong-IsSound packet m v = record {
  served = record { receiving = v.served.receiving; sending = v.served.sending };
  tagged = v.tagged;
  texts = v.texts;
  sendable = v.sendable;
}

dispatch_packet-IsGood :
    (packet : AnyPacket) (m : Manager)
    → IsTagged packet
    → IsSound m
    → IsGood IsSound (dispatch_packet packet m)
unfolding dispatch_packet
dispatch_packet-IsGood packet m tagged v = by_type (base_of packet).type_message refl
  where
    by_type :
        (t : TypeMessage)
        → (base_of packet).type_message ≡ t
        → IsGood IsSound (dispatch_packet packet m)
    by_type TypeMessage.pong e = rw (e, dispatch_packet) (check_pong-IsSound packet m v)
    by_type TypeMessage.register e = elim (Option-cases (as_rigister packet)) [
      | inl bad ↦ absurd (tagged e bad)
      | inr (p, good) ↦
          rw (e, good, dispatch_packet)
            (SameInputs-IsSound m (check_register_message p m)
              (check_register-SameQueues p m).inputs
              (subst (λ (q : SafeQueue AnyPacket). All IsSendable q.queue)
                (sym (check_register-SameQueues p m).same_sending) v.sendable)
              v)
    ]
    by_type TypeMessage.ping e = rw (e, dispatch_packet) v
    by_type TypeMessage.notify e = rw (e, dispatch_packet) v
    by_type TypeMessage.other e = rw (e, dispatch_packet) v
    by_type (TypeMessage.unnamed n) e = rw (e, dispatch_packet) v

handle_packet-IsGood :
    (packet : AnyPacket) (m : Manager)
    → IsTagged packet
    → IsSound m
    → IsGood HasReceived (handle_packet (some packet) m)
unfolding handle_packet
handle_packet-IsGood packet m tagged v =
    unless_ended HasReceived m.running (handled (dispatch_packet packet m))
      (handled-IsGood (dispatch_packet packet m) (dispatch_packet-IsGood packet m tagged v))

pub handle_received_data-IsGood :
    (local : Option AnyPacket) (m : Manager)
    → IsSound m
    → IsGood HasReceived (handle_received_data local m)
unfolding handle_received_data
handle_received_data-IsGood local m v = elim (wait_and_pop_cases m.received_io_queue) [
  | inl (off, e) ↦ rw (e, handle_received_data, stopped_packet local m (idle off)) tt
  | inr (inl (on, empty, e)) ↦ rw (e, handle_received_data) tt
  | inr (inr (packet, rest, on, full, e)) ↦
      let both = subst (All IsTagged) full v.tagged in
      rw (e, handle_received_data)
        (handle_packet-IsGood packet
          (record m { received_io_queue = record { queue = rest; running = true } }) both.0
          (record {
            served = record { receiving = λ e. refl; sending = v.served.sending };
            tagged = both.1;
            texts = v.texts;
            sendable = v.sendable;
          }))
]
  where
    idle : m.received_io_queue.running ≡ false → m.running ≡ false
    idle off = elim (Bool-cases m.running) [
      | inl on ↦ cc (v.served.receiving on)
      | inr no_run ↦ no_run
    ]
