-- ===== src/AppCtrl/Reached.antt =====
-- The invariant of the program of source/AppCtrl.cpp, through the calls of the menu and the queues.
use mathlib.Core.Path.{subst}
use node_management.Common.{◌≡◌, sym, ◌∙◌, true, All, arith}
use node_management.Types.{MessageState}
use node_management.Packet.{AnyPacket}
use node_management.SafeQueue
use node_management.SafeQueue.{SafeQueue, push}
use node_management.SafeQueue.Contents.{push-All, push-running}
use node_management.Udp.Buffers.{IsFilled}
use node_management.Manager
use node_management.Manager.{
  Manager, Turn, sleeps, ends, fault, goes_on, handle_send_data, handle_received_data,
}
use node_management.Manager.Casts.{IsTagged, start-IsServed, stop-IsServed}
use node_management.IoHandler
use node_management.IoHandler.{IoHandler, handle_rx_thread, handle_tx_thread}
use node_management.IoHandler.Sending.{IsSendable}
use node_management.AppCtrl.System.{System}
use node_management.AppCtrl.Soundness.{HasText, IsSound}
use node_management.AppCtrl.Safety.{IsOutgoing}

pub record IsSoundSystem (s : System) : Type 0 where
  pub manager_sound : IsSound s.manager
  pub filled : All IsFilled s.io.buffer_udp_recv.queue
  pub buffer_filled : IsFilled s.buffer
  pub message_text : HasText s.message
  pub outgoing_safe : IsOutgoing s.outgoing

module _ (m : Manager) (v : IsSound m) where
  start_received : (Manager.start m).0.received_io_queue.queue ≡ m.received_io_queue.queue
  unfolding Manager.start SafeQueue.start
  start_received = ground arith

  start_messages : (Manager.start m).0.message_node_queue.queue ≡ m.message_node_queue.queue
  unfolding Manager.start SafeQueue.start
  start_messages = ground arith

  start_sending : (Manager.start m).0.send_io_queue.queue ≡ m.send_io_queue.queue
  unfolding Manager.start
  start_sending = ground arith

  stop_received : (Manager.stop m).0.received_io_queue.queue ≡ m.received_io_queue.queue
  unfolding Manager.stop SafeQueue.stop
  stop_received = ground arith

  stop_messages : (Manager.stop m).0.message_node_queue.queue ≡ m.message_node_queue.queue
  unfolding Manager.stop SafeQueue.stop
  stop_messages = ground arith

  stop_sending : (Manager.stop m).0.send_io_queue.queue ≡ m.send_io_queue.queue
  unfolding Manager.stop
  stop_sending = ground arith

  pub start-IsSound : IsSound (Manager.start m).0
  start-IsSound = record {
    served = start-IsServed m v.served;
    tagged = subst (All IsTagged) (sym start_received) v.tagged;
    texts = subst (All HasText) (sym start_messages) v.texts;
    sendable = subst (All IsSendable) (sym start_sending) v.sendable;
  }

  pub stop-IsSound : IsSound (Manager.stop m).0
  stop-IsSound = record {
    served = stop-IsServed m v.served;
    tagged = subst (All IsTagged) (sym stop_received) v.tagged;
    texts = subst (All HasText) (sym stop_messages) v.texts;
    sendable = subst (All IsSendable) (sym stop_sending) v.sendable;
  }

  pub sending-IsSound :
      (q : SafeQueue AnyPacket) → All IsSendable q.queue → IsSound (record m { send_io_queue = q })
  sending-IsSound q h = record {
    served = record { receiving = v.served.receiving; sending = v.served.sending };
    tagged = v.tagged;
    texts = v.texts;
    sendable = h;
  }

  pub receiving-IsSound :
      (q : SafeQueue AnyPacket)
      → All IsTagged q.queue
      → q.running ≡ m.received_io_queue.running
      → IsSound (record m { received_io_queue = q })
  receiving-IsSound q h same = record {
    served = record { receiving = λ e. same ∙ v.served.receiving e; sending = v.served.sending };
    tagged = h;
    texts = v.texts;
    sendable = v.sendable;
  }

  pub node_sends-IsSound :
      (message : MessageState)
      → HasText message
      → IsSound (record m { message_node_queue = push m.message_node_queue message true })
  node_sends-IsSound message h = record {
    served = record {
      receiving = v.served.receiving;
      sending = λ e. push-running m.message_node_queue message true ∙ v.served.sending e;
    };
    tagged = v.tagged;
    texts = push-All HasText m.message_node_queue message true v.texts h;
    sendable = v.sendable;
  }

module _ (io : IoHandler) (q : SafeQueue AnyPacket) where
  pub start_buffers : (IoHandler.start io q).0.buffer_udp_recv.queue ≡ io.buffer_udp_recv.queue
  unfolding IoHandler.start SafeQueue.start
  start_buffers = ground arith

  pub start_packets : (IoHandler.start io q).1.queue ≡ q.queue
  unfolding IoHandler.start SafeQueue.start
  start_packets = ground arith

  pub stop_buffers : (IoHandler.stop io q).0.buffer_udp_recv.queue ≡ io.buffer_udp_recv.queue
  unfolding IoHandler.stop SafeQueue.stop
  stop_buffers = ground arith

  pub stop_packets : (IoHandler.stop io q).1.queue ≡ q.queue
  unfolding IoHandler.stop SafeQueue.stop
  stop_packets = ground arith
