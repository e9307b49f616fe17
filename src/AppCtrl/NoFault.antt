-- ===== src/AppCtrl/NoFault.antt =====
-- The threads of source/IOHandler.cpp and source/NodeManagament.cpp in the reachable states.
use mathlib.Core.Path.{subst}
use node_management.Common.{◌≢◌, refl, sym, Bool, All}
use node_management.Udp.Buffers.{IsFilled, cleared-IsFilled, rx_round-IsFilled}
use node_management.Manager.{Turn, fault, handle_send_data, handle_received_data}
use node_management.IoHandler
use node_management.IoHandler.{handle_rx_thread, handle_tx_thread}
use node_management.IoHandler.Receiving.{IsSafe, handle_rx_thread-IsSafe}
use node_management.IoHandler.Sending.{IsSendable}
use node_management.AppCtrl.System.{
  System, Reaches, begins, restarts, udp_round, rx_turn, tx_turn, send_turn, receive_turn,
  node_sends, nodes_change, sets_socket, starts_manager, stops_manager, starts_io, stops_io,
}
use node_management.AppCtrl.Soundness.{
  IsGood, HasSent, HasReceived, handle_send_data-IsGood, handle_received_data-IsGood,
}
use node_management.AppCtrl.Safety.{HasTransmitted, plain-IsOutgoing, handle_tx_thread-IsGood}
use node_management.AppCtrl.Reached.{
  IsSoundSystem, start-IsSound, stop-IsSound, sending-IsSound, receiving-IsSound,
  node_sends-IsSound, start_buffers, start_packets, stop_buffers, stop_packets,
}

module _ (s : System) (v : IsSoundSystem s) where
  rx-IsSafe :
      IsSafe s.manager.received_io_queue.running
        (handle_rx_thread s.buffer s.io s.manager.received_io_queue)
  rx-IsSafe =
      handle_rx_thread-IsSafe s.manager.received_io_queue.running s.buffer s.io
        s.manager.received_io_queue v.buffer_filled v.filled (v.manager_sound.tagged, refl)

  tx-IsGood :
      (fails : Bool)
      → IsGood HasTransmitted (handle_tx_thread fails s.outgoing s.io s.manager.send_io_queue)
  tx-IsGood fails =
      handle_tx_thread-IsGood fails s.outgoing s.io s.manager.send_io_queue v.outgoing_safe
        v.manager_sound.sendable

  send-IsGood : IsGood HasSent (handle_send_data s.message s.manager)
  send-IsGood = handle_send_data-IsGood s.message s.manager v.message_text v.manager_sound

  receive-IsGood : IsGood HasReceived (handle_received_data s.incoming s.manager)
  receive-IsGood = handle_received_data-IsGood s.incoming s.manager v.manager_sound

Reaches-IsSoundSystem : {s : System} → Reaches s → IsSoundSystem s
Reaches-IsSoundSystem (begins found message text) = record {
  manager_sound = record {
    served = record { receiving = λ e. refl; sending = λ e. refl };
    tagged = tt;
    texts = tt;
    sendable = tt;
  };
  filled = tt;
  buffer_filled = cleared-IsFilled found;
  message_text = text;
  outgoing_safe = plain-IsOutgoing;
}
Reaches-IsSoundSystem (restarts found message r text) =
    let v = Reaches-IsSoundSystem r in
    record {
      manager_sound = v.manager_sound;
      filled = v.filled;
      buffer_filled = cleared-IsFilled found;
      message_text = text;
      outgoing_safe = plain-IsOutgoing;
    }
Reaches-IsSoundSystem (udp_round {s = s} found attempts r h) =
    let v = Reaches-IsSoundSystem r in
    record {
      manager_sound = v.manager_sound;
      filled = rx_round-IsFilled found attempts s.io.buffer_udp_recv h v.filled;
      buffer_filled = v.buffer_filled;
      message_text = v.message_text;
      outgoing_safe = v.outgoing_safe;
    }
Reaches-IsSoundSystem (rx_turn {s = s} {q = q} r e) =
    let v = Reaches-IsSoundSystem r in
    let (d_filled, filled, ready) =
      subst (IsSafe s.manager.received_io_queue.running) e (rx-IsSafe s v) in
    record {
      manager_sound = receiving-IsSound s.manager v.manager_sound q ready.0 ready.1;
      filled = filled;
      buffer_filled = d_filled;
      message_text = v.message_text;
      outgoing_safe = v.outgoing_safe;
    }
Reaches-IsSoundSystem (tx_turn {s = s} {q = q} fails r e) =
    let v = Reaches-IsSoundSystem r in
    let (out, sendable) = subst (IsGood HasTransmitted) e (tx-IsGood s v fails) in
    record {
      manager_sound = sending-IsSound s.manager v.manager_sound q sendable;
      filled = v.filled;
      buffer_filled = v.buffer_filled;
      message_text = v.message_text;
      outgoing_safe = out;
    }
Reaches-IsSoundSystem (send_turn {s = s} r e) =
    let v = Reaches-IsSoundSystem r in
    let (text, sound) = subst (IsGood HasSent) e (send-IsGood s v) in
    record {
      manager_sound = sound;
      filled = v.filled;
      buffer_filled = v.buffer_filled;
      message_text = text;
      outgoing_safe = v.outgoing_safe;
    }
Reaches-IsSoundSystem (receive_turn {s = s} r e) =
    let v = Reaches-IsSoundSystem r in
    record {
      manager_sound = subst (IsGood HasReceived) e (receive-IsGood s v);
      filled = v.filled;
      buffer_filled = v.buffer_filled;
      message_text = v.message_text;
      outgoing_safe = v.outgoing_safe;
    }
Reaches-IsSoundSystem (node_sends {s = s} message r text) =
    let v = Reaches-IsSoundSystem r in
    record {
      manager_sound = node_sends-IsSound s.manager v.manager_sound message text;
      filled = v.filled;
      buffer_filled = v.buffer_filled;
      message_text = v.message_text;
      outgoing_safe = v.outgoing_safe;
    }
Reaches-IsSoundSystem (nodes_change nodes r) =
    let v = Reaches-IsSoundSystem r in
    record {
      manager_sound = record {
        served = record {
          receiving = v.manager_sound.served.receiving;
          sending = v.manager_sound.served.sending;
        };
        tagged = v.manager_sound.tagged;
        texts = v.manager_sound.texts;
        sendable = v.manager_sound.sendable;
      };
      filled = v.filled;
      buffer_filled = v.buffer_filled;
      message_text = v.message_text;
      outgoing_safe = v.outgoing_safe;
    }
Reaches-IsSoundSystem (sets_socket {s = s} answers r e) =
    let v = Reaches-IsSoundSystem r in
    record {
      manager_sound = v.manager_sound;
      filled = v.filled;
      buffer_filled = v.buffer_filled;
      message_text = v.message_text;
      outgoing_safe = v.outgoing_safe;
    }
Reaches-IsSoundSystem (starts_manager {s = s} r) =
    let v = Reaches-IsSoundSystem r in
    record {
      manager_sound = start-IsSound s.manager v.manager_sound;
      filled = v.filled;
      buffer_filled = v.buffer_filled;
      message_text = v.message_text;
      outgoing_safe = v.outgoing_safe;
    }
Reaches-IsSoundSystem (stops_manager {s = s} r) =
    let v = Reaches-IsSoundSystem r in
    record {
      manager_sound = stop-IsSound s.manager v.manager_sound;
      filled = v.filled;
      buffer_filled = v.buffer_filled;
      message_text = v.message_text;
      outgoing_safe = v.outgoing_safe;
    }
Reaches-IsSoundSystem (starts_io {s = s} r) =
    let v = Reaches-IsSoundSystem r in
    record {
      manager_sound =
          sending-IsSound s.manager v.manager_sound (IoHandler.start s.io s.manager.send_io_queue).1
            (subst (All IsSendable) (sym (start_packets s.io s.manager.send_io_queue))
              v.manager_sound.sendable);
      filled = subst (All IsFilled) (sym (start_buffers s.io s.manager.send_io_queue)) v.filled;
      buffer_filled = v.buffer_filled;
      message_text = v.message_text;
      outgoing_safe = v.outgoing_safe;
    }
Reaches-IsSoundSystem (stops_io {s = s} r) =
    let v = Reaches-IsSoundSystem r in
    record {
      manager_sound =
          sending-IsSound s.manager v.manager_sound (IoHandler.stop s.io s.manager.send_io_queue).1
            (subst (All IsSendable) (sym (stop_packets s.io s.manager.send_io_queue))
              v.manager_sound.sendable);
      filled = subst (All IsFilled) (sym (stop_buffers s.io s.manager.send_io_queue)) v.filled;
      buffer_filled = v.buffer_filled;
      message_text = v.message_text;
      outgoing_safe = v.outgoing_safe;
    }

good-ne-fault : {A : Type 0} (P : A → Type 0) (t : Turn A) → IsGood P t → t ≢ fault
good-ne-fault P t g = λ e. subst (IsGood P) e g

-- In every state that the program can reach, by the socket that `initialize` sets, whatever Winsock
-- answers, turns of its threads in any order, calls of the menu, any datagrams, and any messages with
-- a text of bytes and changes that the nodes make, none of the three threads that cast packets or read
-- and write buffers, the two of the handler and the one of the manager that handles what is received,
-- faults in its next turn: no cast is undefined and no access leaves a buffer.
pub Reaches-ne-fault :
    (s : System) (fails : Bool)
    → Reaches s
    → (handle_rx_thread s.buffer s.io s.manager.received_io_queue ≢ fault)
      × (handle_tx_thread fails s.outgoing s.io s.manager.send_io_queue ≢ fault)
      × (handle_received_data s.incoming s.manager ≢ fault)
Reaches-ne-fault s fails r =
    let v = Reaches-IsSoundSystem r in
    (
      λ e. subst (IsSafe s.manager.received_io_queue.running) e (rx-IsSafe s v),
      good-ne-fault HasTransmitted _ (tx-IsGood s v fails),
      good-ne-fault HasReceived _ (receive-IsGood s v),
    )
