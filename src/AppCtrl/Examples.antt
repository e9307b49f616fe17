-- ===== src/AppCtrl/Examples.antt =====
-- Concrete runs of `main`, and concrete datagrams.
use node_management.Common.{◌≢◌, true, ℕ, ◌≡◌, refl, false, List, [], ◌∷◌, ◌++◌, some, arith, All}
use node_management.Types.{TypeNode, SockaddrIn}
use node_management.Wire.Octets.{IsBytes}
use node_management.Udp.{SetUp, datagram, conn_reset, other_error, data_received_udp}
use node_management.Manager.{Manager, new_manager, goes_on}
use node_management.Manager.Refinement.{view, enter}
use node_management.IoHandler.{new_io_handler}
use node_management.AppCtrl.{new_app, init, main_loop}
use node_management.AppCtrl.Quit.{NotQuit, IsClean}
use node_management.Types.{StateList, MessageState, message_state}
use node_management.SafeQueue
use node_management.SafeQueue.{new_queue}
use node_management.Udp
use node_management.Udp.{rx_round, shared_context, init_udp_sock, open_socket, bind_socket}
use node_management.Manager
use node_management.Manager.{fault, handle_send_data, handle_received_data}
use node_management.IoHandler
use node_management.IoHandler.{handle_rx_thread, handle_tx_thread}
use node_management.AppCtrl.System.{
  System, new_system, Reaches, begins, udp_round, sets_socket, starts_manager, starts_io,
}
use node_management.AppCtrl.NoFault.{Reaches-ne-fault}
use node_management.AppCtrl.Main.{main_quits}
use node_management.AppCtrl.Console.{prints, main_outputs}
use node_management.AppCtrl.Session.{main_shows}
use node_management.AppCtrl.Session.Machine.{the_menu, window_opens, window_closes}
use node_management.AppCtrl.Delivery.{
  deliver, idle_io, idle_manager, register_datagram, empty_datagram,
}

abbrev good_answers : SetUp
good_answers = record { startup_result = 0; socket_result = some 5; bind_fails = false }

-- Start the manager again, stop the handler, and an empty line.
abbrev three_lines : List (List ℕ)
three_lines = (b'1' ∷ []) ∷ (b'4' ∷ []) ∷ [] ∷ []

three_lines-NotQuit : All NotQuit three_lines
three_lines-NotQuit = (refl, (refl, (refl, tt)))

main_quits_example :
    IsClean (main_loop good_answers 7 init (three_lines ++ (b'q' ∷ []) ∷ []) new_app)
main_quits_example = main_quits good_answers three_lines [] 7 three_lines-NotQuit (omega arith)

abbrev an_address : SockaddrIn
an_address = record { sin_port = 4660; sin_addr = 16777343 }

abbrev no_address : SockaddrIn
no_address = record { sin_port = 0; sin_addr = 0 }

-- An OAM node named "UE".
abbrev name_bytes : List ℕ
name_bytes = 85 ∷ 69 ∷ []

oam_datagram-IsBytes : IsBytes (0 ∷ 5 ∷ 3 ∷ name_bytes)
oam_datagram-IsBytes = (omega arith, (omega arith, (omega arith, (omega arith, (omega arith, tt)))))

register_datagram_example :
    (next : Manager) × (deliver no_address
        (other_error no_address ∷ datagram (0 ∷ 5 ∷ 3 ∷ name_bytes) an_address ∷ [])
        (data_received_udp no_address)
        (idle_io new_io_handler)
        (idle_manager new_manager)
      ≡ goes_on next)
    × ((port : ℕ)
        → view next port
          ≡ enter
              (record { node_type = TypeNode.oam; node_id = 1; addr = an_address })
              (view new_manager)
              port)
register_datagram_example =
    register_datagram new_io_handler new_manager no_address (data_received_udp no_address)
      (other_error no_address ∷ []) [] 5 3 name_bytes an_address (tt, tt) (omega arith)
      oam_datagram-IsBytes

empty_datagram_example :
    deliver no_address
      (conn_reset an_address ∷ [])
      (data_received_udp no_address)
      (idle_io new_io_handler)
      (idle_manager new_manager)
    ≡ goes_on (idle_manager new_manager)
empty_datagram_example =
    empty_datagram new_io_handler new_manager no_address (data_received_udp no_address)
      (conn_reset an_address) [] tt

abbrev no_message : MessageState
no_message = message_state 0 TypeNode.base StateList.init 0 no_address

-- The handler has a socket, it and the manager run, and a datagram has arrived.
abbrev busy_system : System
busy_system = record (new_system no_address no_message) {
  io = record new_io_handler {
    running = true;
    buffer_udp_recv =
        rx_round no_address (datagram (0 ∷ 5 ∷ 3 ∷ name_bytes) an_address ∷ []) new_queue;
    ctx = record { sock = some 5 };
    udp_received = record { running = true; ctx = record { sock = some 5 } };
  };
  manager = record new_manager { running = true };
}

busy_system-Reaches : Reaches busy_system
unfolding IoHandler.start Manager.start Udp.start SafeQueue.start init_udp_sock
busy_system-Reaches =
    udp_round no_address (datagram (0 ∷ 5 ∷ 3 ∷ name_bytes) an_address ∷ [])
      (starts_io (starts_manager (sets_socket good_answers (begins no_address no_message tt) refl)))
      ((omega arith, oam_datagram-IsBytes), tt)

Reaches-ne-fault_example :
    (handle_rx_thread busy_system.buffer busy_system.io busy_system.manager.received_io_queue
      ≢ fault)
    × (handle_tx_thread false busy_system.outgoing busy_system.io busy_system.manager.send_io_queue
        ≢ fault)
    × (handle_received_data busy_system.incoming busy_system.manager ≢ fault)
Reaches-ne-fault_example = Reaches-ne-fault busy_system false busy_system-Reaches

-- The status is asked for, the manager stopped twice, and the session left.
abbrev four_lines : List (List ℕ)
four_lines = (b'5' ∷ []) ∷ (b'3' ∷ []) ∷ (b'3' ∷ []) ∷ (b'q' ∷ []) ∷ []

main_shows_example :
    main_outputs "7" true true good_answers 8 four_lines
    ≡ prints "ThreadID [7] mainStart NoM App"
      ∷ (window_opens true
          ++ (prints "ThreadID [7] initializeStart NodeManagament Done"
              ∷ prints "ThreadID [7] initializeStart IOHandler Done"
              ∷ (the_menu
                  ++ (prints "ThreadID [7] executeNodeManagament is running, IOHandler is running"
                      ∷ prints ""
                      ∷ (the_menu
                          ++ (prints "ThreadID [7] executeStop NodeManagament Done"
                              ∷ prints ""
                              ∷ (the_menu
                                  ++ (prints "ThreadID [7] executeNodeManagament had stoped before"
                                      ∷ prints ""
                                      ∷ (the_menu ++ (prints "" ∷ window_closes true))))))))))
main_shows_example = main_shows "7" true true good_answers four_lines 8 (omega arith)
