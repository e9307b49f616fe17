-- ===== src/AppCtrl.antt =====
-- source/AppCtrl.cpp: the program's state machine over the manager and the IO handler. What it shows
-- is in Console; the time between two rounds is left out.
pub mod Delivery
pub mod Quit
pub mod Main
pub mod System
pub mod Soundness
pub mod Safety
pub mod Reached
pub mod NoFault
pub mod Console
pub mod Session
mod Examples
use node_management.Common.{
  ℕ, zero, suc, Bool, true, false, List, [], ◌∷◌, ◌++◌, ◌==◌, if◌then◌else◌,
}
use node_management.Packet.{AnyPacket}
use node_management.SafeQueue.{SafeQueue}
use node_management.Udp.{
  SharedContext, shared_context, Code, success_code, error_code, SockCall, SetUp, init_udp_sock,
  close_udp_sock,
}
use node_management.Manager
use node_management.Manager.{Manager, new_manager}
use node_management.IoHandler
use node_management.IoHandler.{IoHandler, new_io_handler, set_udp_socket}

pub data ProgramState : Type 0 where
  init execute_menu finally shutdown : ProgramState

-- The two singletons, and the calls of Winsock so far that take or give back something.
pub record App : Type 0 where
  pub manager : Manager
  pub io : IoHandler
  pub calls : List SockCall

abbrev pub new_app : App
new_app = record { manager = new_manager; io = new_io_handler; calls = [] }

abbrev pub start_manager : App → App
start_manager app = record app { manager = (Manager.start app.manager).0 }

abbrev pub stop_manager : App → App
stop_manager app = record app { manager = (Manager.stop app.manager).0 }

abbrev pub with_io : App → IoHandler × SafeQueue AnyPacket × Bool → App
with_io app (io, q, done) = record app {
  manager = record app.manager { send_io_queue = q };
  io = io;
}

abbrev pub start_io : App → App
start_io app = with_io app (IoHandler.start app.io app.manager.send_io_queue)

abbrev pub stop_io : App → App
stop_io app = with_io app (IoHandler.stop app.io app.manager.send_io_queue)

-- The part of `initialize` that sets the socket.
abbrev pub set_up : App → SharedContext × Code × List SockCall → App
set_up app (ctx, success_code, calls) = record app {
  io = set_udp_socket ctx app.io;
  calls = app.calls ++ calls;
}
set_up app (ctx, error_code, calls) = record app { calls = app.calls ++ calls }

unfoldable pub initialize : SetUp → App → App × ProgramState
initialize answers app =
    (start_io (start_manager (set_up app (init_udp_sock answers shared_context))), execute_menu)

-- Is the line this one character?
abbrev pub is_char : ℕ → List ℕ → Bool
is_char c [] = false
is_char c (x ∷ []) = x == c
is_char c (x ∷ y ∷ line) = false

-- `execute`, with the line that it reads.
unfoldable pub execute : List ℕ → App → App × ProgramState
execute input app =
    if is_char b'1' input
    then (start_manager app, execute_menu)
    else if is_char b'2' input
    then (start_io app, execute_menu)
    else if is_char b'3' input
    then (stop_manager app, execute_menu)
    else if is_char b'4' input
    then (stop_io app, execute_menu)
    else if is_char b'5' input
    then (app, execute_menu)
    else if is_char b'q' input
    then (app, finally)
    else (app, execute_menu)

-- The socket is closed through a copy of the context.
unfoldable pub finalize : App → App × ProgramState
finalize app =
    let stopped = stop_manager (stop_io app) in
    (record stopped { calls = stopped.calls ++ (close_udp_sock stopped.io.ctx).2 }, shutdown)

-- What `main` has come to: it waits for a line, has returned, or has rounds to go.
pub data Progress : Type 0 where
  waits returns : App → Progress
  unfinished : ProgramState → App → Progress

-- `main` for `rounds` rounds of its loop, with the lines that are typed.
unfoldable pub main_loop : SetUp → ℕ → ProgramState → List (List ℕ) → App → Progress
main_loop answers zero state lines app = unfinished state app
main_loop answers (suc n) init lines app =
    let (next, state) = initialize answers app in main_loop answers n state lines next
main_loop answers (suc n) execute_menu [] app = waits app
main_loop answers (suc n) execute_menu (line ∷ lines) app =
    let (next, state) = execute line app in main_loop answers n state lines next
main_loop answers (suc n) finally lines app =
    let (next, state) = finalize app in main_loop answers n state lines next
main_loop answers (suc n) shutdown lines app = returns app
