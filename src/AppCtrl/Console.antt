-- ===== src/AppCtrl/Console.antt =====
-- What the main thread of source/AppCtrl.cpp shows, with `MAIN_LOG` of source/Log_Handler.h, and its
-- debug console. A call of the functions of AppCtrl gives what is shown from the same arguments. The
-- number of the main thread, as text, and what the system answers are arguments.
use Prim.Native.String.{String, ◌++◌ as ◌<>◌}
use node_management.Common.{ℕ, zero, suc, Bool, List, [], ◌∷◌, ◌++◌, if◌then◌else◌}
use node_management.Udp.{shared_context, Code, success_code, error_code, SetUp, init_udp_sock}
use node_management.Manager
use node_management.IoHandler
use node_management.AppCtrl.{
  App, new_app, ProgramState, init, execute_menu, finally, shutdown, start_manager, set_up, is_char,
  initialize, execute, finalize,
}

-- `MAIN_LOG`: the name of the function stands right before the message.
abbrev pub main_log : String → String → String → String
main_log thread function msg = "ThreadID [" <> thread <> "] " <> function <> msg

-- What becomes visible, or is asked of the system for the debug console: a line on the screen, the log
-- file opened, a command started, a window looked for, and a window closed.
pub data Output : Type 0 where
  prints opens runs finds : String → Output
  closes_window : Output

-- `printOption`.
unfoldable pub print_option : List Output
print_option =
    prints "-------------------------------------------------------------"
    ∷ prints "Please choose a option"
    ∷ prints "Enter 1 to start NodeManagament"
    ∷ prints "Enter 2 to start IOHandler"
    ∷ prints "Enter 3 to stop NodeManagament"
    ∷ prints "Enter 4 to stop IOHandler"
    ∷ prints "Enter 5 to get system status"
    ∷ prints "Enter q to quit app"
    ∷ []

-- `InitDebugConsole`, by whether the file could be opened, and `CloseDebugConsole`, by whether the
-- window was found.
unfoldable pub init_debug_console : Bool → List Output
init_debug_console opened =
    opens "debug.log"
    ∷ (if opened
        then runs
            "start powershell -NoExit -Command \"$Host.UI.RawUI.WindowTitle = 'NoM Log'; Get-Content debug.log -Wait\""
          ∷ []
        else [])

unfoldable pub close_debug_console : Bool → List Output
close_debug_console found = finds "NoM Log" ∷ (if found then closes_window ∷ [] else [])

module _ (thread : String) where
  abbrev pub logs : String → String → Output
  logs function msg = prints (main_log thread function msg)

  -- `initialize`.
  abbrev pub socket_log : Code → List Output
  socket_log success_code = []
  socket_log error_code = logs "initialize" "Set UDP Sock Fail" ∷ []

  unfoldable pub initialize_log : SetUp → App → List Output
  initialize_log answers app =
      let (ctx, code, calls) = init_udp_sock answers shared_context in
      let with_socket = set_up app (ctx, code, calls) in
      let started = start_manager with_socket in
      socket_log code
      ++ logs "initialize" (
          if (Manager.start with_socket.manager).1
          then "Start NodeManagament Done"
          else "Start NodeManagament fail")
        ∷ logs "initialize" (
            if (IoHandler.start started.io started.manager.send_io_queue).2
            then "Start IOHandler Done"
            else "Start IOHandler fail")
        ∷ []

  -- `execute` behind the menu, with the line that it reads.
  unfoldable pub execute_log : List ℕ → App → List Output
  execute_log input app =
      if is_char b'1' input
      then logs "execute" (
          if (Manager.start app.manager).1
          then "Start NodeManagament Done"
          else "NodeManagament had started before")
        ∷ prints ""
        ∷ []
      else if is_char b'2' input
      then logs "execute" (
          if (IoHandler.start app.io app.manager.send_io_queue).2
          then "Start IOHandler Done"
          else "IOHandler had started before")
        ∷ prints ""
        ∷ []
      else if is_char b'3' input
      then logs "execute" (
          if (Manager.stop app.manager).1
          then "Stop NodeManagament Done"
          else "NodeManagament had stoped before")
        ∷ prints ""
        ∷ []
      else if is_char b'4' input
      then logs "execute" (
          if (IoHandler.stop app.io app.manager.send_io_queue).2
          then "Stop IOHandler Done"
          else "IOHandler had Stoped before")
        ∷ prints ""
        ∷ []
      else if is_char b'5' input
      then logs "execute" (
          "NodeManagament "
          <> (if app.manager.running then "is running" else "stop")
          <> ", IOHandler "
          <> (if app.io.running then "is running" else "stop"))
        ∷ prints ""
        ∷ []
      else prints "" ∷ []

  -- The loop of `main`, as `main_loop` of AppCtrl has it: the menu is shown before a line is read.
  unfoldable pub loop_outputs : Bool → SetUp → ℕ → ProgramState → List (List ℕ) → App → List Output
  loop_outputs found answers zero state lines app = []
  loop_outputs found answers (suc n) init lines app =
      let (next, state) = initialize answers app in
      initialize_log answers app ++ loop_outputs found answers n state lines next
  loop_outputs found answers (suc n) execute_menu [] app = print_option
  loop_outputs found answers (suc n) execute_menu (line ∷ lines) app =
      let (next, state) = execute line app in
      print_option ++ (execute_log line app ++ loop_outputs found answers n state lines next)
  loop_outputs found answers (suc n) finally lines app =
      let (next, state) = finalize app in loop_outputs found answers n state lines next
  loop_outputs found answers (suc n) shutdown lines app = close_debug_console found

  -- `main` for a number of rounds of its loop.
  unfoldable pub main_outputs : Bool → Bool → SetUp → ℕ → List (List ℕ) → List Output
  main_outputs opened found answers rounds lines =
      logs "main" "Start NoM App"
      ∷ (init_debug_console opened ++ loop_outputs found answers rounds init lines new_app)
