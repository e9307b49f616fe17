-- ===== src/AppCtrl/Session.antt =====
-- What the main thread of source/AppCtrl.cpp shows in a whole session, against a machine of two flags.
pub mod Machine
pub mod Reaction
use Prim.Native.String.{String}
use node_management.Common.{
  ℕ, zero, suc, ◌+◌, ◌≤◌, ◌≡◌, refl, ap, ◌∙◌, Bool, true, false, List, [], ◌∷◌, ◌++◌, arith, length,
  if◌then◌else◌, ◌==◌, Option, none, some,
}
use node_management.Udp.{
  SetUp, init_udp_sock, shared_context, Code, success_code, error_code, SharedContext, SockCall,
}
use node_management.Manager
use node_management.Manager.{Manager}
use node_management.IoHandler
use node_management.IoHandler.{IoHandler}
use node_management.AppCtrl.{
  App, new_app, execute_menu, finally, execute, initialize, finalize, start_manager, start_io,
  set_up,
}
use node_management.AppCtrl.Console.{
  logs, print_option, socket_log, init_debug_console, close_debug_console, initialize_log,
  loop_outputs, main_outputs,
}
use node_management.AppCtrl.Session.Machine.{
  both_on, command, react, is_leave, says, menu_shows, the_menu, window_opens, window_closes,
  has_socket, tells, complains,
}
use node_management.AppCtrl.Session.Reaction.{flags, execute-Reacts}

print_option_lem : print_option ≡ the_menu
unfolding print_option
print_option_lem = refl

init_debug_console_lem : (opened : Bool) → init_debug_console opened ≡ window_opens opened
unfolding init_debug_console
init_debug_console_lem true = refl
init_debug_console_lem false = refl

close_debug_console_lem : (found : Bool) → close_debug_console found ≡ window_closes found
unfolding close_debug_console
close_debug_console_lem true = refl
close_debug_console_lem false = refl

module _ (thread : String) where
  socket_log_lem :
      (answers : SetUp)
      → socket_log thread (init_udp_sock answers shared_context).1
        ≡ complains thread (has_socket answers)
  unfolding init_udp_sock
  socket_log_lem answers =
      by_answers answers.startup_result answers.socket_result answers.bind_fails
    where
      by_answers :
          (n : ℕ) (s : Option ℕ) (fails : Bool)
          → socket_log thread
              (init_udp_sock
                (record { startup_result = n; socket_result = s; bind_fails = fails })
                shared_context).1
            ≡ complains thread
                (has_socket (record { startup_result = n; socket_result = s; bind_fails = fails }))
      by_answers zero none fails = refl
      by_answers zero (some s) true = refl
      by_answers zero (some s) false = refl
      by_answers (suc n) s fails =
          let started : (suc n == 0) ≡ false = ground arith in rw started refl

  leaves :
      (found : Bool) (answers : SetUp) (rounds : ℕ) (lines : List (List ℕ)) (app : App)
      → 2 ≤ rounds
      → loop_outputs thread found answers rounds finally lines app ≡ window_closes found
  unfolding loop_outputs finalize
  leaves found answers zero lines app l = absurd (omega arith)
  leaves found answers (suc zero) lines app l = absurd (omega arith)
  leaves found answers (suc (suc n)) lines app l = close_debug_console_lem found

  menu_lem :
      (found : Bool) (answers : SetUp) (rounds : ℕ) (lines : List (List ℕ)) (app : App)
      → length lines + 3 ≤ rounds
      → loop_outputs thread found answers rounds execute_menu lines app
        ≡ menu_shows thread found lines (flags app)
  unfolding loop_outputs
  menu_lem found answers zero lines app l = absurd (omega arith)
  menu_lem found answers (suc n) [] app l = print_option_lem
  menu_lem found answers (suc n) (line ∷ lines) app l =
      let r = execute-Reacts thread line app in
      rw (r.1, r.2, print_option_lem)
        (ap (λ x. the_menu ++ (says thread (react (command line) (flags app)).1 ++ x))
          (elim (is_leave (command line))
            as (λ b.
              loop_outputs thread found answers n (if b then finally else execute_menu) lines
                (execute line app).0
              ≡ (if b
                  then window_closes found
                  else menu_shows thread found lines (react (command line) (flags app)).0)) [
                    | true ↦ leaves found answers n lines (execute line app).0 (omega arith)
                    | false ↦
                        menu_lem found answers n lines (execute line app).0 (omega arith)
                        ∙ ap (menu_shows thread found lines) r.0
                  ]))

  initialize_lem :
      (answers : SetUp)
      → (flags (initialize answers new_app).0 ≡ both_on)
        × (initialize_log thread answers new_app
            ≡ socket_log thread (init_udp_sock answers shared_context).1
              ++ logs thread "initialize" "Start NodeManagament Done"
                ∷ logs thread "initialize" "Start IOHandler Done"
                ∷ [])
  unfolding initialize initialize_log Manager.start IoHandler.start
  initialize_lem answers = by_result (init_udp_sock answers shared_context)
    where
      by_result :
          (r : SharedContext × Code × List SockCall)
          → (flags (start_io (start_manager (set_up new_app r))) ≡ both_on)
            × ((let with_socket = set_up new_app (r.0, r.1, r.2) in
                  let started = start_manager with_socket in
                  socket_log thread r.1
                  ++ logs thread "initialize" (
                      if (Manager.start with_socket.manager).1
                      then "Start NodeManagament Done"
                      else "Start NodeManagament fail")
                    ∷ logs thread "initialize" (
                        if (IoHandler.start started.io started.manager.send_io_queue).2
                        then "Start IOHandler Done"
                        else "Start IOHandler fail")
                    ∷ [])
                ≡ socket_log thread r.1
                  ++ logs thread "initialize" "Start NodeManagament Done"
                    ∷ logs thread "initialize" "Start IOHandler Done"
                    ∷ [])
      by_result (ctx, success_code, calls) = (refl, refl)
      by_result (ctx, error_code, calls) = (refl, refl)

  -- Whatever Winsock answers and whatever lines are typed, what `main` shows, within four rounds more
  -- than there are lines, is the opening of the log window, a complaint unless there is a bound socket,
  -- and then what a machine of two flags shows, word for word: the menu before each line; a command
  -- starts or stops one of the two parts and says so, or says that this was done before; the status is
  -- that of the flags; the line `q`, and no other, ends the session and closes the log window.
  pub main_shows :
      (opened found : Bool) (answers : SetUp) (lines : List (List ℕ)) (rounds : ℕ)
      → length lines + 4 ≤ rounds
      → main_outputs thread opened found answers rounds lines
        ≡ tells thread "main" "Start NoM App"
          ∷ (window_opens opened
              ++ ((complains thread (has_socket answers)
                    ++ tells thread "initialize" "Start NodeManagament Done"
                      ∷ tells thread "initialize" "Start IOHandler Done"
                      ∷ [])
                  ++ menu_shows thread found lines both_on))
  unfolding main_outputs loop_outputs initialize
  main_shows opened found answers lines zero l = absurd (omega arith)
  main_shows opened found answers lines (suc n) l =
      let r = initialize_lem answers in
      let app = (initialize answers new_app).0 in
      rw (r.1, socket_log_lem answers, init_debug_console_lem opened)
        (ap
          (λ x.
            tells thread "main" "Start NoM App"
            ∷ (window_opens opened
                ++ ((complains thread (has_socket answers)
                      ++ tells thread "initialize" "Start NodeManagament Done"
                        ∷ tells thread "initialize" "Start IOHandler Done"
                        ∷ [])
                    ++ x)))
          (menu_lem found answers n lines app (omega arith)
            ∙ ap (menu_shows thread found lines) r.0))
