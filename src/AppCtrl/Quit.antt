-- ===== src/AppCtrl/Quit.antt =====
-- What `q` does, and what the lines before it do.
use mathlib.Core.List.{append-nil}
use node_management.Common.{
  ℕ, zero, suc, ◌+◌, ◌≤◌, ◌≡◌, refl, ◌∙◌, Bool, true, false, List, [], ◌∷◌, ◌++◌, arith, All,
  length, if◌then◌else◌,
}
use node_management.Udp.{
  SharedContext, shared_context, Code, success_code, error_code, SockCall, SetUp, init_udp_sock,
  close_udp_sock,
}
use node_management.Udp.Resources
use node_management.Packet.{AnyPacket}
use node_management.SafeQueue.{SafeQueue}
use node_management.Udp.Resources.{Held, nothing, after_calls, IsSetUp, init_udp_sock-IsSetUp}
use node_management.Manager
use node_management.IoHandler
use node_management.IoHandler.{IoHandler}
use node_management.AppCtrl.{
  App, new_app, ProgramState, execute_menu, start_manager, stop_manager, start_io, stop_io, is_char,
  set_up, initialize, execute, finalize, Progress, waits, returns, unfinished, main_loop,
}

-- What no command of the menu changes.
pub record SameSockets (app next : App) : Type 0 where
  pub same_calls : next.calls ≡ app.calls
  pub same_ctx : next.io.ctx ≡ app.io.ctx

start_io-SameSockets : (app : App) → SameSockets app (start_io app)
unfolding IoHandler.start
start_io-SameSockets app = by_running app.io.running
  where
    by_running :
        (b : Bool)
        → SameSockets
            (record app { io = record app.io { running = b } })
            (start_io (record app { io = record app.io { running = b } }))
    by_running true = record { same_calls = refl; same_ctx = refl }
    by_running false = record { same_calls = refl; same_ctx = refl }

stop_io-SameSockets : (app : App) → SameSockets app (stop_io app)
unfolding IoHandler.stop
stop_io-SameSockets app = by_running app.io.running
  where
    by_running :
        (b : Bool)
        → SameSockets
            (record app { io = record app.io { running = b } })
            (stop_io (record app { io = record app.io { running = b } }))
    by_running true = record { same_calls = refl; same_ctx = refl }
    by_running false = record { same_calls = refl; same_ctx = refl }

-- A line that is not `q` leaves the program in its menu, and the sockets as they are.
pub execute-SameSockets :
    (line : List ℕ) (app : App)
    → is_char b'q' line ≡ false
    → ((execute line app).1 ≡ execute_menu) × SameSockets app (execute line app).0
unfolding execute
execute-SameSockets line app not_q = rw not_q (
    by_tests (is_char b'1' line) (is_char b'2' line) (is_char b'3' line) (is_char b'4' line)
      (is_char b'5' line))
  where
    Kept : App × ProgramState → Type 0
    Kept r = (r.1 ≡ execute_menu) × SameSockets app r.0

    by_tests :
        (b1 b2 b3 b4 b5 : Bool)
        → Kept (
            if b1
            then (start_manager app, execute_menu)
            else if b2
            then (start_io app, execute_menu)
            else if b3
            then (stop_manager app, execute_menu)
            else if b4
            then (stop_io app, execute_menu)
            else if b5
            then (app, execute_menu)
            else (app, execute_menu))
    by_tests true b2 b3 b4 b5 = (refl, record { same_calls = refl; same_ctx = refl })
    by_tests false true b3 b4 b5 = (refl, start_io-SameSockets app)
    by_tests false false true b4 b5 = (refl, record { same_calls = refl; same_ctx = refl })
    by_tests false false false true b5 = (refl, stop_io-SameSockets app)
    by_tests false false false false true = (refl, record { same_calls = refl; same_ctx = refl })
    by_tests false false false false false = (refl, record { same_calls = refl; same_ctx = refl })

-- What `main` has come to with nothing of Winsock held.
abbrev pub IsClean : Progress → Type 0
IsClean (waits app) = ⊥
IsClean (unfinished state app) = ⊥
IsClean (returns app) =
    (app.manager.running ≡ false)
    × (app.io.running ≡ false)
    × (after_calls app.calls nothing ≡ nothing)

stopped_manager : (m : Manager.Manager) → (Manager.stop m).0.running ≡ false
unfolding Manager.stop
stopped_manager m = ground arith

stopped_io :
    (io : IoHandler) (q : SafeQueue AnyPacket)
    → ((IoHandler.stop io q).0.running ≡ false) × ((IoHandler.stop io q).0.ctx ≡ io.ctx)
unfolding IoHandler.stop
stopped_io io q = ground arith

after_calls-append :
    (cs ds : List SockCall) (h : Held)
    → after_calls (cs ++ ds) h ≡ after_calls ds (after_calls cs h)
after_calls-append [] ds h = refl
after_calls-append (c ∷ cs) ds h = after_calls-append cs ds (Resources.after_call c h)

-- What closing the socket of the handler would leave.
abbrev pub IsClosable : App → Type 0
IsClosable app = after_calls (app.calls ++ (close_udp_sock app.io.ctx).2) nothing ≡ nothing

SameSockets-IsClosable : (app next : App) → SameSockets app next → IsClosable app → IsClosable next
SameSockets-IsClosable app next same h = rw (same.same_calls, same.same_ctx) h

set_up-IsClosable :
    (r : SharedContext × Code × List SockCall) → IsSetUp r → IsClosable (set_up new_app r)
unfolding close_udp_sock
set_up-IsClosable (ctx, success_code, calls) (s, valid, one, closed, succeeds, none_left) =
    after_calls-append calls (close_udp_sock ctx).2 nothing ∙ none_left
set_up-IsClosable (ctx, error_code, calls) h = rw (append-nil calls) h

pub initialize-IsClosable : (answers : SetUp) → IsClosable (initialize answers new_app).0
unfolding initialize
initialize-IsClosable answers =
    SameSockets-IsClosable (start_manager ready) (start_io (start_manager ready))
      (start_io-SameSockets (start_manager ready))
      (set_up-IsClosable (init_udp_sock answers shared_context)
        (init_udp_sock-IsSetUp answers shared_context))
  where
    ready : App
    ready = set_up new_app (init_udp_sock answers shared_context)

finalize-IsClean : (app : App) → IsClosable app → IsClean (returns (finalize app).0)
unfolding finalize
finalize-IsClean app h = (
  stopped_manager (stop_io app).manager,
  (stopped_io app.io app.manager.send_io_queue).0,
  SameSockets-IsClosable app (stop_io app) (stop_io-SameSockets app) h,
)

abbrev pub NotQuit : List ℕ → Type 0
NotQuit line = is_char b'q' line ≡ false

pub menu_quits :
    (answers : SetUp) (before rest : List (List ℕ)) (rounds : ℕ) (app : App)
    → All NotQuit before
    → length before + 3 ≤ rounds
    → IsClosable app
    → IsClean (main_loop answers rounds execute_menu (before ++ (b'q' ∷ []) ∷ rest) app)
unfolding main_loop execute
menu_quits answers [] rest zero app stay enough h = absurd (omega arith)
menu_quits answers [] rest (suc zero) app stay enough h = absurd (omega arith)
menu_quits answers [] rest (suc (suc zero)) app stay enough h = absurd (omega arith)
menu_quits answers [] rest (suc (suc (suc n))) app stay enough h =
    unfold finalize in finalize-IsClean app h
menu_quits answers (line ∷ before) rest zero app stay enough h = absurd (omega arith)
menu_quits answers (line ∷ before) rest (suc n) app stay enough h =
    rw (execute-SameSockets line app stay.0).0 (
      menu_quits answers before rest n (execute line app).0 stay.1 (omega arith)
        (SameSockets-IsClosable app (execute line app).0 (execute-SameSockets line app stay.0).1 h))
