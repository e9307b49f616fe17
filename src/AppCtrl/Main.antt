-- ===== src/AppCtrl/Main.antt =====
-- `main` from its start, with the rounds that it needs.
use node_management.Common.{
  ℕ, zero, suc, ◌+◌, ◌≤◌, ◌≡◌, refl, List, [], ◌∷◌, ◌++◌, arith, All, length,
}
use node_management.Udp.{SetUp}
use node_management.AppCtrl.{
  App, new_app, init, execute_menu, initialize, execute, waits, main_loop,
}
use node_management.AppCtrl.Quit.{
  NotQuit, IsClean, execute-SameSockets, menu_quits, initialize-IsClosable,
}

-- When `q` is typed for the first time after the lines `before`, `main` returns, within four rounds
-- more than there are such lines, whatever Winsock answers; both parts are then stopped, and every
-- start of Winsock and every socket has been given back.
pub main_quits :
    (answers : SetUp) (before rest : List (List ℕ)) (rounds : ℕ)
    → All NotQuit before
    → length before + 4 ≤ rounds
    → IsClean (main_loop answers rounds init (before ++ (b'q' ∷ []) ∷ rest) new_app)
unfolding main_loop initialize
main_quits answers before rest zero stay enough = absurd (omega arith)
main_quits answers before rest (suc n) stay enough =
    menu_quits answers before rest n (initialize answers new_app).0 stay (omega arith)
      (initialize-IsClosable answers)

menu_waits :
    (answers : SetUp) (lines : List (List ℕ)) (rounds : ℕ) (app : App)
    → All NotQuit lines
    → length lines + 1 ≤ rounds
    → (next : App) × (main_loop answers rounds execute_menu lines app ≡ waits next)
unfolding main_loop
menu_waits answers [] zero app stay enough = absurd (omega arith)
menu_waits answers [] (suc n) app stay enough = (app, refl)
menu_waits answers (line ∷ lines) zero app stay enough = absurd (omega arith)
menu_waits answers (line ∷ lines) (suc n) app stay enough =
    rw (execute-SameSockets line app stay.0).0
      (menu_waits answers lines n (execute line app).0 stay.1 (omega arith))

-- As long as no line is `q`, `main` does not return: within two rounds more than there are lines it
-- has taken them all, and it waits for the next.
pub main_waits :
    (answers : SetUp) (lines : List (List ℕ)) (rounds : ℕ)
    → All NotQuit lines
    → length lines + 2 ≤ rounds
    → (next : App) × (main_loop answers rounds init lines new_app ≡ waits next)
unfolding main_loop initialize
main_waits answers lines zero stay enough = absurd (omega arith)
main_waits answers lines (suc n) stay enough =
    menu_waits answers lines n (initialize answers new_app).0 stay (omega arith)
