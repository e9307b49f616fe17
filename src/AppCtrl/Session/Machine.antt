-- ===== src/AppCtrl/Session/Machine.antt =====
-- A session of source/AppCtrl.cpp in the abstract: two flags, the commands, and what is shown, written
-- out apart from the definitions that model the code.
use Prim.Native.String.{String, ◌++◌ as ◌<>◌}
use node_management.Common.{
  ℕ, Bool, true, false, List, [], ◌∷◌, ◌++◌, map, if◌then◌else◌, ◌==◌, ◌&&◌, not, none, some,
}
use node_management.Udp.{SetUp}
use node_management.AppCtrl.Console.{Output, prints, opens, runs, finds, closes_window}

-- All that a session depends on: which of the two parts run.
pub record Flags : Type 0 where
  pub manager_on : Bool
  pub io_on : Bool

abbrev pub both_on : Flags
both_on = record { manager_on = true; io_on = true }

pub data Command : Type 0 where
  start_nom start_udp stop_nom stop_udp status leave nothing : Command

-- Equal lines.
abbrev pub spells : List ℕ → List ℕ → Bool
spells [] [] = true
spells [] (y ∷ ys) = false
spells (x ∷ xs) [] = false
spells (x ∷ xs) (y ∷ ys) = x == y && spells xs ys

abbrev pub command : List ℕ → Command
command line =
    if spells line (b'1' ∷ [])
    then start_nom
    else if spells line (b'2' ∷ [])
    then start_udp
    else if spells line (b'3' ∷ [])
    then stop_nom
    else if spells line (b'4' ∷ [])
    then stop_udp
    else if spells line (b'5' ∷ [])
    then status
    else if spells line (b'q' ∷ [])
    then leave
    else nothing

abbrev pub word : Bool → String
word b = if b then "is running" else "stop"

-- A command changes at most one flag, and its answer tells whether it did.
abbrev pub react : Command → Flags → Flags × List String
react start_nom f = (
  record f { manager_on = true },
  (if f.manager_on then "NodeManagament had started before" else "Start NodeManagament Done") ∷ [],
)
react start_udp f = (
  record f { io_on = true },
  (if f.io_on then "IOHandler had started before" else "Start IOHandler Done") ∷ [],
)
react stop_nom f = (
  record f { manager_on = false },
  (if f.manager_on then "Stop NodeManagament Done" else "NodeManagament had stoped before") ∷ [],
)
react stop_udp f = (
  record f { io_on = false },
  (if f.io_on then "Stop IOHandler Done" else "IOHandler had Stoped before") ∷ [],
)
react status f =
    (f, ("NodeManagament " <> word f.manager_on <> ", IOHandler " <> word f.io_on) ∷ [])
react leave f = (f, [])
react nothing f = (f, [])

abbrev pub is_leave : Command → Bool
is_leave start_nom = false
is_leave start_udp = false
is_leave stop_nom = false
is_leave stop_udp = false
is_leave status = false
is_leave leave = true
is_leave nothing = false

-- The menu, and the log window opened and closed; the arguments tell whether the log file could be
-- opened and whether the window was found.
abbrev pub the_menu : List Output
the_menu =
    prints "-------------------------------------------------------------"
    ∷ prints "Please choose a option"
    ∷ prints "Enter 1 to start NodeManagament"
    ∷ prints "Enter 2 to start IOHandler"
    ∷ prints "Enter 3 to stop NodeManagament"
    ∷ prints "Enter 4 to stop IOHandler"
    ∷ prints "Enter 5 to get system status"
    ∷ prints "Enter q to quit app"
    ∷ []

abbrev pub window_opens : Bool → List Output
window_opens false = opens "debug.log" ∷ []
window_opens true =
    opens "debug.log"
    ∷ runs
        "start powershell -NoExit -Command \"$Host.UI.RawUI.WindowTitle = 'NoM Log'; Get-Content debug.log -Wait\""
    ∷ []

abbrev pub window_closes : Bool → List Output
window_closes false = finds "NoM Log" ∷ []
window_closes true = finds "NoM Log" ∷ closes_window ∷ []

-- Winsock starts, gives a socket, and binds it.
abbrev pub has_socket : SetUp → Bool
has_socket answers =
    answers.startup_result == 0
    && (elim answers.socket_result [ none ↦ false | some s ↦ not answers.bind_fails ])

module _ (thread : String) where
  abbrev pub tells : String → String → Output
  tells function message = prints ("ThreadID [" <> thread <> "] " <> function <> message)

  abbrev pub says : List String → List Output
  says messages = map (tells "execute") messages ++ prints "" ∷ []

  abbrev pub complains : Bool → List Output
  complains true = []
  complains false = tells "initialize" "Set UDP Sock Fail" ∷ []

  -- The rest of a session, from the menu on.
  abbrev pub menu_shows : Bool → List (List ℕ) → Flags → List Output
  menu_shows found [] f = the_menu
  menu_shows found (line ∷ lines) f =
      let rest = menu_shows found lines (react (command line) f).0 in
      the_menu
      ++ (says (react (command line) f).1
          ++ (if is_leave (command line) then window_closes found else rest))
