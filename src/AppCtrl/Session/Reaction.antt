-- ===== src/AppCtrl/Session/Reaction.antt =====
-- One round of the menu of source/AppCtrl.cpp, and what it shows, against the machine of two flags.
use Prim.Native.String.{String}
use node_management.Common.{
  ℕ, ◌≡◌, refl, Bool, true, false, not, List, [], ◌∷◌, arith, if◌then◌else◌, Bool-cases, inl, inr,
}
use node_management.Packet.{AnyPacket}
use node_management.SafeQueue.{SafeQueue}
use node_management.Manager
use node_management.Manager.{Manager}
use node_management.IoHandler
use node_management.IoHandler.{IoHandler}
use node_management.AppCtrl.{App, execute_menu, finally, is_char, execute}
use node_management.AppCtrl.Console.{prints, logs, execute_log}
use node_management.AppCtrl.Session.Machine.{Flags, command, react, is_leave, says, spells}

abbrev pub flags : App → Flags
flags app = record { manager_on = app.manager.running; io_on = app.io.running }

module _ (m : Manager) where
  manager-start : ((Manager.start m).0.running ≡ true) × ((Manager.start m).1 ≡ not m.running)
  unfolding Manager.start
  manager-start = ground arith

  manager-stop : ((Manager.stop m).0.running ≡ false) × ((Manager.stop m).1 ≡ m.running)
  unfolding Manager.stop
  manager-stop = ground arith

module _ (io : IoHandler) (q : SafeQueue AnyPacket) where
  io-start : ((IoHandler.start io q).0.running ≡ true) × ((IoHandler.start io q).2 ≡ not io.running)
  unfolding IoHandler.start
  io-start = ground arith

  io-stop : ((IoHandler.stop io q).0.running ≡ false) × ((IoHandler.stop io q).2 ≡ io.running)
  unfolding IoHandler.stop
  io-stop = ground arith

-- A line that is one character.
is_char-spells : (c : ℕ) (line : List ℕ) → is_char c line ≡ spells line (c ∷ [])
is_char-spells c [] = refl
is_char-spells c (x ∷ []) = ground arith
is_char-spells c (x ∷ y ∷ line) = ground arith

module _ (thread : String) where
  -- A round of the menu, as the two flags have it.
  abbrev pub Reacts : List ℕ → App → Type 0
  Reacts line app =
      (flags (execute line app).0 ≡ (react (command line) (flags app)).0)
      × (execute_log thread line app ≡ says thread (react (command line) (flags app)).1)
      × ((execute line app).1 ≡ (if is_leave (command line) then finally else execute_menu))

  pub execute-Reacts : (line : List ℕ) (app : App) → Reacts line app
  unfolding execute execute_log
  execute-Reacts line app =
      rw
        (
          execute,
          execute_log,
          is_char-spells b'1' line,
          is_char-spells b'2' line,
          is_char-spells b'3' line,
          is_char-spells b'4' line,
          is_char-spells b'5' line,
          is_char-spells b'q' line,
        )
        (elim (Bool-cases (spells line (b'1' ∷ []))) [
          | inl e ↦ rw e (
              rw ((manager-start app.manager).0, (manager-start app.manager).1)
                (refl, swapped app.manager.running _ _, refl))
          | inr n1 ↦ elim (Bool-cases (spells line (b'2' ∷ []))) [
            | inl e ↦
                rw (n1, e)
                  (rw
                    (
                      (io-start app.io app.manager.send_io_queue).0,
                      (io-start app.io app.manager.send_io_queue).1,
                    )
                    (refl, swapped app.io.running _ _, refl))
            | inr n2 ↦ elim (Bool-cases (spells line (b'3' ∷ []))) [
              | inl e ↦
                  rw (n1, n2, e)
                    (rw ((manager-stop app.manager).0, (manager-stop app.manager).1)
                      (refl, refl, refl))
              | inr n3 ↦ elim (Bool-cases (spells line (b'4' ∷ []))) [
                | inl e ↦
                    rw (n1, n2, n3, e)
                      (rw
                        (
                          (io-stop app.io app.manager.send_io_queue).0,
                          (io-stop app.io app.manager.send_io_queue).1,
                        )
                        (refl, refl, refl))
                | inr n4 ↦ elim (Bool-cases (spells line (b'5' ∷ []))) [
                  | inl e ↦ rw (n1, n2, n3, n4, e) (refl, refl, refl)
                  | inr n5 ↦ elim (Bool-cases (spells line (b'q' ∷ []))) [
                    | inl e ↦ rw (n1, n2, n3, n4, n5, e) (refl, refl, refl)
                    | inr n6 ↦ rw (n1, n2, n3, n4, n5, n6) (refl, refl, refl)
                  ]
                ]
              ]
            ]
          ]
        ])
    where
      swapped :
          (b : Bool) (x y : String)
          → (logs thread "execute" (if not b then x else y) ∷ prints "" ∷ [])
            ≡ (logs thread "execute" (if b then y else x) ∷ prints "" ∷ [])
      swapped true x y = refl
      swapped false x y = refl
