-- ===== src/Udp/Resources.antt =====
-- What `initUDPSock` takes from Winsock and `closeUDPSock` gives back.
use node_management.Common.{
  ℕ, zero, suc, ◌+◌, ◌-◌, ◌≡◌, refl, Bool, true, false, List, [], ◌∷◌, Option, none, some, ◌==◌,
  if◌then◌else◌, arith,
}
use node_management.Udp.{
  SharedContext, Code, success_code, error_code, SockCall, started, cleaned_up, opened, closed,
  SetUp, init_udp_sock, close_udp_sock,
}

-- What is held: how often Winsock was started, less how often it was cleaned up, and the sockets.
pub record Held : Type 0 where
  pub startups : ℕ
  pub sockets : List ℕ

abbrev pub nothing : Held
nothing = record { startups = 0; sockets = [] }

abbrev pub remove : ℕ → List ℕ → List ℕ
remove s [] = []
remove s (x ∷ xs) = if x == s then xs else x ∷ remove s xs

abbrev pub after_call : SockCall → Held → Held
after_call started h = record h { startups = h.startups + 1 }
after_call cleaned_up h = record h { startups = h.startups - 1 }
after_call (opened s) h = record h { sockets = s ∷ h.sockets }
after_call (closed s) h = record h { sockets = remove s h.sockets }

abbrev pub after_calls : List SockCall → Held → Held
after_calls [] h = h
after_calls (c ∷ cs) h = after_calls cs (after_call c h)

remove_own : (s : ℕ) → remove s (s ∷ []) ≡ []
remove_own s = ground arith

-- A result of `initUDPSock` that leaks nothing, and that `closeUDPSock` undoes.
abbrev pub IsSetUp : SharedContext × Code × List SockCall → Type 0
IsSetUp (ctx, error_code, calls) = after_calls calls nothing ≡ nothing
IsSetUp (ctx, success_code, calls) =
    (s : ℕ) × (ctx.sock ≡ some s)
    × (after_calls calls nothing ≡ record { startups = 1; sockets = s ∷ [] })
    × ((close_udp_sock ctx).0.sock ≡ none)
    × ((close_udp_sock ctx).1 ≡ success_code)
    × (after_calls (close_udp_sock ctx).2 (after_calls calls nothing) ≡ nothing)

-- Nothing of Winsock is held after `initUDPSock` fails. After it succeeds Winsock is started once and
-- exactly the socket in the context is held; `closeUDPSock` then succeeds, gives both back, and
-- leaves the context invalid.
pub init_udp_sock-IsSetUp :
    (answers : SetUp) (ctx : SharedContext) → IsSetUp (init_udp_sock answers ctx)
unfolding init_udp_sock close_udp_sock
init_udp_sock-IsSetUp answers ctx =
    by_answers answers.startup_result answers.socket_result answers.bind_fails
  where
    by_answers :
        (startup : ℕ) (socket : Option ℕ) (bind : Bool)
        → IsSetUp (
            init_udp_sock
              (record { startup_result = startup; socket_result = socket; bind_fails = bind })
              ctx)
    by_answers (suc n) socket bind = refl
    by_answers zero none bind = refl
    by_answers zero (some s) true = rw (remove_own s) refl
    by_answers zero (some s) false = (s, refl, refl, refl, refl, rw (remove_own s) refl)
