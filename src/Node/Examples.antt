-- ===== src/Node/Examples.antt =====
-- Concrete nodes, rounds and waits.
use node_management.Common.{
  ℕ, zero, suc, ◌<◌, ◌≡◌, ◌≢◌, ◌↔◌, refl, true, false, List, [], ◌∷◌, some, arith,
}
use node_management.Types.{TypeNode, StateList, alive, timeout, dead, SockaddrIn}
use node_management.Node.{
  NodeBase, Wake, Round, retry_num, may_change, handle_timeout, handle_state, handle_thread,
}
use node_management.Node.States.{Transition, may_change_iff}
use node_management.Node.Retry.{
  IsSilent, pings, notice, handle_timeout_silent, handle_timeout_heard,
}
use node_management.Node.Life.{Follows, handle_state-Follows}
use node_management.Node.Silence.{IsSilentRound, in_state, alive_pings, handle_thread_answered}

abbrev an_address : SockaddrIn
an_address = record { sin_port = 4660; sin_addr = 16777343 }

abbrev quiet : Wake
quiet = record { last_id = 7; pong = false; stopped = false }

abbrev pong_comes : Wake
pong_comes = record { last_id = 7; pong = true; stopped = false }

abbrev a_node : StateList → NodeBase
a_node state = in_state TypeNode.oam 3 an_address state true false

abbrev noon : List ℕ
noon = 49 ∷ 50 ∷ []

-- The third ping is answered.
abbrev third : ℕ → Wake
third zero = quiet
third (suc zero) = quiet
third (suc (suc zero)) = pong_comes
third (suc (suc (suc i))) = quiet

abbrev quiet_round : Round
quiet_round = record { stopped = false; now = noon; wakes = λ i. quiet }

abbrev pong_round : Round
pong_round = record { stopped = false; now = noon; wakes = λ i. pong_comes }

quiet_round-IsSilentRound : IsSilentRound quiet_round
quiet_round-IsSilentRound = record { not_stopped = refl; silent = λ i p. (refl, refl) }

may_change_iff_example : (may_change timeout dead ≡ some true) ↔ Transition timeout dead
may_change_iff_example = may_change_iff timeout dead

handle_timeout_silent_example :
    handle_timeout noon (λ i. quiet) (a_node timeout)
    ≡ some (
      a_node dead,
      notice noon (a_node timeout) ∷ pings (λ i. quiet) TypeNode.oam an_address 0 retry_num,
    )
handle_timeout_silent_example =
    handle_timeout_silent noon (λ i. quiet) (a_node timeout) refl refl (λ i p. (refl, refl))

before_third : (i : ℕ) → i < 2 → IsSilent (third i)
before_third zero p = (refl, refl)
before_third (suc zero) p = (refl, refl)
before_third (suc (suc i)) p = absurd (omega arith)

handle_timeout_heard_example :
    handle_timeout noon third (a_node timeout)
    ≡ some (
      record (a_node alive) { pong_state = true },
      notice noon (a_node timeout) ∷ pings third TypeNode.oam an_address 0 3,
    )
handle_timeout_heard_example =
    handle_timeout_heard noon third (a_node timeout) refl refl 2 (omega arith) before_third refl

timeout-ne-max : timeout ≢ StateList.max
timeout-ne-max = λ e. cc

handle_state-Follows_example :
    Follows timeout (a_node timeout) (handle_state timeout noon third (a_node timeout))
handle_state-Follows_example =
    handle_state-Follows timeout noon third (a_node timeout) timeout-ne-max refl refl

abbrev answered_node : NodeBase
answered_node = in_state TypeNode.oam 3 an_address alive true true

handle_thread_answered_example :
    handle_thread (pong_round ∷ pong_round ∷ []) answered_node
    ≡ some (answered_node, alive_pings (pong_round ∷ pong_round ∷ []) answered_node, false)
handle_thread_answered_example =
    handle_thread_answered (pong_round ∷ pong_round ∷ []) answered_node refl refl refl
      ((refl, refl, refl), ((refl, refl, refl), tt))
