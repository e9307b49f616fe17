-- ===== src/Node/Moves/Stopping.antt =====
-- `NodeBase::stop` and the end of the node's thread, for which the destructor of source/node_service
-- waits.
use mathlib.Core.Path.{subst}
use node_management.Common.{
  ℕ, ◌<◌, ◌≤◌, ◌≡◌, refl, sym, Bool, true, false, ◌||◌, List, Option, none, some, arith, ltb,
  if◌then◌else◌,
}
use node_management.Types.{StateList, init, alive, timeout, dead, MessageState}
use node_management.Node.{NodeBase, retry_num, stop}
use node_management.Node.Moves.{
  Position, at_top, entered, reported, ended, retrying, pinging, waiting, Worker, worker, Move,
  blocked, fault, moves, move, Act, pong, halt, act,
}
use node_management.Node.Moves.Steps.{
  since, in_init, in_alive, move_top-over, move_entered-Pinger, move_entered-timeout,
  move_entered-dead, move_reported, move_retrying-ping, move_retrying-dead, move_pinging,
  move-waiting-Pinger, move-waiting-heard,
}
use node_management.Node.Moves.Covered.{
  IsNamed, Covered, on_top, is_over, handling, to_ping, pinged, between, to_retry, retried, said,
}

-- How many steps a stopped thread still takes.
abbrev pub steps_left : Position → Option StateList → ℕ
steps_left ended state = 0
steps_left at_top state = 1
steps_left (waiting k) state = 2
steps_left reported state = 2
steps_left (pinging k) state = 3
steps_left (retrying k) state = if ltb k retry_num then 4 else 2
steps_left entered none = 0
steps_left entered (some init) = 4
steps_left entered (some alive) = 4
steps_left entered (some timeout) = 5
steps_left entered (some dead) = 3
steps_left entered (some StateList.max) = 0

-- A step of a stopped thread: it has ended already, or has fewer steps left and is still stopped.
abbrev pub Falls : ℕ → Move → Type 0
Falls n blocked = n ≡ 0
Falls n fault = ⊥
Falls n (moves w more) = (w.node.running ≡ false) × (steps_left w.position w.node.current_state < n)

falls :
    {n : ℕ} {m : Move} {w : Worker} {more : List MessageState}
    → m ≡ moves w more
    → w.node.running ≡ false
    → steps_left w.position w.node.current_state < n
    → Falls n m
falls {n} e off l = subst (Falls n) (sym e) (off, l)

module _ (expired : Bool) (last_id : ℕ) (now : List ℕ) where
  entered-Falls :
      (node : NodeBase) (p b : Bool) (state : StateList)
      → b ≡ false
      → node.current_state ≡ some state
      → IsNamed (some state)
      → Falls
          (steps_left entered (some state))
          (move expired last_id now (worker (since p b node) entered))
  entered-Falls node p b init off e named =
      falls (move_entered-Pinger expired last_id now node p b in_init e) off (omega arith)
  entered-Falls node p b alive off e named =
      falls (move_entered-Pinger expired last_id now node p b in_alive e) off (omega arith)
  entered-Falls node p b timeout off e named =
      falls (move_entered-timeout expired last_id now node p b e) off (omega arith)
  entered-Falls node p b dead off e named =
      falls (move_entered-dead expired last_id now node p b e) off (omega arith)
  entered-Falls node p b StateList.max off e named = absurd named

  retrying-Falls :
      (node : NodeBase) (p b : Bool) (k : ℕ)
      → b ≡ false
      → node.current_state ≡ some timeout
      → k ≤ retry_num
      → Falls
          (steps_left (retrying k) node.current_state)
          (move expired last_id now (worker (since p b node) (retrying k)))
  retrying-Falls node p b k off e l =
      elim (ltb k retry_num)
          as (λ c.
            (ltb k retry_num ≡ c)
            → Falls (if c then 4 else 2)
                (move expired last_id now (worker (since p b node) (retrying k)))) [
                  | true ↦ λ c.
                      falls (move_retrying-ping expired last_id now node p b k (ground (arith, c)))
                        off (omega arith)
                  | false ↦ λ c.
                      falls
                        (move_retrying-dead expired last_id now node p b k (ground (arith, c)) e)
                        off (omega arith)
                ]
        refl

  pub move-Falls :
      {start node : NodeBase} {sent : List MessageState} {position : Position}
      → Covered start sent node position
      → node.running ≡ false
      → Falls
          (steps_left position node.current_state)
          (move expired last_id now (worker node position))
  unfolding move
  move-Falls (on_top {node = node} r named) off =
      falls (move_top-over expired last_id now node off) off (omega arith)
  move-Falls (is_over r) off = refl
  move-Falls (handling {node = node} q b state r on e named) off =
      subst
        (λ s.
          Falls (steps_left entered s)
            (move expired last_id now (worker (since (q || node.pong_state) b node) entered)))
        (sym e) (entered-Falls node (q || node.pong_state) b state off e named)
  move-Falls (to_ping {node = node} p b k {state} r on e pinger) off =
      falls (move_pinging expired last_id now node p b k state e) off (omega arith)
  move-Falls (pinged {node = node} p b k number r on e pinger) off =
      falls (move-waiting-Pinger expired last_id now node p b k pinger (ground (arith, off)) e) off
        (omega arith)
  move-Falls (between {node = node} p b k time wakes r on e l s) off =
      retrying-Falls node p b k off e l
  move-Falls (to_retry {node = node} p b k time wakes r on e l s) off =
      falls (move_pinging expired last_id now node p b k timeout e) off (omega arith)
  move-Falls (retried {node = node} p b k number time wakes r on e l s) off =
      falls (move-waiting-heard expired last_id now node p b k (ground (arith, off)) e) off
        (omega arith)
  move-Falls (said {node = node} q b time r on e) off =
      falls (move_reported expired last_id now node (q || node.pong_state) b e) refl (omega arith)

pub reported-Falls :
    (expired : Bool) (last_id : ℕ) (now : List ℕ) {start node : NodeBase} {sent : List MessageState}
    {position : Position}
    → Covered start sent node position
    → position ≡ reported
    → Falls 2 (move expired last_id now (worker node position))
reported-Falls expired last_id now (said {node = node} q b time r on e) at =
    falls (move_reported expired last_id now node (q || node.pong_state) b e) refl (omega arith)
reported-Falls expired last_id now (on_top r named) at = cc
reported-Falls expired last_id now (is_over r) at = cc
reported-Falls expired last_id now (handling q b state r on e named) at = cc
reported-Falls expired last_id now (to_ping p b k r on e pinger) at = cc
reported-Falls expired last_id now (pinged p b k number r on e pinger) at = cc
reported-Falls expired last_id now (between p b k time wakes r on e m s) at = cc
reported-Falls expired last_id now (to_retry p b k time wakes r on e m s) at = cc
reported-Falls expired last_id now (retried p b k number time wakes r on e m s) at = cc

pub act-stopped :
    (a : Act) (node : NodeBase)
    → node.running ≡ false
    → ((act a node).running ≡ false) × ((act a node).current_state ≡ node.current_state)
unfolding act stop
act-stopped pong node off = (off, refl)
act-stopped halt node off = ground (arith, off)

pub over :
    {start node : NodeBase} {sent : List MessageState} {position : Position}
    → Covered start sent node position
    → steps_left position node.current_state ≤ 0
    → position ≡ ended
over (on_top r named) l = absurd (omega arith)
over (is_over r) l = refl
over (handling q b init r on e named) l = absurd (ground (arith, e))
over (handling q b alive r on e named) l = absurd (ground (arith, e))
over (handling q b timeout r on e named) l = absurd (ground (arith, e))
over (handling q b dead r on e named) l = absurd (ground (arith, e))
over (handling q b StateList.max r on e named) l = absurd named
over (to_ping p b k r on e pinger) l = absurd (omega arith)
over (pinged p b k number r on e pinger) l = absurd (omega arith)
over (between p b k time wakes r on e m s) l = absurd (ground arith)
over (to_retry p b k time wakes r on e m s) l = absurd (omega arith)
over (retried p b k number time wakes r on e m s) l = absurd (omega arith)
over (said q b time r on e) l = absurd (omega arith)
