-- ===== src/Node/Moves/Ending.antt =====
-- The end of a node's thread, for which the destructor of source/node_service waits, under any
-- schedule.
use node_management.Common.{
  ℕ, suc, ◌≤◌, ◌≡◌, Bool, false, List, [], ◌∷◌, ◌>>=◌, Option, none, some, arith,
}
use node_management.Types.{StateList, MessageState}
use node_management.Node.{NodeBase, stop}
use node_management.Node.Moves.{
  Position, reported, ended, Worker, worker, Move, blocked, fault, moves, move, Act, halt, act,
  Runs,
}
use node_management.Node.Moves.Covered.{IsNamed, Covered, CoveredAfter}
use node_management.Node.Moves.Histories.{move-Covered, act-Covered, Runs-Covered}
use node_management.Node.Moves.Stopping.{
  steps_left, Falls, move-Falls, reported-Falls, act-stopped, over,
}

-- A schedule: a step of the thread, with what it finds, or an act of another.
pub data Event : Type 0 where
  runs : Bool → ℕ → List ℕ → Event
  acts : Act → Event

-- The thread under a schedule; a step of a thread that sleeps or has ended leaves it as it is.
abbrev after_move : Worker → Move → Option Worker
after_move w blocked = some w
after_move w fault = none
after_move w (moves v more) = some v

unfoldable pub play : List Event → Worker → Option Worker
play [] w = some w
play (runs expired last_id now ∷ events) w =
    after_move w (move expired last_id now w) >>= play events
play (acts a ∷ events) w = play events (worker (act a w.node) w.position)

-- The number of steps of the thread in a schedule.
abbrev pub own_steps : List Event → ℕ
own_steps [] = 0
own_steps (runs expired last_id now ∷ events) = suc (own_steps events)
own_steps (acts a ∷ events) = own_steps events

abbrev pub Ends : Option Worker → Type 0
Ends none = ⊥
Ends (some w) = w.position ≡ ended

play-Ends :
    {start : NodeBase} {sent : List MessageState} (events : List Event) (w : Worker)
    → Covered start sent w.node w.position
    → w.node.running ≡ false
    → steps_left w.position w.node.current_state ≤ own_steps events
    → Ends (play events w)
unfolding play
play-Ends [] w c off l = over c l
play-Ends {start} {sent} (runs expired last_id now ∷ events) w c off l =
    elim (move expired last_id now w)
        as (λ m.
          CoveredAfter start sent m
          → Falls (steps_left w.position w.node.current_state) m
          → Ends (after_move w m >>= play events)) [
            | blocked ↦ λ a f. play-Ends events w c off (omega (arith, f))
            | fault ↦ λ a f. absurd f
            | moves v more ↦ λ a f. play-Ends events v a f.0 (omega (arith, f.1))
          ]
      (move-Covered start expired last_id now c) (move-Falls expired last_id now c off)
play-Ends {start} (acts a ∷ events) w c off l =
    let s = act-stopped a w.node off in
    play-Ends events (worker (act a w.node) w.position) (act-Covered start a c) s.0 (rw s.1 l)

steps_left-le : (position : Position) (state : Option StateList) → steps_left position state ≤ 5
steps_left-le position state = ground arith

-- Wherever its thread stands, a node that is stopped is on the way out: five steps of the thread later
-- it has ended, whether or not the period of a wait has passed and whatever other threads do
-- meanwhile; no step faults.
pub halt-Ends :
    {start : NodeBase} {sent : List MessageState} {w : Worker} (events : List Event)
    → IsNamed start.current_state
    → Runs start sent w
    → 5 ≤ own_steps events
    → Ends (play events (worker (act halt w.node) w.position))
unfolding act stop
halt-Ends {start} {w = w} events named r l =
    play-Ends events (worker (act halt w.node) w.position)
      (act-Covered start halt (Runs-Covered named r)) (act-halted w.node)
      (omega (arith, l, steps_left-le w.position (act halt w.node).current_state))
  where
    act-halted : (node : NodeBase) → (act halt node).running ≡ false
    act-halted node = ground arith

said-Ends :
    {start : NodeBase} {sent : List MessageState} (events : List Event) (w : Worker)
    → Covered start sent w.node w.position
    → w.position ≡ reported
    → 2 ≤ own_steps events
    → Ends (play events w)
unfolding play
said-Ends [] w c at l = absurd (omega arith)
said-Ends {start} {sent} (runs expired last_id now ∷ events) w c at l =
    elim (move expired last_id now w)
        as (λ m. CoveredAfter start sent m → Falls 2 m → Ends (after_move w m >>= play events)) [
          | blocked ↦ λ a f. absurd (omega (arith, f))
          | fault ↦ λ a f. absurd f
          | moves v more ↦ λ a f. play-Ends events v a f.0 (omega (arith, f.1))
        ]
      (move-Covered start expired last_id now c) (reported-Falls expired last_id now c at)
said-Ends {start} (acts a ∷ events) w c at l =
    said-Ends events (worker (act a w.node) w.position) (act-Covered start a c) at l

-- A thread that has pushed the message of its node's death ends two steps later, whatever other
-- threads do meanwhile, and no step faults.
pub reported-Ends :
    {start : NodeBase} {sent : List MessageState} {w : Worker} (events : List Event)
    → IsNamed start.current_state
    → Runs start sent w
    → w.position ≡ reported
    → 2 ≤ own_steps events
    → Ends (play events w)
reported-Ends {w = w} events named r at l = said-Ends events w (Runs-Covered named r) at l
