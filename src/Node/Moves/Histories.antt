-- ===== src/Node/Moves/Histories.antt =====
-- Histories of small steps of `handleThread` of source/node_service/NodeBase.cpp against histories of
-- whole rounds, and what follows for the steps.
use mathlib.Core.Path.{subst}
use node_management.Common.{ℕ, ◌≢◌, Bool, true, false, ◌||◌, List, if◌then◌else◌}
use node_management.Types.{timeout, MessageState}
use node_management.Node.{NodeBase, stop}
use node_management.Node.Moves.{
  Position, at_top, ended, Worker, worker, fault, move, Act, pong, halt, act, Runs,
}
use node_management.Node.Moves.Steps.{since, move_pinging}
use node_management.Node.Moves.Rounds.{Rounds, other, retried_to}
use node_management.Node.Moves.Covered.{
  IsNamed, Covered, on_top, is_over, handling, to_ping, pinged, between, to_retry, retried, said,
  CoveredAfter, leads, leads_on,
}
use node_management.Node.Moves.Covering.{
  Stepped, top-Covered, entered-Covered, retrying-Covered, pinged-Covered, retried-Covered,
  reported-Covered,
}

module _ (start : NodeBase) where
  module _ (expired : Bool) (last_id : ℕ) (now : List ℕ) where
    pub move-Covered :
        {sent : List MessageState} {node : NodeBase} {position : Position}
        → Covered start sent node position
        → Stepped start expired last_id now sent node position
    unfolding move
    move-Covered (on_top r named) = top-Covered start expired last_id now _ _ r named
    move-Covered (is_over r) = tt
    move-Covered (handling q b state r on e named) =
        entered-Covered start expired last_id now _ _ q b state r on e named
    move-Covered (to_ping {node = node} p b k {state} r on e pinger) =
        leads start _ (move_pinging expired last_id now node p b k state e)
          (pinged p b k last_id r on e pinger)
    move-Covered (pinged p b k number r on e pinger) =
        pinged-Covered start expired last_id now _ _ p b k number r on e pinger
    move-Covered (between p b k time wakes r on e l s) =
        retrying-Covered start expired last_id now _ _ p b k time wakes r on e l s
    move-Covered (to_retry {node = node} p b k time wakes r on e l s) =
        leads_on start _ (retried_to time wakes k node)
          (move_pinging expired last_id now node p b k timeout e)
          (retried p b k last_id time wakes r on e l s)
    move-Covered (retried p b k number time wakes r on e l s) =
        retried-Covered start expired last_id now _ _ p b k number time wakes r on e l s
    move-Covered (said q b time r on e) =
        reported-Covered start expired last_id now _ _ q b time r on e

  -- What holds whichever flag is set and whether the node runs still holds when another acts.
  act-since :
      (sent : List MessageState) (position : Position) (node : NodeBase) (p b : Bool)
      → ((x y : Bool) → Covered start sent (since x y node) position)
      → (a : Act) → Covered start sent (act a (since p b node)) position
  unfolding act stop
  act-since sent position node p b h pong = h true b
  act-since sent position node p true h halt = h p false
  act-since sent position node p false h halt = h p false

  act-flagged :
      (sent : List MessageState) (position : Position) (node : NodeBase) (q b : Bool)
      → ((x y : Bool) → Covered start sent (since (x || node.pong_state) y node) position)
      → (a : Act) → Covered start sent (act a (since (q || node.pong_state) b node)) position
  unfolding act stop
  act-flagged sent position node q b h pong = h true b
  act-flagged sent position node q true h halt = h q false
  act-flagged sent position node q false h halt = h q false

  act-IsNamed :
      (a : Act) (node : NodeBase) → IsNamed node.current_state → IsNamed (act a node).current_state
  unfolding act stop
  act-IsNamed pong node h = h
  act-IsNamed halt node h =
      elim node.running
        as (λ b. IsNamed (if b then record node { running = false } else node).current_state) [
          | true ↦ h
          | false ↦ h
        ]

  pub act-Covered :
      (a : Act) {sent : List MessageState} {node : NodeBase} {position : Position}
      → Covered start sent node position
      → Covered start sent (act a node) position
  act-Covered a (on_top {node = node} r named) = on_top (other a r) (act-IsNamed a node named)
  act-Covered a (is_over r) = is_over (other a r)
  act-Covered a (handling {node = node} q b state r on e named) =
      act-flagged _ _ node q b (λ x y. handling x y state r on e named) a
  act-Covered a (to_ping {node = node} p b k r on e pinger) =
      act-since _ _ node p b (λ x y. to_ping x y k r on e pinger) a
  act-Covered a (pinged {node = node} p b k number r on e pinger) =
      act-since _ _ node p b (λ x y. pinged x y k number r on e pinger) a
  act-Covered a (between {node = node} p b k time wakes r on e l s) =
      act-since _ _ node p b (λ x y. between x y k time wakes r on e l s) a
  act-Covered a (to_retry {node = node} p b k time wakes r on e l s) =
      act-since _ _ node p b (λ x y. to_retry x y k time wakes r on e l s) a
  act-Covered a (retried {node = node} p b k number time wakes r on e l s) =
      act-since _ _ node p b (λ x y. retried x y k number time wakes r on e l s) a
  act-Covered a (said {node = node} q b time r on e) =
      act-flagged _ _ node q b (λ x y. said x y time r on e) a

pub Runs-Covered :
    {start : NodeBase} {sent : List MessageState} {w : Worker}
    → IsNamed start.current_state
    → Runs start sent w
    → Covered start sent w.node w.position
Runs-Covered named Runs.begins = on_top Rounds.begins named
Runs-Covered {start} named (Runs.own {sent} {w = w} expired last_id now r e) =
    subst (CoveredAfter start sent) e
      (move-Covered start expired last_id now (Runs-Covered named r))
Runs-Covered {start} named (Runs.other a r) = act-Covered start a (Runs-Covered named r)

-- What a history says at the head of the loop and at its end.
abbrev Outside : NodeBase → List MessageState → NodeBase → Position → Type 0
Outside start sent node position = elim position [
  | at_top ↦ Rounds start sent node false
  | ended ↦ Rounds start sent node true
  | _ ↦ Unit
]

Covered-Rounds :
    {start node : NodeBase} {sent : List MessageState} {position : Position}
    → Covered start sent node position
    → Outside start sent node position
Covered-Rounds (on_top r named) = r
Covered-Rounds (is_over r) = r
Covered-Rounds (handling q b state r on e named) = tt
Covered-Rounds (to_ping p b k r on e pinger) = tt
Covered-Rounds (pinged p b k number r on e pinger) = tt
Covered-Rounds (between p b k time wakes r on e l s) = tt
Covered-Rounds (to_retry p b k time wakes r on e l s) = tt
Covered-Rounds (retried p b k number time wakes r on e l s) = tt
Covered-Rounds (said q b time r on e) = tt

-- Where the thread stands between two rounds, or when it is over.
abbrev outside : Bool → Position
outside true = ended
outside false = at_top

-- At the head of its loop and at its end, a thread in small steps has pushed the messages and has the
-- node of some history of whole rounds, whose waits may be answered in any way.
Runs-Rounds :
    {start node : NodeBase} {sent : List MessageState} (over : Bool)
    → IsNamed start.current_state
    → Runs start sent (worker node (outside over))
    → Rounds start sent node over
Runs-Rounds false named r = Covered-Rounds (Runs-Covered named r)
Runs-Rounds true named r = Covered-Rounds (Runs-Covered named r)

-- If a history starts in one of the four states that have a handler, or without a state, no step of the
-- node's thread faults, wherever it stands and whatever the other threads have done.
pub move-ne-fault :
    {start : NodeBase} {sent : List MessageState} {w : Worker} (expired : Bool) (last_id : ℕ)
    (now : List ℕ)
    → IsNamed start.current_state
    → Runs start sent w
    → move expired last_id now w ≢ fault
move-ne-fault {start} expired last_id now named r e =
    subst (CoveredAfter start _) e (move-Covered start expired last_id now (Runs-Covered named r))
