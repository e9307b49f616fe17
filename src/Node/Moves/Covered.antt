-- ===== src/Node/Moves/Covered.antt =====
-- The small steps of `handleThread` of source/node_service/NodeBase.cpp against whole rounds: how the
-- steps of a round so far add up, position by position.
use mathlib.Core.Path.{subst}
use mathlib.Core.List.{append-nil, append_assoc}
use node_management.Common.{
  ℕ, ◌<◌, ◌≤◌, ◌≡◌, sym, Bool, true, false, ◌||◌, List, [], ◌∷◌, ◌++◌, Option, none, some,
}
use node_management.Types.{StateList, init, alive, timeout, dead, MessageState}
use node_management.Node.{NodeBase, Wake, retry_num}
use node_management.Node.States.{ping_of}
use node_management.Node.Retry.{IsSilent}
use node_management.Node.Moves.{
  Position, at_top, entered, reported, ended, retrying, pinging, waiting, Worker, Move, blocked,
  fault, moves,
}
use node_management.Node.Moves.Steps.{since, farewell, Pinger}
use node_management.Node.Moves.Rounds.{Rounds, retry_ping, retried_to}

-- No node is in a state that has no handler.
abbrev pub IsNamed : Option StateList → Type 0
IsNamed none = Unit
IsNamed (some init) = Unit
IsNamed (some alive) = Unit
IsNamed (some timeout) = Unit
IsNamed (some dead) = Unit
IsNamed (some StateList.max) = ⊥

-- A history up to a point inside of a round: whole rounds up to the start of the round at `node`, and
-- what the round has done since.
pub data Covered (start : NodeBase) : List MessageState → NodeBase → Position → Type 0 where
  on_top :
      {sent : List MessageState} {node : NodeBase}
      → Rounds start sent node false
      → IsNamed node.current_state
      → Covered start sent node at_top
  is_over :
      {sent : List MessageState} {node : NodeBase}
      → Rounds start sent node true
      → Covered start sent node ended
  handling :
      {sent : List MessageState} {node : NodeBase} (q b : Bool) (state : StateList)
      → Rounds start sent node false
      → node.running ≡ true
      → node.current_state ≡ some state
      → IsNamed (some state)
      → Covered start sent (since (q || node.pong_state) b node) entered
  to_ping :
      {sent : List MessageState} {node : NodeBase} (p b : Bool) (k : ℕ) {state : StateList}
      → Rounds start sent node false
      → node.running ≡ true
      → node.current_state ≡ some state
      → Pinger state
      → Covered start sent (since p b node) (pinging k)
  pinged :
      {sent : List MessageState} {node : NodeBase} (p b : Bool) (k last_id : ℕ) {state : StateList}
      → Rounds start sent node false
      → node.running ≡ true
      → node.current_state ≡ some state
      → Pinger state
      → Covered start (sent ++ ping_of last_id state node ∷ []) (since p b node) (waiting k)
  between :
      {sent : List MessageState} {node : NodeBase} (p b : Bool) (k : ℕ) (now : List ℕ)
      (wakes : ℕ → Wake)
      → Rounds start sent node false
      → node.running ≡ true
      → node.current_state ≡ some timeout
      → k ≤ retry_num
      → ((i : ℕ) → i < k → IsSilent (wakes i))
      → Covered start (sent ++ retried_to now wakes k node) (since p b node) (retrying k)
  to_retry :
      {sent : List MessageState} {node : NodeBase} (p b : Bool) (k : ℕ) (now : List ℕ)
      (wakes : ℕ → Wake)
      → Rounds start sent node false
      → node.running ≡ true
      → node.current_state ≡ some timeout
      → k < retry_num
      → ((i : ℕ) → i < k → IsSilent (wakes i))
      → Covered start (sent ++ retried_to now wakes k node) (since p b node) (pinging k)
  retried :
      {sent : List MessageState} {node : NodeBase} (p b : Bool) (k last_id : ℕ) (now : List ℕ)
      (wakes : ℕ → Wake)
      → Rounds start sent node false
      → node.running ≡ true
      → node.current_state ≡ some timeout
      → k < retry_num
      → ((i : ℕ) → i < k → IsSilent (wakes i))
      → Covered start
          (sent ++ (retried_to now wakes k node ++ retry_ping last_id node ∷ []))
          (since p b node)
          (waiting k)
  said :
      {sent : List MessageState} {node : NodeBase} (q b : Bool) (now : List ℕ)
      → Rounds start sent node false
      → node.running ≡ true
      → node.current_state ≡ some dead
      → Covered start
          (sent ++ farewell now node ∷ [])
          (since (q || node.pong_state) b node)
          reported

-- What a step leads to, if it leads anywhere; a fault is excluded.
abbrev pub AfterMove : (Worker → List MessageState → Type 0) → Move → Type 0
AfterMove P blocked = Unit
AfterMove P fault = ⊥
AfterMove P (moves w more) = P w more

module _ (start : NodeBase) where
  abbrev pub CoveredAfter : List MessageState → Move → Type 0
  CoveredAfter sent = AfterMove (λ w more. Covered start (sent ++ more) w.node w.position)

  pub leads :
      (sent : List MessageState) {more : List MessageState} {m : Move} {w : Worker}
      → m ≡ moves w more
      → Covered start (sent ++ more) w.node w.position
      → CoveredAfter sent m
  leads sent e c = subst (CoveredAfter sent) (sym e) c

  pub leads_quietly :
      (sent : List MessageState) {m : Move} {w : Worker}
      → m ≡ moves w []
      → Covered start sent w.node w.position
      → CoveredAfter sent m
  leads_quietly sent {w = w} e c =
      leads sent e (subst (λ s. Covered start s w.node w.position) (sym (append-nil sent)) c)

  -- A message more inside of a round.
  pub leads_on :
      (before own : List MessageState) {more : List MessageState} {m : Move} {w : Worker}
      → m ≡ moves w more
      → Covered start (before ++ (own ++ more)) w.node w.position
      → CoveredAfter (before ++ own) m
  leads_on before own {more} {w = w} e c =
      leads (before ++ own) e
        (subst (λ s. Covered start s w.node w.position) (sym (append_assoc before own more)) c)
