-- ===== src/Node/Moves/Hearing.antt =====
-- Which pongs a node of source/node_service/NodeBase.cpp hears in small steps: `setPongState(false)` at
-- the start of a handler and of a retry against the pongs that come at any time.
use mathlib.Core.Path.{subst}
use node_management.Common.{
  ℕ, ◌+◌, ◌≡◌, refl, ◌∙◌, Bool, true, false, not, ◌||◌, List, [], Option, none, some, arith,
  if◌then◌else◌, ltb, Bool-cases, inl, inr,
}
use node_management.Types.{StateList, init, alive, timeout, dead, MessageState}
use node_management.Node.{NodeBase, retry_num, change_state, stop}
use node_management.Node.Moves.{
  Position, at_top, entered, reported, ended, retrying, pinging, waiting, Worker, worker, Move,
  blocked, fault, moves, goes, pushes, move, move_top, move_entered, move_retrying, move_woken,
  move_expired, pong, halt, act, Runs, begins, own, other,
}
use node_management.Node.Moves.Steps.{in_state}

-- A wait is preceded by a step from one of these positions, with which its time begins.
abbrev pub opens_wait : Position → Bool
opens_wait at_top = false
opens_wait entered = true
opens_wait reported = false
opens_wait ended = false
opens_wait (retrying k) = true
opens_wait (pinging k) = false
opens_wait (waiting k) = false

-- Has a pong come since the thread last began a handler or a retry?
abbrev pub pong_since :
    {start : NodeBase} {sent : List MessageState} {w : Worker} → Runs start sent w → Bool
pong_since begins = false
pong_since (own {w = w} expired last_id now r e) =
    let before = pong_since r in if opens_wait w.position then false else before
pong_since (other pong r) = true
pong_since (other halt r) = pong_since r

-- From the ping to the end of the wait the flag of the node tells `heard`.
abbrev IsFresh : Bool → Worker → Type 0
IsFresh heard w = elim w.position [
  | pinging k ↦ w.node.pong_state ≡ heard
  | waiting k ↦ w.node.pong_state ≡ heard
  | _ ↦ Unit
]

abbrev Leaves : (Worker → Type 0) → Move → Type 0
Leaves P blocked = Unit
Leaves P fault = Unit
Leaves P (moves w more) = P w

module _ (heard : Bool) where
  top-Leaves : (o : Option NodeBase) → Leaves (IsFresh heard) (goes at_top o)
  top-Leaves none = tt
  top-Leaves (some node) = tt

  pushes-Leaves :
      (w : Worker) (o : Option MessageState) → IsFresh heard w → Leaves (IsFresh heard) (pushes w o)
  pushes-Leaves w none h = tt
  pushes-Leaves w (some message) h = h

  move_top-Leaves : (node : NodeBase) → Leaves (IsFresh heard) (move_top node)
  unfolding move_top
  move_top-Leaves node = by_running node.running node.current_state
    where
      by_running :
          (on : Bool) (c : Option StateList)
          → Leaves (IsFresh heard) (
              if not on then goes ended (some node) else elim c as (λ x. Move) [
                | none ↦ goes at_top (some node)
                | some state ↦ goes entered (some node)
              ])
      by_running false c = tt
      by_running true none = tt
      by_running true (some state) = tt

  move_woken-Leaves : (node : NodeBase) → Leaves (IsFresh heard) (move_woken node)
  unfolding move_woken
  move_woken-Leaves node = by_state node.current_state refl
    where
      by_state :
          (c : Option StateList) → node.current_state ≡ c → Leaves (IsFresh heard) (move_woken node)
      by_state none e = rw (e, move_woken) tt
      by_state (some init) e = rw (e, move_woken) (top-Leaves _)
      by_state (some alive) e = rw (e, move_woken) (top-Leaves _)
      by_state (some timeout) e = rw (e, move_woken) (top-Leaves _)
      by_state (some dead) e = rw (e, move_woken) tt
      by_state (some StateList.max) e = rw (e, move_woken) tt

  move_expired-Leaves : (k : ℕ) (node : NodeBase) → Leaves (IsFresh heard) (move_expired k node)
  unfolding move_expired
  move_expired-Leaves k node = by_state node.current_state refl
    where
      by_state :
          (c : Option StateList)
          → node.current_state ≡ c
          → Leaves (IsFresh heard) (move_expired k node)
      by_state none e = rw (e, move_expired) tt
      by_state (some init) e = rw (e, move_expired) (top-Leaves _)
      by_state (some alive) e = rw (e, move_expired) (top-Leaves _)
      by_state (some timeout) e = rw (e, move_expired) tt
      by_state (some dead) e = rw (e, move_expired) tt
      by_state (some StateList.max) e = rw (e, move_expired) tt

move_entered-Leaves :
    (now : List ℕ) (node : NodeBase) → Leaves (IsFresh false) (move_entered now node)
unfolding move_entered
move_entered-Leaves now node = by_state node.current_state refl
  where
    by_state :
        (c : Option StateList)
        → node.current_state ≡ c
        → Leaves (IsFresh false) (move_entered now node)
    by_state none e = rw (e, move_entered) tt
    by_state (some init) e = rw (e, move_entered) refl
    by_state (some alive) e = rw (e, move_entered) refl
    by_state (some timeout) e =
        rw (e, move_entered) (pushes-Leaves false (worker node (retrying 0)) _ tt)
    by_state (some dead) e = rw (e, move_entered) (pushes-Leaves false (worker node reported) _ tt)
    by_state (some StateList.max) e = rw (e, move_entered) tt

move_retrying-Leaves : (k : ℕ) (node : NodeBase) → Leaves (IsFresh false) (move_retrying k node)
unfolding move_retrying
move_retrying-Leaves k node = elim (Bool-cases (ltb k retry_num)) [
  | inl l ↦ rw (l, move_retrying) refl
  | inr l ↦ rw (l, move_retrying) (top-Leaves false _)
]

-- A step keeps the flag and what it tells, unless it opens a wait, which clears both.
move-Leaves :
    (expired : Bool) (last_id : ℕ) (now : List ℕ) (heard : Bool) (node : NodeBase)
    (position : Position)
    → IsFresh heard (worker node position)
    → Leaves
        (IsFresh (if opens_wait position then false else heard))
        (move expired last_id now (worker node position))
unfolding move
move-Leaves expired last_id now heard node at_top h = move_top-Leaves heard node
move-Leaves expired last_id now heard node entered h = move_entered-Leaves now node
move-Leaves expired last_id now heard node reported h = top-Leaves heard _
move-Leaves expired last_id now heard node ended h = tt
move-Leaves expired last_id now heard node (retrying k) h = move_retrying-Leaves k node
move-Leaves expired last_id now heard node (pinging k) h =
    pushes-Leaves heard (worker node (waiting k)) _ h
move-Leaves expired last_id now heard node (waiting k) h =
    by_tests (node.pong_state || not node.running) expired
  where
    by_tests :
        (woken over : Bool)
        → Leaves
            (IsFresh heard)
            (if woken then move_woken node else if over then move_expired k node else blocked)
    by_tests true over = move_woken-Leaves heard node
    by_tests false true = move_expired-Leaves heard k node
    by_tests false false = tt

halt-pong_state : (node : NodeBase) → (act halt node).pong_state ≡ node.pong_state
unfolding act stop
halt-pong_state node = ground arith

pong-IsFresh :
    (node : NodeBase) (position : Position) → IsFresh true (worker (act pong node) position)
unfolding act
pong-IsFresh node (pinging k) = refl
pong-IsFresh node (waiting k) = refl
pong-IsFresh node at_top = tt
pong-IsFresh node entered = tt
pong-IsFresh node reported = tt
pong-IsFresh node ended = tt
pong-IsFresh node (retrying k) = tt

halt-IsFresh :
    (heard : Bool) (node : NodeBase) (position : Position)
    → IsFresh heard (worker node position)
    → IsFresh heard (worker (act halt node) position)
halt-IsFresh heard node (pinging k) h = halt-pong_state node ∙ h
halt-IsFresh heard node (waiting k) h = halt-pong_state node ∙ h
halt-IsFresh heard node at_top h = tt
halt-IsFresh heard node entered h = tt
halt-IsFresh heard node reported h = tt
halt-IsFresh heard node ended h = tt
halt-IsFresh heard node (retrying k) h = tt

Runs-IsFresh :
    {start : NodeBase} {sent : List MessageState} {w : Worker} (r : Runs start sent w)
    → IsFresh (pong_since r) w
Runs-IsFresh begins = tt
Runs-IsFresh (own {w = w} expired last_id now r e) =
    subst (Leaves (IsFresh (if opens_wait w.position then false else pong_since r))) e
      (move-Leaves expired last_id now (pong_since r) w.node w.position (Runs-IsFresh r))
Runs-IsFresh (other {w = w} pong r) = pong-IsFresh w.node w.position
Runs-IsFresh (other {w = w} halt r) = halt-IsFresh (pong_since r) w.node w.position (Runs-IsFresh r)

-- The states that wait for a pong.
pub data Waits : StateList → Type 0 where
  first : Waits init
  again : Waits alive
  retry : Waits timeout

-- After a wait without a pong.
abbrev pub missed : {state : StateList} → Waits state → ℕ → NodeBase → Worker
missed first k node = worker (in_state timeout node) at_top
missed again k node = worker (in_state timeout node) at_top
missed retry k node = worker node (retrying (k + 1))

answered :
    (expired heard : Bool) (last_id : ℕ) (now : List ℕ) (k : ℕ) (node : NodeBase)
    {state : StateList} (waits : Waits state)
    → node.current_state ≡ some state
    → node.running ≡ true
    → node.pong_state ≡ heard
    → move expired last_id now (worker node (waiting k)) ≡ (
        if heard
        then moves (worker (in_state alive node) at_top) []
        else if expired
        then moves (missed waits k node) []
        else blocked)
unfolding move move_woken move_expired change_state
answered expired heard last_id now k node first e on h = ground (arith, e, on, h)
answered expired heard last_id now k node again e on h = ground (arith, e, on, h)
answered expired heard last_id now k node retry e on h = ground (arith, e, on, h)

-- Whatever other threads did before, the next step of a running node that waits makes it ALIVE exactly
-- if a pong has come since its thread last began a handler or a retry. If none has, the thread sleeps
-- on until the period has passed, and then INIT and ALIVE go to TIMEOUT, and TIMEOUT to the next retry.
pub waiting-hears :
    {start node : NodeBase} {sent : List MessageState} {k : ℕ} {state : StateList} (expired : Bool)
    (last_id : ℕ) (now : List ℕ) (waits : Waits state)
    (r : Runs start sent (worker node (waiting k)))
    → node.current_state ≡ some state
    → node.running ≡ true
    → move expired last_id now (worker node (waiting k)) ≡ (
        if pong_since r
        then moves (worker (in_state alive node) at_top) []
        else if expired
        then moves (missed waits k node) []
        else blocked)
waiting-hears {node = node} {k = k} expired last_id now waits r e on =
    answered expired (pong_since r) last_id now k node waits e on (Runs-IsFresh r)
