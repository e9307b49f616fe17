-- ===== src/Node/Silence.antt =====
-- The thread of a node of source/node_service/NodeBase.cpp without an answer, and with an answer to
-- every ping.
use node_management.Common.{
  ℕ, ◌<◌, ◌≡◌, refl, Bool, true, false, not, ◌&&◌, List, [], ◌∷◌, ◌++◌, some, arith,
}
use node_management.Types.{
  StateList, init, alive, timeout, dead, MessageState, message_state, TypeNode, SockaddrIn,
}
use node_management.Node.{
  NodeBase, Round, handle_state, thread_round, handle_thread, then_sent, retry_num,
}
use node_management.Node.States.{handle_init_lem, handle_alive_lem, handle_dead_lem, ping_of}
use node_management.Node.Retry.{IsSilent, pings, notice, handle_timeout_silent}

-- A round in which nobody stops the node or answers it.
pub record IsSilentRound (r : Round) : Type 0 where
  pub not_stopped : r.stopped ≡ false
  pub silent : (i : ℕ) → i < retry_num → IsSilent (r.wakes i)

round_lem :
    (r : Round) (node : NodeBase) (state : StateList) {after : NodeBase} {sent : List MessageState}
    → node.running ≡ true
    → r.stopped ≡ false
    → node.current_state ≡ some state
    → handle_state state r.now r.wakes node ≡ some (after, sent)
    → thread_round r node ≡ some (after, sent, false)
unfolding thread_round
round_lem r node state on going e h = ground (arith, same)
  where
    same : record node { running = node.running && not r.stopped } ≡ node
    same = ground arith

ended_lem :
    (r : Round) (node : NodeBase)
    → node.running ≡ false
    → thread_round r node ≡ some (node, [], true)
unfolding thread_round
ended_lem r node off = ground arith

next_round :
    (r : Round) (rounds : List Round) (node : NodeBase) {after : NodeBase}
    {sent : List MessageState}
    → thread_round r node ≡ some (after, sent, false)
    → handle_thread (r ∷ rounds) node ≡ then_sent sent (handle_thread rounds after)
unfolding handle_thread
next_round r rounds node h = rw (h, handle_thread)

last_round :
    (r : Round) (rounds : List Round) (node : NodeBase) {after : NodeBase}
    {sent : List MessageState}
    → thread_round r node ≡ some (after, sent, true)
    → handle_thread (r ∷ rounds) node ≡ some (after, sent, true)
unfolding handle_thread
last_round r rounds node h = rw (h, handle_thread)

module _ (node_type : TypeNode) (object_node_id : ℕ) (addr : SockaddrIn) where
  abbrev pub in_state : StateList → Bool → Bool → NodeBase
  in_state state running pong = record {
    node_type = node_type;
    object_node_id = object_node_id;
    current_state = some state;
    client_addr = addr;
    running = running;
    pong_state = pong;
  }

  init_silent :
      (r : Round) (p : Bool)
      → IsSilentRound r
      → thread_round r (in_state init true p)
        ≡ some (
          in_state timeout true false,
          ping_of (r.wakes 0).last_id init (in_state init true p) ∷ [],
          false,
        )
  unfolding handle_state
  init_silent r p s = round_lem r (in_state init true p) init refl s.not_stopped refl (
      ground
        (arith, handle_init_lem (r.wakes 0) (in_state init true p) refl, s.silent 0 (omega arith)))

  timeout_silent :
      (r : Round)
      → IsSilentRound r
      → thread_round r (in_state timeout true false)
        ≡ some (
          in_state dead true false,
          notice r.now (in_state timeout true false) ∷ pings r.wakes node_type addr 0 retry_num,
          false,
        )
  unfolding handle_state
  timeout_silent r s =
      round_lem r (in_state timeout true false) timeout refl s.not_stopped refl
        (handle_timeout_silent r.now r.wakes (in_state timeout true false) refl refl s.silent)

  -- The message of a dead node to the manager.
  abbrev pub obituary : List ℕ → MessageState
  obituary now = record (message_state object_node_id node_type dead 1 addr) { message = now }

  dead_round :
      (r : Round)
      → r.stopped ≡ false
      → thread_round r (in_state dead true false)
        ≡ some (in_state init false false, obituary r.now ∷ [], false)
  unfolding handle_state
  dead_round r s =
      round_lem r (in_state dead true false) dead refl s refl
        (handle_dead_lem r.now (in_state dead true false) refl)

  -- A started node that nobody answers or stops pings once, reports the timeout, pings five times,
  -- reports its death, and its thread ends, four rounds after it began.
  pub handle_thread_silent :
      (r s t u : Round)
      → IsSilentRound r
      → IsSilentRound s
      → t.stopped ≡ false
      → handle_thread (r ∷ s ∷ t ∷ u ∷ []) (in_state init true false)
        ≡ some (
          in_state init false false,
          ping_of (r.wakes 0).last_id init (in_state init true false)
              ∷ notice s.now (in_state timeout true false)
              ∷ (pings s.wakes node_type addr 0 retry_num ++ obituary t.now ∷ []),
          true,
        )
  handle_thread_silent r s t u hr hs ht =
      rw
        (
          next_round r (s ∷ t ∷ u ∷ []) (in_state init true false) (init_silent r false hr),
          next_round s (t ∷ u ∷ []) (in_state timeout true false) (timeout_silent s hs),
          next_round t (u ∷ []) (in_state dead true false) (dead_round t ht),
          last_round u [] (in_state init false false)
              (ended_lem u (in_state init false false) refl),
        )
        refl

-- A round in which the first ping is answered, and nobody stops the node.
abbrev pub IsAnsweredRound : Round → Type 0
IsAnsweredRound r = (r.stopped ≡ false) × ((r.wakes 0).pong ≡ true) × ((r.wakes 0).stopped ≡ false)

abbrev pub AllAnswered : List Round → Type 0
AllAnswered [] = Unit
AllAnswered (r ∷ rounds) = IsAnsweredRound r × AllAnswered rounds

-- One ping for each round.
abbrev pub alive_pings : List Round → NodeBase → List MessageState
alive_pings [] node = []
alive_pings (r ∷ rounds) node = ping_of (r.wakes 0).last_id alive node ∷ alive_pings rounds node

answered_state :
    (r : Round) (node : NodeBase)
    → node.running ≡ true
    → node.pong_state ≡ true
    → node.current_state ≡ some alive
    → IsAnsweredRound r
    → handle_state alive r.now r.wakes node
      ≡ some (node, ping_of (r.wakes 0).last_id alive node ∷ [])
unfolding handle_state
answered_state r node on p e a = ground (arith, handle_alive_lem (r.wakes 0) node e)

-- A running node that is ALIVE, has its flag set, and is answered and not stopped in every round is as
-- before after those rounds, and sends one ping in each and nothing else.
pub handle_thread_answered :
    (rounds : List Round) (node : NodeBase)
    → node.running ≡ true
    → node.pong_state ≡ true
    → node.current_state ≡ some alive
    → AllAnswered rounds
    → handle_thread rounds node ≡ some (node, alive_pings rounds node, false)
handle_thread_answered [] node on p e a = unfold handle_thread in refl
handle_thread_answered (r ∷ rounds) node on p e a =
    rw (next_round r rounds node stays, handle_thread_answered rounds node on p e a.1) refl
  where
    stays : thread_round r node ≡ some (node, ping_of (r.wakes 0).last_id alive node ∷ [], false)
    stays = round_lem r node alive on a.0.0 e (answered_state r node on p e a.0)
