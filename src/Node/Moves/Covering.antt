-- ===== src/Node/Moves/Covering.antt =====
-- The small steps of `handleThread` of source/node_service/NodeBase.cpp against whole rounds: what
-- each step adds.
use mathlib.Core.Path.{subst}
use mathlib.Core.List.{append-nil}
use node_management.Common.{
  ℕ, ◌+◌, ◌<◌, ◌≤◌, ◌≡◌, refl, sym, inl, inr, Bool, true, false, not, ◌||◌, List, [], ◌∷◌, ◌++◌,
  some, arith, Bool-cases, Option-cases, ltb, if◌then◌else◌,
}
use node_management.Types.{StateList, init, alive, timeout, dead, MessageState}
use node_management.Node.{NodeBase, Wake, Round, thread_round, retry_num}
use node_management.Node.States.{ping_of}
use node_management.Node.Retry.{IsSilent, notice}
use node_management.Node.Moves.{
  Position, at_top, entered, reported, retrying, waiting, worker, move, pong, halt, act,
}
use node_management.Node.Moves.Steps.{
  since, in_state, farewell, Pinger, in_init, in_alive, verdict, move_top-over, move_top-idle,
  move_top-enters, move_entered-Pinger, move_entered-timeout, move_entered-dead, move_reported,
  move_retrying-ping, move_retrying-dead, move-waiting-blocked, move-waiting-Pinger,
  move-waiting-heard, move-waiting-silent,
}
use node_management.Node.Moves.Rounds.{
  Rounds, round, other, running_round, round-stopped, round-Pinger, round-silent, round-dead,
  update, retry_ping, retried_to, update-IsSilent_to, round-answered, pings-extend,
}
use node_management.Node.Moves.Covered.{
  IsNamed, Covered, on_top, is_over, handling, to_ping, between, to_retry, said, CoveredAfter,
  leads, leads_quietly,
}

verdict-IsNamed :
    {state : StateList} → Pinger state → (b p : Bool) → IsNamed (some (verdict state b p))
verdict-IsNamed pinger true true = tt
verdict-IsNamed pinger true false = tt
verdict-IsNamed in_init false p = tt
verdict-IsNamed in_alive false p = tt

either-IsNamed : (b : Bool) → IsNamed (some (if b then alive else timeout))
either-IsNamed true = tt
either-IsNamed false = tt

abbrev wait : ℕ → Bool → Bool → Wake
wait last_id p s = record { last_id = last_id; pong = p; stopped = s }

module _ (start : NodeBase) where
  quiet_round :
      {sent : List MessageState} {node after : NodeBase} {over : Bool} (r : Round)
      → Rounds start sent node false
      → thread_round r node ≡ some (after, [], over)
      → Rounds start sent after over
  quiet_round {sent} {after = after} {over} r h e =
      subst (λ s. Rounds start s after over) (append-nil sent) (round r h e)

  module _ (expired : Bool) (last_id : ℕ) (now : List ℕ) where
    abbrev pub Stepped : List MessageState → NodeBase → Position → Type 0
    Stepped sent node position =
        CoveredAfter start sent (move expired last_id now (worker node position))

    silent : ℕ → Wake
    silent i = record { last_id = last_id; pong = false; stopped = false }

    pub top-Covered :
        (sent : List MessageState) (node : NodeBase)
        → Rounds start sent node false
        → IsNamed node.current_state
        → Stepped sent node at_top
    top-Covered sent node r named = elim (Bool-cases node.running) [
      | inr off ↦
          leads_quietly start sent (move_top-over expired last_id now node off)
            (is_over (quiet_round (running_round now silent) r (round-stopped now node silent off)))
      | inl on ↦ elim (Option-cases node.current_state) [
        | inl e ↦
            leads_quietly start sent (move_top-idle expired last_id now node on e) (on_top r named)
        | inr (state, e) ↦
            leads_quietly start sent (move_top-enters expired last_id now node state on e)
              (handling false node.running state r on e (subst IsNamed e named))
      ]
    ]

    pub entered-Covered :
        (sent : List MessageState) (node : NodeBase) (q b : Bool) (state : StateList)
        → Rounds start sent node false
        → node.running ≡ true
        → node.current_state ≡ some state
        → IsNamed (some state)
        → Stepped sent (since (q || node.pong_state) b node) entered
    entered-Covered sent node q b init r on e named =
        leads_quietly start sent
          (move_entered-Pinger expired last_id now node (q || node.pong_state) b in_init e)
          (to_ping false b 0 r on e in_init)
    entered-Covered sent node q b alive r on e named =
        leads_quietly start sent
          (move_entered-Pinger expired last_id now node (q || node.pong_state) b in_alive e)
          (to_ping false b 0 r on e in_alive)
    entered-Covered sent node q b timeout r on e named =
        leads start sent (move_entered-timeout expired last_id now node (q || node.pong_state) b e)
          (between (q || node.pong_state) b 0 now silent r on e (omega arith)
            (λ i l. absurd (omega arith)))
    entered-Covered sent node q b dead r on e named =
        leads start sent (move_entered-dead expired last_id now node (q || node.pong_state) b e)
          (said q b now r on e)
    entered-Covered sent node q b StateList.max r on e named = absurd named

    -- What others do after the last wait, or after the round.
    acted :
        {sent : List MessageState} {over : Bool} (node : NodeBase) (p b : Bool)
        → Rounds start sent (since false true node) over
        → Rounds start sent (since p b node) over
    unfolding act
    acted node true true r = other pong r
    acted node true false r = other halt (other pong r)
    acted node false true r = r
    acted node false false r = other halt r

    pub retrying-Covered :
        (sent : List MessageState) (node : NodeBase) (p b : Bool) (k : ℕ) (time : List ℕ)
        (wakes : ℕ → Wake)
        → Rounds start sent node false
        → node.running ≡ true
        → node.current_state ≡ some timeout
        → k ≤ retry_num
        → ((i : ℕ) → i < k → IsSilent (wakes i))
        → Stepped (sent ++ retried_to time wakes k node) (since p b node) (retrying k)
    retrying-Covered sent node p b k time wakes r on e l s =
        elim (ltb k retry_num)
            as (λ c.
              (ltb k retry_num ≡ c)
              → Stepped (sent ++ retried_to time wakes k node) (since p b node) (retrying k)) [
                | true ↦ λ c.
                    leads_quietly start _
                      (move_retrying-ping expired last_id now node p b k (ground (arith, c)))
                      (to_retry false b k time wakes r on e (ground (arith, c)) s)
                | false ↦ λ c.
                    let last : k ≡ retry_num = ground (arith, c) in
                    leads_quietly start _
                      (move_retrying-dead expired last_id now node p b k (omega arith) e)
                      (on_top
                        (acted (in_state dead node) p b (
                          subst
                            (λ i.
                              Rounds start (sent ++ retried_to time wakes i node)
                                (in_state dead (since false true node)) false)
                            (sym last)
                            (round (running_round time wakes) r
                              (round-silent time node wakes on e (λ i l. s i (omega arith))))))
                        tt)
              ]
          refl

    pub pinged-Covered :
        (sent : List MessageState) (node : NodeBase) (p b : Bool) (k number : ℕ) {state : StateList}
        → Rounds start sent node false
        → node.running ≡ true
        → node.current_state ≡ some state
        → Pinger state
        → Stepped (sent ++ ping_of number state node ∷ []) (since p b node) (waiting k)
    pinged-Covered sent node p b k number {state} r on e pinger =
        elim (Bool-cases (p || not b || expired)) [
          | inr stays ↦
              subst (CoveredAfter start (sent ++ ping_of number state node ∷ []))
                (sym (move-waiting-blocked expired last_id now node p b k stays)) tt
          | inl over ↦
              leads_quietly start _
                (move-waiting-Pinger expired last_id now node p b k pinger over e)
                (on_top (in_round b) (verdict-IsNamed pinger b p))
        ]
      where
        in_round :
            (c : Bool)
            → Rounds start
                (sent ++ ping_of number state node ∷ [])
                (in_state (verdict state c p) (since p c node))
                false
        in_round true =
            round (running_round now (λ i. wait number p false)) r
              (round-Pinger now node (wait number p false) pinger on e)
        in_round false =
            round (running_round now (λ i. wait number p true)) r
              (round-Pinger now node (wait number p true) pinger on e)

    pub retried-Covered :
        (sent : List MessageState) (node : NodeBase) (p b : Bool) (k number : ℕ) (time : List ℕ)
        (wakes : ℕ → Wake)
        → Rounds start sent node false
        → node.running ≡ true
        → node.current_state ≡ some timeout
        → k < retry_num
        → ((i : ℕ) → i < k → IsSilent (wakes i))
        → Stepped
            (sent ++ (retried_to time wakes k node ++ retry_ping number node ∷ []))
            (since p b node)
            (waiting k)
    retried-Covered sent node p b k number time wakes r on e l s = elim (Bool-cases (p || not b)) [
      | inl heard ↦
          leads_quietly start _ (move-waiting-heard expired last_id now node p b k heard e)
            (on_top (in_round b heard) (either-IsNamed b))
      | inr silence ↦ elim (Bool-cases expired) [
        | inl x ↦
            leads_quietly start _ (move-waiting-silent expired last_id now node p b k x silence e) (
              subst
                (λ own.
                  Covered start (sent ++ notice time node ∷ own) (since p b node)
                    (retrying (k + 1)))
                (pings-extend wakes node (wait number false false) k (k + 1) (omega arith))
                (between p b (k + 1) time (update wakes k (wait number false false)) r on e
                  (omega arith) (update-IsSilent_to wakes k (wait number false false) refl refl s)))
        | inr stays ↦
            subst
              (CoveredAfter start
                (sent ++ (retried_to time wakes k node ++ retry_ping number node ∷ [])))
              (sym (
                move-waiting-blocked expired last_id now node p b k
                  (ground (arith, stays, silence))))
              tt
      ]
    ]
      where
        in_round :
            (c : Bool)
            → p || not c ≡ true
            → Rounds start
                (sent ++ (retried_to time wakes k node ++ retry_ping number node ∷ []))
                (in_state (if c then alive else timeout) (since p c node))
                false
        in_round true h =
            round (running_round time (update wakes k (wait number p false))) r
              (round-answered wakes k (wait number p false) time node on e l s h)
        in_round false h =
            round (running_round time (update wakes k (wait number p true))) r
              (round-answered wakes k (wait number p true) time node on e l s h)

    pub reported-Covered :
        (sent : List MessageState) (node : NodeBase) (q b : Bool) (time : List ℕ)
        → Rounds start sent node false
        → node.running ≡ true
        → node.current_state ≡ some dead
        → Stepped (sent ++ farewell time node ∷ []) (since (q || node.pong_state) b node) reported
    unfolding act
    reported-Covered sent node q b time r on e =
        leads_quietly start _ (move_reported expired last_id now node (q || node.pong_state) b e) (
          on_top
            (flagged q (round (running_round time silent) r (round-dead time node silent on e))) tt)
      where
        flagged :
            (x : Bool)
            → Rounds start
                (sent ++ farewell time node ∷ [])
                (in_state init (record node { running = false }))
                false
            → Rounds start
                (sent ++ farewell time node ∷ [])
                (in_state init (since (x || node.pong_state) false node))
                false
        flagged true r = other pong r
        flagged false r = r
