-- ===== src/Node/Turning.antt =====
-- What holds after a round of `handleThread` of source/node_service/NodeBase.cpp, from what holds after
-- each handler.
use node_management.Common.{
  ◌≡◌, refl, Bool, true, false, not, ◌&&◌, List, [], Option, none, some, arith, if◌then◌else◌,
}
use node_management.Types.{StateList, MessageState}
use node_management.Node.{NodeBase, Round, handle_state, thread_round}

module _ (P : NodeBase → List MessageState → Type 0) where
  abbrev pub AfterHandler : Option (NodeBase × List MessageState) → Type 0
  AfterHandler none = Unit
  AfterHandler (some (after, sent)) = P after sent

  abbrev pub AfterRound : Option (NodeBase × List MessageState × Bool) → Type 0
  AfterRound none = Unit
  AfterRound (some (after, sent, over)) = P after sent

  in_round :
      (result : Option (NodeBase × List MessageState))
      → AfterHandler result
      → AfterRound (elim result as (λ x. Option (NodeBase × List MessageState × Bool)) [
        | none ↦ none
        | some (after, sent) ↦ some (after, sent, false)
      ])
  in_round none h = tt
  in_round (some (after, sent)) h = h

  pub thread_round-AfterRound :
      (r : Round) (node : NodeBase)
      → P (record node { running = false }) []
      → (node.running ≡ true → P (record node { running = true }) [])
      → ((state : StateList)
          → node.running ≡ true
          → node.current_state ≡ some state
          → AfterHandler (handle_state state r.now r.wakes (record node { running = true })))
      → AfterRound (thread_round r node)
  unfolding thread_round
  thread_round-AfterRound r node stopped idle handled =
      go (node.running && not r.stopped) refl node.current_state refl
    where
      go :
          (b : Bool)
          → node.running && not r.stopped ≡ b
          → (state : Option StateList) → node.current_state ≡ state
          → AfterRound (
              if not b
              then some (record node { running = b }, [], true)
              else elim state as (λ x. Option (NodeBase × List MessageState × Bool)) [
                | none ↦ some (record node { running = b }, [], false)
                | some state ↦
                    elim (handle_state state r.now r.wakes (record node { running = b }))
                      as (λ x. Option (NodeBase × List MessageState × Bool)) [
                        | none ↦ none
                        | some (after, sent) ↦ some (after, sent, false)
                      ]
              ])
      go false e state c = stopped
      go true e none c = idle (ground (arith, e))
      go true e (some state) c =
          in_round (handle_state state r.now r.wakes (record node { running = true }))
            (handled state (ground (arith, e)) c)
