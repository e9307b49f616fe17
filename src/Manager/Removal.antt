-- ===== src/Manager/Removal.antt =====
-- From the silence of a node to its removal: the messages of its thread, handled in their order.
use node_management.Common.{
  ℕ, suc, zero, ◌+◌, ◌≡◌, refl, ap, ◌∙◌, true, false, List, [], ◌∷◌, ◌++◌, some, All,
}
use node_management.Types.{TypeNode, StateList, SockaddrIn, MessageState}
use node_management.Node.{Wake, Round, retry_num, handle_thread}
use node_management.Node.States.{ping_of}
use node_management.Node.Retry.{pings, notice}
use node_management.Node.Silence.{IsSilentRound, in_state, obituary, handle_thread_silent}
use node_management.Manager.{Manager, dispatch_message, check_ping_message, check_notify_message}
use node_management.Manager.Registry.{IsRegistry}
use node_management.Manager.Invariant.{dispatch_message-IsRegistry}
use node_management.Manager.Refinement.{find, view, clear, view-check_notify_message}

-- `handleSendData` over these messages, in this order.
abbrev pub dispatch_all : List MessageState → Manager → Manager
dispatch_all [] m = m
dispatch_all (s ∷ messages) m = dispatch_all messages (dispatch_message s m)

-- A message that leaves the vector of nodes alone: a ping, or a timeout.
abbrev IsHarmless : MessageState → Type 0
IsHarmless s = (m : Manager) → (dispatch_message s m).vec_node_base ≡ m.vec_node_base

ping_of-IsHarmless : (s : MessageState) → s.message_type ≡ 0 → IsHarmless s
unfolding dispatch_message check_ping_message
ping_of-IsHarmless s e m = rw (e, dispatch_message) refl

notice-IsHarmless :
    (s : MessageState) → s.message_type ≡ 1 → s.state ≡ StateList.timeout → IsHarmless s
unfolding dispatch_message check_notify_message
notice-IsHarmless s e t m = rw (e, t, dispatch_message) refl

obituary_lem :
    (s : MessageState) (m : Manager)
    → s.message_type ≡ 1
    → dispatch_message s m ≡ check_notify_message s m
unfolding dispatch_message
obituary_lem s m e = rw (e, dispatch_message) refl

-- Harmless messages in front change nothing for the last.
before_last :
    (messages : List MessageState) (last : MessageState) (m : Manager) (port : ℕ)
    → All IsHarmless messages
    → IsRegistry m
    → last.message_type ≡ 1
    → last.state ≡ StateList.dead
    → view (dispatch_all (messages ++ last ∷ []) m) port
      ≡ clear last.client_addr.sin_port (view m) port
before_last [] last m port h v e d =
    ap (λ n. view n port) (obituary_lem last m e) ∙ view-check_notify_message last m port v d
before_last (s ∷ messages) last m port h v e d =
    before_last messages last (dispatch_message s m) port h.1 (dispatch_message-IsRegistry s m v) e
      d
    ∙ ap (λ nodes. clear last.client_addr.sin_port (find nodes) port) (h.0 m)

pings-IsHarmless :
    (wakes : ℕ → Wake) (node_type : TypeNode) (addr : SockaddrIn) (first count : ℕ)
    → All IsHarmless (pings wakes node_type addr first count)
pings-IsHarmless wakes node_type addr first zero = tt
pings-IsHarmless wakes node_type addr first (suc count) =
    (ping_of-IsHarmless _ refl, pings-IsHarmless wakes node_type addr (first + 1) count)

-- If nobody answers or stops a started node, the messages of its thread, which ends, handled one
-- after the other by a manager whose nodes satisfy the invariant, clear the port of the node in the
-- manager and no other port.
pub silent_node_removed :
    (node_type : TypeNode) (object_node_id : ℕ) (addr : SockaddrIn) (r s t u : Round)
    → IsSilentRound r
    → IsSilentRound s
    → t.stopped ≡ false
    → (sent : List MessageState) × (handle_thread
          (r ∷ s ∷ t ∷ u ∷ [])
          (in_state node_type object_node_id addr StateList.init true false)
        ≡ some (in_state node_type object_node_id addr StateList.init false false, sent, true))
      × ((m : Manager) (port : ℕ)
          → IsRegistry m
          → view (dispatch_all sent m) port ≡ clear addr.sin_port (view m) port)
silent_node_removed node_type object_node_id addr r s t u hr hs ht = (
  before ++ obituary node_type object_node_id addr t.now ∷ [],
  handle_thread_silent node_type object_node_id addr r s t u hr hs ht,
  λ m port v.
      before_last before (obituary node_type object_node_id addr t.now) m port harmless v refl refl,
)
  where
    first_ping : MessageState
    first_ping =
        ping_of (r.wakes 0).last_id StateList.init
          (in_state node_type object_node_id addr StateList.init true false)

    the_notice : MessageState
    the_notice = notice s.now (in_state node_type object_node_id addr StateList.timeout true false)

    before : List MessageState
    before = first_ping ∷ the_notice ∷ pings s.wakes node_type addr 0 retry_num

    harmless : All IsHarmless before
    harmless = (
      ping_of-IsHarmless first_ping refl,
      (notice-IsHarmless the_notice refl refl, pings-IsHarmless s.wakes node_type addr 0 retry_num),
    )
