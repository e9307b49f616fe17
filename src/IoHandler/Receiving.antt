-- ===== src/IoHandler/Receiving.antt =====
-- From a whole receive buffer to a packet in the queue of the manager.
use mathlib.Core.Path.{subst}
use node_management.Common.{
  ℕ, zero, suc, ◌-◌, ◌≡◌, refl, ◌∙◌, inl, inr, Bool, true, false, not, if◌then◌else◌, List, [], ◌∷◌,
  none, some, arith, length, take, All,
}
use node_management.Types.{TypeMessage, SockaddrIn, to_type_message, to_type_node}
use node_management.Wire.Octets.{IsBytes, get_bits_octet}
use node_management.Packet.{
  AnyPacket, rigister_packet, pong_packet, c_string, new_packet, new_rigister_packet,
}
use node_management.Packet.Decoding.{decode_rigister_lem, decode_pong_lem}
use node_management.SafeQueue.{SafeQueue, push}
use node_management.SafeQueue.Delivery.{wait_and_pop_cases}
use node_management.SafeQueue.Contents.{push-All, push-running}
use node_management.Udp.{DataReceivedUdp}
use node_management.Udp.Buffers.{IsFilled}
use node_management.Manager.{Turn, sleeps, ends, fault, goes_on}
use node_management.Manager.Casts.{IsTagged}
use node_management.IoHandler.{
  IoHandler, rx_received, handle_rx_thread, check_message_type, parse, push_all,
  push_message_received, receive,
}

-- The packet that stands for a buffer.
abbrev pub parsed : ℕ → ℕ → ℕ → List ℕ → SockaddrIn → List AnyPacket
parsed zero n k rest addr =
    rigister_packet (record {
      packet = record {
        type_message = TypeMessage.register;
        payload_lengh = n;
        mes = c_string (take (n - 3) rest);
        client_addr = addr;
      };
      type_node = to_type_node k;
    })
    ∷ []
parsed (suc zero) n k rest addr = []
parsed (suc (suc zero)) n k rest addr =
    pong_packet (record {
      type_message = TypeMessage.pong;
      payload_lengh = n;
      mes = take (n - 2) (k ∷ rest);
      client_addr = addr;
    })
    ∷ []
parsed (suc (suc (suc t))) n k rest addr = []

module _ (n k : ℕ) (rest : List ℕ) (addr : SockaddrIn) (filled : length rest ≡ 253) where
  check_message_type_lem :
      (t : ℕ)
      → IsBytes (t ∷ n ∷ k ∷ rest)
      → check_message_type (t ∷ n ∷ k ∷ rest) ≡ some (to_type_message t)
  unfolding check_message_type
  check_message_type_lem t bytes = rw (get_bits_octet [] (n ∷ k ∷ rest) 0 refl t bytes.0) refl

  parse_lem :
      (t : ℕ)
      → IsBytes (t ∷ n ∷ k ∷ rest)
      → parse (to_type_message t) (t ∷ n ∷ k ∷ rest) addr ≡ some (parsed t n k rest addr)
  unfolding parse
  parse_lem zero bytes =
      rw (decode_rigister_lem zero n k rest bytes filled new_rigister_packet) refl
  parse_lem (suc zero) bytes = refl
  parse_lem (suc (suc zero)) bytes =
      rw (decode_pong_lem 2 n (k ∷ rest) bytes (omega arith) new_packet) refl
  parse_lem (suc (suc (suc zero))) bytes = refl
  parse_lem (suc (suc (suc (suc zero)))) bytes = refl
  parse_lem (suc (suc (suc (suc (suc t))))) bytes = refl

  -- From a buffer of 256 bytes `t`, `n`, `k`, … the receiving thread of the handler makes a REGISTER
  -- packet if `t` is 0, a PONG packet if it is 2, and no packet otherwise; it never faults.
  pub receive_lem :
      (t : ℕ) (q : SafeQueue AnyPacket)
      → IsBytes (t ∷ n ∷ k ∷ rest)
      → receive (record { buffer = t ∷ n ∷ k ∷ rest; client_addr = addr }) q
        ≡ some (push_all q (parsed t n k rest addr))
  unfolding receive push_message_received
  receive_lem t q bytes = rw (check_message_type_lem t bytes, parse_lem t bytes) refl

parsed-IsTagged :
    (t n k : ℕ) (rest : List ℕ) (addr : SockaddrIn) → All IsTagged (parsed t n k rest addr)
parsed-IsTagged zero n k rest addr = ((λ e f. cc), tt)
parsed-IsTagged (suc zero) n k rest addr = tt
parsed-IsTagged (suc (suc zero)) n k rest addr = ((λ e f. cc), tt)
parsed-IsTagged (suc (suc (suc t))) n k rest addr = tt

-- A queue of packets that are safe to cast, which runs or not.
abbrev pub IsReady : Bool → SafeQueue AnyPacket → Type 0
IsReady run q = All IsTagged q.queue × (q.running ≡ run)

push_all-IsReady :
    (run : Bool) (q : SafeQueue AnyPacket) (ps : List AnyPacket)
    → IsReady run q
    → All IsTagged ps
    → IsReady run (push_all q ps)
push_all-IsReady run q [] h g = h
push_all-IsReady run q (p ∷ ps) h g =
    push_all-IsReady run (push q p true) ps
      (push-All IsTagged q p true h.0 g.0, push-running q p true ∙ h.1) g.1

receive-IsReady :
    (run : Bool) (d : DataReceivedUdp) (q : SafeQueue AnyPacket)
    → IsFilled d
    → IsReady run q
    → (after : SafeQueue AnyPacket) × (receive d q ≡ some after) × IsReady run after
receive-IsReady run d q f h = by_buffer d.buffer f.whole f.bytes
  where
    by_buffer :
        (b : List ℕ)
        → length b ≡ 256
        → IsBytes b
        → (after : SafeQueue AnyPacket) × (receive
              (record { buffer = b; client_addr = d.client_addr })
              q
            ≡ some after)
          × IsReady run after
    by_buffer [] e bytes = absurd (omega arith)
    by_buffer (t ∷ []) e bytes = absurd (omega arith)
    by_buffer (t ∷ n ∷ []) e bytes = absurd (omega arith)
    by_buffer (t ∷ n ∷ k ∷ rest) e bytes = (
      push_all q (parsed t n k rest d.client_addr),
      receive_lem n k rest d.client_addr (omega arith) t q bytes,
      push_all-IsReady run q (parsed t n k rest d.client_addr) h
          (parsed-IsTagged t n k rest d.client_addr),
    )

-- What holds after a turn that does not fault.
abbrev pub IsSafe : Bool → Turn (DataReceivedUdp × IoHandler × SafeQueue AnyPacket) → Type 0
IsSafe run sleeps = Unit
IsSafe run ends = Unit
IsSafe run fault = ⊥
IsSafe run (goes_on (d, io, q)) = IsFilled d × All IsFilled io.buffer_udp_recv.queue × IsReady run q

rx_received-IsSafe :
    (run : Bool) (d : DataReceivedUdp) (io : IoHandler) (q : SafeQueue AnyPacket)
    → IsFilled d
    → All IsFilled io.buffer_udp_recv.queue
    → IsReady run q
    → IsSafe run (rx_received d io q)
unfolding rx_received
rx_received-IsSafe run d io q f b h = by_running io.running (receive-IsReady run d q f h)
  where
    by_running :
        (on : Bool)
        → (after : SafeQueue AnyPacket) × (receive d q ≡ some after) × IsReady run after
        → IsSafe run (
            if not on
            then ends
            else elim (receive d q)
                as (λ r. Turn (DataReceivedUdp × IoHandler × SafeQueue AnyPacket)) [
                  | none ↦ fault
                  | some q' ↦ goes_on (d, io, q')
                ])
    by_running false r = tt
    by_running true (after, e, t) = rw e (f, b, t)

-- If the local buffer and those in the queue are whole buffers of 256 bytes, and every packet of the
-- manager's queue that says REGISTER is a `RigisterPacket`, then a turn of the receiving thread does
-- not fault, and both hold again when the thread goes on; the manager's queue still runs or is still
-- stopped.
pub handle_rx_thread-IsSafe :
    (run : Bool) (d : DataReceivedUdp) (io : IoHandler) (q : SafeQueue AnyPacket)
    → IsFilled d
    → All IsFilled io.buffer_udp_recv.queue
    → IsReady run q
    → IsSafe run (handle_rx_thread d io q)
unfolding handle_rx_thread
handle_rx_thread-IsSafe run d io q f b h = elim (wait_and_pop_cases io.buffer_udp_recv) [
  | inl (off, e) ↦ rw (e, handle_rx_thread) (rx_received-IsSafe run d io q f b h)
  | inr (inl (on, empty, e)) ↦ rw (e, handle_rx_thread) tt
  | inr (inr (next, rest, on, full, e)) ↦
      let both = subst (All IsFilled) full b in
      rw (e, handle_rx_thread)
        (rx_received-IsSafe run next
          (record io { buffer_udp_recv = record { queue = rest; running = true } }) q both.0 both.1
          h)
]
