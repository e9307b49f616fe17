-- ===== src/Udp/Buffers.antt =====
-- What `UDPReceived` puts into `g_bufferUDPRecv`.
use node_management.Common.{
  ℕ, ◌-◌, ◌≤◌, ◌<◌, ◌≡◌, refl, ap, true, List, [], ◌∷◌, ◌++◌, Option, some, none, arith, All,
  length, replicate, length-append, length-replicate, replicate-append, set-append,
}
use node_management.Types.{SockaddrIn}
use node_management.Wire.Octets.{IsBytes, zeros-IsBytes, append-IsBytes}
use node_management.SafeQueue.{SafeQueue, push}
use node_management.SafeQueue.Contents.{push-All}
use node_management.Udp.{
  DataReceivedUdp, data_received_udp, buffer_size, Received, datagram, conn_reset, other_error,
  recv_data_udp, wait_for, rx_round, pushed_result, filled_buffer, Code, success_code, error_code,
}

-- A whole receive buffer: 256 bytes.
pub record IsFilled (data_udp : DataReceivedUdp) : Type 0 where
  pub whole : length data_udp.buffer ≡ buffer_size
  pub bytes : IsBytes data_udp.buffer

-- `recvfrom` returns at most the number of bytes that it was asked for.
abbrev pub IsReceived : Received → Type 0
IsReceived (datagram bytes addr) = (length bytes ≤ 255) × IsBytes bytes
IsReceived (conn_reset addr) = Unit
IsReceived (other_error addr) = Unit

filled_buffer_lem :
    (bytes : List ℕ)
    → length bytes ≤ 255
    → filled_buffer bytes ≡ bytes ++ replicate (buffer_size - length bytes) 0
filled_buffer_lem bytes h = rw room (set-append bytes (replicate (255 - length bytes) 0) 0 0)
  where
    room : replicate {A = ℕ} (256 - length bytes) 0 ≡ 0 ∷ replicate (255 - length bytes) 0
    room = replicate-append 1 (255 - length bytes) (256 - length bytes) 0 (omega arith)

filled_buffer-IsFilled :
    (bytes : List ℕ) (addr : SockaddrIn)
    → length bytes ≤ 255
    → IsBytes bytes
    → IsFilled (record { buffer = filled_buffer bytes; client_addr = addr })
filled_buffer-IsFilled bytes addr h b = record {
  whole = rw (filled_buffer_lem bytes h, length-append, length-replicate) (omega arith);
  bytes = rw (filled_buffer_lem bytes h) (
      append-IsBytes bytes (replicate (256 - length bytes) 0) b
        (zeros-IsBytes (256 - length bytes)));
}

recv_data_udp-IsFilled :
    (r : Received) (d : DataReceivedUdp)
    → IsReceived r
    → IsFilled d
    → IsFilled (recv_data_udp r d).0
unfolding recv_data_udp
recv_data_udp-IsFilled (datagram [] addr) d h f = record { whole = f.whole; bytes = f.bytes }
recv_data_udp-IsFilled (datagram (c ∷ cs) addr) d h f = filled_buffer-IsFilled (c ∷ cs) addr h.0 h.1
recv_data_udp-IsFilled (conn_reset addr) d h f = record { whole = f.whole; bytes = f.bytes }
recv_data_udp-IsFilled (other_error addr) d h f = record { whole = f.whole; bytes = f.bytes }

-- What a wait returns is a whole buffer.
abbrev IsWhole : Option DataReceivedUdp → Type 0
IsWhole none = Unit
IsWhole (some d) = IsFilled d

wait_for-IsWhole :
    (rs : List Received) (d : DataReceivedUdp)
    → All IsReceived rs
    → IsFilled d
    → IsWhole (wait_for rs d)
unfolding wait_for
wait_for-IsWhole [] d h f = tt
wait_for-IsWhole (r ∷ rs) d h f =
    by_code (recv_data_udp r d).1 (recv_data_udp-IsFilled r d h.0 f)
      (wait_for-IsWhole rs (recv_data_udp r d).0 h.1 (recv_data_udp-IsFilled r d h.0 f))
  where
    by_code :
        (c : Code)
        → IsFilled (recv_data_udp r d).0
        → IsWhole (wait_for rs (recv_data_udp r d).0)
        → IsWhole (elim c [
          | success_code ↦ some (recv_data_udp r d).0
          | error_code ↦ wait_for rs (recv_data_udp r d).0
        ])
    by_code success_code now later = now
    by_code error_code now later = later

pub cleared-IsFilled : (addr : SockaddrIn) → IsFilled (data_received_udp addr)
cleared-IsFilled addr = record { whole = refl; bytes = zeros-IsBytes 256 }

-- If the queue holds nothing but whole buffers of 256 bytes, it does so after a round of the receiving
-- thread, whatever `recvfrom` answers as long as it returns at most 255 bytes.
pub rx_round-IsFilled :
    (found : SockaddrIn) (attempts : List Received) (q : SafeQueue DataReceivedUdp)
    → All IsReceived attempts
    → All IsFilled q.queue
    → All IsFilled (rx_round found attempts q).queue
unfolding rx_round
rx_round-IsFilled found attempts q h f =
    by_result (wait_for attempts (data_received_udp found))
      (wait_for-IsWhole attempts (data_received_udp found) h (cleared-IsFilled found))
  where
    by_result : (d : Option DataReceivedUdp) → IsWhole d → All IsFilled (pushed_result q d).queue
    by_result none whole = f
    by_result (some data_udp) whole = push-All IsFilled q data_udp true f whole

abbrev pub IsError : Received → Type 0
IsError (datagram bytes addr) = ⊥
IsError (conn_reset addr) = ⊥
IsError (other_error addr) = Unit

-- A datagram of 1 to 255 bytes reaches the buffer whole, after any number of attempts that fail: its
-- bytes, zeros up to 256, and the address that it came from.
pub wait_for-datagram :
    (before rest : List Received) (c : ℕ) (cs : List ℕ) (addr : SockaddrIn) (d : DataReceivedUdp)
    → All IsError before
    → length cs < 255
    → wait_for (before ++ datagram (c ∷ cs) addr ∷ rest) d
      ≡ some (record {
        buffer = (c ∷ cs) ++ replicate (buffer_size - length (c ∷ cs)) 0;
        client_addr = addr;
      })
unfolding wait_for recv_data_udp
wait_for-datagram [] rest c cs addr d h short =
    ap (λ b. some (record { buffer = b; client_addr = addr }))
      (filled_buffer_lem (c ∷ cs) (omega arith))
wait_for-datagram (datagram bytes a ∷ before) rest c cs addr d h short = absurd h.0
wait_for-datagram (conn_reset a ∷ before) rest c cs addr d h short = absurd h.0
wait_for-datagram (other_error a ∷ before) rest c cs addr d h short =
    wait_for-datagram before rest c cs addr (record d { client_addr = a }) h.1 short

-- An answer of `recvfrom` that carries no byte and is no error for `recvDataUDP`.
abbrev pub IsEmptyAnswer : Received → Type 0
IsEmptyAnswer (datagram [] addr) = Unit
IsEmptyAnswer (datagram (c ∷ cs) addr) = ⊥
IsEmptyAnswer (conn_reset addr) = Unit
IsEmptyAnswer (other_error addr) = ⊥

abbrev pub address_of : Received → SockaddrIn
address_of (datagram bytes addr) = addr
address_of (conn_reset addr) = addr
address_of (other_error addr) = addr

-- An empty datagram, or `WSAECONNRESET`, ends the wait too, and a buffer of zeros is pushed.
pub rx_round-empty :
    (found : SockaddrIn) (r : Received) (rest : List Received) (q : SafeQueue DataReceivedUdp)
    → IsEmptyAnswer r
    → rx_round found (r ∷ rest) q ≡ push q (data_received_udp (address_of r)) true
unfolding rx_round wait_for recv_data_udp
rx_round-empty found (datagram [] addr) rest q h = refl
rx_round-empty found (datagram (c ∷ cs) addr) rest q h = absurd h
rx_round-empty found (conn_reset addr) rest q h = refl
rx_round-empty found (other_error addr) rest q h = absurd h
