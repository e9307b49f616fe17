-- ===== src/Udp/Examples.antt =====
-- Concrete answers of Winsock.
use node_management.Common.{◌≡◌, true, List, [], ◌∷◌, some, arith, All, replicate}
use node_management.Types.{SockaddrIn}
use node_management.SafeQueue.{new_queue}
use node_management.Udp.{
  SetUp, shared_context, init_udp_sock, Received, datagram, other_error, data_received_udp,
  wait_for, rx_round,
}
use node_management.Udp.Buffers.{IsReceived, IsFilled, rx_round-IsFilled, wait_for-datagram}
use node_management.Udp.Resources.{IsSetUp, init_udp_sock-IsSetUp}

abbrev an_address : SockaddrIn
an_address = record { sin_port = 4660; sin_addr = 16777343 }

abbrev bad_bind : SetUp
bad_bind = record { startup_result = 0; socket_result = some 5; bind_fails = true }

init_udp_sock-IsSetUp_example : IsSetUp (init_udp_sock bad_bind shared_context)
init_udp_sock-IsSetUp_example = init_udp_sock-IsSetUp bad_bind shared_context

abbrev two_attempts : List Received
two_attempts = other_error an_address ∷ datagram (2 ∷ 2 ∷ []) an_address ∷ []

two_attempts-IsReceived : All IsReceived two_attempts
two_attempts-IsReceived = (tt, ((omega arith, (omega arith, (omega arith, tt))), tt))

rx_round-IsFilled_example : All IsFilled (rx_round an_address two_attempts new_queue).queue
rx_round-IsFilled_example =
    rx_round-IsFilled an_address two_attempts new_queue two_attempts-IsReceived tt

wait_for-datagram_example :
    wait_for two_attempts (data_received_udp an_address)
    ≡ some (record { buffer = 2 ∷ 2 ∷ replicate 254 0; client_addr = an_address })
wait_for-datagram_example =
    wait_for-datagram (other_error an_address ∷ []) [] 2 (2 ∷ []) an_address
      (data_received_udp an_address) (tt, tt) (omega arith)
