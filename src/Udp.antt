-- ===== src/Udp.antt =====
-- source/udp_connected_lib/UDPConnector.h and UDPConnector.cpp. What Winsock answers is an argument
-- of each function, and the calls that change the state of Winsock are listed in the result.
pub mod Buffers
pub mod Resources
mod Examples
use node_management.Common.{
  ℕ, ◌+◌, ◌-◌, zero, suc, Bool, true, false, not, List, [], ◌∷◌, ◌++◌, Option, none, some,
  if◌then◌else◌, length, take, replicate, set,
}
use node_management.Types.{SockaddrIn}
use node_management.SafeQueue.{SafeQueue, push}

abbrev pub buffer_size : ℕ
buffer_size = 256

pub record DataReceivedUdp : Type 0 where
  pub buffer : List ℕ
  pub client_addr : SockaddrIn

-- The constructor clears the buffer and leaves the address as it finds it.
abbrev pub data_received_udp : SockaddrIn → DataReceivedUdp
data_received_udp found = record { buffer = replicate buffer_size 0; client_addr = found }

-- `none` is `INVALID_SOCKET`.
pub record SharedContext : Type 0 where
  pub sock : Option ℕ

abbrev pub shared_context : SharedContext
shared_context = record { sock = none }

-- `SUCCESS_CODE` and `ERROR_CODE`.
pub data Code : Type 0 where
  success_code error_code : Code

-- The calls of Winsock that take or give back a resource, each with what it answered.
pub data SockCall : Type 0 where
  started cleaned_up : SockCall
  opened closed : ℕ → SockCall

-- What `WSAStartup`, `socket` and `bind` answer.
pub record SetUp : Type 0 where
  pub startup_result : ℕ
  pub socket_result : Option ℕ
  pub bind_fails : Bool

abbrev pub bind_socket : SetUp → ℕ → SharedContext × Code × List SockCall
bind_socket answers s =
    if answers.bind_fails
    then (record { sock = some s }, error_code, started ∷ opened s ∷ closed s ∷ cleaned_up ∷ [])
    else (record { sock = some s }, success_code, started ∷ opened s ∷ [])

-- `initUDPSock` behind a successful `WSAStartup`.
abbrev pub open_socket : SetUp → SharedContext × Code × List SockCall
open_socket answers = elim answers.socket_result [
  | none ↦ (record { sock = none }, error_code, started ∷ cleaned_up ∷ [])
  | some s ↦ bind_socket answers s
]

unfoldable pub init_udp_sock : SetUp → SharedContext → SharedContext × Code × List SockCall
init_udp_sock answers ctx = elim answers.startup_result [
  | zero ↦ open_socket answers
  | suc n ↦ (ctx, error_code, [])
]

unfoldable pub close_udp_sock : SharedContext → SharedContext × Code × List SockCall
close_udp_sock ctx = elim ctx.sock [
  | none ↦ (ctx, error_code, [])
  | some s ↦ (record { sock = none }, success_code, closed s ∷ cleaned_up ∷ [])
]

-- A call of `sendto`.
pub record Sending : Type 0 where
  pub through : SharedContext
  pub message : List ℕ
  pub target_addr : SockaddrIn

-- `sendDataUDP`, with the call that it makes. The size of an address is never zero. The second
-- argument is whether `sendto` fails.
unfoldable pub send_data_udp : SockaddrIn → Bool → List ℕ → SharedContext → Code × List Sending
send_data_udp addr fails [] ctx = (error_code, [])
send_data_udp addr fails (c ∷ cs) ctx = (
  if fails then error_code else success_code,
  record { through = ctx; message = c ∷ cs; target_addr = addr } ∷ [],
)

-- What `recvfrom` answers: bytes and the address that they came from, or an error, of which only
-- `WSAECONNRESET` counts, with what the call left in the address.
pub data Received : Type 0 where
  datagram : List ℕ → SockaddrIn → Received
  conn_reset other_error : SockaddrIn → Received

-- The local buffer of `recvDataUDP` after `recvfrom` and the zero behind the bytes.
abbrev pub filled_buffer : List ℕ → List ℕ
filled_buffer bytes = set (bytes ++ replicate (buffer_size - length bytes) 0) (length bytes) 0

unfoldable pub recv_data_udp : Received → DataReceivedUdp → DataReceivedUdp × Code
recv_data_udp (datagram [] addr) data_udp = (record data_udp { client_addr = addr }, success_code)
recv_data_udp (datagram (c ∷ cs) addr) data_udp =
    (record { buffer = filled_buffer (c ∷ cs); client_addr = addr }, success_code)
recv_data_udp (conn_reset addr) data_udp = (record data_udp { client_addr = addr }, success_code)
recv_data_udp (other_error addr) data_udp = (record data_udp { client_addr = addr }, error_code)

-- `UDPReceived`.
pub record UdpReceived : Type 0 where
  pub running : Bool
  pub ctx : SharedContext

abbrev pub new_udp_received : UdpReceived
new_udp_received = record { running = false; ctx = shared_context }

unfoldable pub start : SharedContext → UdpReceived → UdpReceived × Bool
start ctx udp =
    if not udp.running then (record { running = true; ctx = ctx }, true) else (udp, false)

unfoldable pub stop : UdpReceived → UdpReceived × Bool
stop udp = if udp.running then (record udp { running = false }, true) else (udp, false)

-- The attempts of one `m_cv.wait_for`, in order, until one succeeds; `none` if none did within the
-- period.
unfoldable pub wait_for : List Received → DataReceivedUdp → Option DataReceivedUdp
wait_for [] data_udp = none
wait_for (r ∷ rs) data_udp =
    let (after, code) = recv_data_udp r data_udp in
    elim code [ success_code ↦ some after | error_code ↦ wait_for rs after ]

-- A round of `handleRxThread` while the thread runs; `found` stands in the address of the local
-- variable.
abbrev pub pushed_result :
    SafeQueue DataReceivedUdp → Option DataReceivedUdp → SafeQueue DataReceivedUdp
pushed_result q none = q
pushed_result q (some data_udp) = push q data_udp true

unfoldable pub rx_round :
    SockaddrIn → List Received → SafeQueue DataReceivedUdp → SafeQueue DataReceivedUdp
rx_round found attempts q = pushed_result q (wait_for attempts (data_received_udp found))
