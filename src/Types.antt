-- ===== src/Types.antt =====
-- The shared types of source/Utils.h: the enumerations, the message that a node sends to the
-- manager, and the part of a socket address that the program reads. An `enum class` holds any
-- `int`; a number with no enumerator is `unnamed`.
use node_management.Common.{ℕ, zero, suc, ◌++◌, ◌≡◌, refl, List, []}

pub data TypeNode : Type 0 where
  base data_plane control_plane oam : TypeNode
  unnamed : ℕ → TypeNode

pub data TypeMessage : Type 0 where
  register ping pong notify other : TypeMessage
  unnamed : ℕ → TypeMessage

-- The source only ever stores the enumerators.
pub data StateList : Type 0 where
  init alive timeout dead max : StateList

-- The casts `(TypeNode)(…)` and `(TypeMessage)(…)`.
abbrev pub to_type_node : ℕ → TypeNode
to_type_node zero = base
to_type_node (suc zero) = data_plane
to_type_node (suc (suc zero)) = control_plane
to_type_node (suc (suc (suc zero))) = oam
to_type_node (suc (suc (suc (suc n)))) = TypeNode.unnamed (suc (suc (suc (suc n))))

abbrev pub to_type_message : ℕ → TypeMessage
to_type_message zero = register
to_type_message (suc zero) = ping
to_type_message (suc (suc zero)) = pong
to_type_message (suc (suc (suc zero))) = notify
to_type_message (suc (suc (suc (suc zero)))) = other
to_type_message (suc (suc (suc (suc (suc n))))) =
    TypeMessage.unnamed (suc (suc (suc (suc (suc n)))))

-- The casts `(uint32_t)(…)`.
abbrev pub type_node_int : TypeNode → ℕ
type_node_int base = 0
type_node_int data_plane = 1
type_node_int control_plane = 2
type_node_int oam = 3
type_node_int (TypeNode.unnamed n) = n

abbrev pub type_message_int : TypeMessage → ℕ
type_message_int register = 0
type_message_int ping = 1
type_message_int pong = 2
type_message_int notify = 3
type_message_int other = 4
type_message_int (TypeMessage.unnamed n) = n

abbrev pub state_int : StateList → ℕ
state_int init = 0
state_int alive = 1
state_int timeout = 2
state_int dead = 3
state_int StateList.max = 4

pub type_node_int-to : (n : ℕ) → type_node_int (to_type_node n) ≡ n
type_node_int-to zero = refl
type_node_int-to (suc zero) = refl
type_node_int-to (suc (suc zero)) = refl
type_node_int-to (suc (suc (suc zero))) = refl
type_node_int-to (suc (suc (suc (suc n)))) = refl

pub type_message_int-to : (n : ℕ) → type_message_int (to_type_message n) ≡ n
type_message_int-to zero = refl
type_message_int-to (suc zero) = refl
type_message_int-to (suc (suc zero)) = refl
type_message_int-to (suc (suc (suc zero))) = refl
type_message_int-to (suc (suc (suc (suc zero)))) = refl
type_message_int-to (suc (suc (suc (suc (suc n))))) = refl

-- `sockaddr_in` of Winsock, as far as the program reads it: both fields in network byte order, the
-- port a `uint16_t` and the address a `uint32_t`.
pub record SockaddrIn : Type 0 where
  pub sin_port : ℕ
  pub sin_addr : ℕ

-- `str_MessageState`. A string is the list of its bytes.
pub record MessageState : Type 0 where
  pub node_id : ℕ
  pub type_node : TypeNode
  pub message : List ℕ
  pub state : StateList
  pub message_type : ℕ
  pub client_addr : SockaddrIn

-- The constructor leaves the address as it finds it; that is the last argument.
abbrev pub message_state : ℕ → TypeNode → StateList → ℕ → SockaddrIn → MessageState
message_state node_id type_id state message_type found = record {
  node_id = node_id;
  type_node = type_id;
  message = [];
  state = state;
  message_type = message_type;
  client_addr = found;
}

-- `saveTime`, with the text of the local time.
abbrev pub save_time : List ℕ → MessageState → MessageState
save_time now m = record m { message = m.message ++ now }
