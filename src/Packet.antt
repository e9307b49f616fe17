-- ===== src/Packet.antt =====
-- The packets of source/Packet.h and source/Packet.cpp. `new` with parentheses clears the fields of
-- a packet, since no class of the file declares a constructor.
pub mod Encoding
pub mod Decoding
pub mod RoundTrip
mod Examples
use node_management.Common.{
  ℕ, zero, suc, ◌+◌, ◌-◌, ◌/◌, List, [], ◌∷◌, Option, none, some, ◌>>=◌, ltb, if◌then◌else◌, length,
  take, replicate, get_elem?, set, u8,
}
use node_management.Types.{
  TypeNode, TypeMessage, StateList, SockaddrIn, to_type_node, to_type_message, type_node_int,
  type_message_int, state_int,
}
use node_management.Wire.{set_bits, set_bits_str, get_bits, get_bits_str}

abbrev pub ping_playloadlength : ℕ
ping_playloadlength = 20

abbrev pub notify_playloadlength : ℕ
notify_playloadlength = 40

-- The base class.
pub record Packet : Type 0 where
  pub type_message : TypeMessage
  pub payload_lengh : ℕ
  pub mes : List ℕ
  pub client_addr : SockaddrIn

abbrev pub new_packet : Packet
new_packet = record {
  type_message = TypeMessage.register;
  payload_lengh = 0;
  mes = [];
  client_addr = record { sin_port = 0; sin_addr = 0 };
}

abbrev pub set_message_type : TypeMessage → Packet → Packet
set_message_type t p = record p { type_message = t }

abbrev pub set_message : List ℕ → Packet → Packet
set_message m p = record p { mes = m }

abbrev pub set_sockaddr : SockaddrIn → Packet → Packet
set_sockaddr a p = record p { client_addr = a }

abbrev pub set_payload_lengh : ℕ → Packet → Packet
set_payload_lengh n p = record p { payload_lengh = n }

-- `PingPacket` and `PongPacket` add no field to `Packet`.
pub record RigisterPacket : Type 0 where
  pub packet : Packet
  pub open packet use *
  pub type_node : TypeNode

pub record NotifyPacket : Type 0 where
  pub packet : Packet
  pub open packet use *
  pub type_node : TypeNode
  pub port_node_notify : ℕ
  pub state_node_notify : StateList

abbrev pub new_rigister_packet : RigisterPacket
new_rigister_packet = record { packet = new_packet; type_node = TypeNode.base }

abbrev pub new_notify_packet : NotifyPacket
new_notify_packet = record {
  packet = new_packet;
  type_node = TypeNode.base;
  port_node_notify = 0;
  state_node_notify = StateList.init;
}

-- `std::string(cMessage)` ends at the first zero byte.
abbrev pub c_string : List ℕ → List ℕ
c_string [] = []
c_string (zero ∷ cs) = []
c_string (suc c ∷ cs) = suc c ∷ c_string cs

-- The `size` bytes of the message, with `size = payloadLengh - offset/8` as an `int`.
decode_message : List ℕ → ℕ → ℕ → Option (List ℕ)
decode_message buffer offset payload_lengh =
    if ltb (offset / 8) payload_lengh
    then (do
      (c_message, _) ← get_bits_str buffer offset (payload_lengh - offset / 8)
      some c_message)
    else some []

-- `RigisterPacket::decode`.
unfoldable pub decode_rigister : List ℕ → RigisterPacket → Option RigisterPacket
unfolding decode_message
decode_rigister buffer p = do
  (type_message, offset) ← get_bits buffer 0 8
  (payload_lengh, offset) ← get_bits buffer offset 8
  (type_node, offset) ← get_bits buffer offset 8
  c_message ← decode_message buffer offset payload_lengh
  some (record {
    packet = set_message (c_string c_message) (
        set_payload_lengh (u8 payload_lengh)
          (set_message_type (to_type_message type_message) p.packet));
    type_node = to_type_node type_node;
  })

-- `PongPacket::decode`.
unfoldable pub decode_pong : List ℕ → Packet → Option Packet
unfolding decode_message
decode_pong buffer p = do
  (type_message, offset) ← get_bits buffer 0 8
  (payload_lengh, offset) ← get_bits buffer offset 8
  c_message ← decode_message buffer offset payload_lengh
  some (
      set_message c_message
        (set_payload_lengh (u8 payload_lengh) (set_message_type (to_type_message type_message) p)))

-- The message behind the fields, cut so that a zero byte follows it, and the end of both `encode`:
-- `buffer[limit] = '\0'` and the string of the first `limit` bytes.
encode_message : List ℕ → ℕ → ℕ → List ℕ → Option (List ℕ)
encode_message buffer offset limit str_message = do
  let size_remain = limit - offset / 8
  (buffer, _) ←
      if ltb 0 size_remain
      then if ltb (length str_message) size_remain
        then set_bits_str buffer offset str_message (length str_message)
        else set_bits_str buffer offset str_message (size_remain - 1)
      else some (buffer, offset)
  _ ← get_elem? buffer limit
  some (take limit (set buffer limit 0))

-- `PingPacket::encode`.
unfoldable pub encode_ping : Packet → Option (List ℕ)
unfolding encode_message
encode_ping p = do
  (buffer, offset) ←
      set_bits (replicate (ping_playloadlength + 1) 0) 0 (type_message_int p.type_message) 8
  (buffer, offset) ← set_bits buffer offset p.payload_lengh 8
  encode_message buffer offset ping_playloadlength p.mes

-- `NotifyPacket::encode`.
unfoldable pub encode_notify : NotifyPacket → Option (List ℕ)
unfolding encode_message
encode_notify p = do
  (buffer, offset) ←
      set_bits (replicate (notify_playloadlength + 1) 0) 0 (type_message_int p.type_message) 8
  (buffer, offset) ← set_bits buffer offset p.payload_lengh 8
  (buffer, offset) ← set_bits buffer offset (type_node_int p.type_node) 8
  (buffer, offset) ← set_bits buffer offset p.port_node_notify 16
  (buffer, offset) ← set_bits buffer offset (state_int p.state_node_notify) 8
  encode_message buffer offset notify_playloadlength p.mes

-- A `Packet*` that is not null, by the class of the object that it points to.
pub data AnyPacket : Type 0 where
  plain_packet ping_packet pong_packet : Packet → AnyPacket
  rigister_packet : RigisterPacket → AnyPacket
  notify_packet : NotifyPacket → AnyPacket

-- The fields of the base class, which every packet has.
abbrev pub base_of : AnyPacket → Packet
base_of (plain_packet p) = p
base_of (ping_packet p) = p
base_of (pong_packet p) = p
base_of (rigister_packet p) = p.packet
base_of (notify_packet p) = p.packet

-- `static_cast` to a derived class, which is undefined for an object of another class.
abbrev pub as_rigister : AnyPacket → Option RigisterPacket
as_rigister (rigister_packet p) = some p
as_rigister (plain_packet p) = none
as_rigister (ping_packet p) = none
as_rigister (pong_packet p) = none
as_rigister (notify_packet p) = none

abbrev pub as_ping : AnyPacket → Option Packet
as_ping (ping_packet p) = some p
as_ping (plain_packet p) = none
as_ping (rigister_packet p) = none
as_ping (pong_packet p) = none
as_ping (notify_packet p) = none

abbrev pub as_notify : AnyPacket → Option NotifyPacket
as_notify (notify_packet p) = some p
as_notify (plain_packet p) = none
as_notify (rigister_packet p) = none
as_notify (ping_packet p) = none
as_notify (pong_packet p) = none
