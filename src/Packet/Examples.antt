-- ===== src/Packet/Examples.antt =====
-- The packets of source/Packet.cpp at concrete contents.
use node_management.Common.{ℕ, ◌≡◌, refl, List, [], ◌∷◌, ◌++◌, some, ◌>>=◌, arith, replicate}
use node_management.Types.{TypeNode, TypeMessage, StateList}
use node_management.Wire.Octets.{IsBytes, zeros-IsBytes, append-IsBytes}
use node_management.Packet.{
  Packet, NotifyPacket, new_packet, new_rigister_packet, encode_ping, encode_notify, decode_pong,
  decode_rigister,
}
use node_management.Packet.Encoding.{terminated, encode_ping_lem, encode_notify_lem}
use node_management.Packet.Decoding.{decode_rigister_lem}
use node_management.Packet.RoundTrip.{
  IsText, register_wire, decode_rigister-register_wire, decode_pong-encode_ping,
}

-- "Ping" and "UE1".
abbrev ping_bytes : List ℕ
ping_bytes = 80 ∷ 105 ∷ 110 ∷ 103 ∷ []

abbrev name_bytes : List ℕ
name_bytes = 85 ∷ 69 ∷ 49 ∷ []

ping_bytes-IsBytes : IsBytes ping_bytes
ping_bytes-IsBytes = (omega arith, (omega arith, (omega arith, (omega arith, tt))))

name_bytes-IsText : IsText name_bytes
name_bytes-IsText =
    ((omega arith, omega arith), ((omega arith, omega arith), ((omega arith, omega arith), tt)))

name_bytes-IsBytes : IsBytes name_bytes
name_bytes-IsBytes = (omega arith, (omega arith, (omega arith, tt)))

abbrev a_ping : Packet
a_ping = record {
  type_message = TypeMessage.ping;
  payload_lengh = 20;
  mes = ping_bytes;
  client_addr = record { sin_port = 4660; sin_addr = 16777343 };
}

abbrev a_notify : NotifyPacket
a_notify = record {
  packet = record a_ping { type_message = TypeMessage.notify; payload_lengh = 40 };
  type_node = TypeNode.oam;
  port_node_notify = 4660;
  state_node_notify = StateList.timeout;
}

encode_ping_example : encode_ping a_ping ≡ some (1 ∷ 20 ∷ terminated 17 ping_bytes)
encode_ping_example = encode_ping_lem a_ping ping_bytes-IsBytes

encode_notify_example :
    encode_notify a_notify ≡ some (3 ∷ 40 ∷ 3 ∷ 18 ∷ 52 ∷ 2 ∷ terminated 33 ping_bytes)
encode_notify_example = encode_notify_lem a_notify ping_bytes-IsBytes

-- A PONG with "Ping" in a whole receive buffer.
abbrev pong_rest : List ℕ
pong_rest = ping_bytes ++ replicate 250 0

pong_rest-IsBytes : IsBytes (2 ∷ 6 ∷ pong_rest)
pong_rest-IsBytes = (
  omega arith,
  (omega arith, append-IsBytes ping_bytes (replicate 250 0) ping_bytes-IsBytes (zeros-IsBytes 250)),
)

abbrev rigister_rest : List ℕ
rigister_rest = name_bytes ++ replicate 250 0

rigister_rest-IsBytes : IsBytes (0 ∷ 30 ∷ 2 ∷ rigister_rest)
rigister_rest-IsBytes = (
  omega arith,
  (
    omega arith,
    (
      omega arith,
      append-IsBytes name_bytes (replicate 250 0) name_bytes-IsBytes (zeros-IsBytes 250),
    ),
  ),
)

decode_rigister_example :
    decode_rigister (0 ∷ 30 ∷ 2 ∷ rigister_rest) new_rigister_packet
    ≡ some (record {
      packet = record new_packet { payload_lengh = 30; mes = name_bytes };
      type_node = TypeNode.control_plane;
    })
decode_rigister_example =
    decode_rigister_lem 0 30 2 rigister_rest rigister_rest-IsBytes refl new_rigister_packet

register_wire_example :
    decode_rigister (register_wire 3 name_bytes) new_rigister_packet
    ≡ some (record {
      packet = record new_packet { payload_lengh = 6; mes = name_bytes };
      type_node = TypeNode.oam;
    })
register_wire_example =
    decode_rigister-register_wire 3 name_bytes new_rigister_packet (omega arith) (omega arith)
      name_bytes-IsText

decode_pong-encode_ping_example :
    (do wire ← encode_ping a_ping; decode_pong (wire ++ replicate 236 0) new_packet)
    ≡ some (record new_packet {
      type_message = TypeMessage.ping;
      payload_lengh = 20;
      mes = terminated 17 ping_bytes;
    })
decode_pong-encode_ping_example =
    decode_pong-encode_ping a_ping new_packet ping_bytes-IsBytes refl refl
