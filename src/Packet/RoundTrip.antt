-- ===== src/Packet/RoundTrip.antt =====
-- The two directions of the wire format of source/Packet.cpp together.
use mathlib.Core.List.{append-nil}
use node_management.Common.{
  ℕ, zero, suc, ◌+◌, ◌-◌, ◌≤◌, ◌<◌, ◌≡◌, refl, ap, ◌∙◌, List, [], ◌∷◌, ◌++◌, some, ◌>>=◌, arith,
  length, take, take-append, replicate, All, length-append, length-replicate,
}
use node_management.Types.{TypeMessage, to_type_node}
use node_management.Wire.Octets.{IsBytes, zeros-IsBytes, append-IsBytes}
use node_management.Packet.{
  Packet, RigisterPacket, c_string, decode_rigister, decode_pong, encode_ping,
}
use node_management.Packet.Encoding.{
  terminated, encode_ping_lem, length-terminated, terminated-IsBytes,
}
use node_management.Packet.Decoding.{decode_pong_lem, decode_rigister_lem}

-- The characters of a text: bytes, none of them zero.
abbrev pub IsText : List ℕ → Type 0
IsText = All (λ c. (0 < c) × (c < 256))

pub c_string_text : (cs : List ℕ) → IsText cs → c_string cs ≡ cs
c_string_text [] t = refl
c_string_text (zero ∷ cs) t = absurd (omega arith)
c_string_text (suc c ∷ cs) t = ap (◌∷◌ (suc c)) (c_string_text cs t.1)

text-IsBytes : (cs : List ℕ) → IsText cs → IsBytes cs
text-IsBytes [] t = tt
text-IsBytes (c ∷ cs) t = (t.0.1, text-IsBytes cs t.1)

-- The REGISTER packet of a node of type `k`: type 0, the length of the whole packet, the type of
-- the node, the text; the receive buffer is zero behind it.
abbrev pub register_wire : ℕ → List ℕ → List ℕ
register_wire k text = 0 ∷ (3 + length text) ∷ k ∷ (text ++ replicate (253 - length text) 0)

-- A REGISTER packet of at most 255 bytes, whose text has no zero byte, is decoded to the type of node
-- and the text that the node wrote.
pub decode_rigister-register_wire :
    (k : ℕ) (text : List ℕ) (p : RigisterPacket)
    → k < 256
    → length text ≤ 252
    → IsText text
    → decode_rigister (register_wire k text) p
      ≡ some (record {
        packet = record {
          type_message = TypeMessage.register;
          payload_lengh = 3 + length text;
          mes = text;
          client_addr = p.client_addr;
        };
        type_node = to_type_node k;
      })
decode_rigister-register_wire k text p hk short is_text =
    rw
      (
        decode_rigister_lem 0 (3 + length text) k (text ++ replicate (253 - length text) 0) bytes
            filled p,
        taken,
        c_string_text text is_text,
      )
      refl
  where
    bytes : IsBytes (register_wire k text)
    bytes = (
      omega arith,
      (omega arith, (hk, append-IsBytes text _ (text-IsBytes text is_text) (zeros-IsBytes _))),
    )

    filled : length (text ++ replicate (253 - length text) 0) ≡ 253
    filled = omega (
      arith,
      length-append text (replicate (253 - length text) 0),
      length-replicate {A = ℕ} (253 - length text) 0,
    )

    taken : take (3 + length text - 3) (text ++ replicate (253 - length text) 0) ≡ text
    taken = take-append _ 0 text _ (omega arith) ∙ append-nil text

-- A PING packet with length 20 and a message of bytes, received into a cleared buffer and read by the
-- decoder of the same layout, has its type, its length, and the first 17 bytes of its message with
-- the zeros that fill it up.
pub decode_pong-encode_ping :
    (p q : Packet)
    → IsBytes p.mes
    → p.type_message ≡ TypeMessage.ping
    → p.payload_lengh ≡ 20
    → (do wire ← encode_ping p; decode_pong (wire ++ replicate 236 0) q)
      ≡ some (record q {
        type_message = TypeMessage.ping;
        payload_lengh = 20;
        mes = terminated 17 p.mes;
      })
decode_pong-encode_ping p q bytes is_ping is_twenty =
    rw
      (
        encode_ping_lem p bytes,
        is_ping,
        is_twenty,
        decode_pong_lem 1 20 (terminated 17 p.mes ++ replicate 236 0) wire_bytes filled q,
        take-append 18 0 (terminated 17 p.mes) (replicate 236 0)
            (omega (arith, length-terminated 17 p.mes)),
        append-nil (terminated 17 p.mes),
      )
      refl
  where
    wire_bytes : IsBytes (1 ∷ 20 ∷ (terminated 17 p.mes ++ replicate 236 0))
    wire_bytes = (
      omega arith,
      (
        omega arith,
        append-IsBytes (terminated 17 p.mes) (replicate 236 0) (terminated-IsBytes 17 p.mes bytes)
            (zeros-IsBytes 236),
      ),
    )

    filled : length (terminated 17 p.mes ++ replicate 236 0) ≡ 254
    filled =
        omega
          (arith, length-append (terminated 17 p.mes) (replicate 236 0), length-terminated 17 p.mes)
