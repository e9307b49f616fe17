-- ===== src/Packet/Encoding.antt =====
-- The bytes that `PingPacket::encode` and `NotifyPacket::encode` put on the wire.
use node_management.Common.{
  ℕ, zero, suc, ◌+◌, ◌-◌, ◌*◌, ◌/◌, ◌%◌, ◌<◌, min, ◌≡◌, refl, ap, List, [], ◌∷◌, ◌++◌, some, ◌>>=◌,
  arith, ltb, true, Bool-cases, inl, inr, length, take, replicate, get_elem?, set, length-append,
  length-replicate, length-take, take-append, take-set, take-replicate, replicate-append,
}
use node_management.Types.{type_node_int, type_message_int, state_int}
use node_management.Wire.{set_bits_str}
use node_management.Wire.Field.{get_elem?-byte_at}
use node_management.Wire.Octets.{IsBytes, set_bits_octet, set_bits_word, set_bits_str_octets}
use node_management.Packet.{Packet, NotifyPacket, encode_message, encode_ping, encode_notify}

-- `n` places for a text, filled up by zeros, and a zero that ends it.
abbrev pub terminated : ℕ → List ℕ → List ℕ
terminated zero cs = 0 ∷ []
terminated (suc n) [] = 0 ∷ terminated n []
terminated (suc n) (c ∷ cs) = c ∷ terminated n cs

terminated_lem :
    (n k m : ℕ) (cs : List ℕ)
    → k ≡ min (length cs) n
    → k + m ≡ suc n
    → take k cs ++ replicate m 0 ≡ terminated n cs
terminated_lem zero zero zero cs h e = absurd (omega arith)
terminated_lem zero zero (suc zero) cs h e = refl
terminated_lem zero zero (suc (suc m)) cs h e = absurd (omega arith)
terminated_lem zero (suc k) m cs h e = absurd (omega arith)
terminated_lem (suc n) zero zero cs h e = absurd (omega arith)
terminated_lem (suc n) zero (suc m) [] h e =
    ap (◌∷◌ 0) (terminated_lem n zero m [] (omega arith) (omega arith))
terminated_lem (suc n) zero (suc m) (c ∷ cs) h e = absurd (omega arith)
terminated_lem (suc n) (suc k) m [] h e = absurd (omega arith)
terminated_lem (suc n) (suc k) m (c ∷ cs) h e =
    ap (◌∷◌ c) (terminated_lem n k m cs (omega arith) (omega arith))

module _ (pre mes : List ℕ) (r : ℕ) (bytes : IsBytes mes) where
  finish :
      (n : ℕ)
      → n ≡ min (length mes) r
      → (do
        (b, o) ← set_bits_str (pre ++ replicate (suc r + 1) 0) (8 * length pre) mes n
        last ← get_elem? b (length pre + suc r)
        some (take (length pre + suc r) (set b (length pre + suc r) 0)))
        ≡ some (pre ++ terminated r mes)
  finish n h =
      rw
        (
          replicate-append {A = ℕ} n (suc r + 1 - n) (suc r + 1) 0 (omega arith),
          set_bits_str_octets n pre (replicate (suc r + 1 - n) 0) mes (8 * length pre) refl
              (omega arith) bytes,
          get_elem?-byte_at (filled (suc r + 1 - n)) (length pre + suc r) long,
          take-set (length pre + suc r) (filled (suc r + 1 - n)) 0,
          take-append (length pre + suc r) (suc r) pre (take n mes ++ replicate (suc r + 1 - n) 0)
              refl,
          take-append (suc r) (suc r - n) (take n mes) (replicate (suc r + 1 - n) 0)
              (omega (arith, length-take n mes)),
          take-replicate {A = ℕ} (suc r - n) (suc r + 1 - n) 0 (omega arith),
          terminated_lem r n (suc r - n) mes h (omega arith),
        )
        refl
    where
      filled : ℕ → List ℕ
      filled m = pre ++ (take n mes ++ replicate m 0)

      long : length pre + suc r < length (filled (suc r + 1 - n))
      long = omega (
        arith,
        length-append pre (take n mes ++ replicate (suc r + 1 - n) 0),
        length-append (take n mes) (replicate (suc r + 1 - n) 0),
        length-take n mes,
        length-replicate {A = ℕ} (suc r + 1 - n) 0,
      )

  -- The message part of a packet, behind its fields `pre`, in a buffer cleared from there on.
  encode_message_lem :
      (buffer : List ℕ) (limit offset : ℕ)
      → buffer ≡ pre ++ replicate (suc r + 1) 0
      → limit ≡ length pre + suc r
      → offset ≡ 8 * length pre
      → encode_message buffer offset limit mes ≡ some (pre ++ terminated r mes)
  unfolding encode_message
  encode_message_lem buffer limit offset e f g =
      rw (e, f, g, remain, some_room)
        (elim (Bool-cases (ltb (length mes) (suc r))) [
          | inl short ↦ rw short (finish (length mes) (ground arith))
          | inr long ↦ rw (long, less_one) (finish r (ground arith))
        ])
    where
      remain : length pre + suc r - 8 * length pre / 8 ≡ suc r
      remain = omega arith

      some_room : ltb 0 (suc r) ≡ true
      some_room = ground arith

      less_one : suc r - 1 ≡ r
      less_one = omega arith

-- If the message is bytes, a PING packet is 20 bytes: type, length, and up to 17 bytes of the
-- message, ended by zeros.
pub encode_ping_lem :
    (p : Packet)
    → IsBytes p.mes
    → encode_ping p
      ≡ some (type_message_int p.type_message % 256 ∷ p.payload_lengh % 256 ∷ terminated 17 p.mes)
unfolding encode_ping
encode_ping_lem p bytes =
    rw
      (
        set_bits_octet [] (replicate 20 0) 0 refl (type_message_int p.type_message),
        set_bits_octet (t ∷ []) (replicate 19 0) 8 refl p.payload_lengh,
      )
      (encode_message_lem (t ∷ p.payload_lengh % 256 ∷ []) p.mes 17 bytes _ 20 16 refl refl refl)
  where
    t : ℕ
    t = type_message_int p.type_message % 256

-- If the message is bytes, a NOTIFY packet is 40 bytes: type, length, type of the node, the 16 bits of
-- the port field, the upper eight first, the state, and up to 33 bytes of the message, ended by zeros.
-- The manager puts `sin_port` into the field as it stands in the address, in network order: on a
-- little-endian machine its upper eight bits are the low byte of the port number.
pub encode_notify_lem :
    (p : NotifyPacket)
    → IsBytes p.mes
    → encode_notify p
      ≡ some (
          type_message_int p.type_message % 256
          ∷ p.payload_lengh % 256
          ∷ type_node_int p.type_node % 256
          ∷ p.port_node_notify / 256 % 256
          ∷ p.port_node_notify % 256
          ∷ state_int p.state_node_notify % 256
          ∷ terminated 33 p.mes)
unfolding encode_notify
encode_notify_lem p bytes =
    rw
      (
        set_bits_octet [] (replicate 40 0) 0 refl (type_message_int p.type_message),
        set_bits_octet (t ∷ []) (replicate 39 0) 8 refl p.payload_lengh,
        set_bits_octet (t ∷ n ∷ []) (replicate 38 0) 16 refl (type_node_int p.type_node),
        set_bits_word (t ∷ n ∷ k ∷ []) (replicate 36 0) 24 p.port_node_notify refl,
        set_bits_octet (t ∷ n ∷ k ∷ hi ∷ lo ∷ []) (replicate 35 0) 40 refl
            (state_int p.state_node_notify),
      )
      (encode_message_lem (t ∷ n ∷ k ∷ hi ∷ lo ∷ state_int p.state_node_notify % 256 ∷ []) p.mes 33
        bytes _ 40 48 refl refl refl)
  where
    t : ℕ
    t = type_message_int p.type_message % 256

    n : ℕ
    n = p.payload_lengh % 256

    k : ℕ
    k = type_node_int p.type_node % 256

    hi : ℕ
    hi = p.port_node_notify / 256 % 256

    lo : ℕ
    lo = p.port_node_notify % 256

pub length-terminated : (n : ℕ) (cs : List ℕ) → length (terminated n cs) ≡ suc n
length-terminated zero cs = refl
length-terminated (suc n) [] = ap suc (length-terminated n [])
length-terminated (suc n) (c ∷ cs) = ap suc (length-terminated n cs)

pub terminated-IsBytes : (n : ℕ) (cs : List ℕ) → IsBytes cs → IsBytes (terminated n cs)
terminated-IsBytes zero cs b = omega arith
terminated-IsBytes (suc n) [] b = (omega arith, terminated-IsBytes n [] tt)
terminated-IsBytes (suc n) (c ∷ cs) b = (b.0, terminated-IsBytes n cs b.1)
