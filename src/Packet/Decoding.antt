-- ===== src/Packet/Decoding.antt =====
-- What `RigisterPacket::decode` and `PongPacket::decode` read from a receive buffer of 256 bytes.
use native.Mathlib.Nat.{mod-eq_of_lt}
use node_management.Common.{
  ℕ, zero, suc, ◌+◌, ◌-◌, ◌*◌, ◌/◌, ◌≤◌, ◌≡◌, refl, ap, List, [], ◌∷◌, ◌++◌, some, arith, ltb,
  Bool-cases, inl, inr, length, take, drop, length-take,
}
use node_management.Types.{to_type_node, to_type_message}
use node_management.Wire.{get_bits_str}
use node_management.Wire.Octets.{IsBytes, get_bits_octet, get_bits_str_octets}
use node_management.Packet.{
  Packet, RigisterPacket, c_string, decode_message, decode_rigister, decode_pong,
}

take-append-drop : (n : ℕ) (xs : List ℕ) → take n xs ++ drop n xs ≡ xs
take-append-drop zero xs = refl
take-append-drop (suc n) [] = refl
take-append-drop (suc n) (x ∷ xs) = ap (◌∷◌ x) (take-append-drop n xs)

take-IsBytes : (n : ℕ) (xs : List ℕ) → IsBytes xs → IsBytes (take n xs)
take-IsBytes zero xs b = tt
take-IsBytes (suc n) [] b = tt
take-IsBytes (suc n) (x ∷ xs) b = (b.0, take-IsBytes n xs b.1)

read_taken :
    (n : ℕ) (pre rest : List ℕ) (offset : ℕ)
    → offset ≡ 8 * length pre
    → n ≤ length rest
    → IsBytes rest
    → get_bits_str (pre ++ rest) offset n ≡ some (take n rest, offset + 8 * n)
read_taken n pre rest offset aligned short bytes =
    rw (take-append-drop n rest, taken) at
      (get_bits_str_octets (take n rest) pre (drop n rest) offset aligned
        (take-IsBytes n rest bytes))
  where
    taken : length (take n rest) ≡ n
    taken = omega (arith, length-take n rest)

-- The message is what the length byte says, less the fields before it, or empty.
decode_message_lem :
    (pre rest : List ℕ) (offset payload : ℕ)
    → offset ≡ 8 * length pre
    → payload ≤ length pre + length rest
    → IsBytes rest
    → decode_message (pre ++ rest) offset payload ≡ some (take (payload - length pre) rest)
unfolding decode_message
decode_message_lem pre rest offset payload aligned fits bytes =
    rw (aligned, octets)
      (elim (Bool-cases (ltb (length pre) payload)) [
        | inl some_left ↦
            rw
              (
                some_left,
                read_taken (payload - length pre) pre rest (8 * length pre) refl (omega arith)
                    bytes,
              )
              refl
        | inr none_left ↦ rw (none_left, nothing (ground arith)) refl
      ])
  where
    octets : 8 * length pre / 8 ≡ length pre
    octets = omega arith

    nothing : payload ≤ length pre → payload - length pre ≡ 0
    nothing h = omega arith

module _ (t n : ℕ) (rest : List ℕ) (bytes : IsBytes (t ∷ n ∷ rest))
    (filled : length rest ≡ 254) where
  -- From a whole receive buffer of 256 bytes a PONG packet takes its type, its length byte `n`, and as
  -- message the `n - 2` bytes behind them; no read leaves the buffer.
  pub decode_pong_lem :
      (p : Packet)
      → decode_pong (t ∷ n ∷ rest) p
        ≡ some (record p {
          type_message = to_type_message t;
          payload_lengh = n;
          mes = take (n - 2) rest;
        })
  unfolding decode_pong
  decode_pong_lem p =
      rw
        (
          get_bits_octet [] (n ∷ rest) 0 refl t bytes.0,
          get_bits_octet (t ∷ []) rest 8 refl n bytes.1.0,
          decode_message_lem (t ∷ n ∷ []) rest 16 n refl (omega arith) bytes.1.1,
          mod-eq_of_lt bytes.1.0,
        )
        refl

module _ (t n k : ℕ) (rest : List ℕ) (bytes : IsBytes (t ∷ n ∷ k ∷ rest))
    (filled : length rest ≡ 253) where
  -- From a whole receive buffer of 256 bytes a REGISTER packet takes its type, its length byte `n`, the
  -- type of the node, and as message the `n - 3` bytes behind them, up to the first zero byte; no
  -- read leaves the buffer.
  pub decode_rigister_lem :
      (p : RigisterPacket)
      → decode_rigister (t ∷ n ∷ k ∷ rest) p
        ≡ some (record {
          packet = record {
            type_message = to_type_message t;
            payload_lengh = n;
            mes = c_string (take (n - 3) rest);
            client_addr = p.client_addr;
          };
          type_node = to_type_node k;
        })
  unfolding decode_rigister
  decode_rigister_lem p =
      rw
        (
          get_bits_octet [] (n ∷ k ∷ rest) 0 refl t bytes.0,
          get_bits_octet (t ∷ []) (k ∷ rest) 8 refl n bytes.1.0,
          get_bits_octet (t ∷ n ∷ []) rest 16 refl k bytes.1.1.0,
          decode_message_lem (t ∷ n ∷ k ∷ []) rest 24 n refl (omega arith) bytes.1.1.1,
          mod-eq_of_lt bytes.1.0,
        )
        refl
