-- ===== src/Wire/Writer.antt =====
-- The bit writer of source/Utils.cpp, and the reader behind it.
use native.Mathlib.Decide.{ℕ_discrete}
use node_management.Common.{
  ℕ, zero, suc, ◌+◌, ◌-◌, ◌*◌, ◌/◌, ◌%◌, ◌^◌, ◌≤◌, ◌<◌, max, bit_and, bit_or, ◌≡◌, refl, ap, ◌∙◌,
  ◌⊎◌, List, some, arith, ◌==◌, if◌then◌else◌, length, set, u8, ◌<<<◌, ◌>>>◌,
}
use node_management.Wire.{or_bit, set_bits, get_bits}
use node_management.Wire.Digits.{
  bit_of, bit_of-bit_or, bit_of-shifted, bit_of-u8, bit_of-shr, bit_of-le_one,
}
use node_management.Wire.Field.{
  byte_at, bit_at, get_elem?-byte_at, length-set, byte_at-set, or_digit_lem, field_of_digits,
  get_bits-field,
}

-- One round of the writer.
or_bit_lem :
    (buffer : List ℕ) (offset bit : ℕ)
    → offset < 8 * length buffer
    → or_bit buffer offset bit
      ≡ some (
          set buffer
            (offset / 8)
            (u8 (bit_or (byte_at buffer (offset / 8)) (bit <<< (7 - offset % 8)))))
unfolding or_bit
or_bit_lem buffer offset bit h = rw (get_elem?-byte_at buffer (offset / 8) (omega arith))

abbrev joined : List ℕ → ℕ → ℕ → List ℕ
joined buffer offset bit =
    set buffer (offset / 8) (u8 (bit_or (byte_at buffer (offset / 8)) (bit <<< (7 - offset % 8))))

bit_at-joined :
    (buffer : List ℕ) (offset bit k : ℕ)
    → offset < 8 * length buffer
    → bit < 2
    → bit_at (joined buffer offset bit) k
      ≡ (if offset == k then max (bit_at buffer k) bit else bit_at buffer k)
unfolding bit_at
bit_at-joined buffer offset bit k h b = elim (ℕ_discrete (offset / 8) (k / 8)) [
  | yes same ↦ ground (
    arith,
    byte_at-set buffer (offset / 8) (k / 8) (stored bit) (omega arith),
    bit_of-u8 (bit_or (byte_at buffer (offset / 8)) (bit <<< (7 - offset % 8))) (7 - k % 8),
    bit_of-bit_or (7 - k % 8) (byte_at buffer (offset / 8)) (bit <<< (7 - offset % 8)),
    bit_of-shifted bit (7 - offset % 8) (7 - k % 8) b,
  )
  | no other ↦ ground (arith, byte_at-set buffer (offset / 8) (k / 8) (stored bit) (omega arith))
]
  where
    stored : ℕ → ℕ
    stored c = u8 (bit_or (byte_at buffer (offset / 8)) (c <<< (7 - offset % 8)))

-- `out` is `buffer` with the `n` low digits of `value` joined into the bits from `offset` on.
pub record IsWritten (buffer : List ℕ) (offset value n : ℕ) (out : List ℕ) : Type 0 where
  pub same_length : length out ≡ length buffer
  pub inside :
      (i : ℕ)
      → i < n
      → bit_at out (offset + i) ≡ max (bit_at buffer (offset + i)) (bit_of value (n - 1 - i))
  pub outside : (k : ℕ) → (k < offset) ⊎ (offset + n ≤ k) → bit_at out k ≡ bit_at buffer k

bit_at-joined_digit :
    (buffer : List ℕ) (offset value n k : ℕ)
    → offset < 8 * length buffer
    → bit_at (joined buffer offset (bit_and (value >>> n) 1)) k
      ≡ (if offset == k then max (bit_at buffer k) (bit_of value n) else bit_at buffer k)
bit_at-joined_digit buffer offset value n k h =
    rw (bit_of-shr value n)
      (bit_at-joined buffer offset (bit_of value n) k h (omega (arith, bit_of-le_one value n)))

IsWritten-suc :
    (buffer : List ℕ) (offset value n : ℕ) (out : List ℕ)
    → offset < 8 * length buffer
    → IsWritten (joined buffer offset (bit_and (value >>> n) 1)) (offset + 1) value n out
    → IsWritten buffer offset value (suc n) out
IsWritten-suc buffer offset value n out h rest = record {
  same_length = rest.same_length ∙ length-set buffer (offset / 8) _;
  inside = λ i p. elim (ℕ_discrete i 0) [
    | yes first ↦
        ground (
          arith,
          rest.outside (offset + i),
          bit_at-joined_digit buffer offset value n (offset + i) h,
        )
    | no later ↦
        ground
          (arith, rest.inside (i - 1), bit_at-joined_digit buffer offset value n (offset + i) h)
  ];
  outside = λ k p. ground (arith, rest.outside k, bit_at-joined_digit buffer offset value n k h);
}

-- Inside the buffer the writer succeeds for up to 32 bits, moves the offset by `n`, and touches its
-- range alone.
pub set_bits-IsWritten :
    (n : ℕ) (buffer : List ℕ) (offset value : ℕ)
    → offset + n ≤ 8 * length buffer
    → n ≤ 32
    → (out : List ℕ) × (set_bits buffer offset value n ≡ some (out, offset + n))
      × IsWritten buffer offset value n out
unfolding set_bits
set_bits-IsWritten zero buffer offset value h w = (
  buffer,
  ground arith,
  record { same_length = refl; inside = λ i p. absurd (omega arith); outside = λ k p. refl },
)
set_bits-IsWritten (suc n) buffer offset value h w =
    let bit = bit_and (value >>> n) 1 in
    let (out, returns, rest) =
      set_bits-IsWritten n (joined buffer offset bit) (offset + 1) value
        (rw length-set (omega arith)) (omega arith) in
    (
      out,
      rw (or_digit_lem buffer offset value n w, or_bit_lem buffer offset bit (omega arith))
          (ground arith),
      IsWritten-suc buffer offset value n _ (omega arith) rest,
    )

-- What the writer puts of a `uint32_t` into at most 31 cleared bits the reader gives back, cut to that
-- width; both stop at the same offset, at any alignment.
pub get_bits-set_bits :
    (n : ℕ) (buffer : List ℕ) (offset value : ℕ)
    → offset + n ≤ 8 * length buffer
    → n ≤ 31
    → value < 2 ^ 32
    → ((i : ℕ) → i < n → bit_at buffer (offset + i) ≡ 0)
    → (out : List ℕ) × (set_bits buffer offset value n ≡ some (out, offset + n))
      × (get_bits out offset n ≡ some (value % 2 ^ n, offset + n))
get_bits-set_bits n buffer offset value h w range clear =
    let (out, returns, written) = set_bits-IsWritten n buffer offset value h (omega arith) in
    (
      out,
      returns,
      get_bits-field out offset n (rw written.same_length h) w
          ∙ ap (λ v. some (v, offset + n))
              (field_of_digits n out offset value
                (λ i p. ground (arith, written.inside i, clear i))),
    )
