-- ===== src/Wire/Field.antt =====
-- A buffer of source/Utils.cpp as a sequence of bits, and the bits of a range as a number.
use native.Mathlib.Nat.{pow-suc, one-le-pow}
use native.Mathlib.Decide.{dec_lt}
use node_management.Common.{
  ℕ, zero, suc, ◌+◌, ◌-◌, ◌*◌, ◌/◌, ◌%◌, ◌^◌, ◌≤◌, ◌<◌, bit_and, bit_or, ◌≡◌, refl, ap, ◌∙◌, List,
  [], ◌∷◌, none, some, ◌>>=◌, arith, ◌==◌, if◌then◌else◌, ltb, Bool, true, false, length, get_elem?,
  set, ◌<<<◌, ◌>>>◌,
}
use node_management.Wire.{or_bit, or_digit, get_bits, get_bits_loop}
use node_management.Wire.Digits.{
  bit_of, bit_or-eq-add, bit_and-pow, bit_of-le_one, scaled_half, mod-pow-suc,
}

abbrev pub byte_at : List ℕ → ℕ → ℕ
byte_at [] i = 0
byte_at (x ∷ xs) zero = x
byte_at (x ∷ xs) (suc i) = byte_at xs i

-- Bit number `k` of the buffer, the highest bit of each byte first.
unfoldable pub bit_at : List ℕ → ℕ → ℕ
bit_at buffer k = bit_of (byte_at buffer (k / 8)) (7 - k % 8)

-- The `n` bits from `offset` on, as a number.
abbrev pub field : List ℕ → ℕ → ℕ → ℕ
field buffer offset zero = 0
field buffer offset (suc n) = bit_at buffer offset * 2 ^ n + field buffer (offset + 1) n

pub get_elem?-byte_at : (xs : List ℕ) (i : ℕ) → i < length xs → get_elem? xs i ≡ some (byte_at xs i)
get_elem?-byte_at [] i h = absurd (omega arith)
get_elem?-byte_at (x ∷ xs) zero h = refl
get_elem?-byte_at (x ∷ xs) (suc i) h = get_elem?-byte_at xs i (omega arith)

get_elem?-eq-none : (xs : List ℕ) (i : ℕ) → length xs ≤ i → get_elem? xs i ≡ none
get_elem?-eq-none [] i h = refl
get_elem?-eq-none (x ∷ xs) zero h = absurd (omega arith)
get_elem?-eq-none (x ∷ xs) (suc i) h = get_elem?-eq-none xs i (omega arith)

pub length-set : (xs : List ℕ) (i v : ℕ) → length (set xs i v) ≡ length xs
length-set [] i v = refl
length-set (x ∷ xs) zero v = refl
length-set (x ∷ xs) (suc i) v = ap suc (length-set xs i v)

pub byte_at-set :
    (xs : List ℕ) (i j v : ℕ)
    → i < length xs
    → byte_at (set xs i v) j ≡ (if i == j then v else byte_at xs j)
byte_at-set [] i j v h = absurd (omega arith)
byte_at-set (x ∷ xs) zero zero v h = refl
byte_at-set (x ∷ xs) zero (suc j) v h = ground arith
byte_at-set (x ∷ xs) (suc i) zero v h = ground arith
byte_at-set (x ∷ xs) (suc i) (suc j) v h = ground (arith, byte_at-set xs i j v)

-- The shift of a round of the writer is defined.
pub or_digit_lem :
    (buffer : List ℕ) (offset value i : ℕ)
    → suc i ≤ 32
    → or_digit buffer offset value i ≡ or_bit buffer offset (bit_and (value >>> i) 1)
unfolding or_digit
or_digit_lem buffer offset value i w = ground arith

-- One round of the reader: the value so far is doubled, and the bit is added.
join_bit :
    (b k q j : ℕ)
    → b ≤ 1
    → (if b * 2 ^ j == 0 then q * 2 ^ suc k else bit_or (q * 2 ^ suc k) (1 <<< k))
      ≡ (2 * q + b) * 2 ^ k
join_bit zero k q j h = ground (arith, scaled_half q k)
join_bit (suc zero) k q j h = ground (
  arith,
  one-le-pow j 2,
  one-le-pow k 2,
  pow-suc 2 k,
  scaled_half q k,
  bit_or-eq-add (suc k) q (1 <<< k),
)
join_bit (suc (suc b)) k q j h = absurd (omega arith)

read_bit :
    (byte k q j : ℕ)
    → (if bit_and byte (1 <<< j) == 0 then q * 2 ^ suc k else bit_or (q * 2 ^ suc k) (1 <<< k))
      ≡ (2 * q + bit_of byte j) * 2 ^ k
read_bit byte k q j = rw mask (join_bit (bit_of byte j) k q j (bit_of-le_one byte j))
  where
    mask : bit_and byte (1 <<< j) ≡ bit_of byte j * 2 ^ j
    mask = ap (bit_and byte) (omega arith) ∙ bit_and-pow j byte

-- The shift of a round fits into an `int`.
read_in_range :
    (byte k q j : ℕ)
    → suc k ≤ 31
    → (if bit_and byte (1 <<< j) == 0
        then some (q * 2 ^ suc k)
        else if ltb k 31
        then some (bit_or (q * 2 ^ suc k) (1 <<< k))
        else none)
      ≡ some ((2 * q + bit_of byte j) * 2 ^ k)
read_in_range byte k q j w =
    joined _ _ (bit_and byte (1 <<< j) == 0) (ltb k 31) (ground arith)
    ∙ ap some (read_bit byte k q j)
  where
    joined :
        (x y : ℕ) (clear fits : Bool)
        → fits ≡ true
        → (if clear then some x else if fits then some y else none) ≡ some (if clear then x else y)
    joined x y true fits e = refl
    joined x y false true e = refl
    joined x y false false e = absurd (cc e)

get_bits_loop-field :
    (k : ℕ) (buffer : List ℕ) (offset q : ℕ)
    → offset + k ≤ 8 * length buffer
    → k ≤ 31
    → get_bits_loop buffer offset (q * 2 ^ k) k
      ≡ some (q * 2 ^ k + field buffer offset k, offset + k)
unfolding get_bits_loop bit_at
get_bits_loop-field zero buffer offset q h w = ground arith
get_bits_loop-field (suc k) buffer offset q h w =
    rw
      (
        get_elem?-byte_at buffer (offset / 8) (omega arith),
        read_in_range (byte_at buffer (offset / 8)) k q (7 - offset % 8) w,
      )
      (ground (
        arith,
        get_bits_loop-field k buffer (offset + 1) (2 * q + bit_at buffer offset) (omega arith)
            (omega arith),
        scaled_half q k,
      ))

-- Inside the buffer the reader returns up to 31 bits of its range.
pub get_bits-field :
    (buffer : List ℕ) (offset n : ℕ)
    → offset + n ≤ 8 * length buffer
    → n ≤ 31
    → get_bits buffer offset n ≡ some (field buffer offset n, offset + n)
unfolding get_bits
get_bits-field buffer offset n h w = ground (arith, get_bits_loop-field n buffer offset 0 h w)

get_bits_loop_beyond :
    (k : ℕ) (buffer : List ℕ) (offset value : ℕ)
    → 0 < k
    → 8 * length buffer < offset + k
    → get_bits_loop buffer offset value k ≡ none
unfolding get_bits_loop
get_bits_loop_beyond zero buffer offset value pos h = absurd (omega arith)
get_bits_loop_beyond (suc k) buffer offset value pos h =
    elim (dec_lt (offset / 8) (length buffer)) [
      | yes below ↦ rw (get_elem?-byte_at buffer (offset / 8) below) (
          onward (bit_and (byte_at buffer (offset / 8)) (1 <<< (7 - offset % 8)) == 0) (ltb k 31)
            (λ v. get_bits_loop_beyond k buffer (offset + 1) v (omega arith) (omega arith)))
      | no above ↦ rw (get_elem?-eq-none buffer (offset / 8) (omega arith))
    ]
  where
    onward :
        (clear fits : Bool)
        → ((v : ℕ) → get_bits_loop buffer (offset + 1) v k ≡ none)
        → (do
          value' ←
              if clear then some value else if fits then some (bit_or value (1 <<< k)) else none
          get_bits_loop buffer (offset + 1) value' k)
          ≡ none
    onward true fits rest = rest value
    onward false true rest = rest (bit_or value (1 <<< k))
    onward false false rest = refl

-- A read of at least one bit that crosses the end of the buffer faults.
pub get_bits_beyond :
    (buffer : List ℕ) (offset n : ℕ)
    → 0 < n
    → 8 * length buffer < offset + n
    → get_bits buffer offset n ≡ none
unfolding get_bits
get_bits_beyond buffer offset n pos h = get_bits_loop_beyond n buffer offset 0 pos h

-- Bits that are the low digits of a value make up that value, cut to the width.
pub field_of_digits :
    (n : ℕ) (out : List ℕ) (offset value : ℕ)
    → ((i : ℕ) → i < n → bit_at out (offset + i) ≡ bit_of value (n - 1 - i))
    → field out offset n ≡ value % 2 ^ n
field_of_digits zero out offset value h = omega arith
field_of_digits (suc n) out offset value h = ground (
  arith,
  h 0,
  mod-pow-suc value n,
  field_of_digits n out (offset + 1) value (λ i p. ground (arith, h (suc i))),
)
