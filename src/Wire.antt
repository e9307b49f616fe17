-- ===== src/Wire.antt =====
-- The bit routines of source/Utils.cpp. A `char` is its bit pattern, a number below 256, and a
-- `uint32_t` a number below 2 ^ 32; an access outside the buffer, and a shift that C++ leaves
-- undefined, is a fault, `none`. The offset that the source passes by reference is returned
-- beside the result.
pub mod Digits
pub mod Field
pub mod Writer
pub mod Octets
mod Examples
use node_management.Common.{
  ℕ, zero, suc, ◌+◌, ◌-◌, ◌/◌, ◌%◌, bit_and, bit_or, List, [], ◌∷◌, Option, none, some, ◌>>=◌, ◌==◌,
  ltb, if◌then◌else◌, u8, ◌<<<◌, ◌>>>◌, get_elem?, set,
}

-- `buffer[offset/8] |= bit << (7 - offset % 8)`, with `bit` 0 or 1.
pub or_bit : List ℕ → ℕ → ℕ → Option (List ℕ)
or_bit buffer offset bit = do
  byte ← get_elem? buffer (offset / 8)
  some (set buffer (offset / 8) (u8 (bit_or byte (bit <<< (7 - offset % 8)))))

-- The bit is `(value >> i) & 0x1`; a `uint32_t` can be shifted by less than 32.
pub or_digit : List ℕ → ℕ → ℕ → ℕ → Option (List ℕ)
or_digit buffer offset value i =
    if ltb i 32 then or_bit buffer offset (bit_and (value >>> i) 1) else none

-- The loop of `set_bits` with `bitCount` rounds left; `i` is one less.
unfoldable pub set_bits : List ℕ → ℕ → ℕ → ℕ → Option (List ℕ × ℕ)
unfolding or_bit or_digit
set_bits buffer offset value zero = some (buffer, offset)
set_bits buffer offset value (suc i) = do
  buffer' ← or_digit buffer offset value i
  set_bits buffer' (offset + 1) value i

-- `set_bits` for a `char*`: each of `str_len` characters by its eight bits, the highest first.
unfoldable pub set_bits_str : List ℕ → ℕ → List ℕ → ℕ → Option (List ℕ × ℕ)
set_bits_str buffer offset str zero = some (buffer, offset)
set_bits_str buffer offset [] (suc n) = none
set_bits_str buffer offset (c ∷ str) (suc n) = do
  (buffer', offset') ← set_bits buffer offset c 8
  set_bits_str buffer' offset' str n

-- The loop of `get_bits` with the value so far, an `int`; `k` is `numBits - 1 - i`, and `1 << k` is an
-- `int` for `k` below 31.
get_bits_loop : List ℕ → ℕ → ℕ → ℕ → Option (ℕ × ℕ)
get_bits_loop buffer offset value zero = some (value, offset)
get_bits_loop buffer offset value (suc k) = do
  byte ← get_elem? buffer (offset / 8)
  value' ←
      if bit_and byte (1 <<< (7 - offset % 8)) == 0
      then some value
      else if ltb k 31
      then some (bit_or value (1 <<< k))
      else none
  get_bits_loop buffer (offset + 1) value' k

unfoldable pub get_bits : List ℕ → ℕ → ℕ → Option (ℕ × ℕ)
unfolding get_bits_loop
get_bits buffer offset num_bits = get_bits_loop buffer offset 0 num_bits

-- `get_bits` for a `char*`: the characters are returned as the new contents of `str`.
unfoldable pub get_bits_str : List ℕ → ℕ → ℕ → Option (List ℕ × ℕ)
get_bits_str buffer offset zero = some ([], offset)
get_bits_str buffer offset (suc n) = do
  (c, offset') ← get_bits buffer offset 8
  (str, last) ← get_bits_str buffer offset' n
  some (c ∷ str, last)
