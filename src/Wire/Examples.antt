-- ===== src/Wire/Examples.antt =====
-- The bit routines of source/Utils.cpp at concrete buffers.
use node_management.Common.{
  ℕ, zero, suc, ◌+◌, ◌<◌, ◌%◌, ◌/◌, ◌-◌, ◌≡◌, refl, List, [], ◌∷◌, some, arith,
}
use node_management.Wire.{set_bits, get_bits}
use node_management.Wire.Digits.{bit_of-zero}
use node_management.Wire.Field.{byte_at, bit_at, field, get_bits-field}
use node_management.Wire.Writer.{get_bits-set_bits}

-- Two bytes; the middle eight bits are read across their border.
abbrev two_bytes : List ℕ
two_bytes = 171 ∷ 205 ∷ []

abbrev three_zeros : List ℕ
three_zeros = 0 ∷ 0 ∷ 0 ∷ []

get_bits_test : get_bits two_bytes 4 8 ≡ some (188, 12)
unfolding get_bits
get_bits_test = refl

get_bits-field_example : get_bits two_bytes 4 8 ≡ some (field two_bytes 4 8, 12)
get_bits-field_example = get_bits-field two_bytes 4 8 (omega arith) (omega arith)

all_zero : (i : ℕ) → byte_at three_zeros i ≡ 0
all_zero zero = refl
all_zero (suc zero) = refl
all_zero (suc (suc zero)) = refl
all_zero (suc (suc (suc i))) = refl

cleared : (i : ℕ) → i < 11 → bit_at three_zeros (5 + i) ≡ 0
unfolding bit_at
cleared i p = rw (all_zero ((5 + i) / 8)) (bit_of-zero (7 - (5 + i) % 8))

get_bits-set_bits_example :
    (out : List ℕ) × (set_bits three_zeros 5 3000 11 ≡ some (out, 16))
    × (get_bits out 5 11 ≡ some (952, 16))
get_bits-set_bits_example =
    get_bits-set_bits 11 three_zeros 5 3000 (omega arith) (omega arith) (omega arith) cleared
