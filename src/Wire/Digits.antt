-- ===== src/Wire/Digits.antt =====
-- Laws of `|` and `&` by binary digits, which Wire needs of the operations of C.
use Prim.Native.Nat.{digits, bitwise, bit_and-bitwise, bit_or-bitwise}
use native.Mathlib.Nat.{
  le_refl, pow-suc, pow-succ', div-div-eq-div-mul, one-le-pow, mod-lt, div-add-mod, mod-eq_of_lt,
  add-mul-mod_self_right,
}
use node_management.Common.{
  ℕ, zero, suc, ◌+◌, ◌*◌, ◌/◌, ◌%◌, ◌^◌, ◌≤◌, ◌<◌, min, max, bit_and, bit_or, ◌≡◌, refl, ap, ◌∙◌,
  arith, u8, ◌>>>◌, ◌==◌, if◌then◌else◌,
}

-- Digit number `j` of `x`.
abbrev pub bit_of : ℕ → ℕ → ℕ
bit_of x zero = x % 2
bit_of x (suc j) = bit_of (x / 2) j

-- The fuel that `digits` counts down does not matter, once it is at least the first number.
module _ (rest : ℕ → ℕ) (join : ℕ → ℕ → ℕ) where
  digits_fuel : (x n m y : ℕ) → x ≤ n → x ≤ m → digits rest join n x y ≡ digits rest join m x y
  digits_fuel zero zero zero y p q = refl
  digits_fuel zero zero (suc m) y p q = refl
  digits_fuel zero (suc n) zero y p q = refl
  digits_fuel zero (suc n) (suc m) y p q = refl
  digits_fuel (suc x) zero m y p q = absurd (omega arith)
  digits_fuel (suc x) (suc n) zero y p q = absurd (omega arith)
  digits_fuel (suc x) (suc n) (suc m) y p q =
      rw (digits_fuel (suc x / 2) n m (y / 2) (omega arith) (omega arith))

  lowest_digit :
      (x y : ℕ)
      → bitwise rest join (suc x) y
        ≡ join (suc x % 2) (y % 2) + 2 * bitwise rest join (suc x / 2) (y / 2)
  lowest_digit x y =
      omega (arith, digits_fuel (suc x / 2) x (suc x / 2) (y / 2) (omega arith) (le_refl _))

pub bit_or_halves : (x y : ℕ) → bit_or x y ≡ max (x % 2) (y % 2) + 2 * bit_or (x / 2) (y / 2)
bit_or_halves zero y = simp bit_or-bitwise (omega arith)
bit_or_halves (suc x) y = simp bit_or-bitwise (lowest_digit (λ z. z) max x y)

pub bit_and_halves : (x y : ℕ) → bit_and x y ≡ min (x % 2) (y % 2) + 2 * bit_and (x / 2) (y / 2)
bit_and_halves zero y = simp bit_and-bitwise (omega arith)
bit_and_halves (suc x) y = simp bit_and-bitwise (lowest_digit (λ z. 0) min x y)

zero_operand : (bound x : ℕ) → x < bound → (bit_or x 0 ≡ x) × (bit_and x 0 ≡ 0)
zero_operand zero x below = absurd (omega arith)
zero_operand (suc bound) zero below = (refl, refl)
zero_operand (suc bound) (suc x) below =
    let (joined, met) = zero_operand bound (suc x / 2) (omega arith) in
    (omega (arith, bit_or_halves (suc x) 0, joined), omega (arith, bit_and_halves (suc x) 0, met))

pub bit_or-zero : (x : ℕ) → bit_or x 0 ≡ x
bit_or-zero x = (zero_operand (suc x) x (omega arith)).0

pub bit_and-zero : (x : ℕ) → bit_and x 0 ≡ 0
bit_and-zero x = (zero_operand (suc x) x (omega arith)).1

pub bit_and-one : (a : ℕ) → bit_and a 1 ≡ a % 2
bit_and-one a = omega (arith, bit_and_halves a 1, bit_and-zero (a / 2))

pub scaled_half : (q k : ℕ) → q * 2 ^ suc k ≡ 2 * (q * 2 ^ k)
scaled_half q k = omega (arith, ap (λ (t : ℕ). q * t) (pow-suc 2 k))

-- `|` adds a value that fits the cleared low bits.
pub bit_or-eq-add : (k q r : ℕ) → r < 2 ^ k → bit_or (q * 2 ^ k) r ≡ q * 2 ^ k + r
bit_or-eq-add zero q r h = ground (arith, bit_or-zero q)
bit_or-eq-add (suc k) q r h = ground (
  arith,
  bit_or_halves (q * 2 ^ suc k) r,
  scaled_half q k,
  bit_or-eq-add k q (r / 2) (omega arith),
)

-- The test of a single bit.
pub bit_and-pow : (k a : ℕ) → bit_and a (2 ^ k) ≡ bit_of a k * 2 ^ k
bit_and-pow zero a = omega (arith, bit_and-one a)
bit_and-pow (suc k) a = ground (
  arith,
  bit_and_halves a (2 ^ suc k),
  pow-suc 2 k,
  bit_and-pow k (a / 2),
  scaled_half (bit_of (a / 2) k) k,
)

pub bit_of-zero : (j : ℕ) → bit_of 0 j ≡ 0
bit_of-zero zero = refl
bit_of-zero (suc j) = bit_of-zero j

-- Digits combine place by place.
pub bit_of-bit_or : (j a b : ℕ) → bit_of (bit_or a b) j ≡ max (bit_of a j) (bit_of b j)
bit_of-bit_or zero a b = omega (arith, bit_or_halves a b)
bit_of-bit_or (suc j) a b = rw (halve a b) (bit_of-bit_or j (a / 2) (b / 2))
  where
    halve : (x y : ℕ) → bit_or x y / 2 ≡ bit_or (x / 2) (y / 2)
    halve x y = omega (arith, bit_or_halves x y)

-- A shifted single bit has that one digit.
pub bit_of-shifted : (c k j : ℕ) → c < 2 → bit_of (c * 2 ^ k) j ≡ (if j == k then c else 0)
bit_of-shifted c zero zero h = omega arith
bit_of-shifted c zero (suc j) h = ground (arith, bit_of-zero j)
bit_of-shifted c (suc k) zero h = ground (arith, scaled_half c k)
bit_of-shifted c (suc k) (suc j) h = rw halve (ground (arith, bit_of-shifted c k j h))
  where
    halve : c * 2 ^ suc k / 2 ≡ c * 2 ^ k
    halve = omega (arith, scaled_half c k)

-- A byte keeps the eight low digits.
pub bit_of-u8 : (x j : ℕ) → j < 8 → bit_of (u8 x) j ≡ bit_of x j
bit_of-u8 x zero h = omega arith
bit_of-u8 x (suc zero) h = omega arith
bit_of-u8 x (suc (suc zero)) h = omega arith
bit_of-u8 x (suc (suc (suc zero))) h = omega arith
bit_of-u8 x (suc (suc (suc (suc zero)))) h = omega arith
bit_of-u8 x (suc (suc (suc (suc (suc zero))))) h = omega arith
bit_of-u8 x (suc (suc (suc (suc (suc (suc zero)))))) h = omega arith
bit_of-u8 x (suc (suc (suc (suc (suc (suc (suc zero))))))) h = omega arith
bit_of-u8 x (suc (suc (suc (suc (suc (suc (suc (suc j)))))))) h = absurd (omega arith)

pub div-pow-mod : (x j : ℕ) → (x >>> j) % 2 ≡ bit_of x j
div-pow-mod x zero = omega arith
div-pow-mod x (suc j) = rw (pow-succ' 2 j, ← div-div-eq-div-mul x 2 (2 ^ j)) (div-pow-mod (x / 2) j)

-- `(x >> j) & 1` is that digit.
pub bit_of-shr : (x j : ℕ) → bit_and (x >>> j) 1 ≡ bit_of x j
bit_of-shr x j = bit_and-one (x >>> j) ∙ div-pow-mod x j

pub bit_of-le_one : (x j : ℕ) → bit_of x j ≤ 1
bit_of-le_one x zero = omega arith
bit_of-le_one x (suc j) = bit_of-le_one (x / 2) j

-- One more digit of a remainder.
pub mod-pow-suc : (x n : ℕ) → x % 2 ^ suc n ≡ bit_of x n * 2 ^ n + x % 2 ^ n
mod-pow-suc x n =
    ap (λ (t : ℕ). t % 2 ^ suc n) split
    ∙ add-mul-mod_self_right (bit_of x n * 2 ^ n + x % 2 ^ n) (x / 2 ^ n / 2) (2 ^ suc n)
    ∙ mod-eq_of_lt below
  where
    halves : x / 2 ^ n ≡ x / 2 ^ n / 2 * 2 + bit_of x n
    halves = omega (arith, div-pow-mod x n)

    split : x ≡ bit_of x n * 2 ^ n + x % 2 ^ n + x / 2 ^ n / 2 * 2 ^ suc n
    split = omega (
      arith,
      div-add-mod x (2 ^ n),
      ap (λ (t : ℕ). 2 ^ n * t) halves,
      scaled_half (x / 2 ^ n / 2) n,
    )

    below : bit_of x n * 2 ^ n + x % 2 ^ n < 2 ^ suc n
    below = grind (arith, mod-lt x (one-le-pow n 2 (omega arith)), bit_of-le_one x n, pow-suc 2 n)
