-- ===== src/Wire/Octets.antt =====
-- The bit routines at byte-aligned offsets, as the packets use them: each writes or reads whole
-- bytes of a buffer that is split into what stands before, the byte, and what stands after.
use Prim.Native.Nat.add
use native.Mathlib.Nat.{one-le-pow, pow-suc, div-div-eq-div-mul, mul-le-mul_right, mod-eq_of_lt}
use native.Mathlib.Numerals.{towards_suc}
use node_management.Common.{
  ℕ, zero, suc, ◌+◌, ◌-◌, ◌*◌, ◌/◌, ◌%◌, ◌^◌, ◌≤◌, ◌<◌, bit_and, bit_or, ◌≡◌, refl, sym, ap, ◌∙◌,
  take, List, [], ◌∷◌, ◌++◌, some, ◌>>=◌, arith, length, All, replicate, u8, ◌<<<◌, ◌>>>◌,
  length-append, get_elem?-append, set-append, append-snoc, >>=-regroup,
}
use node_management.Wire.{or_bit, set_bits, set_bits_str, get_bits, get_bits_str}
use node_management.Wire.Digits.{
  bit_of, bit_or-eq-add, bit_of-shr, bit_of-le_one, scaled_half, mod-pow-suc,
}
use node_management.Wire.Field.{or_digit_lem, get_bits-field, field_of_digits, bit_at, byte_at}

-- Each element is the pattern of a `char`.
abbrev pub IsBytes : List ℕ → Type 0
IsBytes = All (λ b. b < 256)

or_octet :
    (pre post : List ℕ) (b offset bit : ℕ)
    → offset / 8 ≡ length pre
    → or_bit (pre ++ b ∷ post) offset bit
      ≡ some (pre ++ u8 (bit_or b (bit <<< (7 - offset % 8))) ∷ post)
unfolding or_bit
or_octet pre post b offset bit h = rw (h, get_elem?-append pre post b, set-append pre post b) refl

next_octet :
    (q n c : ℕ)
    → c ≤ 1
    → (q + 1) * 2 ^ suc n ≤ 256
    → u8 (bit_or (q * 2 ^ suc n) (c * 2 ^ n)) ≡ (2 * q + c) * 2 ^ n
next_octet q n c h fits = ground (
  arith,
  bit_or-eq-add (suc n) q (c * 2 ^ n),
  one-le-pow n 2,
  pow-suc 2 n,
  scaled_half q n,
  mul-le-mul_right (2 ^ n) h,
  mul-le-mul_right (2 ^ n) fits,
)

-- The `n` rounds that are left fill the low `n` bits of the byte.
fill_octet :
    (n q value : ℕ) (pre post : List ℕ)
    → n ≤ 8
    → (q + 1) * 2 ^ n ≤ 256
    → set_bits (pre ++ (q * 2 ^ n) ∷ post) (8 * length pre + (8 - n)) value n
      ≡ some (pre ++ (q * 2 ^ n + value % 2 ^ n) ∷ post, 8 * length pre + 8)
unfolding set_bits
fill_octet zero q value pre post h fits = ground arith
fill_octet (suc n) q value pre post h fits =
    rw
      (
        or_digit_lem (pre ++ q * 2 ^ suc n ∷ post) (8 * length pre + (8 - suc n)) value n
            (omega arith),
        or_octet pre post (q * 2 ^ suc n) (8 * length pre + (8 - suc n)) (bit_and (value >>> n) 1)
            (omega arith),
        bit_of-shr value n,
        place,
        next_octet q n (bit_of value n) (bit_of-le_one value n) fits,
        onward,
      )
      (fill_octet n (2 * q + bit_of value n) value pre post (omega arith)
          (room (bit_of value n) (bit_of-le_one value n))
        ∙ ap (λ b. some (pre ++ b ∷ post, 8 * length pre + 8)) joined)
  where
    place : 7 - (8 * length pre + (8 - suc n)) % 8 ≡ n
    place = omega arith

    onward : 8 * length pre + (8 - suc n) + 1 ≡ 8 * length pre + (8 - n)
    onward = omega arith

    room : (c : ℕ) → c ≤ 1 → (2 * q + c + 1) * 2 ^ n ≤ 256
    room c p = omega (arith, fits, pow-suc 2 n, scaled_half (q + 1) n, mul-le-mul_right (2 ^ n) p)

    joined : (2 * q + bit_of value n) * 2 ^ n + value % 2 ^ n ≡ q * 2 ^ suc n + value % 2 ^ suc n
    joined = omega (arith, mod-pow-suc value n, scaled_half q n)

bit_at_octet :
    (pre post : List ℕ) (b k : ℕ)
    → k / 8 ≡ length pre
    → bit_at (pre ++ b ∷ post) k ≡ bit_of b (7 - k % 8)
unfolding bit_at
bit_at_octet pre post b k h = ap (λ c. bit_of c (7 - k % 8)) (rw h (byte_at-append pre))
  where
    byte_at-append : (xs : List ℕ) → byte_at (xs ++ b ∷ post) (length xs) ≡ b
    byte_at-append [] = refl
    byte_at-append (x ∷ xs) = byte_at-append xs

module _ (pre post : List ℕ) (offset : ℕ) (aligned : offset ≡ 8 * length pre) where
  -- A cleared byte takes the low eight bits of the value.
  pub set_bits_octet :
      (value : ℕ)
      → set_bits (pre ++ 0 ∷ post) offset value 8 ≡ some (pre ++ (value % 256) ∷ post, offset + 8)
  set_bits_octet value = rw aligned (ground (arith, fill_octet 8 0 value pre post))

  -- The reader returns the byte that stands there.
  pub get_bits_octet :
      (b : ℕ) → b < 256 → get_bits (pre ++ b ∷ post) offset 8 ≡ some (b, offset + 8)
  get_bits_octet b h =
      get_bits-field (pre ++ b ∷ post) offset 8 (omega (arith, length-append pre (b ∷ post)))
        (omega arith)
      ∙ ap (λ v. some (v, offset + 8))
          (field_of_digits 8 (pre ++ b ∷ post) offset b digit ∙ mod-eq_of_lt h)
    where
      digit : (i : ℕ) → i < 8 → bit_at (pre ++ b ∷ post) (offset + i) ≡ bit_of b (8 - 1 - i)
      digit i p =
          bit_at_octet pre post b (offset + i) (omega arith)
          ∙ ap (bit_of b) {x = 7 - (offset + i) % 8} {y = 8 - 1 - i} (omega arith)

shr-add_eight : (value i : ℕ) → value >>> (i + 8) ≡ (value / 256) >>> i
shr-add_eight value i = ap (◌/◌ value) powers ∙ sym (div-div-eq-div-mul value 256 (2 ^ i))
  where
    powers : 2 ^ (i + 8) ≡ 256 * 2 ^ i
    powers = simp towards_suc (omega arith)

-- A value of more than eight bits is written as its high part, then its low byte.
set_bits_parts :
    (m : ℕ) (buffer : List ℕ) (offset value : ℕ)
    → m + 8 ≤ 32
    → set_bits buffer offset value (m + 8)
      ≡ (set_bits buffer offset (value / 256) m >>= λ (b, o). set_bits b o value 8)
unfolding set_bits
set_bits_parts zero buffer offset value w = refl
set_bits_parts (suc m) buffer offset value w =
    rw
      (
        add.suc m 8,
        or_digit_lem buffer offset value (m + 8) (omega arith),
        or_digit_lem buffer offset (value / 256) m (omega arith),
        shr-add_eight value m,
      )
      (>>=-regroup (or_bit buffer offset (bit_and ((value / 256) >>> m) 1)) _ _ _
        (λ b. set_bits_parts m b (offset + 1) value (omega arith)))

pub set_bits_word :
    (pre post : List ℕ) (offset value : ℕ)
    → offset ≡ 8 * length pre
    → set_bits (pre ++ 0 ∷ 0 ∷ post) offset value 16
      ≡ some (pre ++ (value / 256 % 256) ∷ (value % 256) ∷ post, offset + 16)
set_bits_word pre post offset value aligned =
    set_bits_parts 8 (pre ++ 0 ∷ 0 ∷ post) offset value (omega arith)
    ∙ rw
        (
          set_bits_octet pre (0 ∷ post) offset aligned (value / 256),
          ← append-snoc pre (0 ∷ post) (value / 256 % 256),
          ← append-snoc pre ((value % 256) ∷ post) (value / 256 % 256),
        )
        (ground (
          arith,
          set_bits_octet (pre ++ (value / 256 % 256) ∷ []) post (offset + 8)
              (omega (arith, length-append pre ((value / 256 % 256) ∷ []))) value,
        ))

-- The writer of strings copies `n` characters over cleared bytes.
pub set_bits_str_octets :
    (n : ℕ) (pre post str : List ℕ) (offset : ℕ)
    → offset ≡ 8 * length pre
    → n ≤ length str
    → IsBytes str
    → set_bits_str (pre ++ (replicate n 0 ++ post)) offset str n
      ≡ some (pre ++ (take n str ++ post), offset + 8 * n)
unfolding set_bits_str
set_bits_str_octets zero pre post str offset aligned h b = ground arith
set_bits_str_octets (suc n) pre post [] offset aligned h b = absurd (omega arith)
set_bits_str_octets (suc n) pre post (c ∷ str) offset aligned h b =
    rw
      (
        set_bits_octet pre (replicate n 0 ++ post) offset aligned c,
        mod-eq_of_lt b.0,
        ← append-snoc pre (replicate n 0 ++ post) c,
        ← append-snoc pre (take n str ++ post) c,
      )
      (ground (
        arith,
        set_bits_str_octets n (pre ++ c ∷ []) post str (offset + 8)
            (omega (arith, length-append pre (c ∷ []))) (omega arith) b.1,
      ))

-- The reader of strings returns the bytes that stand there.
pub get_bits_str_octets :
    (str pre post : List ℕ) (offset : ℕ)
    → offset ≡ 8 * length pre
    → IsBytes str
    → get_bits_str (pre ++ (str ++ post)) offset (length str) ≡ some (str, offset + 8 * length str)
unfolding get_bits_str
get_bits_str_octets [] pre post offset aligned b = ground arith
get_bits_str_octets (c ∷ str) pre post offset aligned b =
    let rest =
      get_bits_str_octets str (pre ++ c ∷ []) post (offset + 8)
        (omega (arith, length-append pre (c ∷ []))) b.1 in
    rw
      (
        get_bits_octet pre (str ++ post) offset aligned c b.0,
        (rw (append-snoc pre (str ++ post) c) at rest),
      )
      (ground arith)

pub zeros-IsBytes : (n : ℕ) → IsBytes (replicate n 0)
zeros-IsBytes zero = tt
zeros-IsBytes (suc n) = (omega arith, zeros-IsBytes n)

pub append-IsBytes : (xs ys : List ℕ) → IsBytes xs → IsBytes ys → IsBytes (xs ++ ys)
append-IsBytes [] ys hx hy = hy
append-IsBytes (x ∷ xs) ys hx hy = (hx.0, append-IsBytes xs ys hx.1 hy)
