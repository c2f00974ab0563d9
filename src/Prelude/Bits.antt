-- ===== src/Prelude/Bits.antt =====
-- The operations of Go's package math/bits, and the bit operators of the language, on words of
-- `w` bits: recursions over the binary digits.
use mathlib.Core.Path.{◌≡◌, refl}
use mathlib.Core.Bool.{Bool, false}
use Prim.Native.Nat.{ℕ, zero, suc, ◌+◌, ◌-◌, ◌*◌, ◌/◌, ◌%◌, ◌^◌, ◌<◌, ◌≤◌}
use native.Mathlib.Omega.{arith}
use native.Mathlib.Nat.{pow-suc, pow-succ', div-div-eq-div-mul}
use native.Mathlib.Decide.{ℕ_discrete}
use us.Prelude.Tests.{◌==◌, if◌then◌else◌}

-- Bit `i` of a word.
unfoldable pub has_bit : ℕ → ℕ → Bool
has_bit n i = n / 2 ^ i % 2 == 1

-- The number of ones.
unfoldable pub ones_count : ℕ → ℕ → ℕ
ones_count zero n = 0
ones_count (suc w) n = n % 2 + ones_count w (n / 2)

-- The number of bits without leading zeros.
unfoldable pub bit_len : ℕ → ℕ → ℕ
bit_len zero n = 0
bit_len (suc w) n = if n == 0 then 0 else suc (bit_len w (n / 2))

-- The number of trailing zeros, `w` for the zero word.
unfoldable pub trailing_zeros : ℕ → ℕ → ℕ
trailing_zeros zero n = 0
trailing_zeros (suc w) n = if n % 2 == 1 then 0 else suc (trailing_zeros w (n / 2))

unfoldable pub and_bits : ℕ → ℕ → ℕ → ℕ
and_bits zero a b = 0
and_bits (suc w) a b = a % 2 * (b % 2) + 2 * and_bits w (a / 2) (b / 2)

unfoldable pub xor_bits : ℕ → ℕ → ℕ → ℕ
xor_bits zero a b = 0
xor_bits (suc w) a b = (a + b) % 2 + 2 * xor_bits w (a / 2) (b / 2)

unfoldable pub not_bits : ℕ → ℕ → ℕ
not_bits zero a = 0
not_bits (suc w) a = 1 - a % 2 + 2 * not_bits w (a / 2)

pub div-pow_suc : (n i : ℕ) → n / 2 ^ suc i ≡ n / 2 / 2 ^ i
div-pow_suc n i = rw (pow-succ' 2 i, div-div-eq-div-mul)

pub has_bit-suc : (n i : ℕ) → has_bit n (suc i) ≡ has_bit (n / 2) i
unfolding has_bit
has_bit-suc n i = rw (div-pow_suc n i)

pub has_bit-zero : (n : ℕ) → has_bit n 0 ≡ (n % 2 == 1)
unfolding has_bit
has_bit-zero n = ground arith

pub bit_len_zero : (w : ℕ) → bit_len w 0 ≡ 0
unfolding bit_len
bit_len_zero zero = refl
bit_len_zero (suc w) = refl

-- A number other than zero lies between the powers of two that its length gives.
pub bit_len-pow :
    (w n : ℕ)
    → n < 2 ^ w
    → 0 < n
    → (2 ^ (bit_len w n - 1) ≤ n) × (n < 2 ^ bit_len w n) × (0 < bit_len w n)
unfolding bit_len
bit_len-pow zero n h p = absurd (omega arith)
bit_len-pow (suc w) n h p =
    let some_bits : (n == 0) ≡ false = ground arith in
    rw some_bits (elim (ℕ_discrete (n / 2) 0) [
      | yes e ↦ rw (e, bit_len_zero w) (omega arith, omega arith, omega arith)
      | no more ↦
          let (low, high, pos) = bit_len-pow w (n / 2) (omega (arith, pow-suc 2 w)) (omega arith) in
          let top : suc (bit_len w (n / 2)) - 1 ≡ suc (bit_len w (n / 2) - 1) = omega arith in
          (
            rw top (omega (arith, pow-suc 2 (bit_len w (n / 2) - 1))),
            omega (arith, pow-suc 2 (bit_len w (n / 2))),
            omega arith,
          )
    ])

pub pow_mono : (a b : ℕ) → a ≤ b → 2 ^ a ≤ 2 ^ b
pow_mono a zero h = let e : a ≡ 0 = omega arith in rw e (omega arith)
pow_mono a (suc b) h = elim (ℕ_discrete a (suc b)) [
  | yes e ↦ rw e (omega arith)
  | no lt ↦ omega (arith, pow-suc 2 b, pow_mono a b (omega arith))
]
