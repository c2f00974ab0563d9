-- ===== src/Prelude/BitLaws.antt =====
-- Laws of the word operations of Prelude/Bits at powers of two.
use native.Mathlib.Nat.{pow-suc, one-le-pow}
use native.Mathlib.Decide.{ℕ_discrete, dec_lt}
use mathlib.Core.Path.{◌≡◌, refl}
use Prim.Native.Nat.{ℕ, zero, suc, ◌+◌, ◌-◌, ◌*◌, ◌/◌, ◌%◌, ◌^◌, ◌<◌, ◌≤◌}
use native.Mathlib.Omega.{arith}
use us.Prelude.Bits.{
  ones_count, bit_len, and_bits, xor_bits, not_bits, bit_len-pow, bit_len_zero, pow_mono,
}

pub ones_count_zero : (w : ℕ) → ones_count w 0 ≡ 0
unfolding ones_count
ones_count_zero zero = refl
ones_count_zero (suc w) = omega (arith, ones_count_zero w)

-- One more bit above the others.
pub ones_count-add-pow :
    (w k m : ℕ) → m < 2 ^ k → k < w → ones_count w (2 ^ k + m) ≡ suc (ones_count w m)
unfolding ones_count
ones_count-add-pow zero k m h p = absurd (omega arith)
ones_count-add-pow (suc w) zero m h p =
    let e : m ≡ 0 = omega arith in rw e (omega (arith, ones_count_zero w))
ones_count-add-pow (suc w) (suc k) m h p =
    let low : (2 ^ suc k + m) % 2 ≡ m % 2 = omega (arith, pow-suc 2 k) in
    let high : (2 ^ suc k + m) / 2 ≡ 2 ^ k + m / 2 = omega (arith, pow-suc 2 k) in
    rw (low, high, ones_count-add-pow w k (m / 2) (omega (arith, pow-suc 2 k)) (omega arith))
      (omega arith)

xor_bits_zero : (w : ℕ) → xor_bits w 0 0 ≡ 0
unfolding xor_bits
xor_bits_zero zero = refl
xor_bits_zero (suc w) = rw (xor_bits_zero w)

-- Against a mask of `h` ones, the complement in `h` bits.
pub xor_bits-mask : (w h a : ℕ) → a < 2 ^ h → h ≤ w → xor_bits w a (2 ^ h - 1) ≡ 2 ^ h - 1 - a
unfolding xor_bits
xor_bits-mask w zero a p q = let e : a ≡ 0 = omega arith in rw (e, xor_bits_zero w)
xor_bits-mask zero (suc h) a p q = absurd (omega arith)
xor_bits-mask (suc w) (suc h) a p q =
    let high : (2 ^ suc h - 1) / 2 ≡ 2 ^ h - 1 = omega (arith, pow-suc 2 h) in
    rw (high, xor_bits-mask w h (a / 2) (omega (arith, pow-suc 2 h)) (omega arith))
      (omega (arith, pow-suc 2 h, one-le-pow h 2))

and_bits_zero : (w a : ℕ) → and_bits w a 0 ≡ 0
unfolding and_bits
and_bits_zero zero a = refl
and_bits_zero (suc w) a = rw (and_bits_zero w (a / 2)) (omega arith)

-- The low bits of the complement, where all others are ones of `a`.
pub and_bits-not_bits :
    (w h l a : ℕ)
    → a < 2 ^ h
    → 2 ^ h - 1 - a < 2 ^ l
    → l ≤ h
    → h ≤ w
    → and_bits w (not_bits w a) (2 ^ l - 1) ≡ 2 ^ h - 1 - a
unfolding and_bits not_bits
and_bits-not_bits w h zero a p c q r = rw (and_bits_zero w) (omega arith)
and_bits-not_bits w zero (suc l) a p c q r = absurd (omega arith)
and_bits-not_bits zero (suc h) (suc l) a p c q r = absurd (omega arith)
and_bits-not_bits (suc w) (suc h) (suc l) a p c q r =
    let mask : (2 ^ suc l - 1) / 2 ≡ 2 ^ l - 1 = omega (arith, pow-suc 2 l) in
    let one : (2 ^ suc l - 1) % 2 ≡ 1 = omega (arith, pow-suc 2 l, one-le-pow l 2) in
    let bit : (1 - a % 2 + 2 * not_bits w (a / 2)) % 2 ≡ 1 - a % 2 = omega arith in
    let rest : (1 - a % 2 + 2 * not_bits w (a / 2)) / 2 ≡ not_bits w (a / 2) = omega arith in
    rw
      (
        mask,
        one,
        bit,
        rest,
        and_bits-not_bits w h l (a / 2) (omega (arith, pow-suc 2 h))
            (omega (arith, pow-suc 2 h, pow-suc 2 l)) (omega arith) (omega arith),
      )
      (omega (arith, pow-suc 2 h, one-le-pow h 2))

pub bit_len-le : (w h n : ℕ) → n < 2 ^ w → n < 2 ^ h → bit_len w n ≤ h
bit_len-le w h n p q = elim (ℕ_discrete n 0) [
  | yes e ↦ rw (e, bit_len_zero) (omega arith)
  | no pos ↦
      let (low, high, some_bits) = bit_len-pow w n p (omega arith) in
      elim (dec_lt h (bit_len w n)) [
        | yes over ↦ absurd (omega (arith, pow_mono h (bit_len w n - 1) (omega arith)))
        | no fits ↦ omega arith
      ]
]

pub bit_len-lt : (w n : ℕ) → n < 2 ^ w → n < 2 ^ bit_len w n
bit_len-lt w n p = elim (ℕ_discrete n 0) [
  | yes e ↦ rw (e, bit_len_zero) (omega arith)
  | no pos ↦ (bit_len-pow w n p (omega arith)).1
]
