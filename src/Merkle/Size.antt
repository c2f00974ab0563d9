-- ===== src/Merkle/Size.antt =====
-- ProofSize and nextSubtreeSize of merkle/proof.go. Arguments are non-negative ints.
use native.Mathlib.Nat.{one-le-pow}
use us.Prelude.{
  ℕ, ◌+◌, ◌-◌, ◌%◌, ◌^◌, ◌<◌, ◌≤◌, ◌≡◌, arith, ltb, if◌then◌else◌, ones_count, bit_len,
  trailing_zeros, and_bits, xor_bits, not_bits, xor_bits-mask, and_bits-not_bits, bit_len-le,
  bit_len-lt, pow_mono,
}

-- uint(n - 1), which is all ones for 0.
unfoldable pub before : ℕ → ℕ
before n = (n + 2 ^ 64 - 1) % 2 ^ 64

unfoldable pub proof_size : ℕ → ℕ → ℕ → ℕ
unfolding before
proof_size n start end =
    let path_mask = before (2 ^ bit_len 64 (xor_bits 64 (before end) (before n)) % 2 ^ 64) in
    ones_count 64 start + ones_count 64 (and_bits 64 (not_bits 64 (before end)) path_mask)

unfoldable pub next_subtree_size : ℕ → ℕ → ℕ
next_subtree_size start end =
    let ideal = trailing_zeros 64 start in
    let max = bit_len 64 (end - start) - 1 in if ltb max ideal then 2 ^ max else 2 ^ ideal

-- In a perfect tree of 2 ^ h leaves, for h below 64 and a range that ends after 0 and within the
-- tree, ProofSize is the number of ones in start plus the number of ones in the count of leaves
-- after the range.
pub proof_size-perfect :
    (h start end : ℕ)
    → h < 64
    → 0 < end
    → end ≤ 2 ^ h
    → proof_size (2 ^ h) start end ≡ ones_count 64 start + ones_count 64 (2 ^ h - end)
unfolding proof_size
proof_size-perfect h start end fits pos within =
    let word : 2 ^ h < 2 ^ 64 = omega (arith, pow_mono h 63 (omega arith)) in
    let last : (end + 2 ^ 64 - 1) % 2 ^ 64 ≡ end - 1 = omega arith in
    let top : (2 ^ h + 2 ^ 64 - 1) % 2 ^ 64 ≡ 2 ^ h - 1 = omega arith in
    let c = 2 ^ h - 1 - (end - 1) in
    let l = bit_len 64 c in
    let short : l ≤ h = bit_len-le 64 h c (omega arith) (omega arith) in
    let mask_fits : 2 ^ l % 2 ^ 64 ≡ 2 ^ l = omega (arith, pow_mono l h short) in
    let mask : (2 ^ l + 2 ^ 64 - 1) % 2 ^ 64 ≡ 2 ^ l - 1 =
      omega (arith, pow_mono l h short, one-le-pow l 2) in
    let after : 2 ^ h - 1 - (end - 1) ≡ 2 ^ h - end = omega arith in
    rw (
      last,
      top,
      xor_bits-mask 64 h (end - 1) (omega arith) (omega arith),
      mask_fits,
      mask,
      and_bits-not_bits 64 h l (end - 1) (omega arith) (bit_len-lt 64 c (omega arith)) short
          (omega arith),
      after,
    )
