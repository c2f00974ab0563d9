-- ===== src/Merkle/RangeProof/Verify.antt =====
-- Lemmas on verifyProof (merkle/proof.go) for the proof cut out of a tree.
use mathlib.Core.List.{append_assoc}
use native.Mathlib.Nat.{pow-suc, one-le-pow}
use native.Mathlib.Decide.{dec_lt}
use us.Prelude.{
  ℕ, zero, suc, ◌+◌, ◌-◌, ◌/◌, ◌^◌, ◌<◌, ◌≡◌, refl, ap, ◌∙◌, true, false, List, ◌++◌, Option, some,
  arith, length, length-append, ones_count, ones_count_zero, ones_count-add-pow,
}
use us.Merkle.Hash.{Blake, Hash, sum_pair}
use us.Merkle.RangeProof.{verify_loop, pop}
use us.Merkle.RangeProof.Tree.{
  within, apart, cut, cut-within, cut-apart, cut-split, verify-within, verify-apart, verify-split,
  single_leaf, Place, inside, outside, across, place,
}

module _ (start end : ℕ) (legal : start < end) (node : ℕ → ℕ → Hash) where
  -- The number of hashes of a subtree that meets the range, and of one that does not.
  length-cut-apart :
      (k i : ℕ)
      → within start end i (i + 2 ^ k) ≡ false
      → apart start end i (i + 2 ^ k) ≡ true
      → length (cut start end node k i) ≡ 1
  length-cut-apart k i e h = ap length (cut-apart start end node k i e h)

  pub length-cut :
      (k i : ℕ)
      → k < 64
      → start < i + 2 ^ k
      → i < end
      → length (cut start end node k i)
        ≡ ones_count 64 (start - i) + ones_count 64 (i + 2 ^ k - end)
  length-cut k i fits p q = count k i fits p q (place start end i (i + 2 ^ k))
    where
      count :
          (k i : ℕ)
          → k < 64
          → start < i + 2 ^ k
          → i < end
          → Place start end i (i + 2 ^ k)
          → length (cut start end node k i)
            ≡ ones_count 64 (start - i) + ones_count 64 (i + 2 ^ k - end)
      count k i fits p q (inside e) =
          let before : start - i ≡ 0 = ground arith in
          let after : i + 2 ^ k - end ≡ 0 = ground arith in
          rw (cut-within start end node k i e, before, after, ones_count_zero) (omega arith)
      count k i fits p q (outside e h) = absurd (ground arith)
      count zero i fits p q (across e h) = absurd (single_leaf start end i legal e h)
      count (suc k) i fits p q (across e h) =
          let pow = pow-suc 2 k in
          let pos = one-le-pow k 2 in
          let mid = i + 2 ^ k in
          let left = count k i (omega arith) in
          let right = count k mid (omega arith) in
          rw (cut-split start end node k i e h, length-append)
            (elim (dec_lt start mid) [
              | no before ↦
                  let whole = length-cut-apart k i (ground (arith, pos)) (ground arith) in
                  let more : start - i ≡ 2 ^ k + (start - mid) = omega arith in
                  let same : mid + 2 ^ k - end ≡ i + 2 ^ suc k - end = omega (arith, pow) in
                  let rest =
                    right (omega (arith, pow)) (ground arith) (place start end mid (mid + 2 ^ k)) in
                  rw
                    (
                      whole,
                      rest,
                      same,
                      more,
                      ones_count-add-pow 64 k (start - mid) (omega (arith, pow)) (omega arith),
                    )
                    (omega arith)
              | yes first ↦ elim (dec_lt mid end) [
                | no after ↦
                    let whole = length-cut-apart k mid (ground (arith, pos)) (ground arith) in
                    let more : i + 2 ^ suc k - end ≡ 2 ^ k + (mid - end) = omega (arith, pow) in
                    let rest = left first q (place start end i mid) in
                    rw
                      (
                        rest,
                        whole,
                        more,
                        ones_count-add-pow 64 k (mid - end) (omega arith) (omega arith),
                      )
                      (omega arith)
                | yes second ↦
                    let none_after : mid - end ≡ 0 = omega arith in
                    let none_before : start - mid ≡ 0 = omega arith in
                    let same : mid + 2 ^ k - end ≡ i + 2 ^ suc k - end = omega (arith, pow) in
                    rw
                      (
                        left first q (place start end i mid),
                        right (omega (arith, pow)) second (place start end mid (mid + 2 ^ k)),
                        same,
                        none_after,
                        none_before,
                        ones_count_zero,
                      )
                      (omega arith)
              ]
            ])

module _ ⦃blake : Blake⦄ (start end : ℕ) (legal : start < end) (node : ℕ → ℕ → Hash)
    (joined : (k i : ℕ) → node (suc k) i ≡ sum_pair (node k i) (node k (i + 2 ^ k)))
    (subtree : ℕ → ℕ → Option Hash)
    (known : (k i : ℕ)
      → within start end i (i + 2 ^ k) ≡ true
      → subtree i (i + 2 ^ k) ≡ some (node k i)) where
  -- verifyProof takes those hashes off the proof, and has the root of the subtree.
  pub verify_loop-cut :
      (k i : ℕ) (rest : List Hash)
      → verify_loop subtree start end (suc k) i (i + 2 ^ k) (cut start end node k i ++ rest)
        ≡ some (node k i, rest)
  verify_loop-cut k i rest = verify_at k i rest (place start end i (i + 2 ^ k))
    where
      verify_at :
          (k i : ℕ) (rest : List Hash)
          → Place start end i (i + 2 ^ k)
          → verify_loop subtree start end (suc k) i (i + 2 ^ k) (cut start end node k i ++ rest)
            ≡ some (node k i, rest)
      verify_at k i rest (inside e) =
          verify-within start end subtree k i (i + 2 ^ k) (cut start end node k i ++ rest) e
          ∙ rw (known k i e, cut-within start end node k i e)
      verify_at k i rest (outside e h) =
          verify-apart start end subtree k i (i + 2 ^ k) (cut start end node k i ++ rest) e h
          ∙ rw (cut-apart start end node k i e h) (unfold pop in refl)
      verify_at zero i rest (across e h) = absurd (single_leaf start end i legal e h)
      verify_at (suc k) i rest (across e h) =
          let mid : (i + (i + 2 ^ suc k)) / 2 ≡ i + 2 ^ k = omega (arith, pow-suc 2 k) in
          let last : i + 2 ^ suc k ≡ i + 2 ^ k + 2 ^ k = omega (arith, pow-suc 2 k) in
          let left =
            verify_at k i (cut start end node k (i + 2 ^ k) ++ rest)
              (place start end i (i + 2 ^ k)) in
          let right =
            verify_at k (i + 2 ^ k) rest (place start end (i + 2 ^ k) (i + 2 ^ k + 2 ^ k)) in
          verify-split start end subtree (suc k) i (i + 2 ^ suc k)
            (cut start end node (suc k) i ++ rest) e h
          ∙ rw (
            mid,
            cut-split start end node k i e h,
            append_assoc (cut start end node k i) (cut start end node k (i + 2 ^ k)) rest,
            left,
            last,
            right,
            joined k i,
          )
