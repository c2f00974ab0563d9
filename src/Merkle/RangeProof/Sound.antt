-- ===== src/Merkle/RangeProof/Sound.antt =====
-- Lemmas on what an accepted proof of VerifyProof (merkle/proof.go) went through.
use native.Mathlib.Nat.{pow-suc}
use us.Prelude.{
  ℕ, zero, suc, ◌+◌, ◌-◌, ◌*◌, ◌/◌, ◌^◌, ◌<◌, ◌≤◌, ◌≡◌, refl, sym, ◌∙◌, true, false, List, [], ◌∷◌,
  Option, none, some, arith, ◌>>=◌, length, take, drop, pow_mono,
}
use us.Merkle.Hash.{Blake, Hash, sum_pair}
use us.Merkle.Collision.{length-sum_pair, length-node}
use us.Merkle.RangeProof.{segments, subtree_root, verify_loop, pop}
use us.Merkle.RangeProof.Tree.{
  within, apart, verify-within, verify-apart, verify-split, single_leaf, Place, inside, outside,
  across, place,
}
use us.Merkle.RangeProof.Complete.{node, subtree_root-node}

-- Every entry is a hash of 32 bytes.
abbrev pub AreHashes : List Hash → Type 0
AreHashes [] = Unit {0}
AreHashes (h ∷ hs) = (length h ≡ 32) × AreHashes hs

-- Segment `t` of the range is the same in both contents.
abbrev pub Same : ℕ → List ℕ → List ℕ → ℕ → Type 0
Same start xs ys t = take 64 (drop (64 * (t - start)) xs) ≡ take 64 (drop (64 * (t - start)) ys)

abbrev pub Verified : Type 0
Verified = Option (Hash × List Hash)

pub some_pair :
    (h x : Hash) (rest p : List Hash)
    → ◌≡◌ {A = Verified} (some (x, p)) (some (h, rest))
    → (x ≡ h) × (p ≡ rest)
some_pair h x rest p e = (cc, cc)

abbrev joined_with : ⦃blake : Blake⦄ → Hash → Hash × List Hash → Verified
joined_with left r = some (sum_pair left r.0, r.1)

module _ ⦃blake : Blake⦄ (h : Hash) (rest : List Hash) where
  right_half :
      (left : Hash) (o : Verified)
      → (o >>= joined_with left) ≡ some (h, rest)
      → (r : Hash × List Hash) × (o ≡ some r) × (h ≡ sum_pair left r.0) × (rest ≡ r.1)
  right_half left none e = cc
  right_half left (some (right, rest')) e =
      let (same, kept) = some_pair h (sum_pair left right) rest rest' e in
      ((right, rest'), refl, sym same, sym kept)

  both_halves :
      (m : Verified) (g : List Hash → Verified)
      → (m >>= λ l. g l.1 >>= joined_with l.0) ≡ some (h, rest)
      → (l : Hash × List Hash) × (r : Hash × List Hash) × (m ≡ some l)
        × (g l.1 ≡ some r)
        × (h ≡ sum_pair l.0 r.0)
        × (rest ≡ r.1)
  both_halves none g e = cc
  both_halves (some (left, p)) g e =
      let (r, found, joined, kept) = right_half left (g p) e in
      ((left, p), r, refl, found, joined, kept)

module _ ⦃blake : Blake⦄ (start end : ℕ) (legal : start < end) where
  -- The roots that VerifyProof computes from the segments of the range.
  abbrev pub range_roots : List ℕ → ℕ → ℕ → Option Hash
  range_roots leaves i j = subtree_root (segments leaves (i - start) (j - start))

  -- The two halves of a subtree across an end of the range.
  pub verify-across :
      (subtree : ℕ → ℕ → Option Hash) (k i : ℕ) (proof : List Hash) (h : Hash) (rest : List Hash)
      → within start end i (i + 2 ^ suc k) ≡ false
      → apart start end i (i + 2 ^ suc k) ≡ false
      → verify_loop subtree start end (suc (suc k)) i (i + 2 ^ suc k) proof ≡ some (h, rest)
      → (l : Hash × List Hash) × (r : Hash × List Hash) × (verify_loop subtree start end
            (suc k)
            i
            (i + 2 ^ k)
            proof
          ≡ some l)
        × (verify_loop subtree start end (suc k) (i + 2 ^ k) (i + 2 ^ k + 2 ^ k) l.1 ≡ some r)
        × (h ≡ sum_pair l.0 r.0)
        × (rest ≡ r.1)
  verify-across subtree k i proof h rest e o ran =
      let mid : (i + (i + 2 ^ suc k)) / 2 ≡ i + 2 ^ k = omega (arith, pow-suc 2 k) in
      let last : i + 2 ^ suc k ≡ i + 2 ^ k + 2 ^ k = omega (arith, pow-suc 2 k) in
      both_halves h rest (verify_loop subtree start end (suc k) i (i + 2 ^ k) proof)
        (verify_loop subtree start end (suc k) (i + 2 ^ k) (i + 2 ^ k + 2 ^ k))
        (rw (mid, last) at
          (sym (verify-split start end subtree (suc k) i (i + 2 ^ suc k) proof e o) ∙ ran))

  module _ (leaves : List ℕ) (size : length leaves ≡ (end - start) * 64) where
    pub range_roots-node :
        (k i : ℕ)
        → 2 ^ k < 2 ^ 17
        → within start end i (i + 2 ^ k) ≡ true
        → range_roots leaves i (i + 2 ^ k) ≡ some (node leaves k (i - start))
    range_roots-node k i fits e =
        let low : start ≤ i = ground arith in
        let high : i + 2 ^ k ≤ end = ground arith in
        let last : i + 2 ^ k - start ≡ i - start + 2 ^ k = omega arith in
        rw last (subtree_root-node leaves k (i - start) (omega (arith, size)) fits)

    -- What the recursion returns is a hash and hashes.
    pub verify_loop-AreHashes :
        (k i : ℕ) (proof : List Hash) (h : Hash) (rest : List Hash)
        → k ≤ 16
        → AreHashes proof
        → Place start end i (i + 2 ^ k)
        → verify_loop (range_roots leaves) start end (suc k) i (i + 2 ^ k) proof ≡ some (h, rest)
        → (length h ≡ 32) × AreHashes rest
    verify_loop-AreHashes k i proof h rest fits a (inside e) ran =
        let found = range_roots-node k i (omega (arith, pow_mono k 16 fits)) e in
        let step =
          sym (verify-within start end (range_roots leaves) k i (i + 2 ^ k) proof e) ∙ ran in
        let (same, kept) = some_pair h (node leaves k (i - start)) rest proof (rw found at step) in
        (rw (← same) (length-node leaves k (i - start)), rw (← kept) a)
    verify_loop-AreHashes k i [] h rest fits a (outside e o) ran =
        let step = sym (verify-apart start end (range_roots leaves) k i (i + 2 ^ k) [] e o) ∙ ran in
        unfold pop in (cc step)
    verify_loop-AreHashes k i (x ∷ proof) h rest fits a (outside e o) ran =
        let step =
          sym (verify-apart start end (range_roots leaves) k i (i + 2 ^ k) (x ∷ proof) e o) ∙ ran in
        let (same, kept) = some_pair h x rest proof (unfold pop in step) in
        (rw (← same) a.0, rw (← kept) a.1)
    verify_loop-AreHashes zero i proof h rest fits a (across e o) ran =
        absurd (single_leaf start end i legal e o)
    verify_loop-AreHashes (suc k) i proof h rest fits a (across e o) ran =
        let (l, r, left, right, joined, kept) =
          verify-across (range_roots leaves) k i proof h rest e o ran in
        let (_, b) =
          verify_loop-AreHashes k i proof l.0 l.1 (omega arith) a (place start end i (i + 2 ^ k))
            left in
        let (_, c) =
          verify_loop-AreHashes k (i + 2 ^ k) l.1 r.0 r.1 (omega arith) b
            (place start end (i + 2 ^ k) (i + 2 ^ k + 2 ^ k)) right in
        (rw joined (length-sum_pair l.0 r.0), rw kept c)
