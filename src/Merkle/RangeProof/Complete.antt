-- ===== src/Merkle/RangeProof/Complete.antt =====
-- Lemmas on BuildProof and VerifyProof (merkle/proof.go) for the segments of a sector.
use mathlib.Core.List.{append-nil}
use native.Mathlib.Nat.{pow-suc, one-le-pow}
use mathlib.Core.Bool.{false≢true, ◌||◌}
use us.Prelude.{
  ℕ, zero, suc, ◌+◌, ◌-◌, ◌*◌, ◌^◌, ◌<◌, ◌≤◌, ◌≡◌, refl, ap, sym, ◌∙◌, true, false, inl, inr, ◌⊎◌,
  List, [], Option, none, some, arith, ◌==◌, ltb, if◌then◌else◌, length, take, drop, take-take,
  drop-take, drop-drop, length-take, length-drop, eq_bytes, eq_bytes_refl, not, Bool-cases,
  pow_mono,
}
use us.Merkle.Build.{Build, segments_per_sector, sector_size}
use us.Merkle.Hash.{Blake, Hash, zero_hash, sum_pair}
use us.Merkle.Tree.{tree_root, tree_root-append}
use us.Merkle.AppendStack.Leaves.{leaf_hashes, leaf_hashes-add, length-leaf_hashes}
use us.Merkle.Roots.{append_leaves-root}
use us.Merkle.Size.{proof_size, proof_size-perfect}
use us.Merkle.RangeProof.{segments, subtree_root, known, build_proof, verify_with}
use us.Merkle.RangeProof.Tree.{within, cut, build_loop-cut}
use us.Merkle.RangeProof.Verify.{length-cut, verify_loop-cut}

module _ ⦃blake : Blake⦄ where
  leaf_hashes-take :
      (n m : ℕ) (leaves : List ℕ)
      → 64 * n ≤ m
      → leaf_hashes n (take m leaves) ≡ leaf_hashes n leaves
  unfolding leaf_hashes
  leaf_hashes-take zero m leaves h = refl
  leaf_hashes-take (suc n) m leaves h = rw (
    take-take 64 m leaves (omega arith),
    drop-take 64 m leaves (omega arith),
    leaf_hashes-take n (m - 64) (drop 64 leaves) (omega arith),
  )

  -- The root of the subtree of 2 ^ k segments that starts at segment `i`.
  unfoldable pub node : List ℕ → ℕ → ℕ → Hash
  node sector k i = tree_root (leaf_hashes (2 ^ k) (drop (64 * i) sector))

  pub node-suc :
      (sector : List ℕ) (k i : ℕ)
      → node sector (suc k) i ≡ sum_pair (node sector k i) (node sector k (i + 2 ^ k))
  unfolding node
  node-suc sector k i =
      let twice : 2 ^ suc k ≡ 2 ^ k + 2 ^ k = omega (arith, pow-suc 2 k) in
      let at : 64 * (i + 2 ^ k) ≡ 64 * i + 64 * 2 ^ k = omega arith in
      let start = drop (64 * i) sector in
      let size = length-leaf_hashes (2 ^ k) in
      rw (twice, leaf_hashes-add (2 ^ k) (2 ^ k) start, drop-drop (64 * i) (64 * 2 ^ k) sector, at)
        (tree_root-append k (leaf_hashes (2 ^ k) start) _ (size start)
          (omega (arith, one-le-pow k 2, size (drop (64 * i + 64 * 2 ^ k) sector)))
          (omega (arith, size (drop (64 * i + 64 * 2 ^ k) sector))))

  pub length-segments :
      (leaves : List ℕ) (i j : ℕ)
      → i ≤ j
      → 64 * j ≤ length leaves
      → length (segments leaves i j) ≡ 64 * (j - i)
  unfolding segments
  length-segments leaves i j h p =
      omega (arith, length-take (64 * (j - i)) (drop (64 * i) leaves), length-drop (64 * i) leaves)

  -- What subtreeRoot computes for a subtree among the leaves at hand.
  pub subtree_root-node :
      (leaves : List ℕ) (k i : ℕ)
      → 64 * (i + 2 ^ k) ≤ length leaves
      → 2 ^ k < 2 ^ 17
      → subtree_root (segments leaves i (i + 2 ^ k)) ≡ some (node leaves k i)
  unfolding subtree_root node
  subtree_root-node leaves k i h fits =
      let size : 64 * (i + 2 ^ k - i) ≡ 64 * 2 ^ k = omega arith in
      append_leaves-root (2 ^ k) (segments leaves i (i + 2 ^ k))
        (length-segments leaves i (i + 2 ^ k) (omega arith) h ∙ size) fits
      ∙ ap (λ l. some (tree_root l))
          (unfold segments in (leaf_hashes-take (2 ^ k) _ (drop (64 * i) leaves) (omega arith)))

  -- The same from the segments of the range alone.
  pub node-segments :
      (sector : List ℕ) (start end k i : ℕ)
      → start ≤ i
      → i + 2 ^ k ≤ end
      → node (segments sector start end) k (i - start) ≡ node sector k i
  unfolding node segments
  node-segments sector start end k i h p =
      let at : 64 * start + 64 * (i - start) ≡ 64 * i = omega arith in
      rw (
        drop-take (64 * (i - start)) (64 * (end - start)) (drop (64 * start) sector) (omega arith),
        drop-drop (64 * start) (64 * (i - start)) sector,
        at,
        leaf_hashes-take (2 ^ k) (64 * (end - start) - 64 * (i - start)) (drop (64 * i) sector)
            (omega arith),
      )

module _ ⦃blake : Blake⦄ ⦃build : Build⦄ where
  -- Each root that precalc supplies is the zero hash or the right one.
  abbrev pub IsPrecalc : List ℕ → Option (ℕ → ℕ → Hash) → Type 0
  IsPrecalc sector none = Unit {0}
  IsPrecalc sector (some f) =
      (k i : ℕ) → (f i (i + 2 ^ k) ≡ zero_hash) ⊎ (f i (i + 2 ^ k) ≡ node sector k i)

  known-node :
      (sector : List ℕ) (precalc : Option (ℕ → ℕ → Hash)) (k i : ℕ)
      → IsPrecalc sector precalc
      → (known precalc i (i + 2 ^ k) ≡ zero_hash) ⊎ (known precalc i (i + 2 ^ k) ≡ node sector k i)
  unfolding known
  known-node sector none k i c = inl refl
  known-node sector (some f) k i c = c k i

  -- The subtree roots that BuildProof takes.
  abbrev roots_of : List ℕ → Option (ℕ → ℕ → Hash) → ℕ → ℕ → Option Hash
  roots_of sector precalc i j =
      if not (eq_bytes (known precalc i j) zero_hash)
      then some (known precalc i j)
      else subtree_root (segments sector i j)

  supplied :
      (sector : List ℕ) (precalc : Option (ℕ → ℕ → Hash)) (k i : ℕ)
      → IsPrecalc sector precalc
      → subtree_root (segments sector i (i + 2 ^ k)) ≡ some (node sector k i)
      → roots_of sector precalc i (i + 2 ^ k) ≡ some (node sector k i)
  supplied sector precalc k i c e =
      elim (Bool-cases (eq_bytes (known precalc i (i + 2 ^ k)) zero_hash)) [
        | inl absent ↦ rw absent e
        | inr there ↦ rw there (elim (known-node sector precalc k i c) [
          | inl zero_root ↦ absurd (false≢true (sym there ∙ rw zero_root (eq_bytes_refl zero_hash)))
          | inr right ↦ ap some right
        ])
      ]

  -- The proof of BuildProof, as the hashes of the subtrees outside the range.
  pub build_proof-cut :
      (sector : List ℕ) (start end : ℕ) (precalc : Option (ℕ → ℕ → Hash))
      → length sector ≡ sector_size
      → start < end
      → end ≤ segments_per_sector
      → IsPrecalc sector precalc
      → build_proof sector start end precalc ≡ some (cut start end (node sector) build.height 0)
  unfolding build_proof sector_size segments_per_sector
  build_proof-cut sector start end precalc size legal inside c =
      let legal' : (ltb (2 ^ build.height) end || (ltb end start || start == end)) ≡ false =
        ground arith in
      let top = pow_mono build.height 16 build.fits in
      let last : 0 + 2 ^ build.height ≡ 2 ^ build.height = omega arith in
      let made =
        build_loop-cut start end legal (2 ^ build.height) (node sector) (roots_of sector precalc)
          (λ k i p.
            supplied sector precalc k i c
              (subtree_root-node sector k i (omega (arith, size)) (omega arith)))
          build.height 0 [] (omega arith) in
      rw legal' (rw last at made)

  -- verifyProof computes the root of the sector from them.
  pub verify_with-cut :
      (sector : List ℕ) (start end : ℕ) (subtree : ℕ → ℕ → Option Hash) (root : Hash)
      → start < end
      → end ≤ segments_per_sector
      → ((k i : ℕ)
          → within start end i (i + 2 ^ k) ≡ true
          → subtree i (i + 2 ^ k) ≡ some (node sector k i))
      → (length (cut start end (node sector) build.height 0)
          ≡ proof_size segments_per_sector start end)
        × (verify_with (cut start end (node sector) build.height 0) subtree start end root
            ≡ some (eq_bytes (node sector build.height 0) root))
  unfolding verify_with segments_per_sector
  verify_with-cut sector start end subtree root legal inside computed =
      let h = build.height in
      let proof = cut start end (node sector) h 0 in
      let last : 0 + 2 ^ h ≡ 2 ^ h = omega arith in
      let first : start - 0 ≡ start = omega arith in
      let fits : h < 64 = omega (arith, build.fits) in
      let size : length proof ≡ proof_size (2 ^ h) start end =
        rw (first, last) at
          (length-cut start end legal (node sector) h 0 fits (omega arith) (omega arith))
        ∙ sym (proof_size-perfect h start end fits (omega arith) inside) in
      let whole : (length proof == proof_size (2 ^ h) start end) ≡ true = ground (arith, size) in
      let ran =
        rw (last, append-nil) at
          (verify_loop-cut start end legal (node sector) (node-suc sector) subtree computed h 0
            []) in
      (size, rw (whole, ran) refl)
