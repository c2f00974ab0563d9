-- ===== src/Merkle/RangeProof/RoundTrip.antt =====
-- The round trip of BuildProof and VerifyProof.
use us.Prelude.{
  ℕ, ◌+◌, ◌-◌, ◌*◌, ◌%◌, ◌^◌, ◌<◌, ◌≤◌, ◌≡◌, ap, sym, ◌∙◌, true, false, List, [], pow_mono, Option,
  some, arith, ◌==◌, ltb, length, eq_bytes,
}
use mathlib.Core.Bool.{◌||◌}
use mathlib.Core.Option.{get_or}
use us.Merkle.Build.{Build, segments_per_sector, sector_size}
use us.Merkle.Hash.{Blake, Hash}
use us.Merkle.Roots.{sector_root, sector_root-tree_root}
use us.Merkle.Size.{proof_size}
use us.Merkle.RangeProof.{segments, subtree_root, build_proof, verify_proof}
use us.Merkle.RangeProof.Tree.{within, cut}
use us.Merkle.RangeProof.Complete.{
  node, IsPrecalc, subtree_root-node, node-segments, length-segments, build_proof-cut,
  verify_with-cut,
}

module _ ⦃blake : Blake⦄ ⦃build : Build⦄ where
  -- The root of the whole tree is SectorRoot.
  sector_root-node :
      (sector : List ℕ)
      → length sector ≡ sector_size
      → sector_root sector ≡ some (node sector build.height 0)
  unfolding node segments_per_sector
  sector_root-node sector size = sector_root-tree_root sector size

  -- subtreeRoot of VerifyProof, over the segments of the range.
  range_root :
      (sector : List ℕ) (start end k i : ℕ)
      → length sector ≡ sector_size
      → start < end
      → end ≤ segments_per_sector
      → within start end i (i + 2 ^ k) ≡ true
      → subtree_root (segments (segments sector start end) (i - start) (i + 2 ^ k - start))
        ≡ some (node sector k i)
  unfolding sector_size segments_per_sector
  range_root sector start end k i size legal inside e =
      let low : start ≤ i = ground arith in
      let high : i + 2 ^ k ≤ end = ground arith in
      let mine = segments sector start end in
      let last : i + 2 ^ k - start ≡ i - start + 2 ^ k = omega arith in
      let held = length-segments sector start end (omega arith) (omega (arith, size)) in
      rw last (
        subtree_root-node mine k (i - start) (omega (arith, held))
          (omega (arith, pow_mono build.height 16 build.fits))
        ∙ ap some (node-segments sector start end k i low high))

  top_of :
      (sector : List ℕ) (end : ℕ)
      → length sector ≡ sector_size
      → end ≤ segments_per_sector
      → 64 * end ≤ length sector
  unfolding sector_size
  top_of sector end size inside = omega (arith, size)

  module _ (sector : List ℕ) (start end : ℕ) (precalc : Option (ℕ → ℕ → Hash)) where
    -- For a sector of SectorSize bytes, a legal range and a precalc function that supplies right
    -- roots or the zero hash, BuildProof succeeds with a proof of ProofSize hashes, and
    -- VerifyProof, given the segments of the range, answers whether the claimed root is the root
    -- of the sector.
    pub verify_proof-build_proof :
        length sector ≡ sector_size
        → start < end
        → end ≤ segments_per_sector
        → IsPrecalc sector precalc
        → (root : Hash) → sector_root sector ≡ some root
        → (proof : List Hash) × (build_proof sector start end precalc ≡ some proof)
          × (length proof ≡ proof_size segments_per_sector start end)
          × ((claimed : Hash)
              → verify_proof proof (segments sector start end) start end claimed
                ≡ some (eq_bytes root claimed))
    unfolding verify_proof
    verify_proof-build_proof size legal inside c root e =
        let proof = cut start end (node sector) build.height 0 in
        let subtree = λ (i j : ℕ).
          subtree_root (segments (segments sector start end) (i - start) (j - start)) in
        let computed = λ (k i : ℕ). range_root sector start end k i size legal inside in
        let top : 64 * end ≤ length sector = top_of sector end size inside in
        let held = length-segments sector start end (omega arith) top in
        let whole : (length (segments sector start end) % 64 == 0) ≡ true = ground (arith, held) in
        let exact : (length (segments sector start end) == (end - start) * 64) ≡ true =
          ground (arith, held) in
        let legal' : (ltb segments_per_sector end || (ltb end start || start == end)) ≡ false =
          ground arith in
        let same : node sector build.height 0 ≡ root =
          ap (λ o. get_or o []) (sym (sector_root-node sector size) ∙ e) in
        (
          proof,
          build_proof-cut sector start end precalc size legal inside c,
          (verify_with-cut sector start end subtree root legal inside computed).0,
          λ claimed.
              rw (whole, exact, legal', ← same)
                (verify_with-cut sector start end subtree claimed legal inside computed).1,
        )
