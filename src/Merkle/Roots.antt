-- ===== src/Merkle/Roots.antt =====
-- merkle/merkle.go: SectorRoot and MetaRoot. `none` is a panic, or fuel that ran out.
use native.Mathlib.Nat.{pow-suc, one-le-pow}
use us.Prelude.{
  ℕ, zero, suc, ◌-◌, ◌*◌, ◌^◌, ◌<◌, ◌≡◌, refl, ap, sym, ◌∙◌, inl, inr, List, [], Option, none, some,
  arith, leb, if◌then◌else◌, ◌>>=◌, length, take, drop, Bool-cases, bit_len, length-take,
  length-drop, take-append-drop, le_of_leb, lt_of_leb, bit_len-pow, pow_mono,
}
use us.Merkle.Build.{Build, segments_per_sector, sector_size}
use us.Merkle.Hash.{Blake, Hash, sum_pair}
use us.Merkle.Tree.{tree_root, tree_root-append}
use us.Merkle.AppendStack.{empty, append_nodes, append_leaves, root}
use us.Merkle.AppendStack.Append.{unused-Appended, append_nodes-Appended}
use us.Merkle.AppendStack.Leaves.{leaf_hashes, length-leaf_hashes, append_leaves-Appended}
use us.Merkle.AppendStack.Root.{root-Appended}

module _ ⦃blake : Blake⦄ where
  unfoldable pub sector_root : List ℕ → Option Hash
  sector_root sector = append_leaves empty sector >>= root

  module _ ⦃build : Build⦄ where
    -- MetaRoot, with fuel for its recursion.
    unfoldable pub meta_root_loop : ℕ → List Hash → Option Hash
    meta_root_loop zero roots = none
    meta_root_loop (suc fuel) roots =
        let small = append_nodes empty roots >>= root in
        let split = 2 ^ (bit_len 64 (length roots - 1) - 1) in
        let halves = meta_root_loop fuel (take split roots) >>= λ left.
        meta_root_loop fuel (drop split roots) >>= λ right. some (sum_pair left right) in
        if leb (length roots) segments_per_sector then small else halves

    -- Each call halves the list at least once, so its length is fuel enough.
    unfoldable pub meta_root : List Hash → Option Hash
    meta_root roots = meta_root_loop (suc (length roots)) roots

  append_nodes-root :
      (roots : List Hash)
      → length roots < 2 ^ 17
      → (append_nodes empty roots >>= root) ≡ some (tree_root roots)
  append_nodes-root roots room =
      let (t, ran, held) =
        append_nodes-Appended empty [] roots (unfold empty in (unused-Appended empty refl refl))
          (omega arith) in
      rw ran (root-Appended t roots held room)

  -- The root of whole segments is that of the tree of their hashes.
  pub append_leaves-root :
      (n : ℕ) (leaves : List ℕ)
      → length leaves ≡ 64 * n
      → n < 2 ^ 17
      → (append_leaves empty leaves >>= root) ≡ some (tree_root (leaf_hashes n leaves))
  append_leaves-root n leaves size room =
      let (t, ran, held) =
        append_leaves-Appended empty [] n leaves (unfold empty in (unused-Appended empty refl refl))
          (omega arith) size (omega arith) in
      rw ran
        (root-Appended t (leaf_hashes n leaves) held (omega (arith, length-leaf_hashes n leaves)))

  module _ ⦃build : Build⦄ where
    segments-lt : segments_per_sector < 2 ^ 17
    unfolding segments_per_sector
    segments-lt = omega (arith, pow_mono build.height 16 build.fits)

    segments-pos : 0 < segments_per_sector
    unfolding segments_per_sector
    segments-pos = one-le-pow build.height 2 (omega arith)

    meta_root_loop-tree_root :
        (fuel : ℕ) (roots : List Hash)
        → length roots < fuel
        → length roots < 2 ^ 64
        → meta_root_loop fuel roots ≡ some (tree_root roots)
    unfolding meta_root_loop
    meta_root_loop-tree_root zero roots f room = absurd (omega arith)
    meta_root_loop-tree_root (suc fuel) roots f room =
        elim (Bool-cases (leb (length roots) segments_per_sector)) [
          | inl small ↦
              rw small (append_nodes-root roots (omega (arith, le_of_leb _ _ small, segments-lt)))
          | inr large ↦
              let n = length roots in
              let more : segments_per_sector < n = lt_of_leb _ _ large in
              let k = bit_len 64 (n - 1) - 1 in
              let (low, high, pos) =
                bit_len-pow 64 (n - 1) (omega arith) (omega (arith, segments-pos)) in
              let top : bit_len 64 (n - 1) ≡ suc k = omega arith in
              let high' : n - 1 < 2 ^ suc k = rw top at high in
              let left = length-take (2 ^ k) roots in
              let right = length-drop (2 ^ k) roots in
              rw
                (
                  large,
                  meta_root_loop-tree_root fuel (take (2 ^ k) roots) (omega arith) (omega arith),
                  meta_root_loop-tree_root fuel (drop (2 ^ k) roots) (omega (arith, one-le-pow k 2))
                      (omega arith),
                )
                (ap some (
                  sym (
                    tree_root-append k (take (2 ^ k) roots) (drop (2 ^ k) roots) (omega arith)
                      (omega arith) (omega (arith, pow-suc 2 k)))
                  ∙ ap tree_root (take-append-drop (2 ^ k) roots)))
        ]

    -- For fewer than 2 ^ 64 roots MetaRoot ends without a panic, and returns the root of the
    -- Merkle tree of the roots.
    pub meta_root-tree_root :
        (roots : List Hash) → length roots < 2 ^ 64 → meta_root roots ≡ some (tree_root roots)
    unfolding meta_root
    meta_root-tree_root roots room =
        meta_root_loop-tree_root (suc (length roots)) roots (omega arith) room

    -- For a sector of SectorSize bytes, SectorRoot is the root of the Merkle tree of the hashes of
    -- its segments.
    pub sector_root-tree_root :
        (sector : List ℕ)
        → length sector ≡ sector_size
        → sector_root sector ≡ some (tree_root (leaf_hashes segments_per_sector sector))
    unfolding sector_root sector_size
    sector_root-tree_root sector size =
        append_leaves-root segments_per_sector sector size segments-lt
