-- ===== src/Merkle/Tests.antt =====
-- Runs of package merkle on small trees of a toy hash function.
use us.Prelude.{
  ℕ, ◌+◌, ◌*◌, ◌%◌, ◌≤◌, ◌≡◌, refl, ◌⊎◌, List, [], ◌∷◌, ◌++◌, none, some, true, arith, length,
  replicate, eq_bytes, ones_count, and_bits, not_bits, bit_len, xor_bits, trailing_zeros,
}
use us.Merkle.Build.{Build, segments_per_sector, sector_size}
use us.Merkle.Hash.{Blake, Hash, zero_hash, sum_pair, sum_leaf}
use us.Merkle.Forest.{view}
use us.Merkle.Tree.{tree_root}
use us.Merkle.ProofStack.{ProofStack}
use us.Merkle.ProofStack.View.{Represents}
use us.Merkle.AppendStack
use us.Merkle.AppendStack.{
  AppendStack, empty, append_leaves, append_quads, append_singles, append_node, merge_node_buf,
  root_start, set_node, reset,
}
use us.Merkle.AppendStack.Leaves.{leaf_hashes}
use us.Merkle.Roots.{sector_root, meta_root, meta_root-tree_root, sector_root-tree_root}
use us.Merkle.Size.{proof_size}
use us.Merkle.Reader.{eof, success, reader_root, reader_root-tree_root}
use us.Merkle.Collision.{Collision}
use us.Merkle.RangeProof.{
  segments, build_proof, verify_proof, verify_with, verify_loop, subtree_root, pop,
}
use us.Merkle.RangeProof.RoundTrip.{verify_proof-build_proof}
use us.Merkle.RangeProof.Binding.{verify_proof-binding}

mix : ℕ → List ℕ → ℕ
mix acc [] = acc
mix acc (x ∷ xs) = mix ((3 * acc + x) % 256) xs

abbrev toy : Blake
toy = record { sum256 = λ msg. mix 7 msg ∷ replicate 31 0; length-sum256 = λ msg. refl }

-- Sectors of two segments.
abbrev two : Build
two = record { height = 1; fits = omega arith }

abbrev sector : List ℕ
sector = replicate 64 5 ++ replicate 64 9

abbrev root_of_two : Hash
root_of_two = tree_root ⦃blake = toy⦄ (leaf_hashes ⦃blake = toy⦄ 2 sector)

sector-whole : length sector ≡ sector_size ⦃build = two⦄
unfolding sector_size segments_per_sector
sector-whole = refl

one_inside : 1 ≤ segments_per_sector ⦃build = two⦄
unfolding segments_per_sector
one_inside = omega arith

sector_root-tree_root_example :
    sector_root ⦃blake = toy⦄ sector
    ≡ some (
        tree_root ⦃blake = toy⦄
          (leaf_hashes ⦃blake = toy⦄ (segments_per_sector ⦃build = two⦄) sector))
sector_root-tree_root_example =
    sector_root-tree_root ⦃blake = toy⦄ ⦃build = two⦄ sector sector-whole

root_two : sector_root ⦃blake = toy⦄ sector ≡ some root_of_two
unfolding segments_per_sector
root_two = sector_root-tree_root ⦃blake = toy⦄ ⦃build = two⦄ sector sector-whole

-- A proof of the first segment.
verify_proof-build_proof_example :
    (proof : List Hash) × (build_proof ⦃blake = toy⦄ ⦃build = two⦄ sector 0 1 none ≡ some proof)
    × (length proof ≡ proof_size (segments_per_sector ⦃build = two⦄) 0 1)
    × ((claimed : Hash)
        → verify_proof ⦃blake = toy⦄ ⦃build = two⦄ proof (segments sector 0 1) 0 1 claimed
          ≡ some (eq_bytes root_of_two claimed))
verify_proof-build_proof_example =
    verify_proof-build_proof ⦃blake = toy⦄ ⦃build = two⦄ sector 0 1 none sector-whole (omega arith)
      one_inside tt root_of_two root_two

-- The hash of the second segment, and the root.
abbrev right_hash : Hash
right_hash = 149 ∷ replicate 31 0

abbrev root_hash : Hash
root_hash = 164 ∷ replicate 31 0

accepted :
    verify_proof ⦃blake = toy⦄ ⦃build = two⦄ (right_hash ∷ []) (replicate 64 5) 0 1 root_hash
    ≡ some true
unfolding verify_proof verify_with verify_loop subtree_root segments segments_per_sector proof_size
    append_leaves AppendStack.root append_quads append_singles append_node empty sum_leaf sum_pair
    root_start pop set_node AppendStack.root_loop ones_count and_bits not_bits bit_len xor_bits
    trailing_zeros mix
accepted = refl

-- Another segment of the same hash.
abbrev other : List ℕ
other = replicate 62 5 ++ 6 ∷ 2 ∷ []

other-accepted :
    verify_proof ⦃blake = toy⦄ ⦃build = two⦄ (right_hash ∷ []) other 0 1 root_hash ≡ some true
unfolding verify_proof verify_with verify_loop subtree_root segments segments_per_sector proof_size
    append_leaves AppendStack.root append_quads append_singles append_node empty sum_leaf sum_pair
    root_start pop set_node AppendStack.root_loop ones_count and_bits not_bits bit_len xor_bits
    trailing_zeros mix
other-accepted = refl

verify_proof-binding_example : (replicate {A = ℕ} 64 5 ≡ other) ⊎ Collision ⦃blake = toy⦄
verify_proof-binding_example =
    verify_proof-binding ⦃blake = toy⦄ ⦃build = two⦄ (right_hash ∷ []) (right_hash ∷ [])
      (replicate 64 5) other 0 1 root_hash (refl, tt) (refl, tt) accepted other-accepted

meta_root-tree_root_example :
    meta_root ⦃blake = toy⦄ ⦃build = two⦄ (right_hash ∷ root_hash ∷ right_hash ∷ [])
    ≡ some (tree_root ⦃blake = toy⦄ (right_hash ∷ root_hash ∷ right_hash ∷ []))
meta_root-tree_root_example =
    meta_root-tree_root ⦃blake = toy⦄ ⦃build = two⦄ (right_hash ∷ root_hash ∷ right_hash ∷ [])
      (omega arith)

-- Three leaves: the subtrees of two and of one are in use.
abbrev three : ProofStack
three = record { stack = right_hash ∷ root_hash ∷ replicate 15 zero_hash; used = 3 }

three-Represents : Represents three (view 3 three.stack)
three-Represents = record { size = refl; entries = refl }

reader_root-tree_root_example :
    reader_root ⦃blake = toy⦄ (replicate 320 1) eof
    ≡ some (success (tree_root ⦃blake = toy⦄ (leaf_hashes ⦃blake = toy⦄ 5 (replicate 320 1))))
reader_root-tree_root_example =
    reader_root-tree_root ⦃blake = toy⦄ 5 (replicate 320 1) refl (omega arith)
