-- ===== src/Merkle/RangeProof.antt =====
-- merkle/proof.go: BuildProof, verifyProof and VerifyProof, for a range of segments of a sector.
-- `none` is a panic: an illegal range, or a proof that runs out of hashes.
pub mod Tree
pub mod Verify
pub mod Complete
pub mod RoundTrip
pub mod Sound
pub mod Binding
use us.Prelude.{
  ℕ, zero, suc, ◌+◌, ◌-◌, ◌*◌, ◌/◌, ◌%◌, ◌≡◌, Bool, true, false, ◌&&◌, ◌||◌, not, List, [], ◌∷◌,
  ◌++◌, Option, none, some, ◌==◌, ltb, leb, if◌then◌else◌, ◌>>=◌, length, take, drop, eq_bytes,
}
use us.Merkle.Build.{Build, segments_per_sector}
use us.Merkle.Hash.{Blake, Hash, zero_hash, sum_pair}
use us.Merkle.Size.{proof_size}
use us.Merkle.AppendStack.{empty, append_leaves, root}

-- `leaves[i*SegmentSize : j*SegmentSize]`
unfoldable pub segments : List ℕ → ℕ → ℕ → List ℕ
segments leaves i j = take (64 * (j - i)) (drop (64 * i) leaves)

-- The recursion of BuildProof on the subtree [i, j), which appends to `proof`.
unfoldable pub build_loop :
    (ℕ → ℕ → Option Hash) → ℕ → ℕ → ℕ → ℕ → ℕ → List Hash → Option (List Hash)
build_loop subtree start end zero i j proof = none
build_loop subtree start end (suc fuel) i j proof =
    let mid = (i + j) / 2 in
    let outside = subtree i j >>= λ h. some (proof ++ h ∷ []) in
    let both = build_loop subtree start end fuel i mid proof >>= λ grown.
    build_loop subtree start end fuel mid j grown in
    if leb start i && leb j end
    then some proof
    else if leb j start || leb end i
    then outside
    else both

-- The root that precalc supplies, the zero hash without one.
known : Option (ℕ → ℕ → Hash) → ℕ → ℕ → Hash
known none i j = zero_hash
known (some precalc) i j = precalc i j

-- The next hash of the proof.
unfoldable pub pop : List Hash → Option (Hash × List Hash)
pop [] = none
pop (h ∷ proof) = some (h, proof)

module _ ⦃blake : Blake⦄ where
  -- The recursion of verifyProof: the root of the subtree [i, j), and what is left of the proof.
  unfoldable pub verify_loop :
      (ℕ → ℕ → Option Hash) → ℕ → ℕ → ℕ → ℕ → ℕ → List Hash → Option (Hash × List Hash)
  verify_loop subtree start end zero i j proof = none
  verify_loop subtree start end (suc fuel) i j proof =
      let mid = (i + j) / 2 in
      let inside = subtree i j >>= λ h. some (h, proof) in
      let both = verify_loop subtree start end fuel i mid proof >>= λ (left, rest).
      verify_loop subtree start end fuel mid j rest >>= λ (right, rest').
      some (sum_pair left right, rest') in
      if leb start i && leb j end
      then inside
      else if leb j start || leb end i
      then pop proof
      else both

  -- subtreeRoot of both functions, over the leaves at hand. The source resets one shared stack
  -- before each use; here each use starts from the empty stack.
  unfoldable pub subtree_root : List ℕ → Option Hash
  subtree_root leaves = append_leaves empty leaves >>= root

  module _ ⦃build : Build⦄ where
    illegal_range : ℕ → ℕ → Bool
    illegal_range start end = ltb segments_per_sector end || (ltb end start || start == end)

    -- A precalculated root that is the zero hash is not available; without a precalc function
    -- none is.
    unfoldable pub build_proof : List ℕ → ℕ → ℕ → Option (ℕ → ℕ → Hash) → Option (List Hash)
    unfolding illegal_range known
    build_proof sector start end precalc =
        let subtree = λ (i j : ℕ).
          if not (eq_bytes (known precalc i j) zero_hash)
          then some (known precalc i j)
          else subtree_root (segments sector i j) in
        if illegal_range start end
        then none
        else build_loop subtree start end (suc build.height) 0 segments_per_sector []

    -- verifyProof: the depth of the tree is fuel enough.
    unfoldable pub verify_with : List Hash → (ℕ → ℕ → Option Hash) → ℕ → ℕ → Hash → Option Bool
    verify_with proof subtree start end root =
        let run =
          verify_loop subtree start end (suc build.height) 0 segments_per_sector proof
          >>= λ (h, rest). some (eq_bytes h root) in
        if length proof == proof_size segments_per_sector start end then run else some false

    -- VerifyProof.
    unfoldable pub verify_proof : List Hash → List ℕ → ℕ → ℕ → Hash → Option Bool
    unfolding illegal_range
    verify_proof proof leaves start end root =
        let subtree = λ (i j : ℕ). subtree_root (segments leaves (i - start) (j - start)) in
        if not (length leaves % 64 == 0)
        then none
        else if not (length leaves == (end - start) * 64)
        then none
        else if illegal_range start end
        then none
        else verify_with proof subtree start end root
