-- ===== src/Merkle/AppendStack/Leaves.antt =====
-- Lemmas on appendLeaves of appendStack (merkle/stack.go).
use mathlib.Core.List.{append_assoc, append-nil}
use us.Prelude.{
  ℕ, zero, suc, ◌+◌, ◌-◌, ◌*◌, ◌/◌, ◌%◌, ◌^◌, ◌<◌, ◌≡◌, refl, ap, ◌∙◌, true, List, [], ◌∷◌, ◌++◌,
  some, arith, ◌==◌, ◌>>=◌, length, take, drop, length-append, drop-drop,
}
use us.Merkle.Forest.{insert}
use us.Merkle.Hash.{Blake, Hash, Group, sum_leaf, sum_nodes, sum_leaves}
use us.Merkle.AppendStack.{AppendStack, merge_node_buf, append_quads, append_singles, append_leaves}
use us.Merkle.AppendStack.Append.{Appended, first, merge-Appended, append_node-Appended}

module _ ⦃blake : Blake⦄ where
  -- The hashes of the first `n` leaves.
  unfoldable pub leaf_hashes : ℕ → List ℕ → List Hash
  leaf_hashes zero leaves = []
  leaf_hashes (suc n) leaves = sum_leaf (take 64 leaves) ∷ leaf_hashes n (drop 64 leaves)

  pub length-leaf_hashes : (n : ℕ) (leaves : List ℕ) → length (leaf_hashes n leaves) ≡ n
  unfolding leaf_hashes
  length-leaf_hashes zero leaves = refl
  length-leaf_hashes (suc n) leaves = ap suc (length-leaf_hashes n (drop 64 leaves))

  leaf_hashes-four :
      (n : ℕ) (leaves : List ℕ)
      → leaf_hashes (4 * suc n) leaves
        ≡ first 4 (sum_leaves leaves) ++ leaf_hashes (4 * n) (drop 256 leaves)
  unfolding leaf_hashes sum_leaves
  leaf_hashes-four n leaves =
      let four : 4 * suc n ≡ suc (suc (suc (suc (4 * n)))) = omega arith in rw four (simp drop-drop)

  -- A round of the first loop of appendLeaves.
  append_quad-Appended :
      (s : AppendStack) (xs : List Hash) (g : Group)
      → Appended s xs
      → s.used % 4 ≡ 0
      → length xs + 4 < 2 ^ 17
      → (t : AppendStack) × (merge_node_buf (record s { node_buf = g }) ≡ some t)
        × Appended t (xs ++ first 4 g)
        × (t.used % 4 ≡ 0)
  append_quad-Appended s xs g v even room =
      let (t, ran, used, held, pushed) = merge-Appended s xs v g (omega (arith, v.count)) in
      let none_left : t.used % 4 ≡ 0 = omega arith in
      let at : s.used ≡ s.used / 4 * 4 = omega arith in
      let old : xs ≡ v.whole =
        v.split ∙ ap (λ (k : ℕ). v.whole ++ first k s.node_buf) even ∙ append-nil v.whole in
      (
        t,
        ap (λ (k : ℕ). merge_node_buf (record s { node_buf = g; used = k })) at ∙ ran,
        record {
          count = omega (arith, v.count, length-append xs (first 4 g));
          groups = insert sum_nodes 0 g v.groups;
          stacked = held;
          whole = v.whole ++ first 4 g;
          split = rw (none_left, append-nil) (ap (λ l. l ++ first 4 g) old);
          forest = pushed;
        },
        none_left,
      )

  append_quads-Appended :
      (n : ℕ) (s : AppendStack) (xs : List Hash) (leaves : List ℕ)
      → Appended s xs
      → s.used % 4 ≡ 0
      → length xs + 4 * n < 2 ^ 17
      → (t : AppendStack) × (append_quads n s leaves ≡ some t)
        × Appended t (xs ++ leaf_hashes (4 * n) leaves)
  unfolding append_quads
  append_quads-Appended zero s xs leaves v even room =
      (s, refl, unfold leaf_hashes in (rw append-nil v))
  append_quads-Appended (suc n) s xs leaves v even room =
      let g = sum_leaves leaves in
      let (t, ran, w, even') = append_quad-Appended s xs g v even (omega arith) in
      let (u, rest, z) =
        append_quads-Appended n t (xs ++ first 4 g) (drop 256 leaves) w even'
          (omega (arith, length-append xs (first 4 g))) in
      (u, rw (ran, rest), rw (leaf_hashes-four, ← append_assoc) z)

  append_singles-Appended :
      (n : ℕ) (s : AppendStack) (xs : List Hash) (leaves : List ℕ)
      → Appended s xs
      → length xs + n < 2 ^ 17
      → (t : AppendStack) × (append_singles n s leaves ≡ some t)
        × Appended t (xs ++ leaf_hashes n leaves)
  unfolding append_singles leaf_hashes
  append_singles-Appended zero s xs leaves v room = (s, refl, rw append-nil v)
  append_singles-Appended (suc n) s xs leaves v room =
      let h = sum_leaf (take 64 leaves) in
      let (t, ran, w) = append_node-Appended s xs h v (omega arith) in
      let (u, rest, z) =
        append_singles-Appended n t (xs ++ h ∷ []) (drop 64 leaves) w
          (omega (arith, length-append xs (h ∷ []))) in
      (u, rw (ran, rest), rw (append_assoc xs (h ∷ []) (leaf_hashes n (drop 64 leaves))) at z)

  pub leaf_hashes-add :
      (m n : ℕ) (leaves : List ℕ)
      → leaf_hashes (m + n) leaves ≡ leaf_hashes m leaves ++ leaf_hashes n (drop (64 * m) leaves)
  unfolding leaf_hashes
  leaf_hashes-add zero n leaves = let e : 0 + n ≡ n = omega arith in rw e refl
  leaf_hashes-add (suc m) n leaves =
      let e : suc m + n ≡ suc (m + n) = omega arith in
      let d : 64 * suc m ≡ 64 + 64 * m = omega arith in
      rw (e, d, ← drop-drop)
        (ap (◌∷◌ (sum_leaf (take 64 leaves))) (leaf_hashes-add m n (drop 64 leaves)))

  append_leaves-rounds :
      (s : AppendStack) (n : ℕ) (leaves : List ℕ)
      → length leaves ≡ 64 * n
      → append_leaves s leaves ≡ (
          append_quads (n / 4) s leaves >>= λ t.
          append_singles (n % 4) t (drop (64 * (4 * (n / 4))) leaves))
  unfolding append_leaves
  append_leaves-rounds s n leaves size =
      let aligned : (64 * n % 64 == 0) ≡ true = ground arith in
      let quads : (64 * n - 64 * n % 256) / 256 ≡ n / 4 = omega arith in
      let singles : 64 * n % 256 / 64 ≡ n % 4 = omega arith in
      let whole : 64 * n - 64 * n % 256 ≡ 64 * (4 * (n / 4)) = omega arith in
      rw (size, aligned, quads, singles, whole)

  -- appendLeaves of `n` segments to an appendStack that holds hashes `xs`, a multiple of four and
  -- with the new ones fewer than 2 ^ 17, does not panic, and the stack then holds `xs` followed by
  -- the leaf hashes of the segments in order.
  pub append_leaves-Appended :
      (s : AppendStack) (xs : List Hash) (n : ℕ) (leaves : List ℕ)
      → Appended s xs
      → length xs % 4 ≡ 0
      → length leaves ≡ 64 * n
      → length xs + n < 2 ^ 17
      → (t : AppendStack) × (append_leaves s leaves ≡ some t)
        × Appended t (xs ++ leaf_hashes n leaves)
  append_leaves-Appended s xs n leaves v even size room =
      let later = drop (64 * (4 * (n / 4))) leaves in
      let early = leaf_hashes (4 * (n / 4)) leaves in
      let (t, ran, w) =
        append_quads-Appended (n / 4) s xs leaves v (omega (arith, v.count)) (omega arith) in
      let (u, rest, z) =
        append_singles-Appended (n % 4) t (xs ++ early) later w
          (omega (arith, length-append xs early, length-leaf_hashes (4 * (n / 4)) leaves)) in
      let parts : 4 * (n / 4) + n % 4 ≡ n = omega arith in
      (
        u,
        append_leaves-rounds s n leaves size ∙ rw (ran, rest) refl,
        rw
            (
              append_assoc xs early (leaf_hashes (n % 4) later),
              ← leaf_hashes-add (4 * (n / 4)) (n % 4) leaves,
              parts,
            )
            at z,
      )
