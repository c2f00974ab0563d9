-- ===== src/Merkle/AppendStack/Root.antt =====
-- appendStack.root against root_from of the counter of leaves.
use mathlib.Core.Option
use mathlib.Core.Option.{get_or}
use native.Mathlib.Nat.{pow-suc, suc-sub-suc}
use us.Prelude.{
  ℕ, zero, suc, ◌+◌, ◌-◌, ◌/◌, ◌%◌, ◌^◌, ◌<◌, ◌≤◌, ◌≡◌, ◌≢◌, refl, ap, sym, ◌∙◌, true, false, inl,
  inr, List, [], ◌∷◌, Option, none, some, arith, ◌==◌, ◌>>=◌, length, get_elem?, Bool-cases,
  has_bit, trailing_zeros, map,
}
use us.Merkle.Forest.{push_all, push_all-append, push_all-Counts, root_from, view}
use us.Merkle.Forest.Root.{root_from-Counts}
use us.Merkle.Hash.{Blake, Hash, Group, sum_pair}
use us.Merkle.Tree.{no_subtrees, no_subtrees-Counts, tree_root}
use us.Merkle.AppendStack.{AppendStack, has_node_at_height, root4, root_loop, root_start, root}
use us.Merkle.AppendStack.Merge.{onto, get_elem?-onto, div-pow_suc_right}
use us.Merkle.AppendStack.Append.{Appended, first, pad}

module _ ⦃blake : Blake⦄ where
  -- The groups in use, as subtrees of leaves.
  abbrev subtrees : ℕ → List Group → List (Option Hash)
  subtrees c xs = map (Option.map root4) (view c xs)

  module _ (used : ℕ) where
    -- The counter above the entries `back`.
    abbrev above : List Group → ℕ
    above back = used / 4 / 2 ^ length back

  root_loop-subtrees :
      (xs back : List Group) (used : ℕ) (r : Hash)
      → length xs + length back ≡ 15
      → root_loop (length xs) (onto xs back) used r
        ≡ root_from sum_pair (some r) (subtrees (above used back) xs)
  unfolding root_loop root_from view has_node_at_height has_bit onto
  root_loop-subtrees [] back used r n = refl
  root_loop-subtrees (x ∷ xs) back used r n =
      let at : 15 - suc (length xs) ≡ length back = omega arith in
      let here : get_elem? (onto xs (x ∷ back)) (length xs) ≡ some x =
        get_elem?-onto xs (x ∷ back) 0 (length xs) (omega arith) in
      let next = λ (q : Hash).
        rw (div-pow_suc_right (used / 4) (length back)) at
          (root_loop-subtrees xs (x ∷ back) used q (omega arith)) in
      elim (Bool-cases (used / 4 / 2 ^ length back % 2 == 1)) [
        | inl odd ↦ rw (at, odd, here) (next (sum_pair (root4 x) r))
        | inr even ↦ rw (at, even) (next r)
      ]

  -- The loop of root from the smallest subtree in use, which takes the place of `r`.
  root_loop_skip :
      (w : ℕ) (xs back : List Group) (used : ℕ) (r : Hash)
      → length xs + length back ≡ 15
      → length xs ≤ w
      → root_loop (length xs - trailing_zeros w (above used back)) (onto xs back) used r
        ≡ root_from sum_pair (some r) (subtrees (above used back) xs)
  unfolding root_from view onto root_loop trailing_zeros
  root_loop_skip w [] back used r n p =
      let e : 0 - trailing_zeros w (above used back) ≡ 0 = omega arith in rw e
  root_loop_skip zero (x ∷ xs) back used r n p = absurd (omega arith)
  root_loop_skip (suc w) (x ∷ xs) back used r n p = elim (Bool-cases (above used back % 2 == 1)) [
    | inl odd ↦
        let all : suc (length xs) - 0 ≡ suc (length xs) = omega arith in
        rw (odd, all) (rw odd at (root_loop-subtrees (x ∷ xs) back used r n))
    | inr even ↦
        rw (even, suc-sub-suc)
          (rw (div-pow_suc_right (used / 4) (length back)) at
            (root_loop_skip w xs (x ∷ back) used r (omega arith) (omega arith)))
  ]

  -- With no leaves in the buffer, root starts from the smallest subtree.
  root_start-subtrees :
      (w : ℕ) (xs back : List Group) (used : ℕ)
      → length xs + length back ≡ 15
      → length xs ≤ w
      → above used back ≢ 0
      → above used back < 2 ^ length xs
      → (g : Group) × (get_elem? (onto xs back) (length xs - trailing_zeros w (above used back) - 1)
          ≡ some g)
        × (root_loop
              (length xs - trailing_zeros w (above used back) - 1)
              (onto xs back)
              used
              (root4 g)
            ≡ root_from sum_pair none (subtrees (above used back) xs))
  unfolding root_from view onto trailing_zeros
  root_start-subtrees w [] back used n p h q = absurd (omega arith)
  root_start-subtrees zero (x ∷ xs) back used n p h q = absurd (omega arith)
  root_start-subtrees (suc w) (x ∷ xs) back used n p h q =
      elim (Bool-cases (above used back % 2 == 1)) [
        | inl odd ↦
            let all : suc (length xs) - 0 - 1 ≡ length xs = omega arith in
            rw (odd, all)
              (
                x,
                get_elem?-onto xs (x ∷ back) 0 (length xs) (omega arith),
                rw (div-pow_suc_right (used / 4) (length back)) at
                    (root_loop-subtrees xs (x ∷ back) used (root4 x) (omega arith)),
              )
        | inr even ↦
            rw (even, suc-sub-suc)
              (let half : above used (x ∷ back) ≡ above used back / 2 =
                  div-pow_suc_right (used / 4) (length back) in
                rw half at (
                  root_start-subtrees w xs (x ∷ back) used (omega arith) (omega arith)
                    (rw half (ground arith)) (rw half (omega (arith, pow-suc 2 (length xs))))))
      ]

  module _ (low : List Group) (buf : Group) (used : ℕ) (size : length low ≡ 15)
      (room : used < 2 ^ 17) (held : used ≢ 0) where
    plain : above used [] ≡ used / 4
    plain = omega arith

    room_left : (used / 4) < 2 ^ length low
    room_left = rw size (omega arith)

    skip :
        (r : Hash)
        → root_loop (15 - trailing_zeros 32 (used / 4)) (onto low []) used r
          ≡ root_from sum_pair (some r) (subtrees (used / 4) low)
    skip r = rw (size, plain) at (root_loop_skip 32 low [] used r (omega arith) (omega arith))

    root_parts :
        (k : ℕ)
        → used % 4 ≡ k
        → (root_start (onto low []) buf (15 - trailing_zeros 32 (used / 4)) k >>= λ (j, r).
            root_loop j (onto low []) used r)
          ≡ root_from sum_pair none (push_all sum_pair (first k buf) (pad (view (used / 4) low)))
    unfolding root_start push_all root_from
    root_parts zero e =
        let (g, found, ran) =
          rw (plain, size) at
            (root_start-subtrees 32 low [] used (omega arith) (omega arith) (rw plain (omega arith))
              (rw plain room_left)) in
        rw (found, ran) refl
    root_parts (suc zero) e = skip buf.n0
    root_parts (suc (suc zero)) e = skip (sum_pair buf.n0 buf.n1)
    root_parts (suc (suc (suc zero))) e = skip (sum_pair (sum_pair buf.n0 buf.n1) buf.n2)
    root_parts (suc (suc (suc (suc k)))) e = absurd (omega arith)

  -- The root of an appendStack that holds `xs`, fewer than 2 ^ 17 hashes, is computed without a
  -- panic and is the root of the Merkle tree of `xs`.
  pub root-Appended :
      (s : AppendStack) (xs : List Hash)
      → Appended s xs
      → length xs < 2 ^ 17
      → root s ≡ some (tree_root xs)
  unfolding root tree_root
  root-Appended s [] v room =
      let e : (s.used == 0) ≡ true = ground (arith, v.count) in
      rw e (unfold push_all root_from in refl)
  root-Appended s (x ∷ xs) v room =
      let held : s.used ≢ 0 = omega (arith, v.count) in
      let pushed : push_all sum_pair (x ∷ xs) no_subtrees
          ≡ push_all sum_pair (first (s.used % 4) s.node_buf)
              (pad (view (s.used / 4) v.stacked.lowest)) =
        ap (λ (l : List Hash). push_all sum_pair l no_subtrees) v.split
        ∙ push_all-append sum_pair v.whole (first (s.used % 4) s.node_buf) no_subtrees
        ∙ ap (push_all sum_pair (first (s.used % 4) s.node_buf))
            (v.forest ∙ ap pad (sym v.stacked.entries)) in
      let some_leaves : (s.used == 0) ≡ false = ground arith in
      let (r, found) =
        root_from-Counts sum_pair _ _
          (push_all-Counts sum_pair 0 (x ∷ xs) no_subtrees no_subtrees-Counts) (omega arith) in
      rw (some_leaves, v.stacked.memory, found)
        (root_parts v.stacked.lowest s.node_buf s.used v.stacked.size (omega (arith, v.count)) held
            (s.used % 4) refl
          ∙ ap (root_from sum_pair none) (sym pushed)
          ∙ found)
