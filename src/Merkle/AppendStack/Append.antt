-- ===== src/Merkle/AppendStack/Append.antt =====
-- Lemmas on appendNode and mergeNodeBuf of appendStack (merkle/stack.go), against the counter.
use mathlib.Core.Option
use native.Mathlib.Decide.{dec_lt}
use mathlib.Core.List.{append_assoc, append-nil}
use us.Prelude.{
  ℕ, zero, suc, ◌+◌, ◌-◌, ◌*◌, ◌/◌, ◌%◌, ◌^◌, ◌<◌, ◌≡◌, refl, ap, sym, ◌∙◌, true, false, List, [],
  ◌∷◌, ◌++◌, Option, none, some, arith, ◌==◌, length, replicate, length-append, map,
}
use us.Merkle.Forest.{
  insert, view, push_all, push_all-append, Perfect, leaf, node, leaves, value, push_all-leaves,
}
use us.Merkle.Forest.Root.{insert-map}
use us.Merkle.Hash.{Blake, Hash, Group, sum_pair, sum_nodes}
use us.Merkle.Tree.{no_subtrees}
use us.Merkle.AppendStack.{AppendStack, set_node, merge_node_buf, append_node, append_nodes, root4}
use us.Merkle.AppendStack.Merge.{onto, length-onto, Represents, merge_node_buf-Represents}

-- The first hashes of a group.
abbrev pub first : ℕ → Group → List Hash
first zero g = []
first (suc zero) g = g.n0 ∷ []
first (suc (suc zero)) g = g.n0 ∷ g.n1 ∷ []
first (suc (suc (suc zero))) g = g.n0 ∷ g.n1 ∷ g.n2 ∷ []
first (suc (suc (suc (suc k)))) g = g.n0 ∷ g.n1 ∷ g.n2 ∷ g.n3 ∷ []

first-set_node :
    (k : ℕ) (g : Group) (h : Hash) → k < 4 → first (suc k) (set_node g k h) ≡ first k g ++ h ∷ []
unfolding set_node
first-set_node zero g h p = refl
first-set_node (suc zero) g h p = refl
first-set_node (suc (suc zero)) g h p = refl
first-set_node (suc (suc (suc zero))) g h p = refl
first-set_node (suc (suc (suc (suc k)))) g h p = absurd (omega arith)

onto-onto {ℓ} : {A : Type ℓ} (xs ys : List A) → onto (onto xs ys) [] ≡ onto ys xs
unfolding onto
onto-onto [] ys = refl
onto-onto (x ∷ xs) ys = onto-onto xs (x ∷ ys)

view_unused : (xs : List Group) → view 0 xs ≡ replicate (length xs) none
unfolding view
view_unused [] = refl
view_unused (x ∷ xs) = ap (◌∷◌ none) (view_unused xs)

module _ ⦃blake : Blake⦄ where
  -- The counter of leaves, from that of groups.
  abbrev pub pad : List (Option Group) → List (Option Hash)
  pad f = none ∷ none ∷ map (Option.map root4) f

  root4-sum_nodes : (a b : Group) → root4 (sum_nodes a b) ≡ sum_pair (root4 a) (root4 b)
  unfolding root4 sum_nodes
  root4-sum_nodes a b = refl

  push_all-group :
      (g : Group) (f : List (Option Group))
      → push_all sum_pair (first 4 g) (pad f) ≡ pad (insert sum_nodes 0 g f)
  push_all-group g f =
      unfold leaves value insert root4 sum_nodes in
      (push_all-leaves sum_pair quad (pad f) tt)
      ∙ ap (λ (l : List (Option Hash)). none ∷ none ∷ l)
          (insert-map sum_nodes sum_pair root4 root4-sum_nodes 0 g f)
    where
      quad : Perfect Hash 2
      quad = node (node (leaf g.n0) (leaf g.n1)) (node (leaf g.n2) (leaf g.n3))

  -- `s` holds the leaves `xs`.
  pub record Appended (s : AppendStack) (xs : List Hash) : Type 0 where
    pub count : s.used ≡ length xs
    pub groups : List (Option Group)
    pub stacked : Represents s groups
    pub whole : List Hash
    pub split : xs ≡ whole ++ first (s.used % 4) s.node_buf
    pub forest : push_all sum_pair whole no_subtrees ≡ pad groups

  -- A stack is empty when `used` is zero, whatever was left in its entries.
  pub unused-Appended : (s : AppendStack) → length s.stack ≡ 15 → s.used ≡ 0 → Appended s []
  unfolding push_all
  unused-Appended s size e =
      let low = onto s.stack [] in
      let size' : length low ≡ 15 = omega (arith, length-onto s.stack []) in
      let high : s.used / 4 ≡ 0 = omega arith in
      let left : s.used % 4 ≡ 0 = omega arith in
      record {
        count = e;
        groups = replicate 15 none;
        stacked = record {
          lowest = low;
          memory = sym (onto-onto s.stack [] ∙ unfold onto in refl);
          size = size';
          entries = rw high (view_unused low ∙ ap (λ (n : ℕ). replicate n none) size');
        };
        whole = [];
        split = rw left;
        forest = refl;
      }

  -- A group in the buffer is merged.
  pub merge-Appended :
      (s : AppendStack) (xs : List Hash) (v : Appended s xs) (g : Group)
      → s.used / 4 * 4 + 4 < 2 ^ 17
      → (t : AppendStack) × (merge_node_buf (record s { node_buf = g; used = s.used / 4 * 4 })
          ≡ some t)
        × (t.used ≡ s.used / 4 * 4 + 4)
        × Represents t (insert sum_nodes 0 g v.groups)
        × (push_all sum_pair (v.whole ++ first 4 g) no_subtrees
            ≡ pad (insert sum_nodes 0 g v.groups))
  merge-Appended s xs v g room =
      let filled : AppendStack = record s { node_buf = g; used = s.used / 4 * 4 } in
      let same : s.used / 4 * 4 / 4 ≡ s.used / 4 = omega arith in
      let (t, ran, held, used, _) =
        merge_node_buf-Represents filled v.groups
          (record {
            lowest = v.stacked.lowest;
            memory = v.stacked.memory;
            size = v.stacked.size;
            entries = rw same v.stacked.entries;
          })
          room in
      (
        t,
        ran,
        used,
        held,
        push_all-append sum_pair v.whole (first 4 g) no_subtrees
            ∙ rw v.forest (push_all-group g v.groups),
      )

  append_node-full :
      (s : AppendStack) (h : Hash)
      → s.used < 2 ^ 17
      → s.used % 4 ≡ 3
      → append_node s h
        ≡ merge_node_buf
            (record s { node_buf = set_node s.node_buf (s.used % 4) h; used = s.used / 4 * 4 })
  unfolding append_node
  append_node-full s h room three =
      let next : (s.used + 1) % 2 ^ 32 ≡ s.used + 1 = omega arith in
      let back : (s.used + 1 + 2 ^ 32 - 4) % 2 ^ 32 ≡ s.used / 4 * 4 = omega arith in
      let full : ((s.used + 1) % 4 == 0) ≡ true = ground arith in rw (next, back, full)

  append_node-more :
      (s : AppendStack) (h : Hash)
      → s.used < 2 ^ 17
      → s.used % 4 < 3
      → append_node s h
        ≡ some (record s { node_buf = set_node s.node_buf (s.used % 4) h; used = s.used + 1 })
  unfolding append_node
  append_node-more s h room low =
      let next : (s.used + 1) % 2 ^ 32 ≡ s.used + 1 = omega arith in
      let more : ((s.used + 1) % 4 == 0) ≡ false = ground arith in rw (next, more)

  -- appendNode succeeds below 2 ^ 17 leaves, and adds the leaf.
  pub append_node-Appended :
      (s : AppendStack) (xs : List Hash) (h : Hash)
      → Appended s xs
      → length xs + 1 < 2 ^ 17
      → (t : AppendStack) × (append_node s h ≡ some t) × Appended t (xs ++ h ∷ [])
  append_node-Appended s xs h v room =
      let g = set_node s.node_buf (s.used % 4) h in
      let grown : xs ++ h ∷ [] ≡ v.whole ++ first (suc (s.used % 4)) g =
        ap (λ l. l ++ h ∷ []) v.split
        ∙ append_assoc v.whole (first (s.used % 4) s.node_buf) (h ∷ [])
        ∙ ap (◌++◌ v.whole) (sym (first-set_node (s.used % 4) s.node_buf h (omega arith))) in
      elim (dec_lt (s.used % 4) 3) [
        | no full ↦
            let three : s.used % 4 ≡ 3 = omega arith in
            let (t, ran, used, held, pushed) =
              merge-Appended s xs v g (omega (arith, v.count, three)) in
            let none_left : t.used % 4 ≡ 0 = omega arith in
            (
              t,
              append_node-full s h (omega (arith, v.count)) three ∙ ran,
              record {
                count = omega (arith, v.count, three, length-append xs (h ∷ []));
                groups = insert sum_nodes 0 g v.groups;
                stacked = held;
                whole = v.whole ++ first 4 g;
                split =
                    rw (none_left, append-nil)
                      (grown ∙ ap (λ (k : ℕ). v.whole ++ first (suc k) g) three);
                forest = pushed;
              },
            )
        | yes more ↦
            let low : (s.used + 1) % 4 ≡ suc (s.used % 4) = omega arith in
            let high : (s.used + 1) / 4 ≡ s.used / 4 = omega arith in
            (
              record s { node_buf = g; used = s.used + 1 },
              append_node-more s h (omega (arith, v.count)) more,
              record {
                count = omega (arith, v.count, length-append xs (h ∷ []));
                groups = v.groups;
                stacked = record {
                  lowest = v.stacked.lowest;
                  memory = v.stacked.memory;
                  size = v.stacked.size;
                  entries = rw high v.stacked.entries;
                };
                whole = v.whole;
                split = rw low grown;
                forest = v.forest;
              },
            )
      ]

  pub append_nodes-Appended :
      (s : AppendStack) (xs hs : List Hash)
      → Appended s xs
      → length xs + length hs < 2 ^ 17
      → (t : AppendStack) × (append_nodes s hs ≡ some t) × Appended t (xs ++ hs)
  unfolding append_nodes
  append_nodes-Appended s xs [] v room = (s, refl, rw append-nil v)
  append_nodes-Appended s xs (h ∷ hs) v room =
      let (t, ran, w) = append_node-Appended s xs h v (omega arith) in
      let size = length-append xs (h ∷ []) in
      let (u, rest, z) = append_nodes-Appended t (xs ++ h ∷ []) hs w (omega arith) in
      (u, rw (ran, rest), rw (append_assoc xs (h ∷ []) hs) at z)
