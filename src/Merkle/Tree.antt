-- ===== src/Merkle/Tree.antt =====
-- The Merkle root of a list of leaf hashes, as the counter of Merkle/Forest gives it, and its
-- description by recursion: the root of a perfect tree is that of its nodes, and any longer list
-- splits at the largest power of two below its length, as in RFC 6962.
mod Padding
use mathlib.Core.Option.{get_or}
use mathlib.Core.List.{append-nil}
use native.Mathlib.Nat.{pow-suc, one-le-pow}
use mathlib.Core.Path.{ap₂}
use native.Mathlib.Decide.{dec_lt}
use us.Prelude.{
  ℕ, zero, suc, ◌+◌, ◌*◌, ◌/◌, ◌%◌, ◌^◌, ◌<◌, ◌≤◌, ◌≡◌, ◌≢◌, refl, ap, sym, ◌∙◌, inl, inr, List, [],
  ◌∷◌, ◌++◌, Option, none, some, arith, length, replicate, length-append, length-replicate,
}
use us.Merkle.Forest.{
  Counts, Counts-Aligned, insert, push_all, push_all-append, push_all-Counts, root_from, Perfect,
  leaf, node, leaves, to_Perfect, value, push_all-leaves, insert-Counts_zero,
}
use us.Merkle.Forest.Root.{root_from-leaves, root_from-Counts}
use us.Merkle.Hash.{Blake, Hash, zero_hash, sum_pair}
use Padding.{
  Blank-replicate, replicate-Counts, root_from-push_all-Blank, push_all-low, root_from-append_some,
}

-- A counter of 17 digits, all of them zero.
abbrev pub no_subtrees : List (Option Hash)
no_subtrees = replicate 17 none

pub no_subtrees-Counts : Counts 0 no_subtrees
no_subtrees-Counts = omega arith

insert-nil :
    {A : Type 0} (join : A → A → A) (k : ℕ) (x : A)
    → insert join k x [] ≡ replicate k none ++ some x ∷ []
unfolding insert
insert-nil join zero x = refl
insert-nil join (suc k) x = ap (◌∷◌ none) (insert-nil join k x)

module _ ⦃blake : Blake⦄ where
  -- The root of the counter after all leaf hashes. The root of no leaves is the zero hash.
  unfoldable pub tree_root : List Hash → Hash
  tree_root xs = get_or (root_from sum_pair none (push_all sum_pair xs no_subtrees)) zero_hash

  -- It can be read off a shorter counter as well.
  root_from-tree_root :
      (xs : List Hash) (k : ℕ)
      → 0 < length xs
      → root_from sum_pair none (push_all sum_pair xs (replicate k none)) ≡ some (tree_root xs)
  unfolding tree_root
  root_from-tree_root xs k h =
      let (r, found) =
        root_from-Counts sum_pair (0 + length xs) (push_all sum_pair xs no_subtrees)
          (push_all-Counts sum_pair 0 xs no_subtrees no_subtrees-Counts) (omega arith) in
      root_from-push_all-Blank sum_pair xs (replicate k none) no_subtrees (Blank-replicate Hash k)
        (Blank-replicate Hash 17)
      ∙ found
      ∙ ap some (sym (ap (λ (o : Option Hash). get_or o zero_hash) found))

  pub tree_root-nil : tree_root [] ≡ zero_hash
  unfolding tree_root push_all root_from
  tree_root-nil = refl

  pub tree_root-leaves : {k : ℕ} (t : Perfect Hash k) → tree_root (leaves t) ≡ value sum_pair t
  unfolding tree_root
  tree_root-leaves t = rw (root_from-leaves sum_pair t no_subtrees no_subtrees-Counts)

  pub tree_root-singleton : (x : Hash) → tree_root (x ∷ []) ≡ x
  unfolding leaves value
  tree_root-singleton x = tree_root-leaves (leaf x)

  tree_root-append_lt :
      (k : ℕ) (xs ys : List Hash)
      → length xs ≡ 2 ^ k
      → 0 < length ys
      → length ys < 2 ^ k
      → tree_root (xs ++ ys) ≡ sum_pair (tree_root xs) (tree_root ys)
  tree_root-append_lt k xs ys e h p =
      let (t, whole) = to_Perfect k xs e in
      let before : push_all sum_pair xs [] ≡ replicate k none ++ some (value sum_pair t) ∷ [] =
        ap (λ (l : List Hash). push_all sum_pair l []) (sym whole)
        ∙ push_all-leaves sum_pair t [] (Counts-Aligned k 0 0 [] refl (omega arith))
        ∙ insert-nil sum_pair k (value sum_pair t) in
      let after : push_all sum_pair (xs ++ ys) []
          ≡ push_all sum_pair ys (replicate k none) ++ some (value sum_pair t) ∷ [] =
        push_all-append sum_pair xs ys []
        ∙ ap (push_all sum_pair ys) before
        ∙ push_all-low sum_pair ys 0 (replicate k none) (some (value sum_pair t) ∷ [])
            (replicate-Counts Hash k) (rw length-replicate (omega arith)) in
      ap (λ (o : Option Hash). get_or o zero_hash)
        (sym (root_from-tree_root (xs ++ ys) 0 (omega (arith, length-append xs ys)))
          ∙ ap (root_from sum_pair none) after
          ∙ root_from-append_some sum_pair none (tree_root ys) (value sum_pair t) _ []
              (root_from-tree_root ys k h) tt
          ∙ ap (λ (v : Hash). some (sum_pair v (tree_root ys)))
              (sym (tree_root-leaves t) ∙ ap tree_root whole))

  tree_root-append_eq :
      (k : ℕ) (xs ys : List Hash)
      → length xs ≡ 2 ^ k
      → length ys ≡ 2 ^ k
      → tree_root (xs ++ ys) ≡ sum_pair (tree_root xs) (tree_root ys)
  unfolding leaves value
  tree_root-append_eq k xs ys e h =
      let (l, left) = to_Perfect k xs e in
      let (r, right) = to_Perfect k ys h in
      ap₂ (λ (a b : List Hash). tree_root (a ++ b)) (sym left) (sym right)
      ∙ tree_root-leaves (node l r)
      ∙ ap₂ sum_pair (sym (tree_root-leaves l) ∙ ap tree_root left)
          (sym (tree_root-leaves r) ∙ ap tree_root right)

  -- A list of more than one leaf splits after the largest power of two below its length.
  pub tree_root-append :
      (k : ℕ) (xs ys : List Hash)
      → length xs ≡ 2 ^ k
      → 0 < length ys
      → length ys ≤ 2 ^ k
      → tree_root (xs ++ ys) ≡ sum_pair (tree_root xs) (tree_root ys)
  tree_root-append k xs ys e h p = elim (dec_lt (length ys) (2 ^ k)) [
    | yes lt ↦ tree_root-append_lt k xs ys e h lt
    | no ge ↦ tree_root-append_eq k xs ys e (omega arith)
  ]
