-- ===== src/Merkle/Collision.antt =====
-- What a collision of the hash function would be, and the steps that lead from two Merkle trees
-- of equal root to equal leaves or to a collision.
use mathlib.Core.Bool.{false≢true}
use native.Mathlib.Nat.{pow-suc}
use native.Mathlib.Decide.{dec_lt}
use us.Prelude.{
  ℕ, zero, suc, ◌+◌, ◌*◌, ◌^◌, ◌<◌, ◌≤◌, ◌≡◌, ◌≢◌, refl, sym, ◌∙◌, inl, inr, ◌⊎◌, List, [], ◌∷◌,
  ◌++◌, arith, length, take, drop, eq_bytes, eq_bytes_refl, eq_of_eq_bytes, Bool-cases,
}
use us.Merkle.Hash.{Blake, Hash, sum_leaf, sum_pair}
use us.Merkle.Tree.{tree_root-singleton}
use us.Merkle.AppendStack.Leaves.{leaf_hashes}
use us.Merkle.RangeProof.Complete.{node, node-suc}

append-injective :
    {A : Type 0} (a b c d : List A) → length a ≡ length b → a ++ c ≡ b ++ d → (a ≡ b) × (c ≡ d)
append-injective [] [] c d n e = (refl, e)
append-injective [] (y ∷ b) c d n e = absurd (omega arith)
append-injective (x ∷ a) [] c d n e = absurd (omega arith)
append-injective (x ∷ a) (y ∷ b) c d n e =
    let rest = append-injective a b c d (omega arith) (ground arith) in ground (arith, rest)

module _ ⦃blake : Blake⦄ where
  -- Two messages of one hash.
  pub record Collision : Type 0 where
    pub left : List ℕ
    pub right : List ℕ
    pub differ : left ≢ right
    pub meet : blake.sum256 left ≡ blake.sum256 right

  pub sum256-injective : (x y : List ℕ) → blake.sum256 x ≡ blake.sum256 y → (x ≡ y) ⊎ Collision
  sum256-injective x y e = elim (Bool-cases (eq_bytes x y)) [
    | inl same ↦ inl (eq_of_eq_bytes x y same)
    | inr differ ↦ inr (record {
      left = x;
      right = y;
      differ = λ h. false≢true (sym differ ∙ rw h (eq_bytes_refl y));
      meet = e;
    })
  ]

  pub sum_leaf-injective : (x y : List ℕ) → sum_leaf x ≡ sum_leaf y → (x ≡ y) ⊎ Collision
  unfolding sum_leaf
  sum_leaf-injective x y e = elim (sum256-injective (0 ∷ x) (0 ∷ y) e) [
    | inl same ↦ inl (cc)
    | inr c ↦ inr c
  ]

  pub sum_pair-injective :
      (a b c d : Hash)
      → length a ≡ length b
      → sum_pair a c ≡ sum_pair b d
      → ((a ≡ b) × (c ≡ d)) ⊎ Collision
  unfolding sum_pair
  sum_pair-injective a b c d n e = elim (sum256-injective (1 ∷ (a ++ c)) (1 ∷ (b ++ d)) e) [
    | inl same ↦ inl (append-injective a b c d n (cc))
    | inr x ↦ inr x
  ]

  pub length-sum_pair : (a b : Hash) → length (sum_pair a b) ≡ 32
  unfolding sum_pair
  length-sum_pair a b = blake.length-sum256 _

  node-leaf :
      (leaves : List ℕ) (i : ℕ) → node leaves 0 i ≡ sum_leaf (take 64 (drop (64 * i) leaves))
  unfolding node leaf_hashes
  node-leaf leaves i = tree_root-singleton _

  pub length-node : (leaves : List ℕ) (k i : ℕ) → length (node leaves k i) ≡ 32
  length-node leaves zero i = rw node-leaf (unfold sum_leaf in (blake.length-sum256 _))
  length-node leaves (suc k) i = rw node-suc (length-sum_pair _ _)

  -- Subtrees of one root hold the same segments, unless there is a collision.
  pub node-injective :
      (xs ys : List ℕ) (k i t : ℕ)
      → node xs k i ≡ node ys k i
      → i ≤ t
      → t < i + 2 ^ k
      → (take 64 (drop (64 * t) xs) ≡ take 64 (drop (64 * t) ys)) ⊎ Collision
  node-injective xs ys zero i t e p q =
      let at : t ≡ i = omega arith in
      rw at (sum_leaf-injective _ _ (sym (node-leaf xs i) ∙ e ∙ node-leaf ys i))
  node-injective xs ys (suc k) i t e p q =
      elim (sum_pair-injective (node xs k i) (node ys k i) _ _
        (length-node xs k i ∙ sym (length-node ys k i))
        (sym (node-suc xs k i) ∙ e ∙ node-suc ys k i)) [
          | inr c ↦ inr c
          | inl (left, right) ↦ elim (dec_lt t (i + 2 ^ k)) [
            | yes low ↦ node-injective xs ys k i t left p low
            | no high ↦
                node-injective xs ys k (i + 2 ^ k) t right (omega arith)
                  (omega (arith, pow-suc 2 k))
          ]
        ]
