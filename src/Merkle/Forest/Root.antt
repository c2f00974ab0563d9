-- ===== src/Merkle/Forest/Root.antt =====
-- The root that the counter of Merkle/Forest gives.
use mathlib.Core.Option
use us.Prelude.{
  ℕ, zero, suc, ◌/◌, ◌≡◌, ◌≢◌, refl, ap, List, [], ◌∷◌, Option, none, some, arith, map,
}
use us.Merkle.Forest.{
  Counts, Counts-Aligned, insert, push_all, root_from, Perfect, leaves, value, push_all-leaves,
}

module _ {ℓ} {A : Type ℓ} (join : A → A → A) where
  pub root_from-some :
      (r : A) (f : List (Option A)) → (v : A) × (root_from join (some r) f ≡ some v)
  unfolding root_from
  root_from-some r [] = (r, refl)
  root_from-some r (none ∷ f) = root_from-some r f
  root_from-some r (some y ∷ f) = root_from-some (join y r) f

  -- A counter that is not at zero has a root.
  pub root_from-Counts :
      (n : ℕ) (f : List (Option A))
      → Counts n f
      → n ≢ 0
      → (v : A) × (root_from join none f ≡ some v)
  unfolding root_from
  root_from-Counts n [] c h = absurd (h c)
  root_from-Counts n (none ∷ f) c h = root_from-Counts (n / 2) f c.1 (omega (arith, c.0))
  root_from-Counts n (some y ∷ f) c h = root_from-some y f

  root_from_zero :
      (r : Option A) (n : ℕ) (f : List (Option A)) → Counts n f → n ≡ 0 → root_from join r f ≡ r
  unfolding root_from
  root_from_zero r n [] c e = refl
  root_from_zero r n (none ∷ f) c e = root_from_zero r (n / 2) f c.1 (omega arith)
  root_from_zero r n (some y ∷ f) c e = absurd (omega (arith, c.0))

  root_from-insert_zero :
      (m : ℕ) (x : A) (f : List (Option A))
      → Counts 0 f
      → root_from join none (insert join m x f) ≡ some x
  unfolding root_from insert
  root_from-insert_zero zero x [] c = refl
  root_from-insert_zero zero x (none ∷ f) c = root_from_zero (some x) (0 / 2) f c.1 refl
  root_from-insert_zero zero x (some y ∷ f) c = absurd (omega (arith, c.0))
  root_from-insert_zero (suc m) x [] c = root_from-insert_zero m x [] refl
  root_from-insert_zero (suc m) x (none ∷ f) c = root_from-insert_zero m x f c.1
  root_from-insert_zero (suc m) x (some y ∷ f) c = absurd (omega (arith, c.0))

  -- The root after the leaves of a perfect tree is the root of the tree.
  pub root_from-leaves :
      {k : ℕ} (t : Perfect A k) (f : List (Option A))
      → Counts 0 f
      → root_from join none (push_all join (leaves t) f) ≡ some (value join t)
  root_from-leaves {k} t f c =
      rw (push_all-leaves join t f (Counts-Aligned k 0 0 f c (omega arith)))
        (root_from-insert_zero k (value join t) f c)

module _ {ℓ κ} {A : Type ℓ} {B : Type κ} (join_a : A → A → A) (join_b : B → B → B) (h : A → B)
    (hom : (x y : A) → h (join_a x y) ≡ join_b (h x) (h y)) where
  -- A map that respects the joins carries one counter over to another.
  pub insert-map :
      (m : ℕ) (x : A) (f : List (Option A))
      → insert join_b m (h x) (map (Option.map h) f) ≡ map (Option.map h) (insert join_a m x f)
  unfolding insert
  insert-map zero x [] = refl
  insert-map zero x (none ∷ f) = refl
  insert-map zero x (some y ∷ f) = ap (◌∷◌ none) (rw (← hom y x) (insert-map zero (join_a y x) f))
  insert-map (suc m) x [] = ap (◌∷◌ none) (insert-map m x [])
  insert-map (suc m) x (t ∷ f) = ap (◌∷◌ (Option.map h t)) (insert-map m x f)
