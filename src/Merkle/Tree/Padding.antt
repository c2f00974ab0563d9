-- ===== src/Merkle/Tree/Padding.antt =====
-- Lemmas on zero digits at the upper end of the counter of Merkle/Forest.
use native.Mathlib.Nat.{pow-suc}
use us.Prelude.{
  ℕ, zero, suc, ◌+◌, ◌/◌, ◌^◌, ◌<◌, ◌≡◌, refl, ap, sym, ◌∙◌, List, [], ◌∷◌, ◌++◌, Option, none,
  some, arith, length, replicate,
}
use us.Merkle.Forest.{Counts, insert, push_all, root_from, insert-Counts_zero}

module _ {A : Type 0} where
  -- All digits are zero.
  abbrev pub Blank : List (Option A) → Type 0
  Blank [] = Unit {0}
  Blank (none ∷ f) = Blank f
  Blank (some x ∷ f) = ⊥

  pub Counts-Blank : (n : ℕ) (f : List (Option A)) → Counts n f → n ≡ 0 → Blank f
  Counts-Blank n [] c e = tt
  Counts-Blank n (none ∷ f) c e = Counts-Blank (n / 2) f c.1 (omega arith)
  Counts-Blank n (some x ∷ f) c e = absurd (omega (arith, c.0))

  -- `g` is `f` and zero digits.
  abbrev pub Pads : List (Option A) → List (Option A) → Type 0
  Pads [] g = Blank g
  Pads (t ∷ f) [] = ⊥
  Pads (none ∷ f) (none ∷ g) = Pads f g
  Pads (none ∷ f) (some y ∷ g) = ⊥
  Pads (some x ∷ f) (none ∷ g) = ⊥
  Pads (some x ∷ f) (some y ∷ g) = (x ≡ y) × Pads f g

pub Blank-replicate : (A : Type 0) (k : ℕ) → Blank {A = A} (replicate k none)
Blank-replicate A zero = tt
Blank-replicate A (suc k) = Blank-replicate A k

pub replicate-Counts : (A : Type 0) (k : ℕ) → Counts {A = A} 0 (replicate k none)
replicate-Counts A zero = refl
replicate-Counts A (suc k) = (refl, replicate-Counts A k)

module _ {A : Type 0} (join : A → A → A) where
  insert-Pads :
      (x : A) (f g : List (Option A)) → Pads f g → Pads (insert join 0 x f) (insert join 0 x g)
  unfolding insert
  insert-Pads x [] [] p = (refl, tt)
  insert-Pads x [] (none ∷ g) p = (refl, p)
  insert-Pads x [] (some z ∷ g) p = absurd p
  insert-Pads x (t ∷ f) [] p = absurd p
  insert-Pads x (none ∷ f) (none ∷ g) p = (refl, p)
  insert-Pads x (none ∷ f) (some z ∷ g) p = absurd p
  insert-Pads x (some y ∷ f) (none ∷ g) p = absurd p
  insert-Pads x (some y ∷ f) (some z ∷ g) p = rw (p.0) (insert-Pads (join z x) f g p.1)

  pub push_all-Pads :
      (xs : List A) (f g : List (Option A))
      → Pads f g
      → Pads (push_all join xs f) (push_all join xs g)
  unfolding push_all
  push_all-Pads [] f g p = p
  push_all-Pads (x ∷ xs) f g p =
      push_all-Pads xs (insert join 0 x f) (insert join 0 x g) (insert-Pads x f g p)

  pub root_from-Blank : (r : Option A) (f : List (Option A)) → Blank f → root_from join r f ≡ r
  unfolding root_from
  root_from-Blank r [] b = refl
  root_from-Blank r (none ∷ f) b = root_from-Blank r f b
  root_from-Blank r (some x ∷ f) b = absurd b

  pub root_from-Pads :
      (r : Option A) (f g : List (Option A)) → Pads f g → root_from join r f ≡ root_from join r g
  unfolding root_from
  root_from-Pads r [] g p = sym (root_from-Blank r g p)
  root_from-Pads r (t ∷ f) [] p = absurd p
  root_from-Pads r (none ∷ f) (none ∷ g) p = root_from-Pads r f g p
  root_from-Pads r (none ∷ f) (some z ∷ g) p = absurd p
  root_from-Pads r (some y ∷ f) (none ∷ g) p = absurd p
  root_from-Pads none (some y ∷ f) (some z ∷ g) p = rw (p.0) (root_from-Pads (some z) f g p.1)
  root_from-Pads (some r) (some y ∷ f) (some z ∷ g) p =
      rw (p.0) (root_from-Pads (some (join z r)) f g p.1)

  -- The root of the leaves is the same from any counter of zero digits.
  pub root_from-push_all-Blank :
      (xs : List A) (f g : List (Option A))
      → Blank f
      → Blank g
      → root_from join none (push_all join xs f) ≡ root_from join none (push_all join xs g)
  root_from-push_all-Blank xs f g bf bg =
      sym (root_from-Pads none _ _ (push_all-Pads xs [] f bf))
      ∙ root_from-Pads none _ _ (push_all-Pads xs [] g bg)

  -- Few enough leaves leave the higher digits alone.
  insert-low :
      (x : A) (n : ℕ) (low high : List (Option A))
      → Counts n low
      → n + 1 < 2 ^ length low
      → insert join 0 x (low ++ high) ≡ insert join 0 x low ++ high
  unfolding insert
  insert-low x n [] high c p = absurd (omega arith)
  insert-low x n (none ∷ low) high c p = refl
  insert-low x n (some y ∷ low) high c p =
      ap (◌∷◌ none)
        (insert-low (join y x) (n / 2) low high c.1 (omega (arith, c.0, pow-suc 2 (length low))))

  length-insert_zero :
      (x : A) (n : ℕ) (low : List (Option A))
      → Counts n low
      → n + 1 < 2 ^ length low
      → length (insert join 0 x low) ≡ length low
  unfolding insert
  length-insert_zero x n [] c p = absurd (omega arith)
  length-insert_zero x n (none ∷ low) c p = refl
  length-insert_zero x n (some y ∷ low) c p =
      ap suc
        (length-insert_zero (join y x) (n / 2) low c.1 (omega (arith, c.0, pow-suc 2 (length low))))

  pub push_all-low :
      (xs : List A) (n : ℕ) (low high : List (Option A))
      → Counts n low
      → n + length xs < 2 ^ length low
      → push_all join xs (low ++ high) ≡ push_all join xs low ++ high
  unfolding push_all
  push_all-low [] n low high c p = refl
  push_all-low (x ∷ xs) n low high c p = rw (insert-low x n low high c (omega arith)) (
      push_all-low xs (n + 1) (insert join 0 x low) high (insert-Counts_zero join n x low c)
        (rw (length-insert_zero x n low c (omega arith)) (omega arith)))

  pub root_from-append_some :
      (r : Option A) (q x : A) (low high : List (Option A))
      → root_from join r low ≡ some q
      → Blank high
      → root_from join r (low ++ some x ∷ high) ≡ some (join x q)
  unfolding root_from
  root_from-append_some none q x [] high e b = cc
  root_from-append_some (some r) q x [] high e b = root_from-Blank (some (join x r)) high b ∙ cc
  root_from-append_some r q x (none ∷ low) high e b = root_from-append_some r q x low high e b
  root_from-append_some none q x (some y ∷ low) high e b =
      root_from-append_some (some y) q x low high e b
  root_from-append_some (some r) q x (some y ∷ low) high e b =
      root_from-append_some (some (join y r)) q x low high e b
