-- ===== src/Merkle/Forest.antt =====
-- The abstract view of the compressed Merkle trees of merkle/stack.go: a binary counter whose
-- digit at height k, where it is set, is the root of a perfect subtree of 2 ^ k leaves. Digits
-- stand lowest first. It specifies both proofStack and appendStack.
pub mod Root
use native.Mathlib.Nat.{pow-suc}
use us.Prelude.{
  ℕ, zero, suc, ◌+◌, ◌*◌, ◌/◌, ◌%◌, ◌^◌, ◌≡◌, refl, ap, ◌∙◌, List, [], ◌∷◌, ◌++◌, Option, none,
  some, arith, length, take, drop, ◌==◌, if◌then◌else◌, length-take, length-drop, take-append-drop,
}

module _ {ℓ} {A : Type ℓ} where
  -- The digits are those of the number of leaves.
  abbrev pub Counts : ℕ → List (Option A) → Type 0
  Counts n [] = n ≡ 0
  Counts n (none ∷ f) = (n % 2 ≡ 0) × Counts (n / 2) f
  Counts n (some x ∷ f) = (n % 2 ≡ 1) × Counts (n / 2) f

  -- No subtree is smaller than 2 ^ m leaves.
  abbrev pub Aligned : ℕ → List (Option A) → Type 0
  Aligned zero f = Unit {0}
  Aligned (suc m) [] = Unit {0}
  Aligned (suc m) (none ∷ f) = Aligned m f
  Aligned (suc m) (some x ∷ f) = ⊥

  pub Counts-Aligned : (m n q : ℕ) (f : List (Option A)) → Counts n f → n ≡ q * 2 ^ m → Aligned m f
  Counts-Aligned zero n q f c e = tt
  Counts-Aligned (suc m) n q [] c e = tt
  Counts-Aligned (suc m) n q (none ∷ f) c e =
      Counts-Aligned m (n / 2) q f c.1 (omega (arith, ap (λ (t : ℕ). q * t) (pow-suc 2 m)))
  Counts-Aligned (suc m) n q (some x ∷ f) c e = omega (arith, ap (λ (t : ℕ). q * t) (pow-suc 2 m))

  Aligned-pred : (m : ℕ) (f : List (Option A)) → Aligned (suc m) f → Aligned m f
  Aligned-pred zero f a = tt
  Aligned-pred (suc m) [] a = tt
  Aligned-pred (suc m) (none ∷ f) a = Aligned-pred m f a
  Aligned-pred (suc m) (some x ∷ f) a = absurd a

-- The entries of a stack that are in use, lowest first: those whose bit of `used` is set.
unfoldable pub view {ℓ} : {A : Type ℓ} → ℕ → List A → List (Option A)
view used [] = []
view used (x ∷ xs) = (if used % 2 == 1 then some x else none) ∷ view (used / 2) xs

Aligned-nil {ℓ} : (A : Type ℓ) (m : ℕ) → Aligned {A = A} m []
Aligned-nil A zero = tt
Aligned-nil A (suc m) = tt

module _ {ℓ} {A : Type ℓ} (join : A → A → A) where
  -- Adds a subtree of 2 ^ m leaves, carrying upwards.
  unfoldable pub insert : ℕ → A → List (Option A) → List (Option A)
  insert zero x [] = some x ∷ []
  insert zero x (none ∷ f) = some x ∷ f
  insert zero x (some y ∷ f) = none ∷ insert zero (join y x) f
  insert (suc m) x [] = none ∷ insert m x []
  insert (suc m) x (t ∷ f) = t ∷ insert m x f

  -- Adds leaves one by one.
  unfoldable pub push_all : List A → List (Option A) → List (Option A)
  unfolding insert
  push_all [] f = f
  push_all (x ∷ xs) f = push_all xs (insert 0 x f)

  -- The root: the subtrees joined from the smallest up.
  unfoldable pub root_from : Option A → List (Option A) → Option A
  root_from r [] = r
  root_from r (none ∷ f) = root_from r f
  root_from none (some y ∷ f) = root_from (some y) f
  root_from (some r) (some y ∷ f) = root_from (some (join y r)) f

  pub push_all-append :
      (xs ys : List A) (f : List (Option A)) → push_all (xs ++ ys) f ≡ push_all ys (push_all xs f)
  unfolding push_all
  push_all-append [] ys f = refl
  push_all-append (x ∷ xs) ys f = push_all-append xs ys (insert 0 x f)

  pub insert-Counts_zero :
      (n : ℕ) (x : A) (f : List (Option A)) → Counts n f → Counts (n + 1) (insert 0 x f)
  unfolding insert
  insert-Counts_zero n x [] c = omega arith
  insert-Counts_zero n x (none ∷ f) c =
      let e : (n + 1) / 2 ≡ n / 2 = omega (arith, c.0) in (omega (arith, c.0), rw e c.1)
  insert-Counts_zero n x (some y ∷ f) c =
      let e : (n + 1) / 2 ≡ n / 2 + 1 = omega (arith, c.0) in
      (omega (arith, c.0), rw e (insert-Counts_zero (n / 2) (join y x) f c.1))

  -- A subtree of 2 ^ m leaves counts as that many.
  pub insert-Counts :
      (m n : ℕ) (x : A) (f : List (Option A)) → Counts n f → Counts (n + 2 ^ m) (insert m x f)
  unfolding insert
  insert-Counts zero n x f c = insert-Counts_zero n x f c
  insert-Counts (suc m) n x [] c =
      let e : (n + 2 ^ suc m) / 2 ≡ 0 + 2 ^ m = omega (arith, c, pow-suc 2 m) in
      (omega (arith, c, pow-suc 2 m), rw e (insert-Counts m 0 x [] refl))
  insert-Counts (suc m) n x (none ∷ f) c =
      let e : (n + 2 ^ suc m) / 2 ≡ n / 2 + 2 ^ m = omega (arith, pow-suc 2 m) in
      (omega (arith, c.0, pow-suc 2 m), rw e (insert-Counts m (n / 2) x f c.1))
  insert-Counts (suc m) n x (some y ∷ f) c =
      let e : (n + 2 ^ suc m) / 2 ≡ n / 2 + 2 ^ m = omega (arith, pow-suc 2 m) in
      (omega (arith, c.0, pow-suc 2 m), rw e (insert-Counts m (n / 2) x f c.1))

  pub push_all-Counts :
      (n : ℕ) (xs : List A) (f : List (Option A))
      → Counts n f
      → Counts (n + length xs) (push_all xs f)
  unfolding push_all
  push_all-Counts n [] f c = let e : n + 0 ≡ n = omega arith in rw e c
  push_all-Counts n (x ∷ xs) f c =
      let e : n + length (x ∷ xs) ≡ n + 1 + length xs = omega arith in
      rw e (push_all-Counts (n + 1) xs (insert 0 x f) (insert-Counts_zero n x f c))

  insert-Aligned : (m : ℕ) (x : A) (f : List (Option A)) → Aligned m f → Aligned m (insert m x f)
  unfolding insert
  insert-Aligned zero x f a = tt
  insert-Aligned (suc m) x [] a = insert-Aligned m x [] (Aligned-nil A m)
  insert-Aligned (suc m) x (none ∷ f) a = insert-Aligned m x f a
  insert-Aligned (suc m) x (some y ∷ f) a = absurd a

  -- Two equal subtrees side by side are the subtree of their join.
  insert-insert :
      (m : ℕ) (x y : A) (f : List (Option A))
      → Aligned (suc m) f
      → insert m y (insert m x f) ≡ insert (suc m) (join x y) f
  unfolding insert
  insert-insert zero x y [] a = refl
  insert-insert zero x y (none ∷ f) a = refl
  insert-insert zero x y (some z ∷ f) a = absurd a
  insert-insert (suc m) x y [] a = ap (◌∷◌ none) (insert-insert m x y [] tt)
  insert-insert (suc m) x y (none ∷ f) a = ap (◌∷◌ none) (insert-insert m x y f a)
  insert-insert (suc m) x y (some z ∷ f) a = absurd a

-- A perfect binary tree of 2 ^ k leaves.
pub data Perfect {ℓ} (A : Type ℓ) : ℕ → Type ℓ where
  leaf : A → Perfect A zero
  node : {k : ℕ} → Perfect A k → Perfect A k → Perfect A (suc k)

module _ {ℓ} {A : Type ℓ} where
  unfoldable pub leaves : {k : ℕ} → Perfect A k → List A
  leaves (leaf x) = x ∷ []
  leaves (node l r) = leaves l ++ leaves r

  -- Every list of 2 ^ k leaves is that of a perfect tree.
  pub to_Perfect : (k : ℕ) (xs : List A) → length xs ≡ 2 ^ k → (t : Perfect A k) × (leaves t ≡ xs)
  unfolding leaves
  to_Perfect zero (x ∷ []) e = (leaf x, refl)
  to_Perfect zero [] e = absurd (omega arith)
  to_Perfect zero (x ∷ y ∷ xs) e = absurd (omega arith)
  to_Perfect (suc k) xs e =
      let (l, el) =
        to_Perfect k (take (2 ^ k) xs) (omega (arith, length-take (2 ^ k) xs, pow-suc 2 k)) in
      let (r, er) =
        to_Perfect k (drop (2 ^ k) xs) (omega (arith, length-drop (2 ^ k) xs, pow-suc 2 k)) in
      (node l r, rw (el, er) (take-append-drop (2 ^ k) xs))

module _ {ℓ} {A : Type ℓ} (join : A → A → A) where
  -- The root of a perfect tree.
  unfoldable pub value : {k : ℕ} → Perfect A k → A
  value (leaf x) = x
  value (node l r) = join (value l) (value r)

  -- Adding the leaves of a subtree one by one is adding its root at its height.
  pub push_all-leaves :
      {k : ℕ} (t : Perfect A k) (f : List (Option A))
      → Aligned k f
      → push_all join (leaves t) f ≡ insert join k (value t) f
  unfolding leaves value push_all
  push_all-leaves (leaf x) f a = refl
  push_all-leaves (node {k = k} l r) f a =
      push_all-append join (leaves l) (leaves r) f
      ∙ ap (push_all join (leaves r)) (push_all-leaves l f (Aligned-pred k f a))
      ∙ push_all-leaves r _ (insert-Aligned join k (value l) f (Aligned-pred k f a))
      ∙ insert-insert join k (value l) (value r) f a
