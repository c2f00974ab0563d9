-- ===== src/Merkle/RangeProof/Tree.antt =====
-- The recursions of BuildProof and verifyProof over any tree of hashes: `node k i` is the root of
-- the subtree of 2 ^ k leaves that starts at leaf i.
use mathlib.Core.List.{append_assoc, append-nil}
use native.Mathlib.Nat.{pow-suc}
use us.Prelude.{
  ℕ, zero, suc, ◌+◌, ◌/◌, ◌^◌, ◌<◌, ◌≤◌, ◌≡◌, ap, sym, ◌∙◌, Bool, true, false, inl, inr, ◌&&◌, ◌||◌,
  List, [], ◌∷◌, ◌++◌, Option, some, arith, leb, if◌then◌else◌, ◌>>=◌, Bool-cases,
}
use us.Merkle.Hash.{Blake, Hash, sum_pair}
use us.Merkle.RangeProof.{build_loop, verify_loop, pop}

module _ (start end : ℕ) where
  -- The subtree [i, j) lies in the range.
  abbrev pub within : ℕ → ℕ → Bool
  within i j = leb start i && leb j end

  -- The subtree [i, j) does not meet the range.
  abbrev pub apart : ℕ → ℕ → Bool
  apart i j = leb j start || leb end i

  -- The roots of the largest subtrees outside the range, from left to right.
  pub cut : (ℕ → ℕ → Hash) → ℕ → ℕ → List Hash
  cut node zero i = if within i (i + 2 ^ 0) then [] else node 0 i ∷ []
  cut node (suc k) i =
      let both = cut node k i ++ cut node k (i + 2 ^ k) in
      if within i (i + 2 ^ suc k)
      then []
      else if apart i (i + 2 ^ suc k)
      then node (suc k) i ∷ []
      else both

  module _ (node : ℕ → ℕ → Hash) where
    pub cut-within : (k i : ℕ) → within i (i + 2 ^ k) ≡ true → cut node k i ≡ []
    unfolding cut
    cut-within zero i e = rw e
    cut-within (suc k) i e = rw e

    pub cut-apart :
        (k i : ℕ)
        → within i (i + 2 ^ k) ≡ false
        → apart i (i + 2 ^ k) ≡ true
        → cut node k i ≡ node k i ∷ []
    unfolding cut
    cut-apart zero i e h = rw e
    cut-apart (suc k) i e h = rw (e, h)

    pub cut-split :
        (k i : ℕ)
        → within i (i + 2 ^ suc k) ≡ false
        → apart i (i + 2 ^ suc k) ≡ false
        → cut node (suc k) i ≡ cut node k i ++ cut node k (i + 2 ^ k)
    unfolding cut
    cut-split k i e h = rw (e, h)

  module _ (subtree : ℕ → ℕ → Option Hash) (fuel i j : ℕ) where
    build-within :
        (proof : List Hash)
        → within i j ≡ true
        → build_loop subtree start end (suc fuel) i j proof ≡ some proof
    unfolding build_loop
    build-within proof e = rw e

    build-apart :
        (proof : List Hash)
        → within i j ≡ false
        → apart i j ≡ true
        → build_loop subtree start end (suc fuel) i j proof
          ≡ (subtree i j >>= λ h. some (proof ++ h ∷ []))
    unfolding build_loop
    build-apart proof e h = rw (e, h)

    build-split :
        (proof : List Hash)
        → within i j ≡ false
        → apart i j ≡ false
        → build_loop subtree start end (suc fuel) i j proof ≡ (
            build_loop subtree start end fuel i ((i + j) / 2) proof >>= λ grown.
            build_loop subtree start end fuel ((i + j) / 2) j grown)
    unfolding build_loop
    build-split proof e h = rw (e, h)

    module _ ⦃blake : Blake⦄ where
      pub verify-within :
          (proof : List Hash)
          → within i j ≡ true
          → verify_loop subtree start end (suc fuel) i j proof
            ≡ (subtree i j >>= λ h. some (h, proof))
      unfolding verify_loop
      verify-within proof e = rw e

      pub verify-apart :
          (proof : List Hash)
          → within i j ≡ false
          → apart i j ≡ true
          → verify_loop subtree start end (suc fuel) i j proof ≡ pop proof
      unfolding verify_loop
      verify-apart proof e h = rw (e, h)

      pub verify-split :
          (proof : List Hash)
          → within i j ≡ false
          → apart i j ≡ false
          → verify_loop subtree start end (suc fuel) i j proof ≡ (
              verify_loop subtree start end fuel i ((i + j) / 2) proof >>= λ (left, rest).
              verify_loop subtree start end fuel ((i + j) / 2) j rest >>= λ (right, rest').
              some (sum_pair left right, rest'))
      unfolding verify_loop
      verify-split proof e h = rw (e, h)

  -- A single leaf is inside or outside the range.
  pub single_leaf :
      (i : ℕ) → start < end → within i (i + 2 ^ 0) ≡ false → apart i (i + 2 ^ 0) ≡ false → ⊥
  single_leaf i legal e h = ground arith

  -- Where a subtree lies: the three branches of both recursions.
  pub data Place (i j : ℕ) : Type 0 where
    inside : within i j ≡ true → Place i j
    outside : within i j ≡ false → apart i j ≡ true → Place i j
    across : within i j ≡ false → apart i j ≡ false → Place i j

  pub place : (i j : ℕ) → Place i j
  place i j = elim (Bool-cases (within i j)) [
    | inl e ↦ inside e
    | inr e ↦ elim (Bool-cases (apart i j)) [ inl h ↦ outside e h | inr h ↦ across e h ]
  ]

  module _ (legal : start < end) (top : ℕ) (node : ℕ → ℕ → Hash) where
    -- Within `top` leaves, BuildProof appends those roots.
    pub build_loop-cut :
        (subtree : ℕ → ℕ → Option Hash)
        → ((k i : ℕ) → i + 2 ^ k ≤ top → subtree i (i + 2 ^ k) ≡ some (node k i))
        → (k i : ℕ) (proof : List Hash) → i + 2 ^ k ≤ top
        → build_loop subtree start end (suc k) i (i + 2 ^ k) proof ≡ some (proof ++ cut node k i)
    build_loop-cut subtree known k i proof p = build_at k i proof p (place i (i + 2 ^ k))
      where
        build_at :
            (k i : ℕ) (proof : List Hash)
            → i + 2 ^ k ≤ top
            → Place i (i + 2 ^ k)
            → build_loop subtree start end (suc k) i (i + 2 ^ k) proof
              ≡ some (proof ++ cut node k i)
        build_at k i proof p (inside e) =
            build-within subtree k i (i + 2 ^ k) proof e
            ∙ ap some (sym (append-nil proof) ∙ ap (◌++◌ proof) (sym (cut-within node k i e)))
        build_at k i proof p (outside e h) =
            build-apart subtree k i (i + 2 ^ k) proof e h
            ∙ rw (known k i p) (ap (λ l. some (proof ++ l)) (sym (cut-apart node k i e h)))
        build_at zero i proof p (across e h) = absurd (single_leaf i legal e h)
        build_at (suc k) i proof p (across e h) =
            let mid : (i + (i + 2 ^ suc k)) / 2 ≡ i + 2 ^ k = omega (arith, pow-suc 2 k) in
            let last : i + 2 ^ suc k ≡ i + 2 ^ k + 2 ^ k = omega (arith, pow-suc 2 k) in
            let left = build_at k i proof (omega (arith, pow-suc 2 k)) (place i (i + 2 ^ k)) in
            let right =
              build_at k (i + 2 ^ k) (proof ++ cut node k i) (omega (arith, pow-suc 2 k))
                (place (i + 2 ^ k) (i + 2 ^ k + 2 ^ k)) in
            build-split subtree (suc k) i (i + 2 ^ suc k) proof e h
            ∙ rw (mid, left)
                (ap
                    (λ (j : ℕ).
                      build_loop subtree start end (suc k) (i + 2 ^ k) j (proof ++ cut node k i))
                    last
                  ∙ right
                  ∙ ap some (append_assoc proof (cut node k i) (cut node k (i + 2 ^ k)))
                  ∙ ap (λ l. some (proof ++ l)) (sym (cut-split node k i e h)))
