-- ===== src/Merkle/ProofStack/Root.antt =====
-- proofStack.root against root_from of the counter.
use native.Mathlib.Nat.{pow-suc, suc-sub-suc}
use mathlib.Core.Option.{get_or}
use us.Prelude.{
  ℕ, zero, suc, ◌-◌, ◌/◌, ◌%◌, ◌^◌, ◌≤◌, ◌<◌, ◌≡◌, ◌≢◌, refl, ◌∙◌, false, inl, inr, List, [], ◌∷◌,
  Option, none, some, arith, ◌==◌, if◌then◌else◌, ◌>>=◌, length, get_elem?, has_bit, has_bit-suc,
  has_bit-zero, Bool-cases, Option-cases, trailing_zeros,
}
use native.Mathlib.Decide.{ℕ_discrete}
use us.Merkle.Forest.{root_from, view}
use us.Merkle.Hash.{Blake, Hash, zero_hash, sum_pair}
use us.Merkle.ProofStack.{ProofStack, root_loop, root}
use us.Merkle.ProofStack.View.{Represents}

has_bit_none : (i : ℕ) → has_bit 0 i ≡ false
unfolding has_bit
has_bit_none i = ground arith

trailing_zeros-lt : (w n : ℕ) → n ≢ 0 → n < 2 ^ w → trailing_zeros w n < w
unfolding trailing_zeros
trailing_zeros-lt zero n h p = absurd (omega arith)
trailing_zeros-lt (suc w) n h p = ground (arith, pow-suc 2 w, trailing_zeros-lt w (n / 2))

module _ ⦃blake : Blake⦄ where
  root_loop-suc :
      (rounds : ℕ) (x : Hash) (xs : List Hash) (used i : ℕ) (r : Hash)
      → root_loop rounds (x ∷ xs) used (suc i) r ≡ root_loop rounds xs (used / 2) i r
  unfolding root_loop
  root_loop-suc zero x xs used i r = refl
  root_loop-suc (suc rounds) x xs used i r = elim (Bool-cases (has_bit (used / 2) i)) [
    | inl set ↦
        rw (has_bit-suc, set)
          (elim (Option-cases (get_elem? xs i)) [
            | inl e ↦ rw e
            | inr (y, e) ↦ rw e (root_loop-suc rounds x xs used (suc i) (sum_pair y r))
          ])
    | inr clear ↦ rw (has_bit-suc, clear) (root_loop-suc rounds x xs used (suc i) r)
  ]

  root_loop-nil : (rounds i : ℕ) (r : Hash) → root_loop rounds [] 0 i r ≡ some r
  unfolding root_loop
  root_loop-nil zero i r = refl
  root_loop-nil (suc rounds) i r = rw (has_bit_none i) (root_loop-nil rounds (suc i) r)

  root_loop-view :
      (rounds used : ℕ) (xs : List Hash) (r : Hash)
      → length xs ≤ rounds
      → used < 2 ^ length xs
      → root_loop rounds xs used 0 r ≡ root_from sum_pair (some r) (view used xs)
  unfolding root_loop view root_from
  root_loop-view rounds used [] r p q =
      let e : used ≡ 0 = omega arith in rw e (root_loop-nil rounds 0 r)
  root_loop-view zero used (x ∷ xs) r p q = absurd (omega arith)
  root_loop-view (suc rounds) used (x ∷ xs) r p q =
      let half : used / 2 < 2 ^ length xs = omega (arith, pow-suc 2 (length xs)) in
      elim (Bool-cases (used % 2 == 1)) [
        | inl odd ↦
            rw (has_bit-zero, odd)
              (root_loop-suc rounds x xs used 0 (sum_pair x r)
                ∙ root_loop-view rounds (used / 2) xs (sum_pair x r) (omega arith) half)
        | inr even ↦
            rw (has_bit-zero, even)
              (root_loop-suc rounds x xs used 0 r
                ∙ root_loop-view rounds (used / 2) xs r (omega arith) half)
      ]

  -- The body of root for a word of `w` bits.
  abbrev root_at : ℕ → ℕ → List Hash → Option Hash
  root_at w used xs = get_elem? xs (trailing_zeros w used) >>= λ r.
      root_loop (w - suc (trailing_zeros w used)) xs used (suc (trailing_zeros w used)) r

  root_at-view :
      (w used : ℕ) (xs : List Hash)
      → used ≢ 0
      → length xs ≤ w
      → used < 2 ^ length xs
      → root_at w used xs ≡ root_from sum_pair none (view used xs)
  unfolding trailing_zeros view root_from
  root_at-view w used [] h p q = absurd (omega arith)
  root_at-view zero used (x ∷ xs) h p q = absurd (omega arith)
  root_at-view (suc w) used (x ∷ xs) h p q =
      let half : used / 2 < 2 ^ length xs = omega (arith, pow-suc 2 (length xs)) in
      elim (Bool-cases (used % 2 == 1)) [
        | inl odd ↦
            let rest : suc w - 1 ≡ w = omega arith in
            rw (odd, rest)
              (root_loop-suc w x xs used 0 x ∙ root_loop-view w (used / 2) xs x (omega arith) half)
        | inr even ↦ rw even (
            simp (root_loop-suc, suc-sub-suc)
              (root_at-view w (used / 2) xs (ground arith) (omega arith) half))
      ]

  root_from-some :
      (r : Hash) (f : List (Option Hash)) → (v : Hash) × (root_from sum_pair (some r) f ≡ some v)
  unfolding root_from
  root_from-some r [] = (r, refl)
  root_from-some r (none ∷ f) = root_from-some r f
  root_from-some r (some y ∷ f) = root_from-some (sum_pair y r) f

  view-none :
      (used : ℕ) (xs : List Hash)
      → used < 2 ^ length xs
      → root_from sum_pair none (view used xs) ≡ none
      → used ≡ 0
  unfolding view root_from
  view-none used [] p e = omega arith
  view-none used (x ∷ xs) p e =
      ground (
        arith,
        pow-suc 2 (length xs),
        view-none (used / 2) xs,
        root_from-some x (view (used / 2) xs),
      )

  view_zero : (xs : List Hash) → root_from sum_pair none (view 0 xs) ≡ none
  unfolding view root_from
  view_zero [] = refl
  view_zero (x ∷ xs) = view_zero xs

  abbrev root_body : ℕ → List Hash → Option Hash
  root_body used xs = if trailing_zeros 32 used == 32 then some zero_hash else root_at 32 used xs

  root_body-view :
      (used : ℕ) (xs : List Hash)
      → length xs ≡ 17
      → used < 2 ^ 17
      → root_body used xs ≡ some (get_or (root_from sum_pair none (view used xs)) zero_hash)
  root_body-view used xs n q = elim (ℕ_discrete used 0) [
    | yes e ↦ rw (e, view_zero xs) (unfold trailing_zeros in refl)
    | no h ↦
        let low = trailing_zeros-lt 32 used h (omega arith) in
        let short : used < 2 ^ length xs = rw n q in
        let found : (trailing_zeros 32 used == 32) ≡ false = ground arith in
        rw (found, root_at-view 32 used xs h (omega arith) short)
          (elim (Option-cases (root_from sum_pair none (view used xs))) [
            | inl e ↦ absurd (h (view-none used xs short e))
            | inr (v, e) ↦ rw e
          ])
  ]

  -- The root of a proofStack of fewer than 2 ^ 17 leaves is computed without a panic, and is that
  -- of the binary counter it represents, the zero hash for the empty one.
  pub root-Represents :
      (s : ProofStack) (f : List (Option Hash))
      → Represents s f
      → s.used < 2 ^ 17
      → root s ≡ some (get_or (root_from sum_pair none f) zero_hash)
  unfolding root
  root-Represents s f r q = rw (← r.entries) (root_body-view s.used s.stack r.size q)
