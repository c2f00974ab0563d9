-- ===== src/Merkle/ProofStack/View.antt =====
-- insertNode of proofStack (merkle/stack.go) against insert of the counter of Merkle/Forest.
use native.Mathlib.Nat.{pow-suc, one-le-pow}
use us.Prelude.{
  ℕ, zero, suc, ◌+◌, ◌/◌, ◌%◌, ◌^◌, ◌<◌, ◌≡◌, refl, ap, ◌∙◌, true, false, inl, inr, List, [], ◌∷◌,
  Option, none, some, arith, ◌==◌, if◌then◌else◌, length, set, length-set, has_bit, has_bit-suc,
  has_bit-zero, Bool-cases, ltb-eq_true, Option-cases, get_elem?,
}
use us.Merkle.Forest.{insert, view}
use us.Merkle.Hash.{Blake, Hash, sum_pair}
use us.Merkle.ProofStack.{ProofStack, carry, insert_node}

-- `s` is a stack of 17 entries in which those of `f` are in use.
pub record Represents (s : ProofStack) (f : List (Option Hash)) : Type 0 where
  pub size : length s.stack ≡ 17
  pub entries : view s.used s.stack ≡ f

abbrev up : Option (ℕ × Hash) → Option (ℕ × Hash)
up none = none
up (some (i, h)) = some (suc i, h)

module _ ⦃blake : Blake⦄ where
  carry-suc :
      (fuel : ℕ) (x : Hash) (xs : List Hash) (used i : ℕ) (h : Hash)
      → carry fuel (x ∷ xs) used (suc i) h ≡ up (carry fuel xs (used / 2) i h)
  unfolding carry
  carry-suc zero x xs used i h = refl
  carry-suc (suc fuel) x xs used i h = elim (Bool-cases (has_bit (used / 2) i)) [
    | inl set ↦
        rw (has_bit-suc, set)
          (elim (Option-cases (get_elem? xs i)) [
            | inl e ↦ rw e
            | inr (y, e) ↦ rw e (carry-suc fuel x xs used (suc i) (sum_pair y h))
          ])
    | inr clear ↦ rw (has_bit-suc, clear)
  ]

  -- The carry starting from the lowest entry.
  abbrev Carried : ℕ → List Hash → Hash → Option (ℕ × Hash) → Type 0
  Carried used xs h none = ⊥
  Carried used xs h (some (i, top)) =
      (i < length xs) × (view (used + 1) (set xs i top) ≡ insert sum_pair 0 h (view used xs))

  Carried-up :
      (used : ℕ) (x : Hash) (xs : List Hash) (h : Hash) (r : Option (ℕ × Hash))
      → used % 2 ≡ 1
      → Carried (used / 2) xs (sum_pair x h) r
      → Carried used (x ∷ xs) h (up r)
  unfolding view insert
  Carried-up used x xs h none odd c = c
  Carried-up used x xs h (some (i, top)) odd c =
      let half : (used + 1) / 2 ≡ used / 2 + 1 = omega arith in
      let even : ((used + 1) % 2 == 1) ≡ false = ground arith in
      let bit : (used % 2 == 1) ≡ true = ground arith in
      (omega (arith, c.0), rw (half, even, bit) (ap (◌∷◌ none) c.1))

  carry_zero :
      (fuel used : ℕ) (xs : List Hash) (h : Hash)
      → length xs < fuel
      → used + 1 < 2 ^ length xs
      → Carried used xs h (carry fuel xs used 0 h)
  unfolding view carry insert
  carry_zero zero used xs h p q = absurd (omega arith)
  carry_zero (suc fuel) used [] h p q = absurd (omega arith)
  carry_zero (suc fuel) used (x ∷ xs) h p q = elim (Bool-cases (used % 2 == 1)) [
    | inl odd ↦
        rw (has_bit-zero, odd, carry-suc fuel x xs used 0 (sum_pair x h))
          (Carried-up used x xs h _ (ground arith) (
            carry_zero fuel (used / 2) xs (sum_pair x h) (omega arith)
              (ground (arith, pow-suc 2 (length xs)))))
    | inr even ↦
        let half : (used + 1) / 2 ≡ used / 2 = ground arith in
        let bit : ((used + 1) % 2 == 1) ≡ true = ground arith in
        rw (has_bit-zero, even) (omega arith, rw (half, bit, even))
  ]

  -- The same from any height.
  abbrev CarriedAt : ℕ → ℕ → List Hash → Hash → Option (ℕ × Hash) → Type 0
  CarriedAt m used xs h none = ⊥
  CarriedAt m used xs h (some (i, top)) =
      (i < length xs) × (view (used + 2 ^ m) (set xs i top) ≡ insert sum_pair m h (view used xs))

  CarriedAt-up :
      (m used : ℕ) (x : Hash) (xs : List Hash) (h : Hash) (r : Option (ℕ × Hash))
      → CarriedAt m (used / 2) xs h r
      → CarriedAt (suc m) used (x ∷ xs) h (up r)
  unfolding view insert
  CarriedAt-up m used x xs h none c = c
  CarriedAt-up m used x xs h (some (i, top)) c =
      let half : (used + 2 ^ suc m) / 2 ≡ used / 2 + 2 ^ m = omega (arith, pow-suc 2 m) in
      let low : (used + 2 ^ suc m) % 2 ≡ used % 2 = omega (arith, pow-suc 2 m) in
      (omega (arith, c.0), rw (half, low) (ap (◌∷◌ (if used % 2 == 1 then some x else none)) c.1))

  carry-CarriedAt :
      (m fuel used : ℕ) (xs : List Hash) (h : Hash)
      → length xs < fuel
      → used + 2 ^ m < 2 ^ length xs
      → CarriedAt m used xs h (carry fuel xs used m h)
  carry-CarriedAt zero fuel used xs h p q = carry_zero fuel used xs h p q
  carry-CarriedAt (suc m) fuel used [] h p q = absurd (omega (arith, one-le-pow (suc m) 2))
  carry-CarriedAt (suc m) fuel used (x ∷ xs) h p q = rw (carry-suc fuel x xs used m h) (
      CarriedAt-up m used x xs h _ (
        carry-CarriedAt m fuel (used / 2) xs h (omega arith)
          (omega (arith, pow-suc 2 m, pow-suc 2 (length xs)))))

  -- While a proofStack has room below 2 ^ 17 leaves, insertNode does not panic and adds a subtree
  -- of height `m` as the binary counter does, and `used` grows by 2 ^ m.
  pub insert_node-Represents :
      (s : ProofStack) (f : List (Option Hash)) (h : Hash) (m : ℕ)
      → Represents s f
      → s.used + 2 ^ m < 2 ^ 17
      → (t : ProofStack) × (insert_node s h m ≡ some t)
        × Represents t (insert sum_pair m h f)
        × (t.used ≡ s.used + 2 ^ m)
  unfolding insert_node
  insert_node-Represents s f h m r q =
      from _ refl (carry-CarriedAt m 33 s.used s.stack h (omega (arith, r.size)) (rw r.size q))
    where
      from :
          (c : Option (ℕ × Hash))
          → carry 33 s.stack s.used m h ≡ c
          → CarriedAt m s.used s.stack h c
          → (t : ProofStack) × (insert_node s h m ≡ some t)
            × Represents t (insert sum_pair m h f)
            × (t.used ≡ s.used + 2 ^ m)
      from none e c = absurd c
      from (some (i, top)) e c =
          let fits : (s.used + 2 ^ m) % 2 ^ 32 ≡ s.used + 2 ^ m = omega arith in
          (
            record { stack = set s.stack i top; used = s.used + 2 ^ m },
            rw (e, ltb-eq_true i _ c.0, fits),
            record {
              size = rw length-set r.size;
              entries = c.1 ∙ ap (insert sum_pair m h) r.entries;
            },
            refl,
          )
