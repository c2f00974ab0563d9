-- ===== src/Wallet/Funding/Largest.antt =====
-- Values of inputs (wallet/builder.go): of a list that is ordered by value, largest first, a prefix
-- is worth as much as any selection of as many of its inputs.
use mathlib.Core.List.{Perm, foldr}
use mathlib.Core.List.Perm
use native.Mathlib.Nat.{ℕ_set}
use us.Prelude.{
  ℕ, zero, suc, ◌+◌, ◌-◌, ◌≤◌, ◌≡◌, refl, ap, List, [], ◌∷◌, ◌++◌, arith, length, take, drop,
  take-append-drop, length-take, All,
}
use us.Wallet.Funding.{ValuedInput, sum_outputs}

abbrev pub AtMost : ℕ → List ValuedInput → Type 0
AtMost v = All (λ (o : ValuedInput). o.value ≤ v)

abbrev pub AtLeast : ℕ → List ValuedInput → Type 0
AtLeast v = All (λ (o : ValuedInput). v ≤ o.value)

-- Ordered by value, largest first.
abbrev pub Descending : List ValuedInput → Type 0
Descending [] = Unit {0}
Descending (o ∷ os) = AtMost o.value os × Descending os

-- What the values have above a value, and the same value for each.
abbrev add_excess : ℕ → ValuedInput → ℕ → ℕ
add_excess v o n = (o.value - v) + n

abbrev excess : ℕ → List ValuedInput → ℕ
excess v = foldr (add_excess v) 0

abbrev level : ℕ → List ValuedInput → ℕ
level v [] = 0
level v (o ∷ os) = v + level v os

excess-append : (v : ℕ) (xs ys : List ValuedInput) → excess v (xs ++ ys) ≡ excess v xs + excess v ys
excess-append v [] ys = omega arith
excess-append v (x ∷ xs) ys = omega (arith, excess-append v xs ys)

excess-perm : (v : ℕ) (xs ys : List ValuedInput) → Perm xs ys → excess v xs ≡ excess v ys
excess-perm v xs ys p = Perm.foldr-eq ℕ_set (add_excess v) (λ x y n. omega arith) p 0

level-length : (v : ℕ) (xs ys : List ValuedInput) → length xs ≡ length ys → level v xs ≡ level v ys
level-length v [] [] e = refl
level-length v [] (y ∷ ys) e = absurd (omega arith)
level-length v (x ∷ xs) [] e = absurd (omega arith)
level-length v (x ∷ xs) (y ∷ ys) e = omega (arith, level-length v xs ys (omega arith))

-- Above a value that is no larger, and where no value is larger.
sum-level_le : (v : ℕ) (xs : List ValuedInput) → sum_outputs xs ≤ level v xs + excess v xs
unfolding sum_outputs
sum-level_le v [] = omega arith
sum-level_le v (x ∷ xs) = omega (arith, sum-level_le v xs)

sum-level :
    (v : ℕ) (xs : List ValuedInput) → AtLeast v xs → sum_outputs xs ≡ level v xs + excess v xs
unfolding sum_outputs
sum-level v [] all = refl
sum-level v (x ∷ xs) all = omega (arith, all.0, sum-level v xs all.1)

excess-AtMost : (v : ℕ) (xs : List ValuedInput) → AtMost v xs → excess v xs ≡ 0
excess-AtMost v [] all = refl
excess-AtMost v (x ∷ xs) all = omega (arith, all.0, excess-AtMost v xs all.1)

AtMost-weaken : (v w : ℕ) (xs : List ValuedInput) → v ≤ w → AtMost v xs → AtMost w xs
AtMost-weaken v w [] le all = tt
AtMost-weaken v w (x ∷ xs) le all = (omega (arith, all.0), AtMost-weaken v w xs le all.1)

pub AtLeast-weaken : (v w : ℕ) (xs : List ValuedInput) → w ≤ v → AtLeast v xs → AtLeast w xs
AtLeast-weaken v w [] le all = tt
AtLeast-weaken v w (x ∷ xs) le all = (omega (arith, all.0), AtLeast-weaken v w xs le all.1)

-- A value between the first `k` values and the others.
pub record Splits (k : ℕ) (xs : List ValuedInput) (v : ℕ) : Type 0 where
  pub before : AtLeast v (take k xs)
  pub after : AtMost v (drop k xs)

pub cut_value :
    (k bound : ℕ) (xs : List ValuedInput)
    → Descending xs
    → AtMost bound xs
    → (v : ℕ) × (v ≤ bound) × Splits k xs v
cut_value zero bound [] d most = (0, omega arith, record { before = tt; after = tt })
cut_value zero bound (x ∷ xs) d most =
    (x.value, most.0, record { before = tt; after = (omega arith, d.0) })
cut_value (suc k) bound [] d most = (0, omega arith, record { before = tt; after = tt })
cut_value (suc k) bound (x ∷ xs) d most =
    let (v, le, s) = cut_value k x.value xs d.1 d.0 in
    (v, omega (arith, le, most.0), record { before = (le, s.before); after = s.after })

pub cut_any : (k : ℕ) (xs : List ValuedInput) → Descending xs → (v : ℕ) × Splits k xs v
cut_any k [] d = let (v, le, s) = cut_value k 0 [] d tt in (v, s)
cut_any k (x ∷ xs) d = let (v, le, s) = cut_value k x.value (x ∷ xs) d (omega arith, d.0) in (v, s)

-- No selection of as many inputs is worth more than the first ones.
pub sum-take_largest :
    (xs picked rest : List ValuedInput)
    → Descending xs
    → Perm (picked ++ rest) xs
    → length picked ≤ length xs
    → sum_outputs picked ≤ sum_outputs (take (length picked) xs)
sum-take_largest xs picked rest d p le =
    let k = length picked in
    let (v, s) = cut_any k xs d in
    let whole : excess v (take k xs ++ drop k xs) ≡ excess v xs =
      ap (excess v) (take-append-drop k xs) in
    let same : level v picked ≡ level v (take k xs) =
      level-length v picked (take k xs) (omega (arith, length-take k xs)) in
    omega (
      arith,
      sum-level_le v picked,
      sum-level v (take k xs) s.before,
      excess-AtMost v (drop k xs) s.after,
      excess-append v (take k xs) (drop k xs),
      excess-append v picked rest,
      excess-perm v (picked ++ rest) xs p,
      whole,
      same,
    )
