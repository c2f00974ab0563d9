-- ===== src/Wallet/Funding/Sorting.antt =====
-- How DistributeFunds (wallet/builder.go) sorts its inputs, and which it ignores.
use mathlib.Core.List.{Perm, perm_middle}
use mathlib.Core.List.Perm
use us.Prelude.{
  ℕ, ◌≡◌, ◌≢◌, Bool, true, false, inl, inr, List, [], ◌∷◌, ◌++◌, arith, ◌==◌, eq_iff, Bool-cases,
  All,
}
use us.Wallet.Funding.{ValuedInput, SortSlice, larger, filter_value}
use us.Wallet.Funding.Largest.{AtMost, Descending}

-- No element of the list stands before one that the comparison puts earlier.
abbrev pub InOrder : (ValuedInput → ValuedInput → Bool) → List ValuedInput → Type 0
InOrder less [] = Unit {0}
InOrder less (o ∷ os) = All (λ (p : ValuedInput). less p o ≡ false) os × InOrder less os

-- A strict weak order: of two elements at most one stands earlier, and an element that stands
-- earlier than another does so than each third, or the third than the other.
pub record IsWeakOrder (less : ValuedInput → ValuedInput → Bool) : Type 0 where
  pub asym : (a b : ValuedInput) → less a b ≡ true → less b a ≡ false
  pub weak : (a b c : ValuedInput) → less a b ≡ false → less b c ≡ false → less a c ≡ false

-- sort.Slice rearranges a list, and puts it in order if the comparison is an order.
pub record IsSort (sorter : SortSlice) : Type 0 where
  pub rearranges :
      (less : ValuedInput → ValuedInput → Bool) (xs : List ValuedInput)
      → Perm (sorter.sort_slice less xs) xs
  pub orders :
      (less : ValuedInput → ValuedInput → Bool) (xs : List ValuedInput)
      → IsWeakOrder less
      → InOrder less (sorter.sort_slice less xs)

larger-IsWeakOrder : IsWeakOrder larger
larger-IsWeakOrder = record { asym = λ a b e. ground arith; weak = λ a b c e f. ground arith }

InOrder-AtMost :
    (o : ValuedInput) (os : List ValuedInput)
    → All (λ (p : ValuedInput). larger p o ≡ false) os
    → AtMost o.value os
InOrder-AtMost o [] all = tt
InOrder-AtMost o (p ∷ os) all = (ground (arith, all.0), InOrder-AtMost o os all.1)

InOrder-Descending : (xs : List ValuedInput) → InOrder larger xs → Descending xs
InOrder-Descending [] sorted = tt
InOrder-Descending (o ∷ os) sorted = (InOrder-AtMost o os sorted.0, InOrder-Descending os sorted.1)

pub sort_slice-Descending :
    (sorter : SortSlice) (xs : List ValuedInput)
    → IsSort sorter
    → Descending (sorter.sort_slice larger xs)
sort_slice-Descending sorter xs law =
    InOrder-Descending (sorter.sort_slice larger xs) (law.orders larger xs larger-IsWeakOrder)

filter_value-AtMost :
    (per v : ℕ) (xs : List ValuedInput) → AtMost v xs → AtMost v (filter_value per xs)
unfolding filter_value
filter_value-AtMost per v [] all = tt
filter_value-AtMost per v (o ∷ os) all = elim (Bool-cases (o.value == per)) [
  | inl e ↦ rw e (filter_value-AtMost per v os all.1)
  | inr e ↦ rw e (all.0, filter_value-AtMost per v os all.1)
]

pub filter_value-Descending :
    (per : ℕ) (xs : List ValuedInput) → Descending xs → Descending (filter_value per xs)
unfolding filter_value
filter_value-Descending per [] d = tt
filter_value-Descending per (o ∷ os) d = elim (Bool-cases (o.value == per)) [
  | inl e ↦ rw e (filter_value-Descending per os d.1)
  | inr e ↦ rw e (filter_value-AtMost per o.value os d.0, filter_value-Descending per os d.1)
]

-- The inputs, apart into those of another value and those of the value.
pub record Parts (per : ℕ) (inputs usable ignored : List ValuedInput) : Type 0 where
  pub together : Perm (usable ++ ignored) inputs
  pub others : All (λ (o : ValuedInput). o.value ≢ per) usable
  pub equal : All (λ (o : ValuedInput). o.value ≡ per) ignored

pub filter_value-Parts :
    (per : ℕ) (xs : List ValuedInput)
    → (ignored : List ValuedInput) × Parts per xs (filter_value per xs) ignored
unfolding filter_value
filter_value-Parts per [] = ([], record { together = Perm.nil; others = tt; equal = tt })
filter_value-Parts per (o ∷ os) =
    let (ignored, parts) = filter_value-Parts per os in
    elim (Bool-cases (o.value == per)) [
      | inl e ↦ rw e (
        o ∷ ignored,
        record {
          together =
              Perm.trans (perm_middle (filter_value per os) ignored) (Perm.cons o parts.together);
          others = parts.others;
          equal = ((eq_iff o.value per).0 e, parts.equal);
        },
      )
      | inr e ↦ rw e (
        ignored,
        record {
          together = Perm.cons o parts.together;
          others = (λ same. let bad = rw ((eq_iff o.value per).1 same) at e in cc, parts.others);
          equal = parts.equal;
        },
      )
    ]
