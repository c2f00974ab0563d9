-- ===== src/Wallet/Funding/Tests.antt =====
-- DistributeFunds of wallet/builder.go on small inputs, with an insertion sort for sort.Slice.
use mathlib.Core.List.{Perm}
use mathlib.Core.List.Perm
use us.Prelude.{
  ℕ, ◌*◌, ◌≡◌, refl, Bool, false, inl, inr, List, [], ◌∷◌, if◌then◌else◌, Bool-cases, All,
}
use us.Wallet.Funding.{
  ValuedInput, SortSlice, distribute_funds, search, search_loop, enough, fee_for, sum_outputs,
  filter_value,
}
use us.Wallet.Funding.Sorting.{InOrder, IsWeakOrder, IsSort, Parts}
use us.Wallet.Funding.Distribute.{IsDistribution, distribute_funds-IsDistribution}

module _ (less : ValuedInput → ValuedInput → Bool) where
  insert_sorted : ValuedInput → List ValuedInput → List ValuedInput
  insert_sorted o [] = o ∷ []
  insert_sorted o (p ∷ ps) =
      let rest = insert_sorted o ps in if less p o then p ∷ rest else o ∷ p ∷ ps

  insertion_sort : List ValuedInput → List ValuedInput
  insertion_sort [] = []
  insertion_sort (o ∷ os) = insert_sorted o (insertion_sort os)

  insert_sorted-Perm :
      (o : ValuedInput) (ps : List ValuedInput) → Perm (insert_sorted o ps) (o ∷ ps)
  unfolding insert_sorted
  insert_sorted-Perm o [] = Perm.rfl
  insert_sorted-Perm o (p ∷ ps) = elim (Bool-cases (less p o)) [
    | inl e ↦ rw e (Perm.trans (Perm.cons p (insert_sorted-Perm o ps)) (Perm.swap o p ps))
    | inr e ↦ rw e Perm.rfl
  ]

  insertion_sort-Perm : (os : List ValuedInput) → Perm (insertion_sort os) os
  unfolding insertion_sort
  insertion_sort-Perm [] = Perm.rfl
  insertion_sort-Perm (o ∷ os) =
      Perm.trans (insert_sorted-Perm o (insertion_sort os)) (Perm.cons o (insertion_sort-Perm os))

  abbrev NoneBefore : ValuedInput → List ValuedInput → Type 0
  NoneBefore o = All (λ (p : ValuedInput). less p o ≡ false)

  insert_sorted-NoneBefore :
      (o x : ValuedInput) (ps : List ValuedInput)
      → less o x ≡ false
      → NoneBefore x ps
      → NoneBefore x (insert_sorted o ps)
  unfolding insert_sorted
  insert_sorted-NoneBefore o x [] e all = (e, tt)
  insert_sorted-NoneBefore o x (p ∷ ps) e all = elim (Bool-cases (less p o)) [
    | inl h ↦ rw h (all.0, insert_sorted-NoneBefore o x ps e all.1)
    | inr h ↦ rw h (e, all)
  ]

  NoneBefore-weaken :
      (o p : ValuedInput) (ps : List ValuedInput)
      → IsWeakOrder less
      → less p o ≡ false
      → NoneBefore p ps
      → NoneBefore o ps
  NoneBefore-weaken o p [] order e all = tt
  NoneBefore-weaken o p (q ∷ ps) order e all =
      (order.weak q p o all.0 e, NoneBefore-weaken o p ps order e all.1)

  insert_sorted-InOrder :
      (o : ValuedInput) (ps : List ValuedInput)
      → IsWeakOrder less
      → InOrder less ps
      → InOrder less (insert_sorted o ps)
  unfolding insert_sorted
  insert_sorted-InOrder o [] order sorted = (tt, tt)
  insert_sorted-InOrder o (p ∷ ps) order sorted = elim (Bool-cases (less p o)) [
    | inl e ↦ rw e (
      insert_sorted-NoneBefore o p ps (order.asym p o e) sorted.0,
      insert_sorted-InOrder o ps order sorted.1,
    )
    | inr e ↦ rw e ((e, NoneBefore-weaken o p ps order e sorted.0), sorted)
  ]

  insertion_sort-InOrder :
      (os : List ValuedInput) → IsWeakOrder less → InOrder less (insertion_sort os)
  unfolding insertion_sort
  insertion_sort-InOrder [] order = tt
  insertion_sort-InOrder (o ∷ os) order =
      insert_sorted-InOrder o (insertion_sort os) order (insertion_sort-InOrder os order)

abbrev insertion : SortSlice
insertion = record { sort_slice = insertion_sort }

insertion-IsSort : IsSort insertion
insertion-IsSort = record { rearranges = insertion_sort-Perm; orders = insertion_sort-InOrder }

abbrev priced : ℕ → ValuedInput
priced v = record { parent_id = v; value = v }

abbrev purse : List ValuedInput
purse = priced 10 ∷ priced 1 ∷ priced 2 ∷ priced 500 ∷ []

distribute_funds-IsDistribution_example :
    (usable : List ValuedInput) × (ignored : List ValuedInput) × Parts 2 purse usable ignored
    × IsDistribution (2 * 3) 1 usable (distribute_funds ⦃sorter = insertion⦄ purse 3 2 1)
distribute_funds-IsDistribution_example =
    distribute_funds-IsDistribution insertion purse 3 2 1 insertion-IsSort

-- The first input alone pays for an output of 200, but not with the fees of the others.
abbrev dust : List ValuedInput
dust = priced 500 ∷ priced 1 ∷ priced 1 ∷ priced 1 ∷ []

distribute_funds-dust :
    distribute_funds ⦃sorter = insertion⦄ dust 1 200 1 ≡ record { ins = []; fee = 0; change = 0 }
unfolding distribute_funds search search_loop enough fee_for sum_outputs filter_value insertion_sort
    insert_sorted
distribute_funds-dust = refl
