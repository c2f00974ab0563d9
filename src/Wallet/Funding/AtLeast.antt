-- ===== src/Wallet/Funding/AtLeast.antt =====
-- What FundAtLeast of wallet/builder.go answers.
use mathlib.Core.List.{append_assoc, append-nil}
use native.Mathlib.Decide.{ℕ_discrete}
use us.Prelude.{
  ℕ, suc, ◌+◌, ◌-◌, ◌<◌, ◌≤◌, ◌≡◌, refl, ap, sym, ◌∙◌, true, false, inl, inr, List, [], ◌∷◌, ◌++◌,
  arith, ◌==◌, leb, Bool-cases, length, take, length-append, le_of_leb, lt_of_leb,
}
use us.Wallet.Funding.{ValuedInput, sum_outputs, Selection, fund_at_least_loop, fund_at_least}

-- What FundAtLeast may answer: the prefix of `k` inputs, which reaches the amount when no shorter
-- one that is not empty does, nothing for an amount of zero without inputs, or a refusal.
pub data IsSelection (amount : ℕ) (inputs : List ValuedInput) : Selection → Type 0 where
  selected :
      (k : ℕ)
      → 0 < k
      → k ≤ length inputs
      → amount ≤ sum_outputs (take k inputs)
      → ((j : ℕ) → 0 < j → j < k → sum_outputs (take j inputs) < amount)
      → IsSelection amount inputs (record {
        used = take k inputs;
        change = sum_outputs (take k inputs) - amount;
        ok = true;
      })
  nothing_needed :
      inputs ≡ []
      → amount ≡ 0
      → IsSelection amount inputs (record { used = []; change = 0; ok = true })
  refused :
      sum_outputs inputs < amount
      → IsSelection amount inputs (record { used = []; change = 0; ok = false })

pub sum_outputs-append :
    (xs ys : List ValuedInput) → sum_outputs (xs ++ ys) ≡ sum_outputs xs + sum_outputs ys
unfolding sum_outputs
sum_outputs-append [] ys = omega arith
sum_outputs-append (x ∷ xs) ys = omega (arith, sum_outputs-append xs ys)

sum_outputs-singleton : (o : ValuedInput) → sum_outputs (o ∷ []) ≡ o.value
unfolding sum_outputs
sum_outputs-singleton o = omega arith

take-snoc :
    (done : List ValuedInput) (o : ValuedInput) (rest : List ValuedInput)
    → take (suc (length done)) (done ++ o ∷ rest) ≡ done ++ o ∷ []
take-snoc [] o rest = refl
take-snoc (x ∷ done) o rest = ap (◌∷◌ x) (take-snoc done o rest)

pub take_all : (xs : List ValuedInput) → take (length xs) xs ≡ xs
take_all [] = refl
take_all (x ∷ xs) = ap (◌∷◌ x) (take_all xs)

end-IsSelection :
    (amount : ℕ) (inputs : List ValuedInput)
    → ((j : ℕ) → 0 < j → j ≤ length inputs → sum_outputs (take j inputs) < amount)
    → IsSelection amount inputs (record { used = []; change = 0; ok = amount == 0 })
unfolding sum_outputs
end-IsSelection amount [] short = elim (Bool-cases (amount == 0)) [
  | inl e ↦ rw e (nothing_needed refl (ground arith))
  | inr e ↦ rw e (refused (ground arith))
]
end-IsSelection amount (o ∷ inputs) short =
    let less : sum_outputs (o ∷ inputs) < amount =
      rw take_all at (short (length (o ∷ inputs)) (omega arith) (omega arith)) in
    let e : (amount == 0) ≡ false = ground arith in rw e (refused less)

fund_at_least_loop-IsSelection :
    (amount : ℕ) (inputs done rest : List ValuedInput) (i sum : ℕ)
    → inputs ≡ done ++ rest
    → i ≡ length done
    → sum ≡ sum_outputs done
    → ((j : ℕ) → 0 < j → j ≤ i → sum_outputs (take j inputs) < amount)
    → IsSelection amount inputs (fund_at_least_loop amount inputs i sum rest)
unfolding fund_at_least_loop
fund_at_least_loop-IsSelection amount inputs done [] i sum e n s short =
    let whole : inputs ≡ done = e ∙ append-nil done in
    end-IsSelection amount inputs (λ j p q. short j p (omega (arith, ap length whole)))
fund_at_least_loop-IsSelection amount inputs done (o ∷ rest) i sum e n s short =
    let grown : sum_outputs (done ++ o ∷ []) ≡ sum + o.value =
      omega (arith, sum_outputs-append done (o ∷ []), sum_outputs-singleton o) in
    let longer : suc i ≡ length (done ++ o ∷ []) = omega (arith, length-append done (o ∷ [])) in
    let prefix : take (suc i) inputs ≡ done ++ o ∷ [] = rw (e, n) (take-snoc done o rest) in
    let reached : sum_outputs (take (suc i) inputs) ≡ sum + o.value =
      ap sum_outputs prefix ∙ grown in
    elim (Bool-cases (leb amount (sum + o.value))) [
      | inl enough ↦
          rw (enough, ← reached)
            (selected (suc i) (omega arith)
              (omega (arith, ap length e, n, length-append done (o ∷ rest)))
              (omega (arith, le_of_leb _ _ enough, reached)) (λ j p q. short j p (omega arith)))
      | inr short' ↦ rw short' (
          fund_at_least_loop-IsSelection amount inputs (done ++ o ∷ []) rest (suc i) (sum + o.value)
            (e ∙ sym (append_assoc done (o ∷ []) rest)) longer (sym grown)
            (λ j p q. elim (ℕ_discrete j (suc i)) [
              | yes same ↦ rw (same, reached) (lt_of_leb _ _ short')
              | no other ↦ short j p (omega arith)
            ]))
    ]

-- FundAtLeast answers the shortest nonempty prefix of the inputs that reaches the amount, with the
-- excess as change; nothing for an amount of zero without inputs; or a refusal when all inputs do
-- not reach the amount.
pub fund_at_least-IsSelection :
    (amount : ℕ) (inputs : List ValuedInput)
    → IsSelection amount inputs (fund_at_least amount inputs)
unfolding fund_at_least sum_outputs
fund_at_least-IsSelection amount inputs =
    fund_at_least_loop-IsSelection amount inputs [] inputs 0 0 refl refl refl
      (λ j p q. absurd (omega arith))
