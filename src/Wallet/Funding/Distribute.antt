-- ===== src/Wallet/Funding/Distribute.antt =====
-- What DistributeFunds of wallet/builder.go answers.
use mathlib.Core.List.{Perm}
use mathlib.Core.List.Perm
use native.Mathlib.Nat.{mul-suc, mul-zero}
use us.Prelude.{
  ℕ, zero, suc, ◌+◌, ◌-◌, ◌*◌, ◌<◌, ◌≤◌, ◌≡◌, refl, ap, sym, inl, inr, List, [], ◌∷◌, ◌++◌, arith,
  ◌==◌, le_of_leb, lt_of_leb, Bool-cases, length, take, drop, take-append-drop, length-take,
  take-take, if◌then◌else◌,
}
use us.Wallet.Funding.{
  ValuedInput, sum_outputs, fee_for, search, filter_value, enough, Distribution, SortSlice, larger,
  distribute_funds,
}
use us.Wallet.Funding.AtLeast.{take_all}
use us.Wallet.Funding.Search.{search-Turns}
use us.Wallet.Funding.Largest.{
  AtMost, AtLeast, Descending, AtLeast-weaken, cut_any, sum-take_largest,
}
use us.Wallet.Funding.Sorting.{
  IsSort, Parts, sort_slice-Descending, filter_value-Descending, filter_value-Parts,
}

-- The fee for a number of inputs, of 241 bytes each.
abbrev pub input_fee : ℕ → ℕ → ℕ
input_fee fee_per_byte n = fee_per_byte * 241 * n

-- What DistributeFunds may answer for the inputs that it does not ignore: some of them that pay for
-- the outputs and their own fee, when no fewer of them do; or nothing, when all of them do not.
pub data IsDistribution (want fee_per_byte : ℕ) (usable : List ValuedInput)
    : Distribution → Type 0 where
  distributed :
      (r : Distribution) (unused : List ValuedInput)
      → Perm (r.ins ++ unused) usable
      → r.fee ≡ input_fee fee_per_byte (length r.ins)
      → want + r.fee ≤ sum_outputs r.ins
      → r.change ≡ sum_outputs r.ins - (want + r.fee)
      → ((picked rest : List ValuedInput)
          → Perm (picked ++ rest) usable
          → length picked < length r.ins
          → sum_outputs picked < want + input_fee fee_per_byte (length picked))
      → IsDistribution want fee_per_byte usable r
  insufficient :
      sum_outputs usable < want + input_fee fee_per_byte (length usable)
      → IsDistribution want fee_per_byte usable (record { ins = []; fee = 0; change = 0 })

sum-take-suc :
    (k v : ℕ) (xs : List ValuedInput)
    → AtMost v (drop k xs)
    → sum_outputs (take (suc k) xs) ≤ sum_outputs (take k xs) + v
unfolding sum_outputs
sum-take-suc zero v [] most = omega arith
sum-take-suc zero v (x ∷ xs) most = omega (arith, most.0)
sum-take-suc (suc k) v [] most = omega arith
sum-take-suc (suc k) v (x ∷ xs) most = omega (arith, sum-take-suc k v xs most)

-- Inputs that are worth their fee pay more, the more there are.
sum-take_paying :
    (f j : ℕ) (xs : List ValuedInput)
    → AtLeast f xs
    → j ≤ length xs
    → sum_outputs (take j xs) + f * length xs ≤ sum_outputs xs + f * j
unfolding sum_outputs
sum-take_paying f zero [] all le = omega arith
sum-take_paying f zero (x ∷ xs) all le =
    omega (
      arith,
      all.0,
      sum-take_paying f zero xs all.1 (omega arith),
      mul-suc f (length xs),
      mul-zero f,
    )
sum-take_paying f (suc j) [] all le = absurd (omega arith)
sum-take_paying f (suc j) (x ∷ xs) all le =
    omega (arith, sum-take_paying f j xs all.1 (omega arith), mul-suc f (length xs), mul-suc f j)

-- Where `m` of the largest inputs do not pay and one more does, no fewer do.
fewer_fail :
    (f want m j : ℕ) (ins : List ValuedInput)
    → Descending ins
    → m < length ins
    → sum_outputs (take m ins) < want + f * m
    → want + f * suc m ≤ sum_outputs (take (suc m) ins)
    → j ≤ m
    → sum_outputs (take j ins) < want + f * j
fewer_fail f want m j ins d lt fails pays le =
    let (v, s) = cut_any m ins d in
    let worth : f ≤ v = omega (arith, sum-take-suc m v ins s.after, mul-suc f m) in
    let size : length (take m ins) ≡ m = omega (arith, length-take m ins) in
    let more =
      sum-take_paying f j (take m ins) (AtLeast-weaken v f _ worth s.before) (omega arith) in
    let first = ap sum_outputs (take-take j m ins le) in
    let fees = ap (λ (k : ℕ). f * k) size in omega (arith, more, first, fees)

module _ (ins : List ValuedInput) (want fee_per_byte : ℕ) (d : Descending ins) where
  -- Prefixes of the largest inputs are the best selections.
  taken-IsDistribution :
      (i : ℕ)
      → i ≤ length ins
      → want + input_fee fee_per_byte i ≤ sum_outputs (take i ins)
      → ((m : ℕ) → i ≡ suc m → sum_outputs (take m ins) < want + input_fee fee_per_byte m)
      → IsDistribution want fee_per_byte ins (record {
        ins = take i ins;
        fee = input_fee fee_per_byte i;
        change = sum_outputs (take i ins) - (want + input_fee fee_per_byte i);
      })
  taken-IsDistribution i le pays turn =
      let size : length (take i ins) ≡ i = omega (arith, length-take i ins) in
      distributed _ (drop i ins) (rw (take-append-drop i ins) Perm.rfl)
        (ap (input_fee fee_per_byte) (sym size)) pays refl
        (λ picked rest p short.
          let m = i - 1 in
          let at : i ≡ suc m = omega arith in
          let best = sum-take_largest ins picked rest d p (omega arith) in
          let fewer =
            fewer_fail (fee_per_byte * 241) want m (length picked) ins d (omega arith) (turn m at)
              (rw at at pays) (omega arith) in
          omega (arith, best, fewer))

  found-IsDistribution :
      (let i = search (length ins + 1) (enough ins want fee_per_byte) in
        IsDistribution want fee_per_byte ins (
          if i == length ins + 1 then record { ins = []; fee = 0; change = 0 } else record {
            ins = take i ins;
            fee = fee_for fee_per_byte i;
            change = sum_outputs (take i ins) - (want + fee_for fee_per_byte i);
          }))
  unfolding enough fee_for
  found-IsDistribution =
      let t = search-Turns (length ins + 1) (enough ins want fee_per_byte) in
      let i = search (length ins + 1) (enough ins want fee_per_byte) in
      elim (Bool-cases (i == length ins + 1)) [
        | inl e ↦
            let last : i - 1 ≡ length ins = ground arith in
            rw e (
              insufficient (elim t.below [
                | inl none_used ↦ absurd (ground arith)
                | inr fails ↦ rw (last, take_all ins) at (lt_of_leb _ _ fails)
              ]))
        | inr e ↦ rw e (
            taken-IsDistribution i (ground (arith, t.bound))
              (elim t.above [ inl end ↦ absurd (ground arith) | inr holds ↦ le_of_leb _ _ holds ])
              (λ m at. elim t.below [
                | inl none_used ↦ absurd (omega arith)
                | inr fails ↦
                    let before : i - 1 ≡ m = omega arith in rw before at (lt_of_leb _ _ fails)
              ]))
      ]

-- For a sort.Slice that rearranges its list and puts it in order: DistributeFunds answers some of
-- the inputs whose value is not that of an output, such that they pay for all outputs and their
-- own fee, and no selection of fewer of these inputs pays for all outputs and its own fee, with
-- that fee and the rest as change; or nothing, when all inputs of other values together do not pay
-- for all outputs and their own fee.
pub distribute_funds-IsDistribution :
    (sorter : SortSlice) (inputs : List ValuedInput) (n per fee_per_byte : ℕ)
    → IsSort sorter
    → (usable : List ValuedInput) × (ignored : List ValuedInput) × Parts per inputs usable ignored
      × IsDistribution
          (per * n)
          fee_per_byte
          usable
          (distribute_funds ⦃sorter = sorter⦄ inputs n per fee_per_byte)
unfolding distribute_funds
distribute_funds-IsDistribution sorter inputs n per fee_per_byte law =
    let sorted = sorter.sort_slice larger inputs in
    let (ignored, parts) = filter_value-Parts per sorted in
    let d = filter_value-Descending per sorted (sort_slice-Descending sorter inputs law) in
    (
      filter_value per sorted,
      ignored,
      record {
        together = Perm.trans parts.together (law.rearranges larger inputs);
        others = parts.others;
        equal = parts.equal;
      },
      found-IsDistribution (filter_value per sorted) (per * n) fee_per_byte d,
    )
