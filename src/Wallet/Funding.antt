-- ===== src/Wallet/Funding.antt =====
-- wallet/builder.go: the selection of inputs for a transaction. Currencies are natural numbers, as
-- types.Currency is a non-negative big integer.
pub mod AtLeast
pub mod Transaction
pub mod Search
pub mod Largest
pub mod Sorting
pub mod Distribute
mod Tests
use us.Prelude.{
  ℕ, zero, suc, ◌+◌, ◌-◌, ◌*◌, ◌/◌, Bool, true, false, not, List, [], ◌∷◌, Option, none, some, ◌==◌,
  leb, ltb, if◌then◌else◌, length, take,
}

-- ValuedInput and UnspentOutput: what is spent, with its value.
pub record ValuedInput : Type 0 where
  pub parent_id : ℕ
  pub value : ℕ

abbrev pub bytes_per_input : ℕ
bytes_per_input = 241

unfoldable pub sum_outputs : List ValuedInput → ℕ
sum_outputs [] = 0
sum_outputs (o ∷ outputs) = o.value + sum_outputs outputs

-- The results of FundAtLeast.
pub record Selection : Type 0 where
  pub used : List ValuedInput
  pub change : ℕ
  pub ok : Bool

-- The loop of FundAtLeast, at index `i` with the inputs from there on.
unfoldable pub fund_at_least_loop : ℕ → List ValuedInput → ℕ → ℕ → List ValuedInput → Selection
fund_at_least_loop amount inputs i output_sum [] = record {
  used = [];
  change = 0;
  ok = amount == 0;
}
fund_at_least_loop amount inputs i output_sum (o ∷ rest) =
    let total = output_sum + o.value in
    let later = fund_at_least_loop amount inputs (suc i) total rest in
    if leb amount total
    then record { used = take (suc i) inputs; change = total - amount; ok = true }
    else later

unfoldable pub fund_at_least : ℕ → List ValuedInput → Selection
fund_at_least amount inputs = fund_at_least_loop amount inputs 0 0 inputs

-- The results of FundTransaction.
pub record Funded : Type 0 where
  pub used : List ValuedInput
  pub fee : ℕ
  pub change : ℕ
  pub ok : Bool

abbrev pub not_funded : Funded
not_funded = record { used = []; fee = 0; change = 0; ok = false }

unfoldable pub fee_for : ℕ → ℕ → ℕ
fee_for fee_per_byte num_inputs = fee_per_byte * bytes_per_input * num_inputs

-- The loop of FundTransaction; `none` is fuel that ran out.
unfoldable pub fund_loop : ℕ → ℕ → ℕ → List ValuedInput → ℕ → Option Funded
fund_loop zero amount fee_per_byte inputs num_inputs = none
fund_loop (suc fuel) amount fee_per_byte inputs num_inputs =
    let fee = fee_for fee_per_byte num_inputs in
    let s = fund_at_least (amount + fee) inputs in
    let again = fund_loop fuel amount fee_per_byte inputs (length s.used) in
    if not s.ok
    then some not_funded
    else if length s.used == num_inputs
    then some (record { used = s.used; fee = fee; change = s.change; ok = true })
    else again

-- Every round but the last uses more inputs than the one before.
unfoldable pub fund_transaction : ℕ → ℕ → List ValuedInput → Option Funded
fund_transaction amount fee_per_byte inputs =
    let s = fund_at_least amount inputs in
    if not s.ok
    then some not_funded
    else fund_loop (suc (length inputs)) amount fee_per_byte inputs (length s.used)

-- The loop of sort.Search of the standard library, which halves [i, j).
unfoldable pub search_loop : ℕ → (ℕ → Bool) → ℕ → ℕ → ℕ
search_loop zero f i j = i
search_loop (suc fuel) f i j =
    let h = (i + j) / 2 in
    let upper = search_loop fuel f (suc h) j in
    let lower = search_loop fuel f i h in
    if not (ltb i j) then i else if not (f h) then upper else lower

unfoldable pub search : ℕ → (ℕ → Bool) → ℕ
search n f = search_loop (suc n) f 0 n

-- The inputs that DistributeFunds does not ignore.
unfoldable pub filter_value : ℕ → List ValuedInput → List ValuedInput
filter_value per [] = []
filter_value per (o ∷ ins) =
    let rest = filter_value per ins in if o.value == per then rest else o ∷ rest

-- The results of DistributeFunds.
pub record Distribution : Type 0 where
  pub ins : List ValuedInput
  pub fee : ℕ
  pub change : ℕ

-- The predicate that DistributeFunds searches with.
unfoldable pub enough : List ValuedInput → ℕ → ℕ → ℕ → Bool
enough ins want fee_per_byte i = leb (want + fee_for fee_per_byte i) (sum_outputs (take i ins))

-- sort.Slice: a list, sorted by a comparison, which says whether the first of two stands earlier.
pub record SortSlice : Type 0 where
  pub sort_slice : (ValuedInput → ValuedInput → Bool) → List ValuedInput → List ValuedInput

-- The comparison of DistributeFunds: `ins[i].Value.Cmp(ins[j].Value) > 0`.
abbrev pub larger : ValuedInput → ValuedInput → Bool
larger a b = ltb b.value a.value

module _ ⦃sorter : SortSlice⦄ where
  unfoldable pub distribute_funds : List ValuedInput → ℕ → ℕ → ℕ → Distribution
  distribute_funds inputs n per fee_per_byte =
      let ins = filter_value per (sorter.sort_slice larger inputs) in
      let want = per * n in
      let i = search (length ins + 1) (enough ins want fee_per_byte) in
      let fee = fee_for fee_per_byte i in
      if i == length ins + 1
      then record { ins = []; fee = 0; change = 0 }
      else record { ins = take i ins; fee = fee; change = sum_outputs (take i ins) - (want + fee) }
