-- ===== src/Wallet/Funding/Transaction.antt =====
-- What FundTransaction of wallet/builder.go answers.
use us.Prelude.{
  ℕ, suc, ◌+◌, ◌-◌, ◌<◌, ◌≤◌, ◌≡◌, true, not, List, Option, some, ◌==◌, if◌then◌else◌, length, take,
}
use us.Wallet.Funding.{ValuedInput, sum_outputs, Selection, Funded, not_funded, fee_for}

module _ (amount fee_per_byte : ℕ) (inputs : List ValuedInput) where
  -- No nonempty prefix of fewer than `n` inputs pays for the amount and its own fee.
  abbrev pub TooFew : ℕ → Type 0
  TooFew n = (j : ℕ) → 0 < j → j < n → sum_outputs (take j inputs) < amount + fee_for fee_per_byte j

  -- What FundTransaction may answer: the shortest prefix that pays for the amount and for its own
  -- fee, or that there is none.
  pub data IsFunded : Funded → Type 0 where
    funded :
        (k : ℕ)
        → k ≤ length inputs
        → amount + fee_for fee_per_byte k ≤ sum_outputs (take k inputs)
        → TooFew k
        → IsFunded (record {
          used = take k inputs;
          fee = fee_for fee_per_byte k;
          change = sum_outputs (take k inputs) - (amount + fee_for fee_per_byte k);
          ok = true;
        })
    unfunded : TooFew (suc (length inputs)) → IsFunded not_funded

  -- One round of the loop, with what the next would return.
  abbrev round : ℕ → Selection → Option Funded → Option Funded
  round n s again =
      if not s.ok
      then some not_funded
      else if length s.used == n
      then some
          (record { used = s.used; fee = fee_for fee_per_byte n; change = s.change; ok = true })
      else again

  Answered : Option Funded → Type 0
  Answered o = (r : Funded) × (o ≡ some r) × IsFunded r
