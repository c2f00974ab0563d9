-- ===== src/Wallet/LimboOutputs.antt =====
-- wallet/wallet.go: CalculateLimboOutputs.
pub mod Kept
use us.Prelude.{ℕ, suc, Bool, List, [], ◌∷◌, ◌++◌, if◌then◌else◌, eq_bytes, foldl, remove_first}
use us.Merkle.Hash.{Blake, Hash}
use us.Wallet.Types.{
  Sia, SiacoinOutput, SiacoinInput, SiaTransaction, LimboTransaction, UnspentOutput,
}
use us.Wallet.Address.{calculate_unlock_hash}

-- The inner loop of the deletion.
unfoldable pub remove_id : Hash → List UnspentOutput → List UnspentOutput
unfolding remove_first
remove_id id outputs = remove_first (λ o. eq_bytes o.id id) outputs

module _ ⦃blake : Blake⦄ ⦃sia : Sia⦄ (owns_address : Hash → Bool) where
  -- The outputs of a transaction, from index `i`, that belong to the owner.
  unfoldable pub created : SiaTransaction → ℕ → List SiacoinOutput → List UnspentOutput
  created txn i [] = []
  created txn i (o ∷ os) =
      let rest = created txn (suc i) os in
      if owns_address o.unlock_hash
      then record { output = o; id = sia.siacoin_output_id txn i } ∷ rest
      else rest

  unfoldable pub add_created : List UnspentOutput → LimboTransaction → List UnspentOutput
  unfolding created
  add_created outputs txn = outputs ++ created txn.transaction 0 txn.transaction.siacoin_outputs

  unfoldable pub spend : List UnspentOutput → SiacoinInput → List UnspentOutput
  unfolding remove_id
  spend outputs input =
      if owns_address (calculate_unlock_hash input.unlock_conditions)
      then remove_id input.parent_id outputs
      else outputs

  unfoldable pub spend_all : List UnspentOutput → List SiacoinInput → List UnspentOutput
  unfolding foldl
  spend_all outputs inputs = foldl spend outputs inputs

  unfoldable pub spend_inputs : List UnspentOutput → LimboTransaction → List UnspentOutput
  unfolding spend_all
  spend_inputs outputs txn = spend_all outputs txn.transaction.siacoin_inputs

  unfoldable pub calculate_limbo_outputs :
      List LimboTransaction → List UnspentOutput → List UnspentOutput
  unfolding foldl add_created spend_inputs
  calculate_limbo_outputs limbo outputs = foldl spend_inputs (foldl add_created outputs limbo) limbo
