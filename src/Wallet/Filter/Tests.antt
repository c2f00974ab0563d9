-- ===== src/Wallet/Filter/Tests.antt =====
-- A change with an output of the owner that is created, destroyed and created again.
use us.Prelude.{◌≡◌, refl, true, false, List, [], ◌∷◌, lookup, eq_bytes, Bool, inl, inr, Bool-cases}
use us.Merkle.Hash.{Hash}
use us.Wallet.Types.{Sia, SiacoinOutput, ProcessedConsensusChange}
use us.Wallet.Store.{new_ephemeral_store, apply_consensus_change}
use us.Wallet.Store.Reorg.{no_change}
use us.Wallet.Filter.{SiacoinOutputDiff, filter_outputs}
use us.Wallet.Filter.Outputs.{Alternates}
use us.Wallet.Filter.Runs.{run_diffs}
use us.Wallet.Filter.Changes.{apply_consensus_change-run_diffs}

abbrev toy_sia : Sia
toy_sia = record {
  transaction_id = λ txn. [];
  siacoin_output_id = λ txn i. i ∷ [];
  unlock_hash = λ uc. uc.timelock ∷ [];
}

abbrev coin : SiacoinOutput
coin = record { value = 3; unlock_hash = 4 ∷ [] }

abbrev flip : Bool → SiacoinOutputDiff
flip b = record { is_apply = b; id = 8 ∷ []; siacoin_output = coin }

abbrev diffs : List SiacoinOutputDiff
diffs = flip true ∷ flip false ∷ flip true ∷ []

abbrev owns : Hash → Bool
owns addr = eq_bytes addr (4 ∷ [])

abbrev reverted : ProcessedConsensusChange
reverted = record no_change { outputs = (filter_outputs owns diffs).reverted }

abbrev applied : ProcessedConsensusChange
applied = record no_change { outputs = (filter_outputs owns diffs).applied }

in_turn : (id : Hash) → Alternates id false diffs
in_turn id = elim (Bool-cases (eq_bytes id (8 ∷ []))) [
  | inl e ↦ rw e (refl, (refl, (refl, tt)))
  | inr e ↦ rw e tt
]

apply_consensus_change-run_diffs_example :
    lookup
      (8 ∷ [])
      (apply_consensus_change ⦃sia = toy_sia⦄ new_ephemeral_store reverted applied []).outputs
    ≡ lookup (8 ∷ []) (run_diffs owns new_ephemeral_store.outputs diffs)
unfolding new_ephemeral_store lookup
apply_consensus_change-run_diffs_example =
    apply_consensus_change-run_diffs ⦃sia = toy_sia⦄ owns (λ id. coin) new_ephemeral_store diffs
      reverted applied [] (refl, (refl, (refl, tt))) (λ id own. (false, refl, in_turn id)) refl refl
      (8 ∷ [])
