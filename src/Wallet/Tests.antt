-- ===== src/Wallet/Tests.antt =====
-- Runs of package wallet on small inputs.
use us.Prelude.{
  ℕ, ◌<◌, ◌≡◌, refl, Bool, eq_bytes, ◌++◌, true, List, [], ◌∷◌, some, arith, length, replicate,
  lookup, put, not,
}
use us.Merkle.Hash.{Blake}
use us.Wallet.Types.{
  SiacoinOutput, LimboTransaction, SiaTransaction, Sia, UnspentOutput, SeedAddressInfo,
  ProcessedConsensusChange,
}
use us.Wallet.Address.{calculate_unlock_hash}
use us.Wallet.Funding.{ValuedInput}
use us.Wallet.Store.{EphemeralStore, new_ephemeral_store, add_address, apply_consensus_change}
use us.Wallet.Store.Seed.{new, step, adds, Reachable-IsSeedSafe}
use us.Wallet.Relevant.{
  any, concat_map, is_empty, relevant_txn, relevant_transaction, relevant_transaction-relevant_txn,
}
use us.Wallet.LimboOutputs.{calculate_limbo_outputs}
use us.Wallet.LimboOutputs.Kept.{
  has_id, keep, numbered, limbo_outputs, owned, spends_any, calculate_limbo_outputs-keep,
}
use us.Wallet.Store.Reorg.{SameHistory, no_change, revert-apply}

abbrev coin : ℕ → ValuedInput
coin v = record { parent_id = v; value = v }

abbrev coins : List ValuedInput
coins = coin 10 ∷ coin 1 ∷ coin 500 ∷ []

abbrev toy_blake : Blake
toy_blake = record { sum256 = λ msg. replicate 32 7; length-sum256 = λ msg. refl }

abbrev toy_sia : Sia
toy_sia = record {
  transaction_id = λ txn. length txn.siacoin_inputs ∷ [];
  siacoin_output_id = λ txn i. length txn.siacoin_inputs ∷ i ∷ [];
  unlock_hash = λ uc. uc.timelock ∷ [];
}

abbrev info : SeedAddressInfo
info = record {
  unlock_conditions = record { timelock = 4; public_keys = []; signatures_required = 1 };
  key_index = 6;
}

abbrev funded_store : EphemeralStore
funded_store = add_address ⦃blake = toy_blake⦄ ⦃sia = toy_sia⦄ new_ephemeral_store info

found_info : lookup (4 ∷ []) funded_store.addrs ≡ some info
unfolding add_address new_ephemeral_store lookup put calculate_unlock_hash
found_info = refl

Reachable-IsSeedSafe_example :
    (4 ∷ [] ≡ calculate_unlock_hash ⦃blake = toy_blake⦄ ⦃sia = toy_sia⦄ info.unlock_conditions)
    × (info.key_index < funded_store.seed_index)
Reachable-IsSeedSafe_example =
    Reachable-IsSeedSafe ⦃blake = toy_blake⦄ ⦃sia = toy_sia⦄ funded_store
      (step new_ephemeral_store funded_store new (adds info (omega arith))) (4 ∷ []) info found_info

abbrev plain : SiaTransaction
plain = record {
  siacoin_inputs = [];
  siacoin_outputs = [];
  siafund_inputs = [];
  siafund_outputs = [];
  file_contracts = [];
  file_contract_revisions = [];
}

abbrev received : UnspentOutput
received = record { output = record { value = 3; unlock_hash = 4 ∷ [] }; id = 8 ∷ [] }

abbrev change : ProcessedConsensusChange
change = record no_change {
  outputs = received ∷ [];
  block_rewards = record { unspent = received; timelock = 144 } ∷ [];
  transactions =
      record {
        transaction = plain;
        block_id = [];
        block_height = 1;
        timestamp = 2;
        fee_per_byte = 3;
        input_values = [];
      }
      ∷ [];
  block_count = 2;
}

revert-apply_example : SameHistory new_ephemeral_store (
    apply_consensus_change ⦃sia = toy_sia⦄
      (apply_consensus_change ⦃sia = toy_sia⦄ new_ephemeral_store no_change change [])
      change
      no_change
      [])
unfolding new_ephemeral_store
revert-apply_example =
    revert-apply ⦃sia = toy_sia⦄ new_ephemeral_store change [] [] (omega arith) (omega arith)
      (tt, tt) tt (tt, tt)

abbrev busy : EphemeralStore
busy = record new_ephemeral_store { txns_recent_index = (1 ∷ []) ∷ (2 ∷ []) ∷ (3 ∷ []) ∷ [] }

abbrev paid : SiacoinOutput
paid = record { value = 5; unlock_hash = 1 ∷ [] }

abbrev foreign : SiacoinOutput
foreign = record { value = 6; unlock_hash = 2 ∷ [] }

-- Spends the output `received`, and creates `foreign` and `paid`.
abbrev spending : SiaTransaction
spending = record plain {
  siacoin_inputs = record { parent_id = 8 ∷ []; unlock_conditions = info.unlock_conditions } ∷ [];
  siacoin_outputs = foreign ∷ paid ∷ [];
}

relevant_transaction-relevant_txn_example :
    not (is_empty (relevant_txn (λ a. true) ⦃blake = toy_blake⦄ ⦃sia = toy_sia⦄ spending))
    ≡ relevant_transaction (λ a. true) ⦃blake = toy_blake⦄ ⦃sia = toy_sia⦄ spending
relevant_transaction-relevant_txn_example =
    relevant_transaction-relevant_txn (λ a. true) ⦃blake = toy_blake⦄ ⦃sia = toy_sia⦄ spending

-- Owns all addresses but that of `foreign`.
abbrev owner : List ℕ → Bool
owner a = not (eq_bytes a (2 ∷ []))

abbrev limbo : List LimboTransaction
limbo = record { transaction = spending; limbo_since = 1 } ∷ []

calculate_limbo_outputs-keep_example :
    calculate_limbo_outputs ⦃blake = toy_blake⦄ ⦃sia = toy_sia⦄ owner limbo (received ∷ [])
    ≡ keep
        (λ o. not (any (spends_any ⦃blake = toy_blake⦄ ⦃sia = toy_sia⦄ owner o.id) limbo))
        ((received ∷ [])
          ++ keep
              (owned ⦃blake = toy_blake⦄ ⦃sia = toy_sia⦄ owner)
              (limbo_outputs ⦃sia = toy_sia⦄ limbo))
unfolding keep limbo_outputs numbered concat_map has_id
calculate_limbo_outputs-keep_example =
    calculate_limbo_outputs-keep ⦃blake = toy_blake⦄ ⦃sia = toy_sia⦄ owner limbo (received ∷ [])
      (refl, (refl, tt))
