-- ===== src/Wallet/Types.antt =====
-- wallet/wallet.go: the data of a wallet. The records of Sia's package types have the fields that
-- the wallet reads.
use us.Prelude.{ℕ, List}
use us.Merkle.Hash.{Hash}

pub record PublicKey : Type 0 where
  pub algorithm : List ℕ
  pub key : List ℕ

pub record UnlockConditions : Type 0 where
  pub timelock : ℕ
  pub public_keys : List PublicKey
  pub signatures_required : ℕ

pub record SiacoinOutput : Type 0 where
  pub value : ℕ
  pub unlock_hash : Hash

pub record SiacoinInput : Type 0 where
  pub parent_id : Hash
  pub unlock_conditions : UnlockConditions

pub record SiafundInput : Type 0 where
  pub parent_id : Hash
  pub unlock_conditions : UnlockConditions
  pub claim_unlock_hash : Hash

-- The proof outputs of a file contract or a revision of one.
pub record ProofOutputs : Type 0 where
  pub valid_proof_outputs : List SiacoinOutput
  pub missed_proof_outputs : List SiacoinOutput

-- types.Transaction
pub record SiaTransaction : Type 0 where
  pub siacoin_inputs : List SiacoinInput
  pub siacoin_outputs : List SiacoinOutput
  pub siafund_inputs : List SiafundInput
  pub siafund_outputs : List SiacoinOutput
  pub file_contracts : List ProofOutputs
  pub file_contract_revisions : List ProofOutputs

-- What the wallet calls of package types: the identifiers of a transaction and of its outputs, and
-- the hash of unlock conditions.
pub record Sia : Type 0 where
  pub transaction_id : SiaTransaction → Hash
  pub siacoin_output_id : SiaTransaction → ℕ → Hash
  pub unlock_hash : UnlockConditions → Hash

pub record UnspentOutput : Type 0 where
  pub output : SiacoinOutput
  pub id : Hash

pub record BlockReward : Type 0 where
  pub unspent : UnspentOutput
  pub timelock : ℕ

pub record FileContract : Type 0 where
  pub id : Hash
  pub revision_number : ℕ
  pub unlock_conditions : UnlockConditions

pub record Transaction : Type 0 where
  pub transaction : SiaTransaction
  pub block_id : Hash
  pub block_height : ℕ
  pub timestamp : ℕ
  pub fee_per_byte : ℕ
  pub input_values : List ℕ

pub record LimboTransaction : Type 0 where
  pub transaction : SiaTransaction
  pub limbo_since : ℕ

pub record SeedAddressInfo : Type 0 where
  pub unlock_conditions : UnlockConditions
  pub key_index : ℕ

pub record ProcessedConsensusChange : Type 0 where
  pub outputs : List UnspentOutput
  pub transactions : List Transaction
  pub address_transactions : List (Hash × List Hash)
  pub block_rewards : List BlockReward
  pub file_contracts : List FileContract
  pub block_count : ℕ
