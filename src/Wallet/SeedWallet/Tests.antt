-- ===== src/Wallet/SeedWallet/Tests.antt =====
-- A wallet with one address that follows a change with one output and signs a transaction.
use us.Prelude.{
  ℕ, ◌≡◌, refl, true, List, [], ◌∷◌, ◌++◌, Option, none, some, arith, lookup, put, replicate,
  get_elem?,
}
use us.Merkle.Hash.{Blake, Hash}
use us.Wallet.Types.{Sia, SiaTransaction, SiacoinOutput, SeedAddressInfo, ProcessedConsensusChange}
use us.Wallet.Address.{calculate_unlock_hash}
use us.Wallet.Store.{
  EphemeralStore, new_ephemeral_store, add_address, apply_consensus_change, owns_address,
  unspent_outputs, remove_address, values, address_info,
}
use us.Wallet.Store.Seed.{new}
use us.Wallet.Store.Reorg.{no_change}
use us.Wallet.Filter.{SiacoinOutputDiff, filter_outputs}
use us.Wallet.SeedWallet.{
  ValuedInput, valued_inputs, Seed, Ed25519, SigHashes, Signable, full_covered_fields,
  WalletSignature, RevisionParent, next_address, sign_transaction, signed,
}
use us.Wallet.SeedWallet.Inputs.{Spends, pays_to, valued_inputs-remove_address}
use us.Wallet.SeedWallet.Steps.{begins, then_step, tracks, follows, valued_inputs-WalletStore}
use us.Wallet.SeedWallet.Keys.{IsNext, next_address-IsNext}
use us.Wallet.SeedWallet.Signatures.{
  CoversWhole, signatures_of, with_more, sign_transaction-signatures_of,
}
use us.Wallet.SeedWallet.Indices.{CanSign, Resigns, sign_transaction-Resigns}

instance abbrev toy_blake : Blake
toy_blake = record { sum256 = λ msg. replicate 32 7; length-sum256 = λ msg. refl }

instance abbrev toy_sia : Sia
toy_sia = record {
  transaction_id = λ txn. [];
  siacoin_output_id = λ txn i. i ∷ [];
  unlock_hash = λ uc. uc.timelock ∷ [];
}

abbrev info : SeedAddressInfo
info = record {
  unlock_conditions = record { timelock = 4; public_keys = []; signatures_required = 1 };
  key_index = 6;
}

abbrev tracking : EphemeralStore
tracking = add_address new_ephemeral_store info

abbrev coin : SiacoinOutput
coin = record { value = 3; unlock_hash = 4 ∷ [] }

abbrev diffs : List SiacoinOutputDiff
diffs = record { is_apply = true; id = 8 ∷ []; siacoin_output = coin } ∷ []

abbrev reverted : ProcessedConsensusChange
reverted = record no_change { outputs = (filter_outputs (owns_address tracking) diffs).reverted }

abbrev applied : ProcessedConsensusChange
applied = record no_change { outputs = (filter_outputs (owns_address tracking) diffs).applied }

abbrev funded : EphemeralStore
funded = apply_consensus_change tracking reverted applied []

valued_inputs-WalletStore_example :
    (inputs : List ValuedInput) × (valued_inputs funded ≡ some inputs)
    × Spends (unspent_outputs funded) inputs
valued_inputs-WalletStore_example = valued_inputs-WalletStore funded (
    then_step tracking funded
      (then_step new_ephemeral_store tracking begins (tracks info (omega arith)))
      (follows diffs reverted applied [] refl refl))

abbrev holding : EphemeralStore
holding = record new_ephemeral_store {
  outputs = (8 ∷ [], record { output = coin; id = 8 ∷ [] }) ∷ [];
}

valued_inputs-remove_address_example : valued_inputs (remove_address holding (4 ∷ [])) ≡ none
unfolding pays_to unspent_outputs values
valued_inputs-remove_address_example = valued_inputs-remove_address holding (4 ∷ []) refl

abbrev seed : Seed
seed = record { siad_seed = replicate 32 1 }

instance abbrev toy_ed : Ed25519
toy_ed = record { new_key_from_seed = λ s. s ++ s; sign = λ key hash. key ++ hash }

next_address-IsNext_example :
    IsNext seed new_ephemeral_store
      (next_address seed new_ephemeral_store).0
      (next_address seed new_ephemeral_store).1
unfolding new_ephemeral_store
next_address-IsNext_example = next_address-IsNext seed new_ephemeral_store new (omega arith)

abbrev whole : SiaTransaction → List RevisionParent → Hash → ℕ → ℕ → Hash
whole txn revisions parent index timelock = parent

abbrev parent_hash : Option WalletSignature → Hash
parent_hash none = []
parent_hash (some sig) = sig.parent_id

instance abbrev toy_hashes : SigHashes
toy_hashes = record { sig_hash = λ txn i. parent_hash (get_elem? txn.transaction_signatures i) }

toy_law : CoversWhole toy_hashes whole
toy_law = record { covers = λ txn i sig e full. rw e refl }

abbrev unsigned : Hash → WalletSignature
unsigned parent = record {
  parent_id = parent;
  covered_fields = full_covered_fields;
  public_key_index = 0;
  timelock = 0;
  signature = [];
}

abbrev txn : Signable
txn = record {
  transaction = record {
    siacoin_inputs = record { parent_id = 8 ∷ []; unlock_conditions = info.unlock_conditions } ∷ [];
    siacoin_outputs = [];
    siafund_inputs = [];
    siafund_outputs = [];
    file_contracts = [];
    file_contract_revisions = [];
  };
  revision_parents = [];
  transaction_signatures =
      record {
        parent_id = 8 ∷ [];
        covered_fields = full_covered_fields;
        public_key_index = 0;
        timelock = 0;
        signature = [];
      }
      ∷ [];
}

sign_transaction-signatures_of_example :
    sign_transaction seed tracking txn []
    ≡ signed (
        with_more seed tracking whole toy_law txn (
          signatures_of seed tracking whole toy_law txn.transaction txn.revision_parents
            txn.transaction.siacoin_inputs))
sign_transaction-signatures_of_example =
    sign_transaction-signatures_of seed tracking whole toy_law txn

tracking-info : address_info tracking (4 ∷ []) ≡ some info
unfolding address_info add_address new_ephemeral_store lookup put calculate_unlock_hash
tracking-info = refl

-- A signature for a siafund input, after one for the siacoin input.
abbrev with_funds : Signable
with_funds = record txn {
  transaction = record txn.transaction {
    siafund_inputs =
        record {
          parent_id = 9 ∷ [];
          unlock_conditions = info.unlock_conditions;
          claim_unlock_hash = [];
        }
        ∷ [];
  };
  transaction_signatures = unsigned (8 ∷ []) ∷ unsigned (9 ∷ []) ∷ [];
}

first-CanSign : CanSign seed tracking whole toy_law with_funds 0
unfolding lookup
first-CanSign = record {
  sig = unsigned (8 ∷ []);
  info = info;
  at = refl;
  full = refl;
  key = tracking-info;
}

funds-CanSign : CanSign seed tracking whole toy_law with_funds 1
unfolding lookup
funds-CanSign = record {
  sig = unsigned (9 ∷ []);
  info = info;
  at = refl;
  full = refl;
  key = tracking-info;
}

sign_transaction-Resigns_example :
    (txn' : Signable) × (sign_transaction seed tracking with_funds (0 ∷ 1 ∷ []) ≡ signed txn')
    × Resigns seed tracking whole toy_law with_funds (0 ∷ 1 ∷ []) txn'
sign_transaction-Resigns_example =
    sign_transaction-Resigns seed tracking whole toy_law with_funds 0 (1 ∷ [])
      (first-CanSign, (funds-CanSign, tt))
