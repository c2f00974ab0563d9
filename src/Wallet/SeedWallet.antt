-- ===== src/Wallet/SeedWallet.antt =====
-- wallet/seedwallet.go: SeedWallet over a store, whose methods without a definition here are those
-- of the store, and HotWallet, a SeedWallet with a seed. Each call is one step, without another call
-- between its critical sections.
pub mod Inputs
pub mod Owned
pub mod Steps
pub mod Keys
pub mod Signatures
pub mod Indices
mod Tests
use us.Prelude.{
  ℕ, zero, suc, ◌+◌, ◌-◌, Bool, true, false, List, [], ◌∷◌, ◌++◌, Option, none, some, ◌==◌,
  if◌then◌else◌, eq_bytes, length, get_elem?, set, drop, ◌>>=◌,
}
use us.Prelude.Bytes.{little_endian}
use us.Merkle.Hash.{Blake, Hash}
use us.Wallet.Types.{
  PublicKey, UnlockConditions, SiaTransaction, SiacoinInput, SiafundInput, Sia, UnspentOutput,
  SeedAddressInfo, ProcessedConsensusChange,
}
use us.RenterHost.Object.CoveredFields.{CoveredFields}
use us.Wallet.Address.{calculate_unlock_hash}
use us.Wallet.Store.{
  EphemeralStore, unspent_outputs, limbo_transactions, owns_address, address_info, add_address,
}
use us.Wallet.LimboOutputs.{calculate_limbo_outputs}

-- ValuedInput
pub record ValuedInput : Type 0 where
  pub siacoin_input : SiacoinInput
  pub value : ℕ

-- The loop of ValuedInputs. `none` is its panic.
unfoldable pub inputs_of : EphemeralStore → List UnspentOutput → Option (List ValuedInput)
inputs_of s [] = some []
inputs_of s (o ∷ outputs) = address_info s o.output.unlock_hash >>= λ info.
    inputs_of s outputs >>= λ rest. some (
      record {
        siacoin_input = record { parent_id = o.id; unlock_conditions = info.unlock_conditions };
        value = o.output.value;
      }
      ∷ rest)

unfoldable pub valued_inputs : EphemeralStore → Option (List ValuedInput)
unfolding inputs_of
valued_inputs s = inputs_of s (unspent_outputs s)

module _ ⦃blake : Blake⦄ ⦃sia : Sia⦄ where
  -- SeedWallet.UnspentOutputs
  unfoldable pub wallet_outputs : EphemeralStore → Bool → List UnspentOutput
  wallet_outputs s limbo =
      if limbo
      then calculate_limbo_outputs (owns_address s) (limbo_transactions s) (unspent_outputs s)
      else unspent_outputs s

-- SumOutputs
unfoldable pub sum_values : List UnspentOutput → ℕ
sum_values [] = 0
sum_values (o ∷ outputs) = o.output.value + sum_values outputs

module _ ⦃blake : Blake⦄ ⦃sia : Sia⦄ where
  unfoldable pub balance : EphemeralStore → Bool → ℕ
  unfolding wallet_outputs sum_values
  balance s limbo = sum_values (wallet_outputs s limbo)

-- A seed, by the 32 bytes of siadSeed.
pub record Seed : Type 0 where
  pub siad_seed : List ℕ

-- crypto/ed25519 and the package ed25519hash: the 64 bytes of NewKeyFromSeed, and a signature of a
-- hash.
pub record Ed25519 : Type 0 where
  pub new_key_from_seed : List ℕ → List ℕ
  pub sign : List ℕ → Hash → List ℕ

unfoldable pub standard_unlock_conditions : PublicKey → UnlockConditions
standard_unlock_conditions pk = record {
  timelock = 0;
  public_keys = pk ∷ [];
  signatures_required = 1;
}

-- types.SignatureEd25519, "ed25519" in 16 bytes.
abbrev pub signature_ed25519 : List ℕ
signature_ed25519 = 101 ∷ 100 ∷ 50 ∷ 53 ∷ 53 ∷ 49 ∷ 57 ∷ 0 ∷ 0 ∷ 0 ∷ 0 ∷ 0 ∷ 0 ∷ 0 ∷ 0 ∷ 0 ∷ []

module _ ⦃blake : Blake⦄ ⦃ed : Ed25519⦄ where
  unfoldable pub derive_key_pair : Seed → ℕ → List ℕ
  derive_key_pair seed index =
      ed.new_key_from_seed (blake.sum256 (seed.siad_seed ++ little_endian 8 index))

  unfoldable pub public_key : Seed → ℕ → PublicKey
  unfolding derive_key_pair
  public_key seed index = record {
    algorithm = signature_ed25519;
    key = drop 32 (derive_key_pair seed index);
  }

  unfoldable pub secret_key : Seed → ℕ → List ℕ
  unfolding derive_key_pair
  secret_key seed index = derive_key_pair seed index

  module _ ⦃sia : Sia⦄ where
    -- HotWallet.NextAddress: the store afterwards, and the address.
    unfoldable pub next_address : Seed → EphemeralStore → EphemeralStore × Hash
    unfolding standard_unlock_conditions public_key
    next_address seed s =
        let index = s.seed_index in
        let info : SeedAddressInfo = record {
          unlock_conditions = standard_unlock_conditions (public_key seed index);
          key_index = index;
        } in
        (add_address s info, calculate_unlock_hash info.unlock_conditions)

-- types.FullCoveredFields
abbrev pub full_covered_fields : CoveredFields
full_covered_fields = record {
  whole_transaction = true;
  siacoin_inputs = [];
  siacoin_outputs = [];
  file_contracts = [];
  file_contract_revisions = [];
  storage_proofs = [];
  siafund_inputs = [];
  siafund_outputs = [];
  miner_fees = [];
  arbitrary_data = [];
  transaction_signatures = [];
}

-- types.TransactionSignature
pub record WalletSignature : Type 0 where
  pub parent_id : Hash
  pub covered_fields : CoveredFields
  pub public_key_index : ℕ
  pub timelock : ℕ
  pub signature : List ℕ

-- The parent of a file contract revision.
pub record RevisionParent : Type 0 where
  pub parent_id : Hash
  pub unlock_conditions : UnlockConditions

-- types.Transaction, with what SignTransaction reads and writes.
pub record Signable : Type 0 where
  pub transaction : SiaTransaction
  pub revision_parents : List RevisionParent
  pub transaction_signatures : List WalletSignature

-- Transaction.SigHash at the height ASICHardforkHeight + 1.
pub record SigHashes : Type 0 where
  pub sig_hash : Signable → ℕ → Hash

unfoldable pub standard_transaction_signature : Hash → WalletSignature
standard_transaction_signature id = record {
  parent_id = id;
  covered_fields = full_covered_fields;
  public_key_index = 0;
  timelock = 0;
  signature = [];
}

-- `txn.TransactionSignatures[i].Signature = sig`
unfoldable pub set_signature : Signable → ℕ → WalletSignature → List ℕ → Signable
set_signature txn i old sig = record txn {
  transaction_signatures = set txn.transaction_signatures i (record old { signature = sig });
}

pub data SignError : Type 0 where
  invalid_id : SignError
  cannot_sign : SignError

-- The transaction after the call, and what the call did. An index out of range panics.
pub data Signed : Type 0 where
  signed : Signable → Signed
  refused : SignError → Signable → Signed
  sign_panics : Signable → Signed

-- The unlock conditions that the loops of sigAddr find.
unfoldable pub input_conditions : Hash → List SiacoinInput → Option UnlockConditions
input_conditions id [] = none
input_conditions id (i ∷ inputs) =
    let rest = input_conditions id inputs in
    if eq_bytes i.parent_id id then some i.unlock_conditions else rest

unfoldable pub siafund_conditions : Hash → List SiafundInput → Option UnlockConditions
siafund_conditions id [] = none
siafund_conditions id (i ∷ inputs) =
    let rest = siafund_conditions id inputs in
    if eq_bytes i.parent_id id then some i.unlock_conditions else rest

unfoldable pub revision_conditions : Hash → List RevisionParent → Option UnlockConditions
revision_conditions id [] = none
revision_conditions id (r ∷ revisions) =
    let rest = revision_conditions id revisions in
    if eq_bytes r.parent_id id then some r.unlock_conditions else rest

unfoldable pub or_search :
    Option UnlockConditions → Option UnlockConditions → Option UnlockConditions
or_search none next = next
or_search (some uc) next = some uc

-- sigAddr, up to the hash of the conditions.
unfoldable pub sig_conditions : Signable → Hash → Option UnlockConditions
unfolding input_conditions siafund_conditions revision_conditions or_search
sig_conditions txn id = or_search (input_conditions id txn.transaction.siacoin_inputs) (
    or_search (siafund_conditions id txn.transaction.siafund_inputs)
      (revision_conditions id txn.revision_parents))

module _ ⦃blake : Blake⦄ ⦃sia : Sia⦄ ⦃ed : Ed25519⦄ ⦃hashes : SigHashes⦄ (seed : Seed)
    (s : EphemeralStore) where
  unfoldable pub append_transaction_signature : Signable → WalletSignature → List ℕ → Signable
  unfolding set_signature
  append_transaction_signature txn sig key =
      let longer : Signable = record txn {
        transaction_signatures = txn.transaction_signatures ++ (sig ∷ []);
      } in
      let i = length txn.transaction_signatures in
      set_signature longer i sig (ed.sign key (hashes.sig_hash longer i))

  -- The branch without indices: a signature for each input of an address that the wallet has.
  unfoldable pub sign_input : Signable → SiacoinInput → Option SeedAddressInfo → Signable
  unfolding append_transaction_signature standard_transaction_signature secret_key
  sign_input txn input none = txn
  sign_input txn input (some info) =
      append_transaction_signature txn (standard_transaction_signature input.parent_id)
        (secret_key seed info.key_index)

  unfoldable pub sign_inputs : Signable → List SiacoinInput → Signable
  unfolding sign_input
  sign_inputs txn [] = txn
  sign_inputs txn (input ∷ inputs) =
      sign_inputs (sign_input txn input (address_info s (sia.unlock_hash input.unlock_conditions)))
        inputs

  -- The key for a signature, or why there is none.
  unfoldable pub sign_with : Signable → ℕ → WalletSignature → Option SeedAddressInfo → Signed
  unfolding secret_key set_signature
  sign_with txn i sig none = refused cannot_sign txn
  sign_with txn i sig (some info) =
      signed
        (set_signature txn i sig (ed.sign (secret_key seed info.key_index) (hashes.sig_hash txn i)))

  unfoldable pub sign_for : Signable → ℕ → WalletSignature → Option UnlockConditions → Signed
  unfolding sign_with
  sign_for txn i sig none = refused invalid_id txn
  sign_for txn i sig (some uc) = sign_with txn i sig (address_info s (sia.unlock_hash uc))

  unfoldable pub sign_found : Signable → ℕ → Option WalletSignature → Signed
  unfolding sign_for sig_conditions
  sign_found txn i none = sign_panics txn
  sign_found txn i (some sig) = sign_for txn i sig (sig_conditions txn sig.parent_id)

  -- The function `sign`.
  unfoldable pub sign_index : Signable → ℕ → Signed
  unfolding sign_found
  sign_index txn i = sign_found txn i (get_elem? txn.transaction_signatures i)

  unfoldable pub and_sign : Signed → (Signable → Signed) → Signed
  and_sign (signed txn) f = f txn
  and_sign (refused e txn) f = refused e txn
  and_sign (sign_panics txn) f = sign_panics txn

  unfoldable pub sign_indices : Signable → List ℕ → Signed
  unfolding sign_index and_sign
  sign_indices txn [] = signed txn
  sign_indices txn (i ∷ to_sign) = and_sign (sign_index txn i) λ txn'. sign_indices txn' to_sign

  -- HotWallet.SignTransaction
  unfoldable pub sign_transaction : Signable → List ℕ → Signed
  unfolding sign_inputs sign_indices
  sign_transaction txn [] = signed (sign_inputs txn txn.transaction.siacoin_inputs)
  sign_transaction txn (i ∷ to_sign) = sign_indices txn (i ∷ to_sign)
