-- ===== src/Wallet/SeedWallet/Signatures.antt =====
-- HotWallet.SignTransaction (wallet/seedwallet.go): the signatures that it makes.
use mathlib.Core.List.{append-nil, append_assoc}
use us.Prelude.{
  ℕ, ◌≡◌, refl, sym, ap, ◌∙◌, List, [], ◌∷◌, ◌++◌, Option, none, some, length, get_elem?, set,
}
use us.Merkle.Hash.{Blake, Hash}
use us.Wallet.Types.{Sia, SiaTransaction, SiacoinInput, SeedAddressInfo}
use us.Wallet.Store.{EphemeralStore, address_info}
use us.Wallet.SeedWallet.{
  Seed, Ed25519, SigHashes, WalletSignature, RevisionParent, Signable, signed, secret_key,
  set_signature, full_covered_fields, standard_transaction_signature, append_transaction_signature,
  sign_input, sign_inputs, sign_transaction,
}

set-append {ℓ} :
    {A : Type ℓ} (xs : List A) (x y : A) → set (xs ++ (x ∷ [])) (length xs) y ≡ xs ++ (y ∷ [])
set-append [] x y = refl
set-append (z ∷ xs) x y = ap (◌∷◌ z) (set-append xs x y)

get_elem?-append {ℓ} :
    {A : Type ℓ} (xs : List A) (x : A) → get_elem? (xs ++ (x ∷ [])) (length xs) ≡ some x
get_elem?-append [] x = refl
get_elem?-append (z ∷ xs) x = get_elem?-append xs x

-- What Sia's SigHash promises for a full signature, which covers the whole transaction and no
-- signatures: the hash depends on the transaction and on the parent, the key index and the time
-- lock of the signature, and on no signature.
pub record CoversWhole (hashes : SigHashes)
    (whole : SiaTransaction → List RevisionParent → Hash → ℕ → ℕ → Hash) : Type 0 where
  pub covers :
      (txn : Signable) (i : ℕ) (sig : WalletSignature)
      → get_elem? txn.transaction_signatures i ≡ some sig
      → sig.covered_fields ≡ full_covered_fields
      → hashes.sig_hash txn i
        ≡ whole txn.transaction txn.revision_parents sig.parent_id sig.public_key_index sig.timelock

module _ ⦃blake : Blake⦄ ⦃sia : Sia⦄ ⦃ed : Ed25519⦄ ⦃hashes : SigHashes⦄ (seed : Seed)
    (s : EphemeralStore) (whole : SiaTransaction → List RevisionParent → Hash → ℕ → ℕ → Hash)
    (law : CoversWhole hashes whole) where
  -- The signature of an input by the key of its address.
  abbrev pub signature_of :
      SiaTransaction → List RevisionParent → SiacoinInput → SeedAddressInfo → WalletSignature
  signature_of txn revisions input info = record {
    parent_id = input.parent_id;
    covered_fields = full_covered_fields;
    public_key_index = 0;
    timelock = 0;
    signature = ed.sign (secret_key seed info.key_index) (whole txn revisions input.parent_id 0 0);
  }

  abbrev if_known :
      SiaTransaction
      → List RevisionParent
      → SiacoinInput
      → Option SeedAddressInfo
      → List WalletSignature
  if_known txn revisions input none = []
  if_known txn revisions input (some info) = signature_of txn revisions input info ∷ []

  -- The signatures of the inputs whose addresses the wallet has.
  abbrev pub signatures_of :
      SiaTransaction → List RevisionParent → List SiacoinInput → List WalletSignature
  signatures_of txn revisions [] = []
  signatures_of txn revisions (input ∷ inputs) =
      if_known txn revisions input (address_info s (sia.unlock_hash input.unlock_conditions))
      ++ signatures_of txn revisions inputs

  abbrev pub with_more : Signable → List WalletSignature → Signable
  with_more txn more = record txn { transaction_signatures = txn.transaction_signatures ++ more }

  sign_input-more :
      (txn : Signable) (input : SiacoinInput) (known : Option SeedAddressInfo)
      → sign_input seed s txn input known
        ≡ with_more txn (if_known txn.transaction txn.revision_parents input known)
  unfolding sign_input append_transaction_signature set_signature standard_transaction_signature
  sign_input-more txn input none =
      ap (λ (sigs : List WalletSignature). record txn { transaction_signatures = sigs })
        (sym (append-nil txn.transaction_signatures))
  sign_input-more txn input (some info) =
      let sig = standard_transaction_signature input.parent_id in
      let longer = with_more txn (sig ∷ []) in
      let i = length txn.transaction_signatures in
      let hash = law.covers longer i sig (get_elem?-append txn.transaction_signatures sig) refl in
      ap (λ (sigs : List WalletSignature). record txn { transaction_signatures = sigs })
        (set-append txn.transaction_signatures sig (record sig {
          signature = ed.sign (secret_key seed info.key_index) (hashes.sig_hash longer i);
        })
          ∙ ap
              (λ (h : Hash).
                txn.transaction_signatures
                ++ (record sig { signature = ed.sign (secret_key seed info.key_index) h } ∷ []))
              hash)

  sign_inputs-more :
      (txn : Signable) (inputs : List SiacoinInput)
      → sign_inputs seed s txn inputs
        ≡ with_more txn (signatures_of txn.transaction txn.revision_parents inputs)
  unfolding sign_inputs
  sign_inputs-more txn [] =
      ap (λ (sigs : List WalletSignature). record txn { transaction_signatures = sigs })
        (sym (append-nil txn.transaction_signatures))
  sign_inputs-more txn (input ∷ inputs) =
      let known = address_info s (sia.unlock_hash input.unlock_conditions) in
      let here = if_known txn.transaction txn.revision_parents input known in
      let rest = signatures_of txn.transaction txn.revision_parents inputs in
      ap (λ (t : Signable). sign_inputs seed s t inputs) (sign_input-more txn input known)
      ∙ sign_inputs-more (with_more txn here) inputs
      ∙ ap (λ (sigs : List WalletSignature). record txn { transaction_signatures = sigs })
          (append_assoc txn.transaction_signatures here rest)

  -- Where the hash that a full signature signs does not depend on signatures: SignTransaction
  -- without indices succeeds, and appends to the signatures, in the order of the siacoin inputs,
  -- one for each input whose address the wallet has, with the input as parent and signed by the
  -- key that the wallet stores for the address; nothing else of the transaction changes.
  pub sign_transaction-signatures_of :
      (txn : Signable)
      → sign_transaction seed s txn []
        ≡ signed (
            with_more txn
              (signatures_of txn.transaction txn.revision_parents txn.transaction.siacoin_inputs))
  unfolding sign_transaction
  sign_transaction-signatures_of txn =
      ap signed (sign_inputs-more txn txn.transaction.siacoin_inputs)
