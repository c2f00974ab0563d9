-- ===== src/Wallet/SeedWallet/Indices.antt =====
-- HotWallet.SignTransaction (wallet/seedwallet.go) with the indices of signatures.
use us.Prelude.{
  ℕ, zero, suc, ◌≡◌, ◌≢◌, refl, sym, ap, ◌∙◌, Bool, true, false, ◌||◌, inl, inr, List, [], ◌∷◌,
  ◌++◌, map, lookup, eq_bytes, eq_bytes_sym, Option, none, some, ◌>>=◌, ◌==◌, arith, eq_iff,
  Bool-cases, length, get_elem?, set, or_false_both, get_elem?-set_self, get_elem?-set_ne, All, ◌<◌,
}
use native.Mathlib.Decide.{ℕ_discrete}
use mathlib.Core.Path.{ap₂}
use us.Merkle.Hash.{Blake, Hash}
use us.Wallet.Types.{
  Sia, SiaTransaction, SiacoinInput, SiafundInput, SeedAddressInfo, UnlockConditions,
}
use us.Wallet.Store.{EphemeralStore, address_info}
use us.Wallet.SeedWallet.{
  Seed, Ed25519, SigHashes, WalletSignature, RevisionParent, Signable, signed, full_covered_fields,
  secret_key, set_signature, sig_conditions, input_conditions, siafund_conditions,
  revision_conditions, or_search, sign_with, sign_for, sign_found, sign_index, sign_indices,
  and_sign, sign_transaction,
}
use us.Wallet.SeedWallet.Signatures.{CoversWhole}

-- The list has the index.
unfoldable pub listed : ℕ → List ℕ → Bool
listed j [] = false
listed j (i ∷ is) = j == i || listed j is

some-eq {ℓ} : {A : Type ℓ} (x y : A) → some x ≡ some y → x ≡ y
some-eq x y e = cc

or_left : (a b : Bool) → a || b ≡ true → b ≡ false → a ≡ true
or_left true b e f = refl
or_left false b e f = cc

get_elem?-lt {ℓ} :
    {A : Type ℓ} (xs : List A) (i : ℕ) (x : A) → get_elem? xs i ≡ some x → i < length xs
get_elem?-lt [] i x e = cc
get_elem?-lt (y ∷ xs) zero x e = omega arith
get_elem?-lt (y ∷ xs) (suc i) x e = omega (arith, get_elem?-lt xs i x e)

-- What a signature can belong to, with its unlock conditions: the siacoin inputs, the siafund
-- inputs and the file contract revisions of a transaction, by the IDs of their parents.
abbrev pub parents : Signable → List (Hash × UnlockConditions)
parents txn =
    map (λ (i : SiacoinInput). (i.parent_id, i.unlock_conditions)) txn.transaction.siacoin_inputs
    ++ (map (λ (i : SiafundInput). (i.parent_id, i.unlock_conditions))
          txn.transaction.siafund_inputs
        ++ map (λ (r : RevisionParent). (r.parent_id, r.unlock_conditions)) txn.revision_parents)

lookup-append :
    (id : Hash) (m m' : List (Hash × UnlockConditions))
    → lookup id (m ++ m') ≡ or_search (lookup id m) (lookup id m')
unfolding lookup or_search
lookup-append id [] m' = refl
lookup-append id ((k, uc) ∷ m) m' = elim (Bool-cases (eq_bytes id k)) [
  | inl e ↦ rw e refl
  | inr e ↦ rw e (lookup-append id m m')
]

input_conditions-lookup :
    (id : Hash) (inputs : List SiacoinInput)
    → input_conditions id inputs
      ≡ lookup id (map (λ (i : SiacoinInput). (i.parent_id, i.unlock_conditions)) inputs)
unfolding input_conditions lookup
input_conditions-lookup id [] = refl
input_conditions-lookup id (i ∷ inputs) =
    rw (eq_bytes_sym i.parent_id id, input_conditions-lookup id inputs) refl

siafund_conditions-lookup :
    (id : Hash) (inputs : List SiafundInput)
    → siafund_conditions id inputs
      ≡ lookup id (map (λ (i : SiafundInput). (i.parent_id, i.unlock_conditions)) inputs)
unfolding siafund_conditions lookup
siafund_conditions-lookup id [] = refl
siafund_conditions-lookup id (i ∷ inputs) =
    rw (eq_bytes_sym i.parent_id id, siafund_conditions-lookup id inputs) refl

revision_conditions-lookup :
    (id : Hash) (revisions : List RevisionParent)
    → revision_conditions id revisions
      ≡ lookup id (map (λ (r : RevisionParent). (r.parent_id, r.unlock_conditions)) revisions)
unfolding revision_conditions lookup
revision_conditions-lookup id [] = refl
revision_conditions-lookup id (r ∷ revisions) =
    rw (eq_bytes_sym r.parent_id id, revision_conditions-lookup id revisions) refl

sig_conditions-lookup :
    (txn : Signable) (id : Hash) → sig_conditions txn id ≡ lookup id (parents txn)
unfolding sig_conditions
sig_conditions-lookup txn id =
    let inputs = txn.transaction.siacoin_inputs in
    let funds = txn.transaction.siafund_inputs in
    rw
      (
        input_conditions-lookup id inputs,
        siafund_conditions-lookup id funds,
        revision_conditions-lookup id txn.revision_parents,
      )
      (ap (or_search _) (sym (lookup-append id _ _)) ∙ sym (lookup-append id _ _))

module _ ⦃blake : Blake⦄ ⦃sia : Sia⦄ ⦃ed : Ed25519⦄ ⦃hashes : SigHashes⦄ (seed : Seed)
    (s : EphemeralStore) (whole : SiaTransaction → List RevisionParent → Hash → ℕ → ℕ → Hash)
    (law : CoversWhole hashes whole) where
  -- The stored key of the address of the first parent with the ID.
  abbrev pub key_of : Signable → Hash → Option SeedAddressInfo
  key_of txn parent = lookup parent (parents txn) >>= λ uc. address_info s (sia.unlock_hash uc)

  -- The signature, made by that key.
  abbrev pub resigned : Signable → WalletSignature → SeedAddressInfo → WalletSignature
  resigned txn sig info = record sig {
    signature = ed.sign (secret_key seed info.key_index) (
        whole txn.transaction txn.revision_parents sig.parent_id sig.public_key_index sig.timelock);
  }

  -- There is a full signature at the index, and its key is known.
  pub record CanSign (txn : Signable) (i : ℕ) : Type 0 where
    pub sig : WalletSignature
    pub info : SeedAddressInfo
    pub at : get_elem? txn.transaction_signatures i ≡ some sig
    pub full : sig.covered_fields ≡ full_covered_fields
    pub key : key_of txn sig.parent_id ≡ some info

  abbrev replaced : (txn : Signable) (i : ℕ) → CanSign txn i → Signable
  replaced txn i c = record txn {
    transaction_signatures = set txn.transaction_signatures i (resigned txn c.sig c.info);
  }

  sign_for-resigned :
      (txn : Signable) (i : ℕ) (c : CanSign txn i) (conditions : Option UnlockConditions)
      → (conditions >>= λ uc. address_info s (sia.unlock_hash uc)) ≡ some c.info
      → sign_for seed s txn i c.sig conditions ≡ signed (replaced txn i c)
  unfolding sign_for sign_with set_signature
  sign_for-resigned txn i c none e = cc
  sign_for-resigned txn i c (some uc) e = rw (e, law.covers txn i c.sig c.at c.full) refl

  sign_index-replaced :
      (txn : Signable) (i : ℕ) (c : CanSign txn i)
      → sign_index seed s txn i ≡ signed (replaced txn i c)
  unfolding sign_index sign_found
  sign_index-replaced txn i c = rw c.at (
      sign_for-resigned txn i c (sig_conditions txn c.sig.parent_id) (
        ap (λ (o : Option UnlockConditions). o >>= λ uc. address_info s (sia.unlock_hash uc))
          (sig_conditions-lookup txn c.sig.parent_id)
        ∙ c.key))

  -- The signatures of `txn'`: those at the listed indices are made anew.
  pub record Resigns (txn : Signable) (to_sign : List ℕ) (txn' : Signable) : Type 0 where
    pub transaction : txn'.transaction ≡ txn.transaction
    pub revisions : txn'.revision_parents ≡ txn.revision_parents
    pub others :
        (j : ℕ)
        → listed j to_sign ≡ false
        → get_elem? txn'.transaction_signatures j ≡ get_elem? txn.transaction_signatures j
    pub resigns :
        (j : ℕ) (sig : WalletSignature) (info : SeedAddressInfo)
        → listed j to_sign ≡ true
        → get_elem? txn.transaction_signatures j ≡ some sig
        → key_of txn sig.parent_id ≡ some info
        → get_elem? txn'.transaction_signatures j ≡ some (resigned txn sig info)

  module _ (txn : Signable) (i : ℕ) (c : CanSign txn i) where
    replaced-here :
        get_elem? (replaced txn i c).transaction_signatures i ≡ some (resigned txn c.sig c.info)
    replaced-here =
        get_elem?-set_self txn.transaction_signatures i (resigned txn c.sig c.info)
          (get_elem?-lt txn.transaction_signatures i c.sig c.at)

    replaced-there :
        (j : ℕ)
        → i ≢ j
        → get_elem? (replaced txn i c).transaction_signatures j
          ≡ get_elem? txn.transaction_signatures j
    replaced-there j ne = get_elem?-set_ne txn.transaction_signatures (resigned txn c.sig c.info) ne

    CanSign-replaced : (j : ℕ) → CanSign txn j → CanSign (replaced txn i c) j
    CanSign-replaced j d = elim (ℕ_discrete i j) [
      | yes e ↦ record {
        sig = resigned txn c.sig c.info;
        info = c.info;
        at = rw⁻¹ e replaced-here;
        full = c.full;
        key = c.key;
      }
      | no ne ↦ record {
        sig = d.sig;
        info = d.info;
        at = replaced-there j ne ∙ d.at;
        full = d.full;
        key = d.key;
      }
    ]

    All-replaced :
        (is : List ℕ)
        → All (λ (j : ℕ). CanSign txn j) is
        → All (λ (j : ℕ). CanSign (replaced txn i c) j) is
    All-replaced [] all = tt
    All-replaced (j ∷ is) all = (CanSign-replaced j all.0, All-replaced is all.1)

    -- The signature at an index with a known key, after one call of `sign`.
    after-resigned :
        (j : ℕ) (sig : WalletSignature) (info : SeedAddressInfo)
        → i ≡ j
        → get_elem? txn.transaction_signatures j ≡ some sig
        → key_of txn sig.parent_id ≡ some info
        → get_elem? (replaced txn i c).transaction_signatures j ≡ some (resigned txn sig info)
    after-resigned j sig info e at key =
        let same : c.sig ≡ sig = some-eq c.sig sig (sym c.at ∙ rw e at) in
        let known : c.info ≡ info = some-eq c.info info (sym c.key ∙ rw same key) in
        rw⁻¹ e (replaced-here ∙ ap some (ap₂ (resigned txn) same known))

    Resigns-more :
        (is : List ℕ) (txn' : Signable)
        → Resigns (replaced txn i c) is txn'
        → Resigns txn (i ∷ is) txn'
    unfolding listed
    Resigns-more is txn' r = record {
      transaction = r.transaction;
      revisions = r.revisions;
      others = λ j out.
          let (ne, out') = or_false_both (j == i) (listed j is) out in
          r.others j out'
          ∙ replaced-there j (λ e. let bad = rw ((eq_iff j i).1 (sym e)) at ne in cc);
      resigns = λ j sig info within at key. elim (Bool-cases (listed j is)) [
        | inl later ↦ elim (ℕ_discrete i j) [
          | yes e ↦
              r.resigns j (resigned txn sig info) info later (after-resigned j sig info e at key)
                key
          | no ne ↦ r.resigns j sig info later (replaced-there j ne ∙ at) key
        ]
        | inr never ↦
            let e : i ≡ j = sym ((eq_iff j i).0 (or_left (j == i) (listed j is) within never)) in
            r.others j never ∙ after-resigned j sig info e at key
      ];
    }

  sign_indices-Resigns :
      (txn : Signable) (to_sign : List ℕ)
      → All (λ (i : ℕ). CanSign txn i) to_sign
      → (txn' : Signable) × (sign_indices seed s txn to_sign ≡ signed txn')
        × Resigns txn to_sign txn'
  unfolding sign_indices and_sign listed
  sign_indices-Resigns txn [] all = (
    txn,
    refl,
    record {
      transaction = refl;
      revisions = refl;
      others = λ j out. refl;
      resigns = λ j sig info within at key. cc;
    },
  )
  sign_indices-Resigns txn (i ∷ is) all =
      let c = all.0 in
      let (txn', ran, r) =
        sign_indices-Resigns (replaced txn i c) is (All-replaced txn i c is all.1) in
      (txn', rw (sign_index-replaced txn i c) ran, Resigns-more txn i c is txn' r)

  -- Where the hash that a full signature signs does not depend on signatures, and each of the
  -- given indices, at least one, has a full signature whose parent, the first with its ID of the
  -- siacoin inputs, then of the siafund inputs, then of the file contract revisions, has unlock
  -- conditions of an address that the wallet has: SignTransaction succeeds, each of those
  -- signatures is made by the key that the wallet stores for the address, and all else stays as it
  -- is.
  pub sign_transaction-Resigns :
      (txn : Signable) (i : ℕ) (to_sign : List ℕ)
      → All (λ (j : ℕ). CanSign txn j) (i ∷ to_sign)
      → (txn' : Signable) × (sign_transaction seed s txn (i ∷ to_sign) ≡ signed txn')
        × Resigns txn (i ∷ to_sign) txn'
  unfolding sign_transaction
  sign_transaction-Resigns txn i to_sign all = sign_indices-Resigns txn (i ∷ to_sign) all
