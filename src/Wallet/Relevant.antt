-- ===== src/Wallet/Relevant.antt =====
-- wallet/wallet.go: which transactions are relevant to the owner of addresses: RelevantTransaction,
-- and relevantTxn and relevantFileContract of FilterConsensusChange.
use us.Prelude.{
  ◌≡◌, refl, ap, sym, ◌∙◌, Bool, true, false, ◌||◌, ◌&&◌, not, inl, inr, List, [], ◌∷◌, ◌++◌,
  if◌then◌else◌, Bool-cases, eq_bytes, foldl, map,
}
use mathlib.Core.Bool.{false≢true}
use mathlib.Core.Path.{ap₂}
use us.Merkle.Hash.{Blake, Hash}
use us.Wallet.Types.{Sia, SiacoinOutput, SiacoinInput, SiafundInput, ProofOutputs, SiaTransaction}
use us.Wallet.Address.{calculate_unlock_hash}

-- A loop that returns true at the first element with the property.
unfoldable pub any {ℓ} : {A : Type ℓ} → (A → Bool) → List A → Bool
any p [] = false
any p (x ∷ xs) = p x || any p xs

unfoldable pub contains : Hash → List Hash → Bool
contains h [] = false
contains h (x ∷ xs) = eq_bytes h x || contains h xs

abbrev pub is_empty {ℓ} : {A : Type ℓ} → List A → Bool
is_empty [] = true
is_empty (x ∷ xs) = false

unfoldable pub concat_map {ℓ ℓ'} : {A : Type ℓ} {B : Type ℓ'} → (A → List B) → List A → List B
concat_map f [] = []
concat_map f (x ∷ xs) = f x ++ concat_map f xs

abbrev pub output_addrs : List SiacoinOutput → List Hash
output_addrs = map (λ (o : SiacoinOutput). o.unlock_hash)

-- The addresses of the proof outputs, in the order of the loops.
abbrev pub proof_addrs : ProofOutputs → List Hash
proof_addrs c = output_addrs c.valid_proof_outputs ++ output_addrs c.missed_proof_outputs

module _ (owns_address : Hash → Bool) where
  -- The loops over the proof outputs of contracts or revisions.
  unfoldable pub relevant_file_contract : ProofOutputs → Bool
  unfolding any
  relevant_file_contract c =
      any (λ (o : SiacoinOutput). owns_address o.unlock_hash) c.valid_proof_outputs
      || any (λ (o : SiacoinOutput). owns_address o.unlock_hash) c.missed_proof_outputs

  -- processAddr: an owned address is added to the set once.
  unfoldable pub process_addr : List Hash → Hash → List Hash
  unfolding contains
  process_addr addrs addr =
      if not (contains addr addrs) && owns_address addr then addr ∷ addrs else addrs

  module _ ⦃blake : Blake⦄ ⦃sia : Sia⦄ where
    unfoldable pub relevant_transaction : SiaTransaction → Bool
    unfolding any relevant_file_contract
    relevant_transaction txn =
        any (λ (i : SiacoinInput). owns_address (calculate_unlock_hash i.unlock_conditions))
          txn.siacoin_inputs
        || (any (λ (o : SiacoinOutput). owns_address o.unlock_hash) txn.siacoin_outputs
            || (any
                  (λ (i : SiafundInput).
                    owns_address (calculate_unlock_hash i.unlock_conditions)
                    || owns_address i.claim_unlock_hash)
                  txn.siafund_inputs
                || (any (λ (o : SiacoinOutput). owns_address o.unlock_hash) txn.siafund_outputs
                    || (any relevant_file_contract txn.file_contracts
                        || any relevant_file_contract txn.file_contract_revisions))))

    -- The addresses that relevantTxn goes over.
    unfoldable pub processed_addrs : SiaTransaction → List Hash
    unfolding concat_map
    processed_addrs txn =
        map (λ (i : SiacoinInput). calculate_unlock_hash i.unlock_conditions) txn.siacoin_inputs
        ++ (output_addrs txn.siacoin_outputs
            ++ (concat_map
                  (λ (i : SiafundInput).
                    calculate_unlock_hash i.unlock_conditions ∷ i.claim_unlock_hash ∷ [])
                  txn.siafund_inputs
                ++ (output_addrs txn.siafund_outputs
                    ++ (concat_map proof_addrs txn.file_contracts
                        ++ concat_map proof_addrs txn.file_contract_revisions))))

    unfoldable pub relevant_txn : SiaTransaction → List Hash
    unfolding foldl process_addr processed_addrs
    relevant_txn txn = foldl process_addr [] (processed_addrs txn)

or_assoc : (a b c : Bool) → (a || b) || c ≡ a || (b || c)
or_assoc true b c = refl
or_assoc false b c = refl

or_false : (a : Bool) → a || false ≡ a
or_false true = refl
or_false false = refl

pub or_true : (a : Bool) → a || true ≡ true
or_true true = refl
or_true false = refl

any-append {ℓ} :
    {A : Type ℓ} (p : A → Bool) (xs ys : List A) → any p (xs ++ ys) ≡ any p xs || any p ys
unfolding any
any-append p [] ys = refl
any-append p (x ∷ xs) ys = elim (Bool-cases (p x)) [
  | inl e ↦ rw e refl
  | inr e ↦ rw e (any-append p xs ys)
]

any-map {ℓ ℓ'} :
    {A : Type ℓ} {B : Type ℓ'} (p : B → Bool) (f : A → B) (xs : List A)
    → any p (map f xs) ≡ any (λ x. p (f x)) xs
unfolding any
any-map p f [] = refl
any-map p f (x ∷ xs) = ap (◌||◌ (p (f x))) (any-map p f xs)

any-concat_map {ℓ ℓ'} :
    {A : Type ℓ} {B : Type ℓ'} (p : B → Bool) (f : A → List B) (q : A → Bool) (xs : List A)
    → ((x : A) → any p (f x) ≡ q x)
    → any p (concat_map f xs) ≡ any q xs
unfolding any concat_map
any-concat_map p f q [] h = refl
any-concat_map p f q (x ∷ xs) h =
    any-append p (f x) (concat_map f xs) ∙ ap₂ ◌||◌ (h x) (any-concat_map p f q xs h)

module _ (owns_address : Hash → Bool) where
  any_contained :
      (addr : Hash) (addrs : List Hash) → contains addr addrs ≡ true → is_empty addrs ≡ false
  unfolding contains
  any_contained addr [] e = absurd (false≢true e)
  any_contained addr (x ∷ addrs) e = refl

  process_addr-is_empty :
      (acc : List Hash) (x : Hash)
      → not (is_empty (process_addr owns_address acc x)) ≡ not (is_empty acc) || owns_address x
  unfolding process_addr
  process_addr-is_empty acc x = elim (Bool-cases (contains x acc)) [
    | inl e ↦ rw (e, any_contained x acc e) refl
    | inr e ↦ elim (Bool-cases (owns_address x)) [
      | inl owned ↦ rw (e, owned) (sym (or_true (not (is_empty acc))))
      | inr other ↦ rw (e, other) (sym (or_false (not (is_empty acc))))
    ]
  ]

  is_empty-foldl :
      (acc xs : List Hash)
      → not (is_empty (foldl (process_addr owns_address) acc xs))
        ≡ not (is_empty acc) || any owns_address xs
  unfolding foldl any process_addr
  is_empty-foldl acc [] = elim (Bool-cases (is_empty acc)) [ inl e ↦ rw e refl | inr e ↦ rw e refl ]
  is_empty-foldl acc (x ∷ xs) =
      is_empty-foldl (process_addr owns_address acc x) xs
      ∙ ap (λ (b : Bool). b || any owns_address xs) (process_addr-is_empty acc x)
      ∙ or_assoc (not (is_empty acc)) (owns_address x) (any owns_address xs)

  two_of : (p : Hash → Bool) (x y : Hash) → any p (x ∷ y ∷ []) ≡ p x || p y
  unfolding any
  two_of p x y = ap (◌||◌ (p x)) (or_false (p y))

  proof_addrs-any :
      (c : ProofOutputs) → any owns_address (proof_addrs c) ≡ relevant_file_contract owns_address c
  unfolding relevant_file_contract
  proof_addrs-any c =
      any-append owns_address (output_addrs c.valid_proof_outputs)
        (output_addrs c.missed_proof_outputs)
      ∙ ap₂ ◌||◌ (any-map owns_address _ c.valid_proof_outputs)
          (any-map owns_address _ c.missed_proof_outputs)

  module _ ⦃blake : Blake⦄ ⦃sia : Sia⦄ where
    -- RelevantTransaction holds of a transaction exactly when the set of owned addresses that
    -- FilterConsensusChange collects from it is not empty.
    pub relevant_transaction-relevant_txn :
        (txn : SiaTransaction)
        → not (is_empty (relevant_txn owns_address txn)) ≡ relevant_transaction owns_address txn
    unfolding relevant_txn relevant_transaction processed_addrs
    relevant_transaction-relevant_txn txn =
        let p = owns_address in
        let input = λ (i : SiacoinInput). calculate_unlock_hash i.unlock_conditions in
        let output = λ (o : SiacoinOutput). o.unlock_hash in
        let siafund = λ (i : SiafundInput).
          calculate_unlock_hash i.unlock_conditions ∷ i.claim_unlock_hash ∷ [] in
        let owned = λ (i : SiafundInput).
          p (calculate_unlock_hash i.unlock_conditions) || p i.claim_unlock_hash in
        is_empty-foldl [] (processed_addrs p txn)
        ∙ any-append p _ _
        ∙ ap₂ ◌||◌ (any-map p input txn.siacoin_inputs) (
            any-append p _ _
            ∙ ap₂ ◌||◌ (any-map p output txn.siacoin_outputs) (
                any-append p _ _
                ∙ ap₂ ◌||◌ (any-concat_map p siafund owned txn.siafund_inputs (λ i. two_of p _ _)) (
                    any-append p _ _
                    ∙ ap₂ ◌||◌ (any-map p output txn.siafund_outputs) (
                        any-append p _ _
                        ∙ ap₂ ◌||◌
                            (any-concat_map p proof_addrs (relevant_file_contract p)
                              txn.file_contracts proof_addrs-any)
                            (any-concat_map p proof_addrs (relevant_file_contract p)
                              txn.file_contract_revisions proof_addrs-any)))))
