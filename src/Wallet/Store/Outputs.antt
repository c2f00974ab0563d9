-- ===== src/Wallet/Store/Outputs.antt =====
-- The outputs of EphemeralStore after ApplyConsensusChange (wallet/ephemeralstore.go).
use us.Prelude.{
  ◌≡◌, refl, ap, ◌∙◌, Bool, false, ◌||◌, inl, inr, List, [], ◌∷◌, Option, none, some, if◌then◌else◌,
  Bool-cases, Option-cases, eq_bytes, eq_of_eq_bytes, lookup, delete, put, foldl,
  lookup-delete_same, lookup-delete_other, lookup-put_same, lookup-put_other,
}
use us.Merkle.Hash.{Hash}
use us.Wallet.Types.{Sia, UnspentOutput, ProcessedConsensusChange}
use us.Wallet.Store.{
  EphemeralStore, apply_outputs, revert_outputs, revert_change, apply_change,
  apply_consensus_change, with_transactions,
}
use us.Wallet.Store.Frame.{revert_transactions-Framed, apply_transactions-Framed}

-- The last output of the list with an ID.
unfoldable pub last_with : Hash → List UnspentOutput → Option UnspentOutput
last_with id [] = none
last_with id (o ∷ os) =
    let here : Option UnspentOutput = if eq_bytes id o.id then some o else none in
    elim (last_with id os) [ none ↦ here | some later ↦ some later ]

-- Some output of the list has the ID.
unfoldable pub mentions : Hash → List UnspentOutput → Bool
mentions id [] = false
mentions id (o ∷ os) = eq_bytes id o.id || mentions id os

-- The first value there is.
unfoldable pub or_else {ℓ} : {A : Type ℓ} → Option A → Option A → Option A
or_else none other = other
or_else (some x) other = some x

pub lookup-apply_outputs :
    (id : Hash) (m : List (Hash × UnspentOutput)) (os : List UnspentOutput)
    → lookup id (apply_outputs m os) ≡ or_else (last_with id os) (lookup id m)
unfolding apply_outputs foldl last_with or_else
lookup-apply_outputs id m [] = refl
lookup-apply_outputs id m (o ∷ os) =
    lookup-apply_outputs id (put o.id o m) os ∙ elim (Option-cases (last_with id os)) [
      | inr (later, e) ↦ rw e refl
      | inl e ↦ rw e (elim (Bool-cases (eq_bytes id o.id)) [
        | inl same ↦ rw same (rw (eq_of_eq_bytes id o.id same) (lookup-put_same o.id o m))
        | inr other ↦ rw other (lookup-put_other id o.id o m other)
      ])
    ]

pub lookup-revert_outputs :
    (id : Hash) (m : List (Hash × UnspentOutput)) (os : List UnspentOutput)
    → lookup id (revert_outputs m os) ≡ (if mentions id os then none else lookup id m)
unfolding revert_outputs foldl mentions
lookup-revert_outputs id m [] = refl
lookup-revert_outputs id m (o ∷ os) =
    lookup-revert_outputs id (delete o.id m) os ∙ elim (Bool-cases (eq_bytes id o.id)) [
      | inl same ↦ rw same (elim (Bool-cases (mentions id os)) [
        | inl e ↦ rw e refl
        | inr e ↦ rw e (rw (eq_of_eq_bytes id o.id same) (lookup-delete_same o.id m))
      ])
      | inr other ↦ rw (other, lookup-delete_other id o.id m other) refl
    ]

module _ ⦃sia : Sia⦄ where
  pub apply_consensus_change-outputs :
      (s : EphemeralStore) (reverted applied : ProcessedConsensusChange) (ccid : Hash)
      → (apply_consensus_change s reverted applied ccid).outputs
        ≡ apply_outputs (revert_outputs s.outputs reverted.outputs) applied.outputs
  unfolding apply_consensus_change apply_change revert_change with_transactions
  apply_consensus_change-outputs s reverted applied ccid =
      ap (λ (t : EphemeralStore). t.outputs) (apply_transactions-Framed _ applied.transactions)
      ∙ ap (λ (t : EphemeralStore). apply_outputs t.outputs applied.outputs)
          (revert_transactions-Framed _ reverted.transactions)

  -- After ApplyConsensusChange an output with some ID is the last applied one with that ID;
  -- without one it is the stored output, unless the reverted outputs contain the ID.
  pub lookup-apply_consensus_change :
      (s : EphemeralStore) (reverted applied : ProcessedConsensusChange) (ccid id : Hash)
      → lookup id (apply_consensus_change s reverted applied ccid).outputs
        ≡ or_else
            (last_with id applied.outputs)
            (if mentions id reverted.outputs then none else lookup id s.outputs)
  lookup-apply_consensus_change s reverted applied ccid id =
      ap (lookup id) (apply_consensus_change-outputs s reverted applied ccid)
      ∙ lookup-apply_outputs id (revert_outputs s.outputs reverted.outputs) applied.outputs
      ∙ ap (or_else (last_with id applied.outputs))
          (lookup-revert_outputs id s.outputs reverted.outputs)
