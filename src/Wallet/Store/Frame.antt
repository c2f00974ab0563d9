-- ===== src/Wallet/Store/Frame.antt =====
-- Lemmas on the loops of ApplyConsensusChange over transactions (wallet/ephemeralstore.go).
use us.Prelude.{◌≡◌, refl, sym, ◌∙◌, List, [], ◌∷◌, ◌++◌, foldl, map}
use mathlib.Core.List.{append_assoc, append-nil}
use us.Merkle.Hash.{Hash}
use us.Wallet.Types.{Sia, Transaction}
use us.Wallet.Store.{
  EphemeralStore, with_transactions, revert_transaction, revert_transactions, apply_transaction,
  apply_transactions, remove_ids,
}

-- `t` differs from `s` in the three fields on transactions only.
abbrev pub Framed : EphemeralStore → EphemeralStore → Type 0
Framed s t = t ≡ with_transactions s t.txns t.limbo t.txns_recent_index

module _ ⦃sia : Sia⦄ where
  pub revert_transactions-Framed :
      (s : EphemeralStore) (txns : List Transaction) → Framed s (revert_transactions s txns)
  unfolding revert_transactions revert_transaction foldl with_transactions
  revert_transactions-Framed s [] = refl
  revert_transactions-Framed s (txn ∷ txns) =
      revert_transactions-Framed (revert_transaction s txn) txns

  pub apply_transactions-Framed :
      (s : EphemeralStore) (txns : List Transaction) → Framed s (apply_transactions s txns)
  unfolding apply_transactions apply_transaction foldl with_transactions
  apply_transactions-Framed s [] = refl
  apply_transactions-Framed s (txn ∷ txns) =
      apply_transactions-Framed (apply_transaction s txn) txns

  abbrev pub ids_of : List Transaction → List Hash
  ids_of = map (λ (txn : Transaction). sia.transaction_id txn.transaction)

  pub apply_transactions-recent :
      (s : EphemeralStore) (txns : List Transaction)
      → (apply_transactions s txns).txns_recent_index ≡ s.txns_recent_index ++ ids_of txns
  unfolding apply_transactions apply_transaction foldl with_transactions
  apply_transactions-recent s [] = sym (append-nil s.txns_recent_index)
  apply_transactions-recent s (txn ∷ txns) =
      apply_transactions-recent (apply_transaction s txn) txns
      ∙ append_assoc s.txns_recent_index (sia.transaction_id txn.transaction ∷ []) (ids_of txns)

  pub revert_transactions-recent :
      (s : EphemeralStore) (txns : List Transaction)
      → (revert_transactions s txns).txns_recent_index
        ≡ remove_ids s.txns_recent_index (ids_of txns)
  unfolding revert_transactions revert_transaction foldl with_transactions remove_ids
  revert_transactions-recent s [] = refl
  revert_transactions-recent s (txn ∷ txns) =
      revert_transactions-recent (revert_transaction s txn) txns
