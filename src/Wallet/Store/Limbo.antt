-- ===== src/Wallet/Store/Limbo.antt =====
-- AddToLimbo of wallet/ephemeralstore.go.
use us.Prelude.{
  ℕ, ◌≡◌, refl, true, false, inl, inr, some, Bool-cases, Option-cases, eq_bytes, eq_of_eq_bytes,
  lookup, lookup-put_same, lookup-put_other,
}
use us.Merkle.Hash.{Hash}
use us.Wallet.Types.{SiaTransaction, Sia}
use us.Wallet.Store.{EphemeralStore, add_limbo, add_to_limbo}
use us.Wallet.Store.Outputs.{or_else}

module _ ⦃sia : Sia⦄ where
  -- After AddToLimbo the entry of the transaction is the older one, if there was one, and else the
  -- transaction with the present time; other entries are as before.
  pub lookup-add_to_limbo :
      (s : EphemeralStore) (txn : SiaTransaction) (now : ℕ) (id : Hash)
      → lookup id (add_to_limbo s txn now).limbo ≡ elim (eq_bytes id (sia.transaction_id txn)) [
        | false ↦ lookup id s.limbo
        | true ↦
            or_else (lookup id s.limbo) (some (record { transaction = txn; limbo_since = now }))
      ]
  unfolding add_to_limbo add_limbo or_else
  lookup-add_to_limbo s txn now id =
      let txid = sia.transaction_id txn in
      elim (Bool-cases (eq_bytes id txid)) [
        | inl e ↦
            let same : id ≡ txid = eq_of_eq_bytes id txid e in
            rw e (
              rw same (elim (Option-cases (lookup txid s.limbo)) [
                | inl none_yet ↦ rw none_yet (lookup-put_same txid _ s.limbo)
                | inr (older, found) ↦ rw (found, found) refl
              ]))
        | inr other ↦ rw other (elim (Option-cases (lookup txid s.limbo)) [
          | inl none_yet ↦ rw none_yet (lookup-put_other id txid _ s.limbo other)
          | inr (older, found) ↦ rw found refl
        ])
      ]
