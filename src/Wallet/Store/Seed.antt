-- ===== src/Wallet/Store/Seed.antt =====
-- The seed index of EphemeralStore (wallet/ephemeralstore.go), over all operations.
use us.Prelude.{
  ℕ, ◌+◌, ◌^◌, ◌%◌, ◌<◌, ◌≤◌, ◌≡◌, refl, sym, ◌∙◌, inl, inr, List, [], ◌∷◌, Option, none, some,
  arith, ltb, Bool-cases, Option-cases, eq_bytes, eq_of_eq_bytes, lookup, put, foldl,
  lookup-delete_same, lookup-delete_other, lookup-put_same, lookup-put_other,
}
use us.Merkle.Hash.{Blake, Hash}
use us.Wallet.Types.{SiaTransaction, Sia, Transaction, SeedAddressInfo, ProcessedConsensusChange}
use us.Wallet.Address.{calculate_unlock_hash}
use us.Wallet.Store.{
  EphemeralStore, new_ephemeral_store, revert_transactions, apply_transactions, revert_transaction,
  apply_transaction, add_limbo, revert_change, apply_change, apply_consensus_change, add_to_limbo,
  remove_from_limbo, set_memo, set_seed_index, remove_address, add_address, with_transactions,
}

some-eq {ℓ} : {A : Type ℓ} (x y : A) → some x ≡ some y → x ≡ y
some-eq x y e = cc

none_absurd {ℓ} : {A : Type ℓ} (x : A) → ◌≡◌ {A = Option A} none (some x) → ⊥
none_absurd x e = cc

module _ ⦃blake : Blake⦄ ⦃sia : Sia⦄ where
  -- The operations that change a store. The wallet never sets the seed index back.
  pub data Step (s : EphemeralStore) : EphemeralStore → Type 0 where
    adds : (info : SeedAddressInfo) → info.key_index + 1 < 2 ^ 64 → Step s (add_address s info)
    removes : (addr : Hash) → Step s (remove_address s addr)
    changes :
        (reverted applied : ProcessedConsensusChange) (ccid : Hash)
        → Step s (apply_consensus_change s reverted applied ccid)
    limbo_adds : (txn : SiaTransaction) (now : ℕ) → Step s (add_to_limbo s txn now)
    limbo_removes : (id : Hash) → Step s (remove_from_limbo s id)
    memo_sets : (txid : Hash) (memo : List ℕ) → Step s (set_memo s txid memo)
    seed_sets : (index : ℕ) → s.seed_index ≤ index → Step s (set_seed_index s index)

  -- The stores that a new store can become.
  pub data Reachable : EphemeralStore → Type 0 where
    new : Reachable new_ephemeral_store
    step : (s t : EphemeralStore) → Reachable s → Step s t → Reachable t

  -- Each address is that of its unlock conditions, and its key index is below the seed index.
  abbrev pub IsSeedSafe : EphemeralStore → Type 0
  IsSeedSafe s =
      (addr : Hash) (info : SeedAddressInfo)
      → lookup addr s.addrs ≡ some info
      → (addr ≡ calculate_unlock_hash info.unlock_conditions) × (info.key_index < s.seed_index)

  unfoldable pub Kept : EphemeralStore → EphemeralStore → Type 0
  Kept s t = (t.addrs ≡ s.addrs) × (t.seed_index ≡ s.seed_index)

  revert_transactions-Kept :
      (s : EphemeralStore) (txns : List Transaction) → Kept s (revert_transactions s txns)
  unfolding revert_transactions revert_transaction foldl with_transactions Kept
  revert_transactions-Kept s [] = (refl, refl)
  revert_transactions-Kept s (txn ∷ txns) = revert_transactions-Kept (revert_transaction s txn) txns

  apply_transactions-Kept :
      (s : EphemeralStore) (txns : List Transaction) → Kept s (apply_transactions s txns)
  unfolding apply_transactions apply_transaction foldl with_transactions Kept
  apply_transactions-Kept s [] = (refl, refl)
  apply_transactions-Kept s (txn ∷ txns) = apply_transactions-Kept (apply_transaction s txn) txns

  pub apply_consensus_change-Kept :
      (s : EphemeralStore) (reverted applied : ProcessedConsensusChange) (ccid : Hash)
      → Kept s (apply_consensus_change s reverted applied ccid)
  unfolding apply_consensus_change apply_change revert_change Kept
  apply_consensus_change-Kept s reverted applied ccid =
      let (a, b) = apply_transactions-Kept _ applied.transactions in
      let (c, d) = revert_transactions-Kept _ reverted.transactions in (a ∙ c, b ∙ d)

  pub add_to_limbo-Kept :
      (s : EphemeralStore) (txn : SiaTransaction) (now : ℕ) → Kept s (add_to_limbo s txn now)
  unfolding add_to_limbo add_limbo Kept
  add_to_limbo-Kept s txn now = elim (Option-cases (lookup (sia.transaction_id txn) s.limbo)) [
    | inl e ↦ rw e (refl, refl)
    | inr (older, e) ↦ rw e (refl, refl)
  ]

  pub add_address-fields :
      (s : EphemeralStore) (info : SeedAddressInfo)
      → info.key_index + 1 < 2 ^ 64
      → ((add_address s info).addrs
          ≡ put (calculate_unlock_hash info.unlock_conditions) info s.addrs)
        × (s.seed_index ≤ (add_address s info).seed_index)
        × (info.key_index < (add_address s info).seed_index)
  unfolding add_address
  add_address-fields s info fits =
      let next : (info.key_index + 1) % 2 ^ 64 ≡ info.key_index + 1 = omega arith in
      elim (Bool-cases (ltb s.seed_index (info.key_index + 1))) [
        | inl e ↦ rw (next, e) (refl, ground arith, omega arith)
        | inr e ↦ rw (next, e) (refl, omega arith, ground arith)
      ]

  add_address-IsSeedSafe :
      (s : EphemeralStore) (info : SeedAddressInfo)
      → info.key_index + 1 < 2 ^ 64
      → IsSeedSafe s
      → IsSeedSafe (add_address s info)
  add_address-IsSeedSafe s info fits safe addr found e =
      let (held, grown, next) = add_address-fields s info fits in
      let here = calculate_unlock_hash info.unlock_conditions in
      let e' = rw held at e in
      elim (Bool-cases (eq_bytes addr here)) [
        | inl same ↦
            let at : addr ≡ here = eq_of_eq_bytes addr here same in
            let it : info ≡ found =
              some-eq info found (sym (lookup-put_same here info s.addrs) ∙ rw at at e') in
            rw (← it) (at, next)
        | inr other ↦
            let (right, low) =
              safe addr found (sym (lookup-put_other addr here info s.addrs other) ∙ e') in
            (right, omega (arith, low, grown))
      ]

  Step-IsSeedSafe : (s t : EphemeralStore) → IsSeedSafe s → Step s t → IsSeedSafe t
  unfolding remove_address Kept set_seed_index remove_from_limbo set_memo
  Step-IsSeedSafe s _ safe (adds info fits) addr found e =
      add_address-IsSeedSafe s info fits safe addr found e
  Step-IsSeedSafe s _ safe (removes gone) addr found e = elim (Bool-cases (eq_bytes addr gone)) [
    | inl same ↦
        let at : addr ≡ gone = eq_of_eq_bytes addr gone same in
        absurd (none_absurd found (sym (lookup-delete_same gone s.addrs) ∙ rw at at e))
    | inr other ↦ safe addr found (sym (lookup-delete_other addr gone s.addrs other) ∙ e)
  ]
  Step-IsSeedSafe s _ safe (changes reverted applied ccid) addr found e =
      let (a, b) = apply_consensus_change-Kept s reverted applied ccid in
      rw b (safe addr found (rw a at e))
  Step-IsSeedSafe s _ safe (limbo_adds txn now) addr found e =
      let (a, b) = add_to_limbo-Kept s txn now in rw b (safe addr found (rw a at e))
  Step-IsSeedSafe s _ safe (limbo_removes id) addr found e = safe addr found e
  Step-IsSeedSafe s _ safe (memo_sets txid memo) addr found e = safe addr found e
  Step-IsSeedSafe s _ safe (seed_sets index le) addr found e =
      let (same, low) = safe addr found e in (same, omega arith)

  -- In every store that a new store becomes by the operations that change it, with key indices
  -- whose successor fits a word of 64 bits and no seed index set back, each stored address is that
  -- of its unlock conditions and its key index is below the seed index.
  pub Reachable-IsSeedSafe : (s : EphemeralStore) → Reachable s → IsSeedSafe s
  unfolding new_ephemeral_store lookup
  Reachable-IsSeedSafe _ new addr info e = absurd (none_absurd info e)
  Reachable-IsSeedSafe _ (step s t r moved) addr info e =
      Step-IsSeedSafe s t (Reachable-IsSeedSafe s r) moved addr info e
