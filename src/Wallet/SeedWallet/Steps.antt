-- ===== src/Wallet/SeedWallet/Steps.antt =====
-- A SeedWallet (wallet/seedwallet.go) whose addresses are never removed, and which follows the
-- chain by FilterConsensusChange: its store has the address of each of its outputs.
use us.Prelude.{
  ℕ, ◌+◌, ◌^◌, ◌%◌, ltb, Option-cases, ◌<◌, ◌≡◌, refl, sym, true, inl, inr, List, [], ◌∷◌, some,
  Bool-cases, lookup, eq_bytes, eq_of_eq_bytes, lookup-put_same, lookup-put_other,
}
use mathlib.Core.Path.{subst}
use us.Merkle.Hash.{Blake, Hash}
use us.Wallet.Types.{SiaTransaction, Sia, UnspentOutput, SeedAddressInfo, ProcessedConsensusChange}
use us.Wallet.Address.{calculate_unlock_hash}
use us.Wallet.Store.{
  EphemeralStore, new_ephemeral_store, add_address, apply_consensus_change, add_to_limbo,
  remove_from_limbo, set_memo, owns_address, unspent_outputs, values, is_some, apply_outputs,
  revert_outputs, add_limbo,
}
use us.Wallet.Store.Outputs.{apply_consensus_change-outputs}
use us.Wallet.Store.Seed.{
  Step, adds, changes, limbo_adds, limbo_removes, memo_sets, Reachable, new, step,
  Reachable-IsSeedSafe, apply_consensus_change-Kept, add_to_limbo-Kept, add_address-fields, Kept,
}
use us.Wallet.Filter.{SiacoinOutputDiff, filter_outputs}
use us.Wallet.SeedWallet.{ValuedInput, valued_inputs}
use us.Wallet.SeedWallet.Inputs.{AllOwned, Spends, valued_inputs-Spends}
use us.Wallet.SeedWallet.Owned.{
  revert_outputs-AllValues, apply_outputs-AllValues, Owned, filter_outputs-Owned,
}

-- Owned addresses stay owned.
Grows : EphemeralStore → EphemeralStore → Type 0
Grows s t = (addr : Hash) → owns_address s addr ≡ true → owns_address t addr ≡ true

grown : (s t : EphemeralStore) (os : List UnspentOutput) → Grows s t → AllOwned s os → AllOwned t os
unfolding Grows
grown s t [] g all = tt
grown s t (o ∷ os) g all = (g o.output.unlock_hash all.0, grown s t os g all.1)

same_addrs : (s t : EphemeralStore) → t.addrs ≡ s.addrs → Grows s t
unfolding Grows owns_address
same_addrs s t e addr own = rw e own

holding :
    (t : EphemeralStore) (m : List (Hash × UnspentOutput))
    → t.outputs ≡ m
    → AllOwned t (values m)
    → AllOwned t (unspent_outputs t)
unfolding unspent_outputs
holding t m e all = subst (λ (x : List (Hash × UnspentOutput)). AllOwned t (values x)) (sym e) all

module _ ⦃blake : Blake⦄ ⦃sia : Sia⦄ where
  add_address-Grows :
      (s : EphemeralStore) (info : SeedAddressInfo)
      → info.key_index + 1 < 2 ^ 64
      → Grows s (add_address s info)
  unfolding Grows owns_address is_some
  add_address-Grows s info fits addr own =
      let held = (add_address-fields s info fits).0 in
      let here = calculate_unlock_hash info.unlock_conditions in
      rw held (elim (Bool-cases (eq_bytes addr here)) [
        | inl same ↦
            let at = eq_of_eq_bytes addr here same in
            rw (at, lookup-put_same here info s.addrs) refl
        | inr other ↦ rw (lookup-put_other addr here info s.addrs other) own
      ])

  change-addrs :
      (s : EphemeralStore) (reverted applied : ProcessedConsensusChange) (ccid : Hash)
      → (apply_consensus_change s reverted applied ccid).addrs ≡ s.addrs
  unfolding Kept
  change-addrs s reverted applied ccid = (apply_consensus_change-Kept s reverted applied ccid).0

  limbo-addrs :
      (s : EphemeralStore) (txn : SiaTransaction) (now : ℕ)
      → (add_to_limbo s txn now).addrs ≡ s.addrs
  unfolding Kept
  limbo-addrs s txn now = (add_to_limbo-Kept s txn now).0

  add_address-outputs :
      (s : EphemeralStore) (info : SeedAddressInfo) → (add_address s info).outputs ≡ s.outputs
  unfolding add_address
  add_address-outputs s info =
      elim (Bool-cases (ltb s.seed_index ((info.key_index + 1) % 2 ^ 64))) [
        | inl e ↦ rw e refl
        | inr e ↦ rw e refl
      ]

  add_to_limbo-outputs :
      (s : EphemeralStore) (txn : SiaTransaction) (now : ℕ)
      → (add_to_limbo s txn now).outputs ≡ s.outputs
  unfolding add_to_limbo add_limbo
  add_to_limbo-outputs s txn now = elim (Option-cases (lookup (sia.transaction_id txn) s.limbo)) [
    | inl e ↦ rw e refl
    | inr (older, e) ↦ rw e refl
  ]

  -- What changes the store of a wallet that removes no address. A change of the chain is filtered
  -- by the addresses that the store has; its other parts are of any kind.
  pub data WalletStep (s : EphemeralStore) : EphemeralStore → Type 0 where
    tracks :
        (info : SeedAddressInfo) → info.key_index + 1 < 2 ^ 64 → WalletStep s (add_address s info)
    follows :
        (diffs : List SiacoinOutputDiff) (reverted applied : ProcessedConsensusChange) (ccid : Hash)
        → reverted.outputs ≡ (filter_outputs (owns_address s) diffs).reverted
        → applied.outputs ≡ (filter_outputs (owns_address s) diffs).applied
        → WalletStep s (apply_consensus_change s reverted applied ccid)
    broadcasts : (txn : SiaTransaction) (now : ℕ) → WalletStep s (add_to_limbo s txn now)
    forgets : (id : Hash) → WalletStep s (remove_from_limbo s id)
    notes : (txid : Hash) (memo : List ℕ) → WalletStep s (set_memo s txid memo)

  -- The stores of such a wallet.
  pub data WalletStore : EphemeralStore → Type 0 where
    begins : WalletStore new_ephemeral_store
    then_step : (s t : EphemeralStore) → WalletStore s → WalletStep s t → WalletStore t

  WalletStep-Step : (s t : EphemeralStore) → WalletStep s t → Step s t
  WalletStep-Step s _ (tracks info fits) = adds info fits
  WalletStep-Step s _ (follows diffs reverted applied ccid r a) = changes reverted applied ccid
  WalletStep-Step s _ (broadcasts txn now) = limbo_adds txn now
  WalletStep-Step s _ (forgets id) = limbo_removes id
  WalletStep-Step s _ (notes txid memo) = memo_sets txid memo

  WalletStore-Reachable : (s : EphemeralStore) → WalletStore s → Reachable s
  WalletStore-Reachable _ begins = new
  WalletStore-Reachable _ (then_step s t w moved) =
      step s t (WalletStore-Reachable s w) (WalletStep-Step s t moved)

  WalletStep-AllOwned :
      (s t : EphemeralStore)
      → AllOwned s (unspent_outputs s)
      → WalletStep s t
      → AllOwned t (unspent_outputs t)
  unfolding unspent_outputs remove_from_limbo set_memo owns_address
  WalletStep-AllOwned s _ all (tracks info fits) =
      let t = add_address s info in
      holding t s.outputs (add_address-outputs s info)
        (grown s t (values s.outputs) (add_address-Grows s info fits) all)
  WalletStep-AllOwned s _ all (follows diffs reverted applied ccid r a) =
      let t = apply_consensus_change s reverted applied ccid in
      let owns = owns_address s in
      let m = revert_outputs s.outputs reverted.outputs in
      let kept = revert_outputs-AllValues (Owned owns) s.outputs reverted.outputs all in
      let fit = filter_outputs-Owned owns diffs in
      holding t (apply_outputs m applied.outputs)
        (apply_consensus_change-outputs s reverted applied ccid)
        (grown s t (values (apply_outputs m applied.outputs))
          (same_addrs s t (change-addrs s reverted applied ccid))
          (apply_outputs-AllValues (Owned owns) m applied.outputs kept (rw a fit)))
  WalletStep-AllOwned s _ all (broadcasts txn now) =
      let t = add_to_limbo s txn now in
      holding t s.outputs (add_to_limbo-outputs s txn now)
        (grown s t (values s.outputs) (same_addrs s t (limbo-addrs s txn now)) all)
  WalletStep-AllOwned s _ all (forgets id) = all
  WalletStep-AllOwned s _ all (notes txid memo) = all

  WalletStore-AllOwned : (s : EphemeralStore) → WalletStore s → AllOwned s (unspent_outputs s)
  unfolding new_ephemeral_store unspent_outputs values
  WalletStore-AllOwned _ begins = tt
  WalletStore-AllOwned _ (then_step s t w moved) =
      WalletStep-AllOwned s t (WalletStore-AllOwned s w) moved

  -- In a store that a new store becomes by adding addresses whose key index has a successor of 64
  -- bits, following the chain through FilterConsensusChange, adding to and removing from limbo and
  -- setting memos, but not by removing addresses, ValuedInputs does not panic and returns an input
  -- for each unspent output, in their order, with its ID and value and with unlock conditions that
  -- hash to its address.
  pub valued_inputs-WalletStore :
      (s : EphemeralStore)
      → WalletStore s
      → (inputs : List ValuedInput) × (valued_inputs s ≡ some inputs)
        × Spends (unspent_outputs s) inputs
  valued_inputs-WalletStore s w =
      valued_inputs-Spends s (Reachable-IsSeedSafe s (WalletStore-Reachable s w))
        (WalletStore-AllOwned s w)
