-- ===== src/Wallet/SeedWallet/Inputs.antt =====
-- SeedWallet.ValuedInputs (wallet/seedwallet.go): when it panics, and what it returns.
use us.Prelude.{
  ◌≡◌, refl, sym, Bool, true, false, ◌||◌, inl, inr, List, [], ◌∷◌, none, some, Bool-cases,
  eq_of_eq_bytes, Option-cases, lookup, eq_bytes, lookup-delete_same, All,
}
use us.Merkle.Hash.{Blake, Hash}
use us.Wallet.Types.{UnspentOutput, Sia, SeedAddressInfo}
use us.Wallet.Address.{calculate_unlock_hash}
use us.Wallet.Store.{
  EphemeralStore, owns_address, address_info, remove_address, unspent_outputs, values, is_some,
}
use us.Wallet.Store.Seed.{IsSeedSafe}
use us.Wallet.SeedWallet.{ValuedInput, inputs_of, valued_inputs}

-- The store has the address of each of the outputs.
abbrev pub AllOwned : EphemeralStore → List UnspentOutput → Type 0
AllOwned s outputs = All (λ (o : UnspentOutput). owns_address s o.output.unlock_hash ≡ true) outputs

module _ ⦃blake : Blake⦄ ⦃sia : Sia⦄ where
  -- The inputs spend the outputs, in their order: with their IDs and values, and with unlock
  -- conditions that have their addresses.
  abbrev pub Spends : List UnspentOutput → List ValuedInput → Type 0
  Spends [] [] = Unit {0}
  Spends [] (i ∷ inputs) = ⊥
  Spends (o ∷ outputs) [] = ⊥
  Spends (o ∷ outputs) (i ∷ inputs) =
      ((i.siacoin_input.parent_id ≡ o.id)
        × (i.value ≡ o.output.value)
        × (calculate_unlock_hash i.siacoin_input.unlock_conditions ≡ o.output.unlock_hash))
      × Spends outputs inputs

  owned-info :
      (s : EphemeralStore) (addr : Hash)
      → owns_address s addr ≡ true
      → (info : SeedAddressInfo) × (address_info s addr ≡ some info)
  unfolding owns_address address_info is_some
  owned-info s addr e = elim (Option-cases (lookup addr s.addrs)) [
    | inl gone ↦ let e' = rw gone at e in cc
    | inr found ↦ found
  ]

  inputs_of-Spends :
      (s : EphemeralStore) (outputs : List UnspentOutput)
      → IsSeedSafe s
      → AllOwned s outputs
      → (inputs : List ValuedInput) × (inputs_of s outputs ≡ some inputs) × Spends outputs inputs
  unfolding inputs_of address_info
  inputs_of-Spends s [] safe owned = ([], refl, tt)
  inputs_of-Spends s (o ∷ outputs) safe owned =
      let (info, found) = owned-info s o.output.unlock_hash owned.0 in
      let (rest, ran, spends) = inputs_of-Spends s outputs safe owned.1 in
      let (address, low) = safe o.output.unlock_hash info found in
      (
        record {
          siacoin_input = record { parent_id = o.id; unlock_conditions = info.unlock_conditions };
          value = o.output.value;
        }
            ∷ rest,
        rw (found, ran) refl,
        ((refl, refl, sym address), spends),
      )

  pub valued_inputs-Spends :
      (s : EphemeralStore)
      → IsSeedSafe s
      → AllOwned s (unspent_outputs s)
      → (inputs : List ValuedInput) × (valued_inputs s ≡ some inputs)
        × Spends (unspent_outputs s) inputs
  unfolding valued_inputs
  valued_inputs-Spends s safe owned = inputs_of-Spends s (unspent_outputs s) safe owned

-- Some output has the address.
unfoldable pub pays_to : Hash → List UnspentOutput → Bool
pays_to addr [] = false
pays_to addr (o ∷ outputs) = eq_bytes addr o.output.unlock_hash || pays_to addr outputs

inputs_of-panics :
    (s : EphemeralStore) (addr : Hash) (outputs : List UnspentOutput)
    → address_info s addr ≡ none
    → pays_to addr outputs ≡ true
    → inputs_of s outputs ≡ none
unfolding inputs_of pays_to
inputs_of-panics s addr [] gone pays = cc
inputs_of-panics s addr (o ∷ outputs) gone pays =
    elim (Bool-cases (eq_bytes addr o.output.unlock_hash)) [
      | inl same ↦ rw (sym (eq_of_eq_bytes addr o.output.unlock_hash same), gone) refl
      | inr other ↦
          let later = inputs_of-panics s addr outputs gone (rw other at pays) in
          elim (Option-cases (address_info s o.output.unlock_hash)) [
            | inl e ↦ rw e refl
            | inr (info, e) ↦ rw (e, later) refl
          ]
    ]

removed : (s : EphemeralStore) (addr : Hash) → address_info (remove_address s addr) addr ≡ none
unfolding address_info remove_address
removed s addr = lookup-delete_same addr s.addrs

-- After RemoveAddress of an address that an unspent output of the store pays to, ValuedInputs
-- panics.
pub valued_inputs-remove_address :
    (s : EphemeralStore) (addr : Hash)
    → pays_to addr (unspent_outputs s) ≡ true
    → valued_inputs (remove_address s addr) ≡ none
unfolding valued_inputs unspent_outputs remove_address
valued_inputs-remove_address s addr pays =
    inputs_of-panics (remove_address s addr) addr (values s.outputs) (removed s addr) pays
