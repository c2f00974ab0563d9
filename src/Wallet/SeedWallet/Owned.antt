-- ===== src/Wallet/SeedWallet/Owned.antt =====
-- What the outputs of a store (wallet/ephemeralstore.go) have in common, and that the outputs that
-- FilterConsensusChange (wallet/wallet.go) applies are of the owner.
use us.Prelude.{
  ◌≡◌, Bool, true, false, ◌&&◌, inl, inr, List, [], ◌∷◌, ◌++◌, Bool-cases, delete, put, foldl,
  eq_bytes, All,
}
use us.Merkle.Hash.{Hash}
use us.Wallet.Types.{UnspentOutput}
use us.Wallet.Store.{values, apply_outputs, revert_outputs}
use us.Wallet.Filter.{
  SiacoinOutputDiff, Filtered, unspent, process_output, process_outputs, add_output, filter_outputs,
  survives,
}

-- The outputs of the entries of a map have a property.
abbrev pub AllValues : (UnspentOutput → Type 0) → List (Hash × UnspentOutput) → Type 0
AllValues P m = All P (values m)

module _ (P : UnspentOutput → Type 0) where
  pub delete-AllValues :
      (id : Hash) (m : List (Hash × UnspentOutput)) → AllValues P m → AllValues P (delete id m)
  unfolding delete values
  delete-AllValues id [] all = tt
  delete-AllValues id ((k, o) ∷ m) all = elim (Bool-cases (eq_bytes id k)) [
    | inl e ↦ rw e (delete-AllValues id m all.1)
    | inr e ↦ rw e (all.0, delete-AllValues id m all.1)
  ]

  pub revert_outputs-AllValues :
      (m : List (Hash × UnspentOutput)) (os : List UnspentOutput)
      → AllValues P m
      → AllValues P (revert_outputs m os)
  unfolding revert_outputs foldl
  revert_outputs-AllValues m [] all = all
  revert_outputs-AllValues m (o ∷ os) all =
      revert_outputs-AllValues (delete o.id m) os (delete-AllValues o.id m all)

  pub apply_outputs-AllValues :
      (m : List (Hash × UnspentOutput)) (os : List UnspentOutput)
      → AllValues P m
      → All P os
      → AllValues P (apply_outputs m os)
  unfolding apply_outputs foldl put values
  apply_outputs-AllValues m [] all fit = all
  apply_outputs-AllValues m (o ∷ os) all fit =
      apply_outputs-AllValues (put o.id o m) os (fit.0, delete-AllValues o.id m all) fit.1

  pub All-append : (xs ys : List UnspentOutput) → All P xs → All P ys → All P (xs ++ ys)
  All-append [] ys hx hy = hy
  All-append (x ∷ xs) ys hx hy = (hx.0, All-append xs ys hx.1 hy)

-- FilterConsensusChange applies outputs of the owner only.
module _ (owns : Hash → Bool) where
  abbrev pub Owned : UnspentOutput → Type 0
  Owned o = owns o.output.unlock_hash ≡ true

  and_right : (a b : Bool) → a && b ≡ true → b ≡ true
  and_right true b e = e
  and_right false b e = cc

  add_output-Owned :
      (b : Bool) (o : UnspentOutput) (st : Filtered)
      → Owned o
      → All Owned st.applied
      → All Owned (add_output b o st).applied
  unfolding add_output
  add_output-Owned true o st own all = All-append Owned st.applied (o ∷ []) all (own, tt)
  add_output-Owned false o st own all = all

  process_output-Owned :
      (st : Filtered) (d : SiacoinOutputDiff)
      → All Owned st.applied
      → All Owned (process_output owns st d).applied
  unfolding process_output
  process_output-Owned st d all =
      elim (Bool-cases (survives st.surviving d.id && owns d.siacoin_output.unlock_hash)) [
        | inl e ↦ rw e (
            add_output-Owned d.is_apply (unspent d) st (and_right (survives st.surviving d.id) _ e)
              all)
        | inr e ↦ rw e all
      ]

  process_outputs-Owned :
      (st : Filtered) (diffs : List SiacoinOutputDiff)
      → All Owned st.applied
      → All Owned (process_outputs owns st diffs).applied
  unfolding process_outputs foldl
  process_outputs-Owned st [] all = all
  process_outputs-Owned st (d ∷ diffs) all =
      process_outputs-Owned (process_output owns st d) diffs (process_output-Owned st d all)

  pub filter_outputs-Owned :
      (diffs : List SiacoinOutputDiff) → All Owned (filter_outputs owns diffs).applied
  unfolding filter_outputs
  filter_outputs-Owned diffs = process_outputs-Owned _ diffs tt
