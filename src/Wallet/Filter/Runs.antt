-- ===== src/Wallet/Filter/Runs.antt =====
-- The output diffs of a consensus change (wallet/wallet.go, FilterConsensusChange), taken one after
-- the other.
use us.Prelude.{
  ◌≡◌, refl, sym, ap, ◌∙◌, Bool, true, false, inl, inr, List, [], ◌∷◌, Option, none, some,
  if◌then◌else◌, Bool-cases, eq_bytes, eq_of_eq_bytes, lookup, delete, put, foldl,
  lookup-delete_same, lookup-delete_other, lookup-put_same, lookup-put_other, All,
}
use us.Merkle.Hash.{Hash}
use us.Wallet.Types.{SiacoinOutput, UnspentOutput}
use us.Wallet.Filter.{SiacoinOutputDiff, unspent}
use us.Wallet.Filter.Survivors.{xor, xor-not, xor-false, odd}
use us.Wallet.Filter.Outputs.{Alternates}

-- One diff, on the outputs of the owner.
unfoldable pub run_diff :
    (Hash → Bool) → List (Hash × UnspentOutput) → SiacoinOutputDiff → List (Hash × UnspentOutput)
run_diff owns m d =
    if owns d.siacoin_output.unlock_hash
    then if d.is_apply then put d.id (unspent d) m else delete d.id m
    else m

unfoldable pub run_diffs :
    (Hash → Bool)
    → List (Hash × UnspentOutput)
    → List SiacoinOutputDiff
    → List (Hash × UnspentOutput)
unfolding run_diff
run_diffs owns m diffs = foldl (run_diff owns) m diffs

-- The entry of the output, if it is present.
abbrev pub view : UnspentOutput → Bool → Option UnspentOutput
view out present = if present then some out else none

-- The diffs with the ID are of the output.
abbrev pub Describes : Hash → SiacoinOutput → List SiacoinOutputDiff → Type 0
Describes id o diffs =
    All (λ (d : SiacoinOutputDiff). eq_bytes id d.id ≡ true → d.siacoin_output ≡ o) diffs

abbrev pub entry : Hash → SiacoinOutput → UnspentOutput
entry id o = record { output = o; id = id }

pub unspent-entry :
    (id : Hash) (o : SiacoinOutput) (d : SiacoinOutputDiff)
    → eq_bytes id d.id ≡ true
    → d.siacoin_output ≡ o
    → unspent d ≡ entry id o
unspent-entry id o d same e = rw (e, eq_of_eq_bytes id d.id same) refl

module _ (owns : Hash → Bool) (id : Hash) (o : SiacoinOutput) where
  run_diff-other :
      (m : List (Hash × UnspentOutput)) (d : SiacoinOutputDiff)
      → eq_bytes id d.id ≡ false
      → lookup id (run_diff owns m d) ≡ lookup id m
  unfolding run_diff
  run_diff-other m d other = elim (Bool-cases (owns d.siacoin_output.unlock_hash)) [
    | inr e ↦ rw e refl
    | inl e ↦ rw e (elim (Bool-cases d.is_apply) [
      | inl b ↦ rw b (lookup-put_other id d.id (unspent d) m other)
      | inr b ↦ rw b (lookup-delete_other id d.id m other)
    ])
  ]

  run_diff-same :
      (m : List (Hash × UnspentOutput)) (d : SiacoinOutputDiff)
      → owns o.unlock_hash ≡ true
      → eq_bytes id d.id ≡ true
      → d.siacoin_output ≡ o
      → lookup id (run_diff owns m d) ≡ view (entry id o) d.is_apply
  unfolding run_diff
  run_diff-same m d own same e =
      let at = eq_of_eq_bytes id d.id same in
      let owned : owns d.siacoin_output.unlock_hash ≡ true = rw e own in
      rw owned (elim (Bool-cases d.is_apply) [
        | inl b ↦ rw b (
            ap (λ (k : Hash). lookup k (put d.id (unspent d) m)) at
            ∙ lookup-put_same d.id (unspent d) m
            ∙ ap some (unspent-entry id o d same e))
        | inr b ↦ rw (b, at) (lookup-delete_same d.id m)
      ])

  pub run_diffs-view :
      (m : List (Hash × UnspentOutput)) (present : Bool) (diffs : List SiacoinOutputDiff)
      → Describes id o diffs
      → owns o.unlock_hash ≡ true
      → lookup id m ≡ view (entry id o) present
      → Alternates id present diffs
      → lookup id (run_diffs owns m diffs) ≡ view (entry id o) (xor present (odd id diffs))
  unfolding run_diffs foldl odd
  run_diffs-view m present [] about own start alt =
      start ∙ ap (view (entry id o)) (sym (xor-false present))
  run_diffs-view m present (d ∷ diffs) about own start alt = elim (Bool-cases (eq_bytes id d.id)) [
    | inl same ↦
        let (turn, alt') = rw same at alt in
        run_diffs-view (run_diff owns m d) d.is_apply diffs about.1 own
          (run_diff-same m d own same (about.0 same)) alt'
        ∙ ap (view (entry id o)) (
            ap (λ (b : Bool). xor b (odd id diffs)) turn
            ∙ xor-not present (odd id diffs)
            ∙ rw same refl)
    | inr other ↦
        run_diffs-view (run_diff owns m d) present diffs about.1 own
          (run_diff-other m d other ∙ start) (rw other at alt)
        ∙ rw other refl
  ]

  pub run_diffs-foreign :
      (m : List (Hash × UnspentOutput)) (diffs : List SiacoinOutputDiff)
      → Describes id o diffs
      → owns o.unlock_hash ≡ false
      → lookup id (run_diffs owns m diffs) ≡ lookup id m
  unfolding run_diffs foldl
  run_diffs-foreign m [] about foreign = refl
  run_diffs-foreign m (d ∷ diffs) about foreign =
      run_diffs-foreign (run_diff owns m d) diffs about.1 foreign
      ∙ elim (Bool-cases (eq_bytes id d.id)) [
        | inl same ↦ rw (run_diff, about.0 same, foreign) refl
        | inr other ↦ run_diff-other m d other
      ]
