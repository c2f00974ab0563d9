-- ===== src/Wallet/Filter/Outputs.antt =====
-- The outputs that FilterConsensusChange (wallet/wallet.go) keeps of a change do to a store what
-- the diffs of the change do one after the other.
use us.Prelude.{
  ◌≡◌, refl, ◌∙◌, Bool, true, false, ◌||◌, ◌&&◌, not, inl, inr, List, [], ◌∷◌, ◌++◌, Option, none,
  some, if◌then◌else◌, Bool-cases, eq_bytes, delete,
}
use us.Merkle.Hash.{Hash}
use us.Wallet.Types.{UnspentOutput}
use us.Wallet.Store.Outputs.{last_with, mentions}
use us.Wallet.Relevant.{or_true}
use us.Wallet.Filter.{SiacoinOutputDiff, Filtered, unspent, survives, process_output, add_output}
use us.Wallet.Filter.Survivors.{survives-delete_other}

-- The first diff with the ID.
unfoldable pub first_diff : Hash → List SiacoinOutputDiff → Option Bool
first_diff id [] = none
first_diff id (d ∷ diffs) = if eq_bytes id d.id then some d.is_apply else first_diff id diffs

-- The diffs with the ID create and destroy its output in turn.
abbrev pub Alternates : Hash → Bool → List SiacoinOutputDiff → Type 0
Alternates id present [] = Unit {0}
Alternates id present (d ∷ diffs) =
    if eq_bytes id d.id
    then (d.is_apply ≡ not present) × Alternates id d.is_apply diffs
    else Alternates id present diffs

pub last_with-append :
    (id : Hash) (os : List UnspentOutput) (o : UnspentOutput)
    → last_with id (os ++ (o ∷ [])) ≡ (if eq_bytes id o.id then some o else last_with id os)
unfolding last_with
last_with-append id [] o = refl
last_with-append id (x ∷ os) o = elim (Bool-cases (eq_bytes id o.id)) [
  | inl same ↦ rw (last_with-append id os o, same) refl
  | inr other ↦ rw (last_with-append id os o, other) refl
]

pub mentions-append :
    (id : Hash) (os : List UnspentOutput) (o : UnspentOutput)
    → mentions id (os ++ (o ∷ [])) ≡ eq_bytes id o.id || mentions id os
unfolding mentions
mentions-append id [] o = refl
mentions-append id (x ∷ os) o = elim (Bool-cases (eq_bytes id o.id)) [
  | inl same ↦ rw (mentions-append id os o, same) (or_true (eq_bytes id x.id))
  | inr other ↦ rw (mentions-append id os o, other) refl
]

-- Nothing changes for the ID.
pub record Same (id : Hash) (st st' : Filtered) : Type 0 where
  pub last : last_with id st'.applied ≡ last_with id st.applied
  pub mention : mentions id st'.reverted ≡ mentions id st.reverted

pub Same-trans : (id : Hash) (a b c : Filtered) → Same id a b → Same id b c → Same id a c
Same-trans id a b c p q = record { last = q.last ∙ p.last; mention = q.mention ∙ p.mention }

add_output-Same :
    (id : Hash) (b : Bool) (o : UnspentOutput) (st : Filtered)
    → eq_bytes id o.id ≡ false
    → Same id st (add_output b o st)
unfolding add_output
add_output-Same id true o st e = record {
  last = last_with-append id st.applied o ∙ rw e refl;
  mention = refl;
}
add_output-Same id false o st e = record {
  last = refl;
  mention = mentions-append id st.reverted o ∙ rw e refl;
}

add_output-surviving :
    (b : Bool) (o : UnspentOutput) (st : Filtered) → (add_output b o st).surviving ≡ st.surviving
unfolding add_output
add_output-surviving true o st = refl
add_output-surviving false o st = refl

module _ (owns : Hash → Bool) where
  -- The diff is skipped, or one output is added.
  pub process_output-skipped :
      (st : Filtered) (d : SiacoinOutputDiff)
      → survives st.surviving d.id && owns d.siacoin_output.unlock_hash ≡ false
      → process_output owns st d ≡ record st { surviving = delete d.id st.surviving }
  unfolding process_output
  process_output-skipped st d e = rw e refl

  pub process_output-added :
      (st : Filtered) (d : SiacoinOutputDiff)
      → survives st.surviving d.id && owns d.siacoin_output.unlock_hash ≡ true
      → process_output owns st d
        ≡ record (add_output d.is_apply (unspent d) st) { surviving = delete d.id st.surviving }
  unfolding process_output
  process_output-added st d e = rw (e, add_output-surviving d.is_apply (unspent d) st) refl

  pub process_output-other :
      (id : Hash) (st : Filtered) (d : SiacoinOutputDiff)
      → eq_bytes id d.id ≡ false
      → Same id st (process_output owns st d)
        × (survives (process_output owns st d).surviving id ≡ survives st.surviving id)
  process_output-other id st d e =
      let kept = survives-delete_other id d.id st.surviving e in
      elim (Bool-cases (survives st.surviving d.id && owns d.siacoin_output.unlock_hash)) [
        | inl t ↦
            let added = add_output-Same id d.is_apply (unspent d) st e in
            rw (process_output-added st d t)
              (record { last = added.last; mention = added.mention }, kept)
        | inr f ↦ rw (process_output-skipped st d f) (record { last = refl; mention = refl }, kept)
      ]
