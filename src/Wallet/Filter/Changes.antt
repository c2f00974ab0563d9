-- ===== src/Wallet/Filter/Changes.antt =====
-- ApplyConsensusChange (wallet/ephemeralstore.go) of the outputs that FilterConsensusChange
-- (wallet/wallet.go) keeps, against the diffs of the change taken one after the other.
use us.Prelude.{
  ◌≡◌, refl, sym, ap, ◌∙◌, Bool, true, false, ◌&&◌, not, inl, inr, ◌⊎◌, List, [], ◌∷◌, Option, none,
  if◌then◌else◌, Bool-cases, eq_of_eq_bytes, lookup, All,
}
use us.Merkle.Hash.{Hash}
use us.Wallet.Types.{Sia, SiacoinOutput, UnspentOutput, ProcessedConsensusChange}
use us.Wallet.Store.{EphemeralStore, apply_consensus_change}
use us.Wallet.Store.Outputs.{last_with, mentions, or_else, lookup-apply_consensus_change}
use us.Wallet.Filter.{SiacoinOutputDiff, Filtered, surviving_outputs, survives, filter_outputs}
use us.Wallet.Filter.Survivors.{xor, xor-false, odd, survives-surviving_outputs}
use us.Wallet.Filter.Outputs.{first_diff, Alternates, Same}
use us.Wallet.Filter.Runs.{view, run_diffs, Describes, entry, run_diffs-view, run_diffs-foreign}
use us.Wallet.Filter.FirstDiffs.{
  first_diff-odd, gained, lost, process_outputs-Same, First, process_outputs-First,
}

and_false : (a : Bool) → a && false ≡ false
and_false true = refl
and_false false = refl

xor-true : (a : Bool) → xor a true ≡ not a
unfolding xor
xor-true true = refl
xor-true false = refl

-- What one output amounts to, from the two lists.
settled :
    (id : Hash) (out : UnspentOutput) (present : Bool) (diffs : List SiacoinOutputDiff)
    → Alternates id present diffs
    → odd id diffs ≡ true
    → or_else
        (gained out (first_diff id diffs))
        (if lost (first_diff id diffs) then none else view out present)
      ≡ view out (not present)
unfolding or_else
settled id out true diffs alt e = rw (first_diff-odd id true diffs alt e) refl
settled id out false diffs alt e = rw (first_diff-odd id false diffs alt e) refl

abbrev start : List SiacoinOutputDiff → Filtered
start diffs = record { surviving = surviving_outputs [] diffs; reverted = []; applied = [] }

Same-settles :
    (id : Hash) (stored : Option UnspentOutput) (diffs : List SiacoinOutputDiff) (st : Filtered)
    → Same id (start diffs) st
    → or_else (last_with id st.applied) (if mentions id st.reverted then none else stored) ≡ stored
unfolding last_with mentions or_else
Same-settles id stored diffs st same = rw (same.last, same.mention) refl

module _ (owns : Hash → Bool) (id : Hash) (o : SiacoinOutput) where
  filter_outputs-Same :
      (diffs : List SiacoinOutputDiff)
      → Describes id o diffs
      → (odd id diffs ≡ false) ⊎ (owns o.unlock_hash ≡ false)
      → Same id (start diffs) (filter_outputs owns diffs)
  unfolding filter_outputs survives xor lookup
  filter_outputs-Same diffs about (inl even) =
      process_outputs-Same owns id o (start diffs) diffs about
        (rw (survives-surviving_outputs id [] diffs ∙ even) refl)
  filter_outputs-Same diffs about (inr foreign) =
      process_outputs-Same owns id o (start diffs) diffs about
        (rw foreign (and_false (survives (surviving_outputs [] diffs) id)))

  filter_outputs-First :
      (diffs : List SiacoinOutputDiff)
      → Describes id o diffs
      → owns o.unlock_hash ≡ true
      → odd id diffs ≡ true
      → First owns id o (filter_outputs owns diffs) (first_diff id diffs)
  unfolding filter_outputs survives xor last_with mentions lookup
  filter_outputs-First diffs about own e =
      process_outputs-First owns id o (start diffs) diffs about own
        (survives-surviving_outputs id [] diffs ∙ e) (record { last = refl; mention = refl })

  filter_outputs-view :
      (present : Bool) (diffs : List SiacoinOutputDiff)
      → Describes id o diffs
      → owns o.unlock_hash ≡ true
      → Alternates id present diffs
      → or_else (last_with id (filter_outputs owns diffs).applied) (
          if mentions id (filter_outputs owns diffs).reverted
          then none
          else view (entry id o) present)
        ≡ view (entry id o) (xor present (odd id diffs))
  filter_outputs-view present diffs about own alt =
      let out : UnspentOutput = entry id o in
      elim (Bool-cases (odd id diffs)) [
        | inl e ↦
            let first = filter_outputs-First diffs about own e in
            rw (first.last, first.mention) (settled id out present diffs alt e)
            ∙ ap (view out) (sym (ap (xor present) e ∙ xor-true present))
        | inr e ↦
            Same-settles id (view out present) diffs (filter_outputs owns diffs)
              (filter_outputs-Same diffs about (inl e))
            ∙ ap (view out) (sym (ap (xor present) e ∙ xor-false present))
      ]

All-Describes :
    (id : Hash) (output_of : Hash → SiacoinOutput) (diffs : List SiacoinOutputDiff)
    → All (λ (d : SiacoinOutputDiff). d.siacoin_output ≡ output_of d.id) diffs
    → Describes id (output_of id) diffs
All-Describes id output_of [] one = tt
All-Describes id output_of (d ∷ diffs) one = (
  λ same. one.0 ∙ ap output_of (sym (eq_of_eq_bytes id d.id same)),
  All-Describes id output_of diffs one.1,
)

module _ ⦃sia : Sia⦄ where
  -- One output has each ID, in the diffs of a change and in the store, and the diffs of an output
  -- of the owner create and destroy it in turn, from what the store has. Then ApplyConsensusChange
  -- with the outputs that FilterConsensusChange keeps of the change makes of the outputs of the
  -- store what the diffs make of them, taken one after the other.
  pub apply_consensus_change-run_diffs :
      (owns : Hash → Bool) (output_of : Hash → SiacoinOutput) (s : EphemeralStore)
      (diffs : List SiacoinOutputDiff) (reverted applied : ProcessedConsensusChange) (ccid : Hash)
      → All (λ (d : SiacoinOutputDiff). d.siacoin_output ≡ output_of d.id) diffs
      → ((id : Hash)
          → owns (output_of id).unlock_hash ≡ true
          → (present : Bool) × (lookup id s.outputs ≡ view (entry id (output_of id)) present)
            × Alternates id present diffs)
      → reverted.outputs ≡ (filter_outputs owns diffs).reverted
      → applied.outputs ≡ (filter_outputs owns diffs).applied
      → (id : Hash)
      → lookup id (apply_consensus_change s reverted applied ccid).outputs
        ≡ lookup id (run_diffs owns s.outputs diffs)
  apply_consensus_change-run_diffs owns output_of s diffs reverted applied ccid one turns r a id =
      let about = All-Describes id output_of diffs one in
      lookup-apply_consensus_change s reverted applied ccid id
      ∙ rw (r, a)
          (elim (Bool-cases (owns (output_of id).unlock_hash)) [
            | inr foreign ↦
                Same-settles id (lookup id s.outputs) _ (filter_outputs owns diffs)
                  (filter_outputs-Same owns id (output_of id) diffs about (inr foreign))
                ∙ sym (run_diffs-foreign owns id (output_of id) s.outputs diffs about foreign)
            | inl own ↦
                let (present, found, alt) = turns id own in
                rw found (filter_outputs-view owns id (output_of id) present diffs about own alt)
                ∙ sym (
                    run_diffs-view owns id (output_of id) s.outputs present diffs about own found
                      alt)
          ])
