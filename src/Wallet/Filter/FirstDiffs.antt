-- ===== src/Wallet/Filter/FirstDiffs.antt =====
-- The second loop of FilterConsensusChange (wallet/wallet.go), on the diffs of one output: the first
-- of them decides.
use us.Prelude.{
  ◌≡◌, refl, ap, ◌∙◌, Bool, true, false, ◌&&◌, not, inl, inr, List, [], ◌∷◌, Option, none, some,
  Bool-cases, eq_bytes, eq_bytes_refl, eq_of_eq_bytes, delete, foldl,
}
use us.Merkle.Hash.{Hash}
use us.Wallet.Types.{SiacoinOutput, UnspentOutput}
use us.Wallet.Store.Outputs.{last_with, mentions}
use us.Wallet.Filter.{
  SiacoinOutputDiff, Filtered, unspent, survives, process_output, process_outputs, add_output,
}
use us.Wallet.Filter.Survivors.{odd, survives-delete_same}
use us.Wallet.Filter.Outputs.{
  first_diff, Alternates, Same, Same-trans, process_output-skipped, process_output-added,
  process_output-other, last_with-append, mentions-append,
}
use us.Wallet.Filter.Runs.{view, Describes, entry, unspent-entry}

-- The first of an odd number of diffs changes what was there.
pub first_diff-odd :
    (id : Hash) (present : Bool) (diffs : List SiacoinOutputDiff)
    → Alternates id present diffs
    → odd id diffs ≡ true
    → first_diff id diffs ≡ some (not present)
unfolding odd first_diff
first_diff-odd id present [] alt e = cc
first_diff-odd id present (d ∷ diffs) alt e = elim (Bool-cases (eq_bytes id d.id)) [
  | inl same ↦ rw same (ap some (rw same at alt).0)
  | inr other ↦ rw other (first_diff-odd id present diffs (rw other at alt) (rw other at e))
]

-- What a first diff adds to the applied and to the reverted outputs.
abbrev pub gained : UnspentOutput → Option Bool → Option UnspentOutput
gained out none = none
gained out (some b) = view out b

abbrev pub lost : Option Bool → Bool
lost none = false
lost (some b) = not b

module _ (owns : Hash → Bool) (id : Hash) (o : SiacoinOutput) where
  pub process_outputs-Same :
      (st : Filtered) (diffs : List SiacoinOutputDiff)
      → Describes id o diffs
      → survives st.surviving id && owns o.unlock_hash ≡ false
      → Same id st (process_outputs owns st diffs)
  unfolding process_outputs foldl
  process_outputs-Same st [] about skip = record { last = refl; mention = refl }
  process_outputs-Same st (d ∷ diffs) about skip = elim (Bool-cases (eq_bytes id d.id)) [
    | inl same ↦
        let at = eq_of_eq_bytes id d.id same in
        let next : Filtered = record st { surviving = delete d.id st.surviving } in
        let gone : survives next.surviving id ≡ false =
          rw at (survives-delete_same d.id st.surviving) in
        let passed = process_output-skipped owns st d (rw (← at, about.0 same) skip) in
        let later = process_outputs-Same next diffs about.1 (rw gone refl) in
        rw passed (record { last = later.last; mention = later.mention })
    | inr other ↦
        let (same, kept) = process_output-other owns id st d other in
        Same-trans id st (process_output owns st d) _ same
          (process_outputs-Same (process_output owns st d) diffs about.1 (rw kept skip))
  ]

  -- The first diff of an ID that survives decides.
  pub record First (st : Filtered) (first : Option Bool) : Type 0 where
    pub last : last_with id st.applied ≡ gained (entry id o) first
    pub mention : mentions id st.reverted ≡ lost first

  add_output-First :
      (b : Bool) (st : Filtered) → First st none → First (add_output b (entry id o) st) (some b)
  unfolding add_output
  add_output-First true st start = record {
    last = last_with-append id st.applied (entry id o) ∙ rw (eq_bytes_refl id) refl;
    mention = start.mention;
  }
  add_output-First false st start = record {
    last = start.last;
    mention = mentions-append id st.reverted (entry id o) ∙ rw (eq_bytes_refl id) refl;
  }

  pub process_outputs-First :
      (st : Filtered) (diffs : List SiacoinOutputDiff)
      → Describes id o diffs
      → owns o.unlock_hash ≡ true
      → survives st.surviving id ≡ true
      → First st none
      → First (process_outputs owns st diffs) (first_diff id diffs)
  unfolding process_outputs foldl first_diff
  process_outputs-First st [] about own live start = start
  process_outputs-First st (d ∷ diffs) about own live start = elim (Bool-cases (eq_bytes id d.id)) [
    | inl same ↦
        let at = eq_of_eq_bytes id d.id same in
        let fresh : Filtered = add_output d.is_apply (unspent d) st in
        let next : Filtered = record fresh { surviving = delete d.id st.surviving } in
        let gone : survives next.surviving id ≡ false =
          rw at (survives-delete_same d.id st.surviving) in
        let passed = process_output-added owns st d (rw (← at, about.0 same, live) own) in
        let later = process_outputs-Same next diffs about.1 (rw gone refl) in
        let first =
          rw (← unspent-entry id o d same (about.0 same)) at
            (add_output-First d.is_apply st start) in
        rw (passed, same)
          (record { last = later.last ∙ first.last; mention = later.mention ∙ first.mention })
    | inr other ↦
        let (same, kept) = process_output-other owns id st d other in
        rw other (
          process_outputs-First (process_output owns st d) diffs about.1 own (kept ∙ live)
            (record { last = same.last ∙ start.last; mention = same.mention ∙ start.mention }))
  ]
