-- ===== src/Wallet/LimboOutputs/Kept.antt =====
-- CalculateLimboOutputs (wallet/wallet.go) against the list of the outputs that are there before or
-- are created in limbo, less those that are spent in limbo.
use us.Prelude.{
  ℕ, suc, ◌≡◌, refl, ap, sym, ◌∙◌, Bool, true, false, ◌||◌, ◌&&◌, not, inl, inr, List, [], ◌∷◌,
  ◌++◌, if◌then◌else◌, Bool-cases, or_false_both, eq_bytes, eq_of_eq_bytes, foldl, remove_first,
}
use mathlib.Core.List.{append_assoc, append-nil}
use mathlib.Core.Path.{fun_ext}
use us.Merkle.Hash.{Blake, Hash}
use us.Wallet.Types.{
  Sia, SiacoinOutput, SiacoinInput, SiaTransaction, LimboTransaction, UnspentOutput,
}
use us.Wallet.Address.{calculate_unlock_hash}
use us.Wallet.LimboOutputs.{
  remove_id, created, add_created, spend, spend_all, spend_inputs, calculate_limbo_outputs,
}
use us.Wallet.Relevant.{any, concat_map}

-- Some output of the list has the ID.
unfoldable pub has_id : Hash → List UnspentOutput → Bool
has_id id [] = false
has_id id (o ∷ os) = eq_bytes o.id id || has_id id os

-- No two outputs have one ID.
abbrev pub Distinct : List UnspentOutput → Type 0
Distinct [] = Unit {0}
Distinct (o ∷ os) = (has_id o.id os ≡ false) × Distinct os

-- The outputs of the list with the property, in their order.
unfoldable pub keep : (UnspentOutput → Bool) → List UnspentOutput → List UnspentOutput
keep p [] = []
keep p (o ∷ os) = let rest = keep p os in if p o then o ∷ rest else rest

keep-all : (os : List UnspentOutput) → keep (λ o. true) os ≡ os
unfolding keep
keep-all [] = refl
keep-all (o ∷ os) = ap (◌∷◌ o) (keep-all os)

keep-keep :
    (p q : UnspentOutput → Bool) (os : List UnspentOutput)
    → keep q (keep p os) ≡ keep (λ o. p o && q o) os
unfolding keep
keep-keep p q [] = refl
keep-keep p q (o ∷ os) = elim (Bool-cases (p o)) [
  | inl e ↦ elim (Bool-cases (q o)) [
    | inl f ↦ rw (e, f) (ap (◌∷◌ o) (keep-keep p q os))
    | inr f ↦ rw (e, f) (keep-keep p q os)
  ]
  | inr e ↦ rw e (keep-keep p q os)
]

keep-append :
    (p : UnspentOutput → Bool) (os os' : List UnspentOutput)
    → keep p (os ++ os') ≡ keep p os ++ keep p os'
unfolding keep
keep-append p [] os' = refl
keep-append p (o ∷ os) os' = elim (Bool-cases (p o)) [
  | inl e ↦ rw e (ap (◌∷◌ o) (keep-append p os os'))
  | inr e ↦ rw e (keep-append p os os')
]

-- Properties that agree keep the same.
keep-same :
    (p q : UnspentOutput → Bool) (os : List UnspentOutput)
    → ((o : UnspentOutput) → p o ≡ q o)
    → keep p os ≡ keep q os
keep-same p q os same = ap (λ (r : UnspentOutput → Bool). keep r os) (fun_ext same)

has_id-keep :
    (p : UnspentOutput → Bool) (id : Hash) (os : List UnspentOutput)
    → has_id id os ≡ false
    → has_id id (keep p os) ≡ false
unfolding has_id keep
has_id-keep p id [] e = refl
has_id-keep p id (o ∷ os) e =
    let (here, later) = or_false_both (eq_bytes o.id id) (has_id id os) e in
    elim (Bool-cases (p o)) [
      | inl kept ↦ rw (kept, here) (has_id-keep p id os later)
      | inr gone ↦ rw gone (has_id-keep p id os later)
    ]

keep-Distinct :
    (p : UnspentOutput → Bool) (os : List UnspentOutput) → Distinct os → Distinct (keep p os)
unfolding keep
keep-Distinct p [] d = tt
keep-Distinct p (o ∷ os) d = elim (Bool-cases (p o)) [
  | inl kept ↦ rw kept (has_id-keep p o.id os d.0, keep-Distinct p os d.1)
  | inr gone ↦ rw gone (keep-Distinct p os d.1)
]

-- No output is left out by an ID that none has.
keep-others :
    (x : Hash) (os : List UnspentOutput)
    → has_id x os ≡ false
    → keep (λ o. not (eq_bytes o.id x)) os ≡ os
unfolding keep has_id
keep-others x [] e = refl
keep-others x (o ∷ os) e =
    let (here, later) = or_false_both (eq_bytes o.id x) (has_id x os) e in
    rw here (ap (◌∷◌ o) (keep-others x os later))

remove_id-keep :
    (x : Hash) (os : List UnspentOutput)
    → Distinct os
    → remove_id x os ≡ keep (λ o. not (eq_bytes o.id x)) os
unfolding remove_id remove_first keep
remove_id-keep x [] d = refl
remove_id-keep x (o ∷ os) d = elim (Bool-cases (eq_bytes o.id x)) [
  | inl gone ↦
      let at : o.id ≡ x = eq_of_eq_bytes o.id x gone in
      rw gone (sym (keep-others x os (rw (← at) d.0)))
  | inr stays ↦ rw stays (ap (◌∷◌ o) (remove_id-keep x os d.1))
]

not_or : (a b : Bool) → not a && not b ≡ not (a || b)
not_or true b = refl
not_or false b = refl

module _ ⦃sia : Sia⦄ where
  -- The outputs of a transaction, each with the ID of its index.
  unfoldable pub numbered : SiaTransaction → ℕ → List SiacoinOutput → List UnspentOutput
  numbered txn i [] = []
  numbered txn i (o ∷ os) =
      record { output = o; id = sia.siacoin_output_id txn i } ∷ numbered txn (suc i) os

  -- All outputs of the transactions in limbo.
  unfoldable pub limbo_outputs : List LimboTransaction → List UnspentOutput
  unfolding numbered
  limbo_outputs =
      concat_map
        (λ (txn : LimboTransaction). numbered txn.transaction 0 txn.transaction.siacoin_outputs)

module _ ⦃blake : Blake⦄ ⦃sia : Sia⦄ (owns_address : Hash → Bool) where
  -- The input spends the output with the ID, and belongs to the owner.
  abbrev pub spends : Hash → SiacoinInput → Bool
  spends id i = owns_address (calculate_unlock_hash i.unlock_conditions) && eq_bytes id i.parent_id

  abbrev pub spends_any : Hash → LimboTransaction → Bool
  spends_any id txn = any (spends id) txn.transaction.siacoin_inputs

  spend-keep :
      (os : List UnspentOutput) (i : SiacoinInput)
      → Distinct os
      → spend owns_address os i ≡ keep (λ o. not (spends o.id i)) os
  unfolding spend
  spend-keep os i d = elim (Bool-cases (owns_address (calculate_unlock_hash i.unlock_conditions))) [
    | inl owned ↦ rw owned (remove_id-keep i.parent_id os d)
    | inr other ↦ rw other (sym (keep-all os))
  ]

  -- Two deletions in a row.
  keep_both :
      (gone gone' : Hash → Bool) (os : List UnspentOutput)
      → keep (λ o. not (gone' o.id)) (keep (λ o. not (gone o.id)) os)
        ≡ keep (λ o. not (gone o.id || gone' o.id)) os
  keep_both gone gone' os =
      keep-keep (λ o. not (gone o.id)) (λ o. not (gone' o.id)) os
      ∙ keep-same (λ o. not (gone o.id) && not (gone' o.id)) (λ o. not (gone o.id || gone' o.id)) os
          (λ o. not_or (gone o.id) (gone' o.id))

  spend_all-keep :
      (os : List UnspentOutput) (inputs : List SiacoinInput)
      → Distinct os
      → spend_all owns_address os inputs ≡ keep (λ o. not (any (spends o.id) inputs)) os
  unfolding spend_all foldl any
  spend_all-keep os [] d = sym (keep-all os)
  spend_all-keep os (i ∷ inputs) d =
      ap (λ (os' : List UnspentOutput). spend_all owns_address os' inputs) (spend-keep os i d)
      ∙ spend_all-keep (keep (λ o. not (spends o.id i)) os) inputs
          (keep-Distinct (λ o. not (spends o.id i)) os d)
      ∙ keep_both (λ id. spends id i) (λ id. any (spends id) inputs) os

  spend_limbo-keep :
      (os : List UnspentOutput) (limbo : List LimboTransaction)
      → Distinct os
      → foldl (spend_inputs owns_address) os limbo
        ≡ keep (λ o. not (any (spends_any o.id) limbo)) os
  unfolding foldl any spend_inputs
  spend_limbo-keep os [] d = sym (keep-all os)
  spend_limbo-keep os (txn ∷ limbo) d =
      ap (λ (os' : List UnspentOutput). foldl (spend_inputs owns_address) os' limbo)
        (spend_all-keep os txn.transaction.siacoin_inputs d)
      ∙ spend_limbo-keep (keep (λ o. not (spends_any o.id txn)) os) limbo
          (keep-Distinct (λ o. not (spends_any o.id txn)) os d)
      ∙ keep_both (λ id. spends_any id txn) (λ id. any (spends_any id) limbo) os

  abbrev pub owned : UnspentOutput → Bool
  owned o = owns_address o.output.unlock_hash

  created-keep :
      (txn : SiaTransaction) (i : ℕ) (os : List SiacoinOutput)
      → created owns_address txn i os ≡ keep owned (numbered txn i os)
  unfolding created numbered keep
  created-keep txn i [] = refl
  created-keep txn i (o ∷ os) = elim (Bool-cases (owns_address o.unlock_hash)) [
    | inl e ↦
        let here : UnspentOutput = record { output = o; id = sia.siacoin_output_id txn i } in
        rw e (ap (◌∷◌ here) (created-keep txn (suc i) os))
    | inr e ↦ rw e (created-keep txn (suc i) os)
  ]

  add_all :
      (os : List UnspentOutput) (limbo : List LimboTransaction)
      → foldl (add_created owns_address) os limbo ≡ os ++ keep owned (limbo_outputs limbo)
  unfolding foldl add_created limbo_outputs concat_map keep
  add_all os [] = sym (append-nil os)
  add_all os (txn ∷ limbo) =
      let outs = txn.transaction.siacoin_outputs in
      add_all (add_created owns_address os txn) limbo
      ∙ append_assoc os _ (keep owned (limbo_outputs limbo))
      ∙ ap (λ (os' : List UnspentOutput). os ++ (os' ++ keep owned (limbo_outputs limbo)))
          (created-keep txn.transaction 0 outs)
      ∙ ap (os ++◌)
          (sym (keep-append owned (numbered txn.transaction 0 outs) (limbo_outputs limbo)))

  -- When no two of the given outputs and of the outputs in limbo that belong to the owner have one
  -- ID: CalculateLimboOutputs returns, in their order, the given outputs followed by all outputs
  -- of the transactions in limbo that belong to the owner, each with the ID of its transaction and
  -- index, less those that an input of the owner in limbo spends.
  pub calculate_limbo_outputs-keep :
      (limbo : List LimboTransaction) (outputs : List UnspentOutput)
      → Distinct (outputs ++ keep owned (limbo_outputs limbo))
      → calculate_limbo_outputs owns_address limbo outputs
        ≡ keep
            (λ o. not (any (spends_any o.id) limbo))
            (outputs ++ keep owned (limbo_outputs limbo))
  unfolding calculate_limbo_outputs
  calculate_limbo_outputs-keep limbo outputs d =
      ap (λ (os : List UnspentOutput). foldl (spend_inputs owns_address) os limbo)
        (add_all outputs limbo)
      ∙ spend_limbo-keep (outputs ++ keep owned (limbo_outputs limbo)) limbo d
