-- ===== src/Wallet/Store/Reorg.antt =====
-- ApplyConsensusChange (wallet/ephemeralstore.go) when a change is applied and then reverted.
use us.Prelude.{
  ℕ, ◌+◌, ◌-◌, ◌%◌, ◌^◌, ◌<◌, ◌≡◌, refl, ap, ◌∙◌, Bool, true, false, ◌&&◌, List, [], ◌∷◌, ◌++◌,
  arith, ◌==◌, eq_bytes, eq_bytes_refl, remove_first, foldl,
}
use mathlib.Core.List.{append-nil}
use us.Merkle.Hash.{Hash}
use us.Wallet.Types.{Sia, BlockReward, FileContract, ProcessedConsensusChange}
use us.Wallet.Store.{
  EphemeralStore, revert_block_rewards, revert_file_contracts, remove_ids, revert_change,
  apply_change, apply_consensus_change, with_transactions,
}
use us.Wallet.Store.Frame.{
  revert_transactions-Framed, apply_transactions-Framed, ids_of, apply_transactions-recent,
  revert_transactions-recent,
}

module _ {A : Type 0} where
  -- No entry satisfies `q`.
  abbrev pub Absent : (A → Bool) → List A → Type 0
  Absent q [] = Unit {0}
  Absent q (x ∷ xs) = (q x ≡ false) × Absent q xs

  -- No entry of `xs` is matched by one of `ys`.
  abbrev pub Fresh : (A → A → Bool) → List A → List A → Type 0
  Fresh p [] xs = Unit {0}
  Fresh p (y ∷ ys) xs = Absent (λ x. p x y) xs × Fresh p ys xs

  remove_first-append :
      (q : A → Bool) (xs : List A) (y : A) (ys : List A)
      → Absent q xs
      → q y ≡ true
      → remove_first q (xs ++ y ∷ ys) ≡ xs ++ ys
  unfolding remove_first
  remove_first-append q [] y ys a e = rw e refl
  remove_first-append q (x ∷ xs) y ys a e =
      rw a.0 (ap (◌∷◌ x) (remove_first-append q xs y ys a.1 e))

  remove_all-append :
      (p : A → A → Bool) (xs ys : List A)
      → Fresh p ys xs
      → ((y : A) → p y y ≡ true)
      → foldl (λ rs y. remove_first (λ x. p x y) rs) (xs ++ ys) ys ≡ xs
  unfolding foldl
  remove_all-append p xs [] f e = append-nil xs
  remove_all-append p xs (y ∷ ys) f e =
      rw (remove_first-append (λ x. p x y) xs y ys f.0 (e y)) (remove_all-append p xs ys f.1 e)

abbrev pub same_reward : BlockReward → BlockReward → Bool
same_reward r br = eq_bytes r.unspent.id br.unspent.id

abbrev pub same_contract : FileContract → FileContract → Bool
same_contract c fc = eq_bytes c.id fc.id && (c.revision_number == fc.revision_number)

-- A change without content.
abbrev pub no_change : ProcessedConsensusChange
no_change = record {
  outputs = [];
  transactions = [];
  address_transactions = [];
  block_rewards = [];
  file_contracts = [];
  block_count = 0;
}

-- The history of a store, in the order in which it is listed.
pub record SameHistory (s t : EphemeralStore) : Type 0 where
  pub rewards : t.blockrewards ≡ s.blockrewards
  pub contracts : t.filecontracts ≡ s.filecontracts
  pub recent : t.txns_recent_index ≡ s.txns_recent_index
  pub height : t.height ≡ s.height

module _ ⦃sia : Sia⦄ where
  -- The history after a change of consensus.
  module _ (s : EphemeralStore) (reverted applied : ProcessedConsensusChange) (ccid : Hash) where
    abbrev after : EphemeralStore
    after = apply_consensus_change s reverted applied ccid

    after-rewards :
        after.blockrewards
        ≡ revert_block_rewards s.blockrewards reverted.block_rewards ++ applied.block_rewards
    unfolding apply_consensus_change apply_change revert_change with_transactions
    after-rewards =
        let a = apply_transactions-Framed _ applied.transactions in
        let r = revert_transactions-Framed _ reverted.transactions in
        ap (λ (t : EphemeralStore). t.blockrewards) a
        ∙ ap (λ (t : EphemeralStore). t.blockrewards ++ applied.block_rewards) r

    after-contracts :
        after.filecontracts
        ≡ revert_file_contracts s.filecontracts reverted.file_contracts ++ applied.file_contracts
    unfolding apply_consensus_change apply_change revert_change with_transactions
    after-contracts =
        let a = apply_transactions-Framed _ applied.transactions in
        let r = revert_transactions-Framed _ reverted.transactions in
        ap (λ (t : EphemeralStore). t.filecontracts) a
        ∙ ap (λ (t : EphemeralStore). t.filecontracts ++ applied.file_contracts) r

    after-recent :
        after.txns_recent_index
        ≡ remove_ids s.txns_recent_index (ids_of reverted.transactions)
          ++ ids_of applied.transactions
    unfolding apply_consensus_change apply_change revert_change
    after-recent =
        apply_transactions-recent _ applied.transactions
        ∙ ap (λ (ids : List Hash). ids ++ ids_of applied.transactions)
            (revert_transactions-recent _ reverted.transactions)

    after-height :
        after.height
        ≡ (s.height + applied.block_count + (2 ^ 64 - reverted.block_count % 2 ^ 64)) % 2 ^ 64
    unfolding apply_consensus_change apply_change revert_change with_transactions
    after-height =
        let a = apply_transactions-Framed _ applied.transactions in
        let r = revert_transactions-Framed _ reverted.transactions in
        let wrap = λ (h : ℕ).
          (h + applied.block_count + (2 ^ 64 - reverted.block_count % 2 ^ 64)) % 2 ^ 64 in
        ap (λ (t : EphemeralStore). wrap t.height) a ∙ ap (λ (t : EphemeralStore). wrap t.height) r

  same_contract_refl : (fc : FileContract) → same_contract fc fc ≡ true
  same_contract_refl fc =
      let e : (fc.revision_number == fc.revision_number) ≡ true = ground arith in
      rw (eq_bytes_refl, e) refl

  -- Of a change with new block rewards, file contracts and transactions, for a height and a block
  -- count below 2 ^ 64, applying it and then reverting it leaves the lists of block rewards, file
  -- contracts and recent transactions, and the height, as they were.
  pub revert-apply :
      (s : EphemeralStore) (change : ProcessedConsensusChange) (ccid ccid' : Hash)
      → s.height < 2 ^ 64
      → change.block_count < 2 ^ 64
      → Fresh same_reward change.block_rewards s.blockrewards
      → Fresh same_contract change.file_contracts s.filecontracts
      → Fresh eq_bytes (ids_of change.transactions) s.txns_recent_index
      → SameHistory s (
          apply_consensus_change
            (apply_consensus_change s no_change change ccid)
            change
            no_change
            ccid')
  unfolding revert_block_rewards revert_file_contracts remove_ids foldl
  revert-apply s change ccid ccid' low small a b c =
      let t = apply_consensus_change s no_change change ccid in
      let h = after-height s no_change change ccid in
      let h' = after-height t change no_change ccid' in
      record {
        rewards =
            after-rewards t change no_change ccid'
            ∙ append-nil _
            ∙ ap (λ (rs : List BlockReward). revert_block_rewards rs change.block_rewards)
                (after-rewards s no_change change ccid)
            ∙ remove_all-append same_reward s.blockrewards change.block_rewards a
                (λ y. eq_bytes_refl y.unspent.id);
        contracts =
            after-contracts t change no_change ccid'
            ∙ append-nil _
            ∙ ap (λ (cs : List FileContract). revert_file_contracts cs change.file_contracts)
                (after-contracts s no_change change ccid)
            ∙ remove_all-append same_contract s.filecontracts change.file_contracts b
                same_contract_refl;
        recent =
            after-recent t change no_change ccid'
            ∙ append-nil _
            ∙ ap (λ (ids : List Hash). remove_ids ids (ids_of change.transactions))
                (after-recent s no_change change ccid)
            ∙ remove_all-append eq_bytes s.txns_recent_index (ids_of change.transactions) c
                eq_bytes_refl;
        height = omega (arith, h, h');
      }
