-- ===== src/Wallet/Filter.antt =====
-- wallet/wallet.go: FilterConsensusChange, as far as it is about siacoin outputs and the payouts of
-- miners.
pub mod Survivors
pub mod Outputs
pub mod Runs
pub mod FirstDiffs
pub mod Changes
mod Tests
use us.Prelude.{
  ℕ, zero, suc, ◌+◌, Bool, true, false, ◌&&◌, List, [], ◌∷◌, ◌++◌, Option, none, some,
  if◌then◌else◌, eq_bytes, lookup, delete, put, foldl,
}
use us.Merkle.Hash.{Hash}
use us.Wallet.Store.{is_some}
use us.Wallet.Types.{SiacoinOutput, UnspentOutput, BlockReward}

-- modules.SiacoinOutputDiff: whether its direction is DiffApply, and the output.
pub record SiacoinOutputDiff : Type 0 where
  pub is_apply : Bool
  pub id : Hash
  pub siacoin_output : SiacoinOutput

abbrev pub unspent : SiacoinOutputDiff → UnspentOutput
unspent diff = record { output = diff.siacoin_output; id = diff.id }

unfoldable pub survives : List (Hash × Unit {0}) → Hash → Bool
unfolding is_some
survives surviving id = is_some (lookup id surviving)

-- The first loop, on the map survivingOutputs.
unfoldable pub survive : List (Hash × Unit {0}) → SiacoinOutputDiff → List (Hash × Unit {0})
unfolding survives
survive surviving diff =
    if survives surviving diff.id then delete diff.id surviving else put diff.id tt surviving

unfoldable pub surviving_outputs :
    List (Hash × Unit {0}) → List SiacoinOutputDiff → List (Hash × Unit {0})
unfolding survive
surviving_outputs surviving diffs = foldl survive surviving diffs

-- The variables of the second loop.
pub record Filtered : Type 0 where
  pub surviving : List (Hash × Unit {0})
  pub reverted : List UnspentOutput
  pub applied : List UnspentOutput

unfoldable pub add_output : Bool → UnspentOutput → Filtered → Filtered
add_output true o st = record st { applied = st.applied ++ (o ∷ []) }
add_output false o st = record st { reverted = st.reverted ++ (o ∷ []) }

-- modules.DelayedSiacoinOutputDiff
pub record DelayedDiff : Type 0 where
  pub id : Hash
  pub siacoin_output : SiacoinOutput
  pub maturity_height : ℕ

module _ (owns_address : Hash → Bool) where
  unfoldable pub process_output : Filtered → SiacoinOutputDiff → Filtered
  unfolding survives add_output
  process_output st diff =
      let st1 =
        if survives st.surviving diff.id && owns_address diff.siacoin_output.unlock_hash
        then add_output diff.is_apply (unspent diff) st
        else st in
      record st1 { surviving = delete diff.id st1.surviving }

  unfoldable pub process_outputs : Filtered → List SiacoinOutputDiff → Filtered
  unfolding process_output
  process_outputs st diffs = foldl process_output st diffs

  -- The outputs that FilterConsensusChange puts into `reverted` and `applied`.
  unfoldable pub filter_outputs : List SiacoinOutputDiff → Filtered
  unfolding process_outputs surviving_outputs
  filter_outputs diffs =
      process_outputs
        (record { surviving = surviving_outputs [] diffs; reverted = []; applied = [] }) diffs

  -- The block reward of a payout with an ID, if the change has a diff of it.
  unfoldable pub locate_reward : Hash → List DelayedDiff → List BlockReward
  locate_reward id [] = []
  locate_reward id (diff ∷ diffs) =
      let rest = locate_reward id diffs in
      if eq_bytes diff.id id
      then record {
        unspent = record { output = diff.siacoin_output; id = id };
        timelock = diff.maturity_height;
      }
        ∷ []
      else rest

  -- processMinerPayouts, from index `i`. `payout_id` is the MinerPayoutID of the block.
  unfoldable pub process_miner_payouts :
      (ℕ → Hash) → List DelayedDiff → ℕ → List SiacoinOutput → List BlockReward → List BlockReward
  unfolding locate_reward
  process_miner_payouts payout_id diffs i [] rewards = rewards
  process_miner_payouts payout_id diffs i (mp ∷ payouts) rewards =
      process_miner_payouts payout_id diffs (suc i) payouts (
        if owns_address mp.unlock_hash
        then rewards ++ locate_reward (payout_id i) diffs
        else rewards)
