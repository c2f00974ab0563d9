-- ===== src/Wallet/Store.antt =====
-- wallet/ephemeralstore.go: EphemeralStore. The counters are words of 64 bits. The maps have byte
-- strings as keys; their order of iteration is not specified.
pub mod Frame
pub mod Seed
pub mod Limbo
pub mod Outputs
pub mod Reorg
pub mod Recent
use us.Prelude.{
  ℕ, zero, suc, ◌+◌, ◌-◌, ◌^◌, ◌%◌, Bool, true, false, ◌&&◌, ◌||◌, List, [], ◌∷◌, ◌++◌, Option,
  none, some, ◌==◌, ltb, if◌then◌else◌, length, drop, eq_bytes, lookup, delete, put, remove_first,
  foldl, map,
}
use us.Merkle.Hash.{Blake, Hash}
use us.Wallet.Types.{
  UnlockConditions, SiaTransaction, Sia, UnspentOutput, BlockReward, FileContract, Transaction,
  LimboTransaction, SeedAddressInfo, ProcessedConsensusChange,
}
use us.Wallet.Address.{calculate_unlock_hash}

pub record EphemeralStore : Type 0 where
  pub addrs : List (Hash × SeedAddressInfo)
  pub outputs : List (Hash × UnspentOutput)
  pub blockrewards : List BlockReward
  pub filecontracts : List FileContract
  pub txns : List (Hash × Transaction)
  pub limbo : List (Hash × LimboTransaction)
  pub txns_addr_index : List (Hash × List Hash)
  pub txns_recent_index : List Hash
  pub memos : List (Hash × List ℕ)
  pub seed_index : ℕ
  pub height : ℕ
  pub ccid : Hash

unfoldable pub new_ephemeral_store : EphemeralStore
new_ephemeral_store = record {
  addrs = [];
  outputs = [];
  blockrewards = [];
  filecontracts = [];
  txns = [];
  limbo = [];
  txns_addr_index = [];
  txns_recent_index = [];
  memos = [];
  seed_index = 0;
  height = 0;
  ccid = [];
}

-- The value of a map at a missing key is the zero value.
unfoldable pub entries {ℓ} : {A : Type ℓ} → Option (List A) → List A
entries none = []
entries (some xs) = xs

-- `xs[len(xs)-n:]`, where a negative or large `n` means all.
unfoldable pub last_of {ℓ} : {A : Type ℓ} → Option ℕ → List A → List A
last_of none xs = xs
last_of (some n) xs = if ltb (length xs) n then xs else drop (length xs - n) xs

unfoldable pub values {ℓ} : {V : Type ℓ} → List (Hash × V) → List V
values [] = []
values ((k, v) ∷ m) = v ∷ values m

unfoldable pub keys {ℓ} : {V : Type ℓ} → List (Hash × V) → List Hash
keys [] = []
keys ((k, v) ∷ m) = k ∷ keys m

-- The loops of ApplyConsensusChange, each over one list of the change.
unfoldable pub revert_outputs :
    List (Hash × UnspentOutput) → List UnspentOutput → List (Hash × UnspentOutput)
revert_outputs m reverted = foldl (λ m o. delete o.id m) m reverted

unfoldable pub revert_block_rewards : List BlockReward → List BlockReward → List BlockReward
revert_block_rewards rewards reverted =
    foldl (λ rs br. remove_first (λ r. eq_bytes r.unspent.id br.unspent.id) rs) rewards reverted

unfoldable pub revert_file_contracts : List FileContract → List FileContract → List FileContract
revert_file_contracts contracts reverted =
    foldl
      (λ cs fc.
        remove_first (λ c. eq_bytes c.id fc.id && (c.revision_number == fc.revision_number)) cs)
      contracts reverted

unfoldable pub remove_ids : List Hash → List Hash → List Hash
remove_ids ids reverted = foldl (λ ids txid. remove_first (λ x. eq_bytes x txid) ids) ids reverted

unfoldable pub revert_address_transactions :
    List (Hash × List Hash) → List (Hash × List Hash) → List (Hash × List Hash)
unfolding entries remove_ids
revert_address_transactions index reverted =
    foldl (λ m a. put a.0 (remove_ids (entries (lookup a.0 m)) a.1) m) index reverted

unfoldable pub apply_outputs :
    List (Hash × UnspentOutput) → List UnspentOutput → List (Hash × UnspentOutput)
apply_outputs m applied = foldl (λ m o. put o.id o m) m applied

unfoldable pub apply_address_transactions :
    List (Hash × List Hash) → List (Hash × List Hash) → List (Hash × List Hash)
unfolding entries
apply_address_transactions index applied =
    foldl (λ m a. put a.0 (entries (lookup a.0 m) ++ a.1) m) index applied

-- The store with its three fields on transactions changed.
unfoldable pub with_transactions :
    EphemeralStore
    → List (Hash × Transaction)
    → List (Hash × LimboTransaction)
    → List Hash
    → EphemeralStore
with_transactions s txns limbo recent = record s {
  txns = txns;
  limbo = limbo;
  txns_recent_index = recent;
}

unfoldable pub add_limbo :
    EphemeralStore → Hash → LimboTransaction → Option LimboTransaction → EphemeralStore
add_limbo s txid txn (some older) = s
add_limbo s txid txn none = record s { limbo = put txid txn s.limbo }

module _ ⦃sia : Sia⦄ where
  unfoldable pub revert_transaction : EphemeralStore → Transaction → EphemeralStore
  unfolding with_transactions
  revert_transaction s txn =
      let txid = sia.transaction_id txn.transaction in
      with_transactions s (delete txid s.txns) (delete txid s.limbo)
        (remove_first (λ x. eq_bytes x txid) s.txns_recent_index)

  unfoldable pub revert_transactions : EphemeralStore → List Transaction → EphemeralStore
  unfolding foldl
  revert_transactions s reverted = foldl revert_transaction s reverted

  unfoldable pub apply_transaction : EphemeralStore → Transaction → EphemeralStore
  unfolding with_transactions
  apply_transaction s txn =
      let txid = sia.transaction_id txn.transaction in
      with_transactions s (put txid txn s.txns) (delete txid s.limbo)
        (s.txns_recent_index ++ txid ∷ [])

  unfoldable pub apply_transactions : EphemeralStore → List Transaction → EphemeralStore
  unfolding foldl
  apply_transactions s applied = foldl apply_transaction s applied

  -- The two halves of ApplyConsensusChange. `height` is an int: its sum wraps around.
  unfoldable pub revert_change : EphemeralStore → ProcessedConsensusChange → EphemeralStore
  unfolding revert_outputs revert_block_rewards revert_file_contracts revert_transactions
      revert_address_transactions
  revert_change s reverted =
      let s1 = record s {
        outputs = revert_outputs s.outputs reverted.outputs;
        blockrewards = revert_block_rewards s.blockrewards reverted.block_rewards;
        filecontracts = revert_file_contracts s.filecontracts reverted.file_contracts;
      } in
      let s2 = revert_transactions s1 reverted.transactions in
      record s2 {
        txns_addr_index =
            revert_address_transactions s2.txns_addr_index reverted.address_transactions;
      }

  unfoldable pub apply_change : EphemeralStore → ProcessedConsensusChange → EphemeralStore
  unfolding apply_outputs apply_transactions apply_address_transactions
  apply_change s applied =
      let s1 = record s {
        outputs = apply_outputs s.outputs applied.outputs;
        blockrewards = s.blockrewards ++ applied.block_rewards;
        filecontracts = s.filecontracts ++ applied.file_contracts;
      } in
      let s2 = apply_transactions s1 applied.transactions in
      record s2 {
        txns_addr_index =
            apply_address_transactions s2.txns_addr_index applied.address_transactions;
      }

  unfoldable pub apply_consensus_change :
      EphemeralStore → ProcessedConsensusChange → ProcessedConsensusChange → Hash → EphemeralStore
  unfolding revert_change apply_change
  apply_consensus_change s reverted applied ccid =
      let t = apply_change (revert_change s reverted) applied in
      record t {
        height =
            (t.height + applied.block_count + (2 ^ 64 - reverted.block_count % 2 ^ 64)) % 2 ^ 64;
        ccid = ccid;
      }

  unfoldable pub transactions : EphemeralStore → Option ℕ → List Hash
  transactions s n = last_of n s.txns_recent_index

  unfoldable pub transactions_by_address : EphemeralStore → Hash → Option ℕ → List Hash
  transactions_by_address s addr n = last_of n (entries (lookup addr s.txns_addr_index))

  unfoldable pub transaction : EphemeralStore → Hash → Option Transaction
  transaction s id = lookup id s.txns

  -- `now` is the result of time.Now.
  unfoldable pub add_to_limbo : EphemeralStore → SiaTransaction → ℕ → EphemeralStore
  unfolding add_limbo
  add_to_limbo s txn now =
      let txid = sia.transaction_id txn in
      add_limbo s txid (record { transaction = txn; limbo_since = now }) (lookup txid s.limbo)

unfoldable pub unspent_outputs : EphemeralStore → List UnspentOutput
unspent_outputs s = values s.outputs

unfoldable pub remove_from_limbo : EphemeralStore → Hash → EphemeralStore
remove_from_limbo s id = record s { limbo = delete id s.limbo }

unfoldable pub limbo_transactions : EphemeralStore → List LimboTransaction
limbo_transactions s = values s.limbo

unfoldable pub block_rewards : EphemeralStore → Option ℕ → List BlockReward
block_rewards s n = last_of n s.blockrewards

unfoldable pub file_contracts : EphemeralStore → Option ℕ → List FileContract
file_contracts s n = last_of n s.filecontracts

unfoldable pub history_of : Hash → List FileContract → List FileContract
history_of id [] = []
history_of id (fc ∷ contracts) =
    let rest = history_of id contracts in if eq_bytes fc.id id then fc ∷ rest else rest

unfoldable pub file_contract_history : EphemeralStore → Hash → List FileContract
unfolding history_of
file_contract_history s id = history_of id s.filecontracts

unfoldable pub set_memo : EphemeralStore → Hash → List ℕ → EphemeralStore
set_memo s txid memo = record s { memos = put txid memo s.memos }

unfoldable pub memo : EphemeralStore → Hash → List ℕ
memo s txid = entries (lookup txid s.memos)

unfoldable pub set_seed_index : EphemeralStore → ℕ → EphemeralStore
set_seed_index s index = record s { seed_index = index }

unfoldable pub is_some {ℓ} : {A : Type ℓ} → Option A → Bool
is_some none = false
is_some (some x) = true

unfoldable pub owns_address : EphemeralStore → Hash → Bool
owns_address s addr = is_some (lookup addr s.addrs)

unfoldable pub address_info : EphemeralStore → Hash → Option SeedAddressInfo
address_info s addr = lookup addr s.addrs

unfoldable pub remove_address : EphemeralStore → Hash → EphemeralStore
remove_address s addr = record s { addrs = delete addr s.addrs }

unfoldable pub addresses : EphemeralStore → List Hash
addresses s = keys s.addrs

-- The height is converted to an unsigned word before the test.
unfoldable pub chain_height : EphemeralStore → ℕ
chain_height s = if ltb 0 s.height then s.height - 1 else s.height

module _ ⦃blake : Blake⦄ ⦃sia : Sia⦄ where
  unfoldable pub add_address : EphemeralStore → SeedAddressInfo → EphemeralStore
  add_address s info =
      let addrs = put (calculate_unlock_hash info.unlock_conditions) info s.addrs in
      let next = (info.key_index + 1) % 2 ^ 64 in
      if ltb s.seed_index next
      then record s { addrs = addrs; seed_index = next }
      else record s { addrs = addrs }
