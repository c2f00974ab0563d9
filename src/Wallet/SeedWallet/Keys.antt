-- ===== src/Wallet/SeedWallet/Keys.antt =====
-- HotWallet.NextAddress (wallet/seedwallet.go): the key of a new address is a new one.
use us.Prelude.{
  ℕ, ◌+◌, ◌^◌, ◌%◌, ◌<◌, ◌≡◌, refl, false, some, arith, true, ltb, ltb-eq_true, eq_bytes, put,
  lookup-put_same, lookup-put_other,
}
use us.Merkle.Hash.{Blake, Hash}
use us.Wallet.Types.{Sia, SeedAddressInfo}
use us.Wallet.Address.{calculate_unlock_hash}
use us.Wallet.Store.{EphemeralStore, address_info, add_address}
use us.Wallet.Store.Seed.{Reachable, Reachable-IsSeedSafe}
use us.Wallet.SeedWallet.{Seed, Ed25519, public_key, standard_unlock_conditions, next_address}

module _ ⦃blake : Blake⦄ ⦃sia : Sia⦄ ⦃ed : Ed25519⦄ where
  abbrev pub info_at : Seed → ℕ → SeedAddressInfo
  info_at seed index = record {
    unlock_conditions = standard_unlock_conditions (public_key seed index);
    key_index = index;
  }

  -- The address is that of the next key, the store knows it, and nothing else has changed.
  pub record IsNext (seed : Seed) (s t : EphemeralStore) (addr : Hash) : Type 0 where
    pub address :
        addr ≡ calculate_unlock_hash (standard_unlock_conditions (public_key seed s.seed_index))
    pub registered : address_info t addr ≡ some (info_at seed s.seed_index)
    pub fresh :
        (old : Hash) (info : SeedAddressInfo)
        → address_info s old ≡ some info
        → info.key_index < s.seed_index
    pub others :
        (other : Hash) → eq_bytes other addr ≡ false → address_info t other ≡ address_info s other
    pub advanced : t.seed_index ≡ s.seed_index + 1

  add_address-next :
      (s : EphemeralStore) (info : SeedAddressInfo)
      → info.key_index ≡ s.seed_index
      → s.seed_index + 1 < 2 ^ 64
      → add_address s info ≡ record s {
        addrs = put (calculate_unlock_hash info.unlock_conditions) info s.addrs;
        seed_index = s.seed_index + 1;
      }
  unfolding add_address
  add_address-next s info e fits =
      let next : (info.key_index + 1) % 2 ^ 64 ≡ s.seed_index + 1 = omega arith in
      let grows : ltb s.seed_index (s.seed_index + 1) ≡ true = ltb-eq_true _ _ (omega arith) in
      rw (next, grows) refl

  -- In a store that a new store becomes, with a seed index whose successor fits a word of 64 bits:
  -- NextAddress returns the address of the key at the seed index, the store then has that address
  -- with its conditions and index, all addresses that it had before have lower key indices and
  -- stay as they are unless they are the same, and the seed index is one more.
  pub next_address-IsNext :
      (seed : Seed) (s : EphemeralStore)
      → Reachable s
      → s.seed_index + 1 < 2 ^ 64
      → IsNext seed s (next_address seed s).0 (next_address seed s).1
  unfolding next_address address_info
  next_address-IsNext seed s r fits =
      let info = info_at seed s.seed_index in
      let addr = calculate_unlock_hash info.unlock_conditions in
      let after = add_address-next s info refl fits in
      record {
        address = refl;
        registered = rw after (lookup-put_same addr info s.addrs);
        fresh = λ old found e. (Reachable-IsSeedSafe s r old found e).1;
        others = λ other e. rw after (lookup-put_other other addr info s.addrs e);
        advanced = rw after refl;
      }
