-- ===== src/Wallet/Store/Recent.antt =====
-- Transactions of wallet/ephemeralstore.go.
use us.Prelude.{
  ℕ, ◌-◌, ◌≡◌, refl, inl, inr, List, [], ◌++◌, some, arith, ltb, Bool-cases, length, take,
  take-append-drop, length-drop,
}
use Prim.Native.Nat.{min}
use us.Merkle.Hash.{Hash}
use us.Wallet.Types.{Sia}
use us.Wallet.Store.{EphemeralStore, last_of, transactions}

last_of-suffix {ℓ} :
    {A : Type ℓ} (n : ℕ) (xs : List A)
    → (older : List A) × (older ++ last_of (some n) xs ≡ xs)
      × (length (last_of (some n) xs) ≡ min n (length xs))
unfolding last_of
last_of-suffix n xs = elim (Bool-cases (ltb (length xs) n)) [
  | inl all ↦ rw all ([], refl, ground arith)
  | inr some_left ↦ rw some_left (
    take (length xs - n) xs,
    take-append-drop (length xs - n) xs,
    ground (arith, length-drop (length xs - n) xs),
  )
]

module _ ⦃sia : Sia⦄ where
  -- Transactions with a count returns the last entries of the index of recent transactions, as
  -- many as the count or all there are.
  pub transactions-suffix :
      (s : EphemeralStore) (n : ℕ)
      → (older : List Hash) × (older ++ transactions s (some n) ≡ s.txns_recent_index)
        × (length (transactions s (some n)) ≡ min n (length s.txns_recent_index))
  unfolding transactions
  transactions-suffix s n = last_of-suffix n s.txns_recent_index
