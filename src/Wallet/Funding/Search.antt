-- ===== src/Wallet/Funding/Search.antt =====
-- sort.Search, as DistributeFunds of wallet/builder.go uses it.
use us.Prelude.{
  ℕ, zero, suc, ◌+◌, ◌-◌, ◌/◌, ◌<◌, ◌≤◌, ◌≡◌, refl, true, false, Bool, inl, inr, ◌⊎◌, arith, ltb,
  Bool-cases,
}
use native.Mathlib.Decide.{dec_lt}
use us.Wallet.Funding.{search_loop, search}

-- The predicate fails just below `r`, and holds at `r`, unless these are the ends of [0, n).
pub record Turns (n : ℕ) (f : ℕ → Bool) (r : ℕ) : Type 0 where
  pub bound : r ≤ n
  pub below : (r ≡ 0) ⊎ (f (r - 1) ≡ false)
  pub above : (r ≡ n) ⊎ (f r ≡ true)

module _ (n : ℕ) (f : ℕ → Bool) where
  search_loop-Turns :
      (fuel i j : ℕ)
      → i ≤ j
      → j < fuel + i
      → j ≤ n
      → (i ≡ 0) ⊎ (f (i - 1) ≡ false)
      → (j ≡ n) ⊎ (f j ≡ true)
      → Turns n f (search_loop fuel f i j)
  unfolding search_loop
  search_loop-Turns zero i j le fits top below above = absurd (omega arith)
  search_loop-Turns (suc fuel) i j le fits top below above = elim (dec_lt i j) [
    | no done ↦
        let e : ltb i j ≡ false = ground arith in
        let same : j ≡ i = omega arith in
        rw e (record { bound = omega arith; below = below; above = rw same at above })
    | yes more ↦
        let e : ltb i j ≡ true = ground arith in
        elim (Bool-cases (f ((i + j) / 2))) [
          | inl holds ↦
              rw (e, holds)
                (search_loop-Turns fuel i ((i + j) / 2) (omega arith) (omega arith) (omega arith)
                  below (inr holds))
          | inr fails ↦
              let back : suc ((i + j) / 2) - 1 ≡ (i + j) / 2 = omega arith in
              rw (e, fails)
                (search_loop-Turns fuel (suc ((i + j) / 2)) j (omega arith) (omega arith) top
                  (inr (rw back fails)) above)
        ]
  ]

  pub search-Turns : Turns n f (search n f)
  unfolding search
  search-Turns =
      search_loop-Turns (suc n) 0 n (omega arith) (omega arith) (omega arith) (inl refl) (inl refl)
