-- ===== src/RenterHost/Currency/Laws.antt =====
-- The bytes of objCurrency.
use us.Prelude.{
  ℕ, zero, suc, ◌+◌, ◌*◌, ◌/◌, ◌%◌, ◌^◌, ◌<◌, ◌≤◌, ◌≡◌, refl, ap, sym, ◌∙◌, true, false, inl, inr,
  arith, ◌==◌, Bool-cases, eq_iff, length,
}
use native.Mathlib.Nat.{
  pow-suc, div-div-eq-div-mul, one-le-pow, div-lt_iff_lt-mul, div-add-mod, mod-lt, mul-le-mul_left,
  mul-add-mod_self_left, mod-eq_of_lt,
}
use us.Prelude.Bytes.{set_bytes}
use us.RenterHost.Currency.{
  word, count_words, byte_at, significant, write_bytes, significant_bytes, size_loop,
}

pow_eight : (i : ℕ) → 256 ^ suc (suc (suc (suc (suc (suc (suc (suc i))))))) ≡ 2 ^ 64 * 256 ^ i
pow_eight i = omega (
  arith,
  pow-suc 256 i,
  pow-suc 256 (suc i),
  pow-suc 256 (suc (suc i)),
  pow-suc 256 (suc (suc (suc i))),
  pow-suc 256 (suc (suc (suc (suc i)))),
  pow-suc 256 (suc (suc (suc (suc (suc i))))),
  pow-suc 256 (suc (suc (suc (suc (suc (suc i)))))),
  pow-suc 256 (suc (suc (suc (suc (suc (suc (suc i))))))),
)

byte_at-eight :
    (c i : ℕ) → byte_at c (suc (suc (suc (suc (suc (suc (suc (suc i)))))))) ≡ byte_at (c / 2 ^ 64) i
unfolding byte_at word
byte_at-eight c i =
    let next : suc (suc (suc (suc (suc (suc (suc (suc i))))))) / 8 ≡ suc (i / 8) = omega arith in
    let same : suc (suc (suc (suc (suc (suc (suc (suc i))))))) % 8 ≡ i % 8 = omega arith in
    rw (next, same)

div-eight :
    (c i : ℕ) → c / 256 ^ suc (suc (suc (suc (suc (suc (suc (suc i))))))) ≡ c / 2 ^ 64 / 256 ^ i
div-eight c i = rw pow_eight (sym (div-div-eq-div-mul c (2 ^ 64) (256 ^ i)))

-- A byte of the number.
byte_at-mod : (c i : ℕ) → byte_at c i % 256 ≡ c / 256 ^ i % 256
unfolding byte_at word
byte_at-mod c zero = omega arith
byte_at-mod c (suc zero) = omega arith
byte_at-mod c (suc (suc zero)) = omega arith
byte_at-mod c (suc (suc (suc zero))) = omega arith
byte_at-mod c (suc (suc (suc (suc zero)))) = omega arith
byte_at-mod c (suc (suc (suc (suc (suc zero))))) = omega arith
byte_at-mod c (suc (suc (suc (suc (suc (suc zero)))))) = omega arith
byte_at-mod c (suc (suc (suc (suc (suc (suc (suc zero))))))) = omega arith
byte_at-mod c (suc (suc (suc (suc (suc (suc (suc (suc i)))))))) =
    ap (λ (n : ℕ). n % 256) (byte_at-eight c i)
    ∙ byte_at-mod (c / 2 ^ 64) i
    ∙ ap (λ (n : ℕ). n % 256) (sym (div-eight c i))

-- The highest byte of the number, and what is above.
byte_at-top : (c i : ℕ) → c < 256 ^ suc i → byte_at c i ≡ c / 256 ^ i
unfolding byte_at word
byte_at-top c zero h = omega arith
byte_at-top c (suc zero) h = omega arith
byte_at-top c (suc (suc zero)) h = omega arith
byte_at-top c (suc (suc (suc zero))) h = omega arith
byte_at-top c (suc (suc (suc (suc zero)))) h = omega arith
byte_at-top c (suc (suc (suc (suc (suc zero))))) h = omega arith
byte_at-top c (suc (suc (suc (suc (suc (suc zero)))))) h = omega arith
byte_at-top c (suc (suc (suc (suc (suc (suc (suc zero))))))) h = omega arith
byte_at-top c (suc (suc (suc (suc (suc (suc (suc (suc i)))))))) h =
    byte_at-eight c i
    ∙ byte_at-top (c / 2 ^ 64) i (omega (arith, h, pow_eight (suc i)))
    ∙ sym (div-eight c i)

lt_of_div : (c d : ℕ) → 0 < d → c / d ≡ 0 → c < d
lt_of_div c d pos e = omega (arith, (div-lt_iff_lt-mul {x = c} {y = 1} pos).0 (omega arith))

-- What the number of words bounds.
pub below_words : (fuel c : ℕ) → c ≤ fuel → c < 256 ^ (8 * count_words fuel c)
unfolding count_words
below_words zero c le = omega arith
below_words (suc fuel) c le = elim (Bool-cases (c == 0)) [
  | inl e ↦ rw (count_words, e) (ground arith)
  | inr e ↦
      let rest = below_words fuel (c / 2 ^ 64) (ground arith) in
      let n = count_words fuel (c / 2 ^ 64) in
      let eight : 8 * suc n ≡ suc (suc (suc (suc (suc (suc (suc (suc (8 * n)))))))) = omega arith in
      rw (count_words, e, eight, pow_eight) (omega (arith, rest))
]

-- The first loop stops above the highest byte that is not zero.
pub below_significant : (c i : ℕ) → c < 256 ^ i → c < 256 ^ significant c i
unfolding significant
below_significant c zero h = h
below_significant c (suc i) h = elim (Bool-cases (byte_at c i == 0)) [
  | inr e ↦ rw (significant, e) h
  | inl e ↦
      let none_left : c / 256 ^ i ≡ 0 = sym (byte_at-top c i h) ∙ (eq_iff (byte_at c i) 0).0 e in
      rw (significant, e)
        (below_significant c i (lt_of_div c (256 ^ i) (one-le-pow i 256 (omega arith)) none_left))
]

mod_split : (c p : ℕ) → 0 < p → c % (p * 256) ≡ p * (c / p % 256) + c % p
mod_split c p pos =
    let q = c / p in
    let e : c ≡ p * 256 * (q / 256) + (p * (q % 256) + c % p) =
      grind (arith, div-add-mod c p, ap (λ (t : ℕ). p * t) (div-add-mod q 256)) in
    let small : p * (q % 256) + c % p < p * 256 =
      grind (arith, mod-lt c pos, mul-le-mul_left {m = q % 256} {n = 255} p (omega arith)) in
    ap (λ (t : ℕ). t % (p * 256)) e
    ∙ mul-add-mod_self_left (p * 256) (q / 256) (p * (q % 256) + c % p)
    ∙ mod-eq_of_lt small

-- SetBytes reads what the second loop writes.
pub set_bytes-write_bytes :
    (acc c n : ℕ) → set_bytes acc (write_bytes c n) ≡ acc * 256 ^ n + c % 256 ^ n
unfolding set_bytes write_bytes
set_bytes-write_bytes acc c zero = omega arith
set_bytes-write_bytes acc c (suc n) =
    set_bytes-write_bytes (256 * acc + byte_at c n % 256) c n
    ∙ rw (byte_at-mod, pow-suc, mod_split c (256 ^ n) (one-le-pow n 256 (omega arith)))
        (grind arith)

pub length-write_bytes : (c n : ℕ) → length (write_bytes c n) ≡ n
unfolding write_bytes
length-write_bytes c zero = refl
length-write_bytes c (suc n) = ap suc (length-write_bytes c n)

module _ (c : ℕ) where
  significant-zero : (i : ℕ) → (byte_at c i == 0) ≡ true → significant c (suc i) ≡ significant c i
  unfolding significant
  significant-zero i e = rw (significant, e)

  significant-more : (i : ℕ) → (byte_at c i == 0) ≡ false → significant c (suc i) ≡ suc i
  unfolding significant
  significant-more i e = rw (significant, e)

  -- The outer loop goes on below word `k` when the inner one has found no byte in it.
  resume : ℕ → ℕ → ℕ
  resume k left = elim (left == 0) [ true ↦ significant c (8 * k) | false ↦ 8 * k + left ]

  resume-zero : (k left : ℕ) → (left == 0) ≡ true → resume k left ≡ significant c (8 * k)
  unfolding resume
  resume-zero k left e = rw (resume, e)

  resume-more : (k left : ℕ) → (left == 0) ≡ false → resume k left ≡ 8 * k + left
  unfolding resume
  resume-more k left e = rw (resume, e)

  resume-suc : (k j : ℕ) → resume k (suc j) ≡ 8 * k + suc j
  resume-suc k j = resume-more k (suc j) (ground arith)

  significant-word :
      (k j : ℕ) → j ≤ 8 → significant c (8 * k + j) ≡ resume k (significant_bytes (word c k) j)
  unfolding significant_bytes
  significant-word k zero le =
      let e : 8 * k + 0 ≡ 8 * k = omega arith in rw e (unfold resume in refl)
  significant-word k (suc j) le =
      let e : 8 * k + suc j ≡ suc (8 * k + j) = omega arith in
      let at : (8 * k + j) / 8 ≡ k = omega arith in
      let place : (8 * k + j) % 8 ≡ j = omega arith in
      let b : byte_at c (8 * k + j) ≡ word c k / 256 ^ j = unfold byte_at in (rw (at, place)) in
      elim (Bool-cases (word c k / 256 ^ j == 0)) [
        | inl z ↦
            ap (significant c) e
            ∙ significant-zero (8 * k + j) (rw b z)
            ∙ significant-word k j (omega arith)
            ∙ rw (significant_bytes, z) refl
        | inr nz ↦
            ap (significant c) e
            ∙ significant-more (8 * k + j) (rw b nz)
            ∙ sym e
            ∙ sym (resume-suc k j)
            ∙ rw (significant_bytes, nz) refl
      ]

  -- Both methods find the same number of bytes.
  pub size_loop-significant : (k : ℕ) → size_loop c k ≡ significant c (8 * k)
  unfolding size_loop significant
  size_loop-significant zero = refl
  size_loop-significant (suc k) =
      let e : 8 * suc k ≡ 8 * k + 8 = omega arith in
      let left = significant_bytes (word c k) 8 in
      let whole : significant c (8 * suc k) ≡ resume k left =
        ap (significant c) e ∙ significant-word k 8 (omega arith) in
      elim (Bool-cases (left == 0)) [
        | inl z ↦ rw (size_loop, z) (size_loop-significant k ∙ sym (whole ∙ resume-zero k left z))
        | inr nz ↦ rw (size_loop, nz) (sym (whole ∙ resume-more k left nz))
      ]
