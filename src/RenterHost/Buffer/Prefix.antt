-- ===== src/RenterHost/Buffer/Prefix.antt =====
-- A length of objBuffer and the reading that depends on it: bytes and slices.
use us.Prelude.{
  ℕ, zero, suc, ◌+◌, ◌-◌, ◌*◌, ◌/◌, ◌^◌, ◌<◌, ◌≤◌, ◌≡◌, refl, ap, ◌∙◌, false, inl, inr, ◌⊎◌, List,
  [], ◌∷◌, ◌++◌, some, arith, ltb, length, take, All, Bool-cases, length-append,
}
use mathlib.Core.List.{append_assoc}
use native.Mathlib.Decide.{dec_lt}
use native.Mathlib.Nat.{le-div_iff_mul-le}
use us.RenterHost.Buffer.{
  BufferError, invalid_prefix, ObjBuffer, unread, Read, ◌>>=◌, ◌into◌, write_uint64, write_prefix,
  write_prefixed_bytes, read, read_uint64, check_prefix, read_prefix, read_prefixed_bytes,
  write_all, write_slice, read_all, read_slice, sum_sizes,
}
use us.RenterHost.Buffer.Laws.{
  Sticky, Failed, Decodes, take-append_less, take-append_more, Decodes-into, Decodes->>=,
  Sticky->>=, Sticky-into,
}
use us.RenterHost.Buffer.Primitives.{Sticky-read, Decodes-read, Decodes-read_uint64}

Sticky-read_prefix : (elem_size : ℕ) → Sticky (read_prefix elem_size)
unfolding read_prefix read_uint64 check_prefix
Sticky-read_prefix elem_size = record {
  stays = λ b e h.
      let none_read : ltb (length b.buf / elem_size) 0 ≡ false = ground arith in
      rw (h, none_read) refl;
}

check_prefix-Failed :
    (elem_size n : ℕ) (b : ObjBuffer) (e : BufferError)
    → b.err ≡ some e
    → Failed (check_prefix elem_size n b)
unfolding check_prefix
check_prefix-Failed elem_size n b e h = elim (Bool-cases (ltb (length b.buf / elem_size) n)) [
  | inl bad ↦ rw bad (invalid_prefix, refl)
  | inr good ↦ rw good (e, h)
]

check_prefix-unread :
    (elem_size n : ℕ) (bs : List ℕ)
    → Failed (check_prefix elem_size n (unread bs))
      ⊎ (check_prefix elem_size n (unread bs) ≡ (n, unread bs))
unfolding check_prefix
check_prefix-unread elem_size n bs = elim (Bool-cases (ltb (length bs / elem_size) n)) [
  | inl bad ↦ rw bad (inl (invalid_prefix, refl))
  | inr good ↦ rw good (inr refl)
]

module _ {ℓ} {A : Type ℓ} (elem_size : ℕ) (k : ℕ → Read A) (s : (n : ℕ) → Sticky (k n)) where
  -- Every length that passes the check is read with an error.
  prefix-Failed :
      (n : ℕ) (bs : List ℕ)
      → Failed (k n (unread bs))
      → Failed ((check_prefix elem_size n >>= k) (unread bs))
  prefix-Failed n bs (e, failed) = elim (check_prefix-unread elem_size n bs) [
    | inl (e', bad) ↦ let p = check_prefix elem_size n (unread bs) in (e', (s p.0).stays p.1 e' bad)
    | inr good ↦ (e, ap (λ p. (k p.0 p.1).1.err) good ∙ failed)
  ]

  prefix-reads :
      (n : ℕ) (bs : List ℕ)
      → 0 < elem_size
      → n * elem_size ≤ length bs
      → (check_prefix elem_size n >>= k) (unread bs) ≡ k n (unread bs)
  unfolding check_prefix
  prefix-reads n bs pos le =
      let fits : n ≤ length bs / elem_size = (le-div_iff_mul-le {x = n} {y = length bs} pos).1 le in
      let good : ltb (length bs / elem_size) n ≡ false = ground arith in rw good

  Decodes-prefix :
      {bs : List ℕ} {x : A} {m : ℕ} (n : ℕ)
      → 0 < elem_size
      → n < 2 ^ 64
      → n * elem_size ≤ m
      → Decodes (k n) bs x m
      → Decodes (read_prefix elem_size >>= k) (write_prefix n ++ bs) x (8 + m)
  unfolding read_prefix write_prefix
  Decodes-prefix {bs = bs} {x = x} n pos small le d =
      let word = Decodes-read_uint64 n small in
      let w = write_uint64 n in
      record {
        sticky = Sticky->>= k (Sticky-read_prefix elem_size) s;
        reads = λ rest.
            ap (λ l. (read_prefix elem_size >>= k) (unread l)) (append_assoc w bs rest)
            ∙ ap (λ p. (check_prefix elem_size p.0 >>= k) p.1) (word.reads (bs ++ rest))
            ∙ prefix-reads n (bs ++ rest) pos (omega (arith, length-append bs rest, d.size))
            ∙ d.reads rest;
        truncated = λ i h. elim (dec_lt i (length w)) [
          | yes less ↦
              let b = unread (take i w) in
              let (e, failed) = word.truncated i less in
              let n' = (read_uint64 b).0 in
              let b' = (read_uint64 b).1 in
              let (e', failed') = check_prefix-Failed elem_size n' b' e failed in
              rw (take-append_less i w bs less) (
                e',
                (s (check_prefix elem_size n' b').0).stays (check_prefix elem_size n' b').1 e'
                    failed',
              )
          | no more ↦
              let rest = take (i - length w) bs in
              let (e, failed) =
                prefix-Failed n rest
                  (d.truncated (i - length w) (omega (arith, length-append w bs))) in
              rw (take-append_more i w bs (omega arith)) (
                e,
                ap (λ p. ((check_prefix elem_size p.0 >>= k) p.1).1.err) (word.reads rest) ∙ failed,
              )
        ];
        size = omega (arith, length-append w bs, d.size, word.size);
      }

pub Sticky-read_prefixed_bytes : Sticky read_prefixed_bytes
unfolding read_prefixed_bytes
Sticky-read_prefixed_bytes = Sticky->>= read (Sticky-read_prefix 1) Sticky-read

pub Decodes-read_prefixed_bytes :
    (p : List ℕ)
    → length p < 2 ^ 64
    → Decodes read_prefixed_bytes (write_prefixed_bytes p) p (8 + length p)
unfolding read_prefixed_bytes write_prefixed_bytes
Decodes-read_prefixed_bytes p small =
    Decodes-prefix 1 read Sticky-read (length p) (omega arith) small (omega arith)
      (Decodes-read (length p) p refl)

module _ {ℓ} {A : Type ℓ} where
  Sticky-read_all : (n : ℕ) (elem : Read A) → Sticky elem → Sticky (read_all n elem)
  unfolding read_all ◌into◌
  Sticky-read_all zero elem s = record { stays = λ b e h. h }
  Sticky-read_all (suc n) elem s =
      Sticky->>= (λ x. read_all n elem into λ xs. x ∷ xs) s
        (λ x. Sticky-into (λ xs. x ∷ xs) (Sticky-read_all n elem s))

pub Sticky-read_slice {ℓ} :
    {A : Type ℓ} (elem_size : ℕ) (elem : Read A) → Sticky elem → Sticky (read_slice elem_size elem)
unfolding read_slice
Sticky-read_slice elem_size elem s =
    Sticky->>= (λ n. read_all n elem) (Sticky-read_prefix elem_size) (λ n. Sticky-read_all n elem s)

module _ {ℓ κ} {A : Type ℓ} (P : A → Type κ) (elem : Read A) (write : A → List ℕ) (size : A → ℕ)
    (s : Sticky elem) (law : (x : A) → P x → Decodes elem (write x) x (size x)) where
  Decodes-read_all :
      (xs : List A)
      → All P xs
      → Decodes (read_all (length xs) elem) (write_all write xs) xs (sum_sizes size xs)
  unfolding read_all write_all sum_sizes ◌into◌
  Decodes-read_all [] valid = record {
    sticky = record { stays = λ b e h. h };
    reads = λ rest. refl;
    truncated = λ k less. absurd (omega arith);
    size = refl;
  }
  Decodes-read_all (x ∷ xs) valid =
      let rest = read_all (length xs) elem in
      Decodes->>= (λ x. rest into λ xs. x ∷ xs) (law x valid.0)
        (λ x. Sticky-into (λ xs. x ∷ xs) (Sticky-read_all (length xs) elem s))
        (Decodes-into (λ xs. x ∷ xs) (Decodes-read_all xs valid.1))

  length-sum_sizes :
      (elem_size : ℕ)
      → ((x : A) → elem_size ≤ size x)
      → (xs : List A) → length xs * elem_size ≤ sum_sizes size xs
  unfolding sum_sizes
  length-sum_sizes elem_size low [] = omega arith
  length-sum_sizes elem_size low (x ∷ xs) = grind (arith, low x, length-sum_sizes elem_size low xs)

  pub Decodes-read_slice :
      (elem_size : ℕ) (xs : List A)
      → 0 < elem_size
      → ((x : A) → elem_size ≤ size x)
      → length xs < 2 ^ 64
      → All P xs
      → Decodes (read_slice elem_size elem) (write_slice write xs) xs (8 + sum_sizes size xs)
  unfolding read_slice write_slice
  Decodes-read_slice elem_size xs pos low small valid =
      Decodes-prefix elem_size (λ n. read_all n elem) (λ n. Sticky-read_all n elem s) (length xs)
        pos small (length-sum_sizes elem_size low xs) (Decodes-read_all xs valid)

check_prefix-fits :
    (elem_size n : ℕ) (b : ObjBuffer)
    → 0 < elem_size
    → (check_prefix elem_size n b).0 * elem_size ≤ length (check_prefix elem_size n b).1.buf
unfolding check_prefix
check_prefix-fits elem_size n b pos = elim (Bool-cases (ltb (length b.buf / elem_size) n)) [
  | inl bad ↦ rw (check_prefix, bad) (omega arith)
  | inr good ↦
      rw (check_prefix, good) ((le-div_iff_mul-le {x = n} {y = length b.buf} pos).0 (ground arith))
]

-- On every buffer, also one with an error or with any bytes, the length that readPrefix returns,
-- times a positive size of an element, is at most the number of bytes that are left: a slice is
-- never made larger than its message.
pub read_prefix-fits :
    (elem_size : ℕ) (b : ObjBuffer)
    → 0 < elem_size
    → (read_prefix elem_size b).0 * elem_size ≤ length (read_prefix elem_size b).1.buf
unfolding read_prefix
read_prefix-fits elem_size b pos =
    check_prefix-fits elem_size (read_uint64 b).0 (read_uint64 b).1 pos
