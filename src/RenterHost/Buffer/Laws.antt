-- ===== src/RenterHost/Buffer/Laws.antt =====
-- The reading methods of objBuffer on what the writing methods append.
use us.Prelude.{
  ℕ, zero, suc, ◌+◌, ◌-◌, ◌<◌, ◌≤◌, ◌≡◌, refl, ap, ◌∙◌, List, [], ◌∷◌, ◌++◌, some, arith, length,
  take, length-append,
}
use mathlib.Core.Path.{subst}
use mathlib.Core.List.{append_assoc}
use native.Mathlib.Decide.{dec_lt}
use us.RenterHost.Buffer.{BufferError, ObjBuffer, unread, Read, ◌>>=◌, ◌⊗◌, ◌into◌}

-- An error stays.
pub record Sticky {ℓ} {A : Type ℓ} (r : Read A) : Type ℓ where
  pub stays : (b : ObjBuffer) (e : BufferError) → b.err ≡ some e → (r b).1.err ≡ some e

abbrev pub Failed {ℓ} : {A : Type ℓ} → A × ObjBuffer → Type 0
Failed p = (e : BufferError) × (p.1.err ≡ some e)

-- `r` reads `x` off the front of what starts with the `n` bytes `bs`, and fails on less than these.
pub record Decodes {ℓ} {A : Type ℓ} (r : Read A) (bs : List ℕ) (x : A) (n : ℕ) : Type ℓ where
  pub sticky : Sticky r
  pub reads : (rest : List ℕ) → r (unread (bs ++ rest)) ≡ (x, unread rest)
  pub truncated : (k : ℕ) → k < length bs → Failed (r (unread (take k bs)))
  pub size : length bs ≡ n

pub take-append_less : (k : ℕ) (xs ys : List ℕ) → k < length xs → take k (xs ++ ys) ≡ take k xs
take-append_less zero xs ys h = refl
take-append_less (suc k) [] ys h = absurd (omega arith)
take-append_less (suc k) (x ∷ xs) ys h = ap (◌∷◌ x) (take-append_less k xs ys (omega arith))

pub take-append_more :
    (k : ℕ) (xs ys : List ℕ) → length xs ≤ k → take k (xs ++ ys) ≡ xs ++ take (k - length xs) ys
take-append_more k [] ys h = let e : k - 0 ≡ k = omega arith in rw e
take-append_more zero (x ∷ xs) ys h = absurd (omega arith)
take-append_more (suc k) (x ∷ xs) ys h =
    let e : suc k - suc (length xs) ≡ k - length xs = omega arith in
    rw e (ap (◌∷◌ x) (take-append_more k xs ys (omega arith)))

pub Sticky-⊗ {ℓ κ} :
    {A : Type ℓ} {B : Type κ} {m : Read A} {r : Read B} → Sticky m → Sticky r → Sticky (m ⊗ r)
Sticky-⊗ {m = m} s s' = record { stays = λ b e h. s'.stays (m b).1 e (s.stays b e h) }

pub Sticky-into {ℓ κ} :
    {A : Type ℓ} {B : Type κ} {m : Read A} (f : A → B) → Sticky m → Sticky (m into f)
unfolding ◌into◌
Sticky-into f s = record { stays = s.stays }

pub Sticky->>= {ℓ κ} :
    {A : Type ℓ} {B : Type κ} {m : Read A} (k : A → Read B)
    → Sticky m
    → ((a : A) → Sticky (k a))
    → Sticky (m >>= k)
Sticky->>= {m = m} k s s' = record { stays = λ b e h. (s' (m b).0).stays (m b).1 e (s.stays b e h) }

pub Decodes-size {ℓ} :
    {A : Type ℓ} {r : Read A} {bs : List ℕ} {x : A} {n m : ℕ}
    → Decodes r bs x n
    → n ≡ m
    → Decodes r bs x m
Decodes-size d e = record {
  sticky = d.sticky;
  reads = d.reads;
  truncated = d.truncated;
  size = d.size ∙ e;
}

pub Decodes-cast {ℓ} :
    {A : Type ℓ} {r : Read A} {bs bs' : List ℕ} {x y : A} {n m : ℕ}
    → Decodes r bs x n
    → bs ≡ bs'
    → x ≡ y
    → n ≡ m
    → Decodes r bs' y m
Decodes-cast {r = r} {bs' = bs'} {x = x} {n = n} d e e' size =
    Decodes-size (subst (λ y. Decodes r bs' y n) e' (subst (λ bs. Decodes r bs x n) e d)) size

pub Decodes-into {ℓ κ} :
    {A : Type ℓ} {B : Type κ} {r : Read A} {bs : List ℕ} {x : A} {n : ℕ} (f : A → B)
    → Decodes r bs x n
    → Decodes (r into f) bs (f x) n
unfolding ◌into◌
Decodes-into f d = record {
  sticky = Sticky-into f d.sticky;
  reads = λ rest. ap (λ p. (f p.0, p.1)) (d.reads rest);
  truncated = d.truncated;
  size = d.size;
}

-- The continuation of a reading.
pub Decodes->>= {ℓ κ} :
    {A : Type ℓ} {B : Type κ} {m : Read A} {bs bs' : List ℕ} {a : A} {x : B} {n n' : ℕ}
    (k : A → Read B)
    → Decodes m bs a n
    → ((a : A) → Sticky (k a))
    → Decodes (k a) bs' x n'
    → Decodes (m >>= k) (bs ++ bs') x (n + n')
Decodes->>= {m = m} {bs = bs} {bs' = bs'} {a = a} {n = n} {n' = n'} k d s d' = record {
  sticky = Sticky->>= k d.sticky s;
  reads = λ rest.
      ap (λ l. (m >>= k) (unread l)) (append_assoc bs bs' rest)
      ∙ ap (λ p. k p.0 p.1) (d.reads (bs' ++ rest))
      ∙ d'.reads rest;
  truncated = λ i h. elim (dec_lt i (length bs)) [
    | yes less ↦
        let (e, failed) = d.truncated i less in
        rw (take-append_less i bs bs' less)
          (e, (s (m (unread (take i bs))).0).stays (m (unread (take i bs))).1 e failed)
    | no more ↦
        let rest = take (i - length bs) bs' in
        let (e, failed) = d'.truncated (i - length bs) (omega (arith, length-append bs bs')) in
        rw (take-append_more i bs bs' (omega arith))
          (e, ap (λ p. (k p.0 p.1).1.err) (d.reads rest) ∙ failed)
  ];
  size = omega (arith, length-append bs bs', d.size, d'.size);
}

pub Decodes-⊗ {ℓ κ} :
    {A : Type ℓ} {B : Type κ} {m : Read A} {r : Read B} {bs bs' : List ℕ} {a : A} {x : B} {n n' : ℕ}
    → Decodes m bs a n
    → Decodes r bs' x n'
    → Decodes (m ⊗ r) (bs ++ bs') (a, x) (n + n')
unfolding ◌into◌
Decodes-⊗ {r = r} {a = a} d d' =
    Decodes->>= (λ a b. ((a, (r b).0), (r b).1)) d (λ a. Sticky-into (λ x. (a, x)) d'.sticky)
      (Decodes-into (λ x. (a, x)) d')
