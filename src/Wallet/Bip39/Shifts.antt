-- ===== src/Wallet/Bip39/Shifts.antt =====
-- The shifts of wallet/bip39.go on two halves of 64 bits, by 11 and by 7 bits.
use mathlib.Core.List.{append_assoc}
use mathlib.Core.Path.{ap₂}
use native.Mathlib.Nat.{pow-suc}
use us.Prelude.{
  ℕ, zero, suc, ◌+◌, ◌*◌, ◌/◌, ◌%◌, ◌^◌, ◌<◌, ◌≡◌, refl, sym, ap, ◌∙◌, List, [], ◌∷◌, ◌++◌, arith,
  foldl, All, length,
}
use us.Wallet.Bip39.{Halves, shift_right, shift_left, push_word, word_indices}

-- Both halves are words of 64 bits.
pub record Fits (h : Halves) : Type 0 where
  pub hi : h.hi < 2 ^ 64
  pub lo : h.lo < 2 ^ 64

abbrev pub value : Halves → ℕ
value h = h.hi * 2 ^ 64 + h.lo

shift_right_11-Fits : (h : Halves) → Fits h → Fits (shift_right 11 h)
unfolding shift_right
shift_right_11-Fits h fits = record {
  hi = omega (arith, fits.hi);
  lo = omega (arith, fits.hi, fits.lo);
}

value-shift_right_11 : (h : Halves) → Fits h → value (shift_right 11 h) ≡ value h / 2048
unfolding shift_right
value-shift_right_11 h fits = omega (arith, fits.hi, fits.lo)

push-shift_11 : (h : Halves) → Fits h → push_word (shift_right 11 h) (h.lo % 2048) ≡ h
unfolding push_word shift_left shift_right
push-shift_11 h fits = ground (arith, fits.hi, fits.lo)

pub shift_right_7-Fits : (h : Halves) → Fits h → Fits (shift_right 7 h)
unfolding shift_right
shift_right_7-Fits h fits = record {
  hi = omega (arith, fits.hi);
  lo = omega (arith, fits.hi, fits.lo);
}

pub left-right_7 : (h : Halves) → Fits h → shift_left 7 (h.lo % 128) (shift_right 7 h) ≡ h
unfolding shift_left shift_right
left-right_7 h fits = ground (arith, fits.hi, fits.lo)

foldl-cons {ℓ κ} :
    {A : Type ℓ} {B : Type κ} (f : B → A → B) (b : B) (x : A) (xs : List A)
    → foldl f b (x ∷ xs) ≡ foldl f (f b x) xs
unfolding foldl
foldl-cons f b x xs = refl

foldl-nil {ℓ κ} : {A : Type ℓ} {B : Type κ} (f : B → A → B) (b : B) → foldl f b [] ≡ b
unfolding foldl
foldl-nil f b = refl

-- What is left after `n` words.
abbrev pub shifted : ℕ → Halves → Halves
shifted zero h = h
shifted (suc n) h = shifted n (shift_right 11 h)

-- Pushing the words again gives back what they were taken from.
pub push-word_indices :
    (n : ℕ) (h : Halves) (rest : List ℕ)
    → Fits h
    → foldl push_word (shifted n h) (word_indices n h rest) ≡ foldl push_word h rest
unfolding word_indices
push-word_indices zero h rest fits = refl
push-word_indices (suc n) h rest fits =
    push-word_indices n (shift_right 11 h) (h.lo % 2048 ∷ rest) (shift_right_11-Fits h fits)
    ∙ foldl-cons push_word (shift_right 11 h) (h.lo % 2048) rest
    ∙ ap (λ (x : Halves). foldl push_word x rest) (push-shift_11 h fits)

shifted-lt : (n : ℕ) (h : Halves) → Fits h → value h < 2048 ^ n → value (shifted n h) < 1
shifted-lt zero h fits small = small
shifted-lt (suc n) h fits small =
    let step = value-shift_right_11 h fits in
    shifted-lt n (shift_right 11 h) (shift_right_11-Fits h fits)
      (omega (arith, step, small, pow-suc 2048 n))

-- Eleven words hold 121 bits.
pub shifted-zero :
    (h : Halves) → Fits h → value h < 2 ^ 121 → shifted 11 h ≡ record { hi = 0; lo = 0 }
shifted-zero h fits small =
    let none_left = shifted-lt 11 h fits small in
    let hi : (shifted 11 h).hi ≡ 0 = omega (arith, none_left) in
    let lo : (shifted 11 h).lo ≡ 0 = omega (arith, none_left) in
    ap₂ (λ (x y : ℕ). let r : Halves = record { hi = x; lo = y } in r) hi lo

pub word_indices-lt :
    (n : ℕ) (h : Halves) (rest : List ℕ)
    → All (λ (i : ℕ). i < 2048) rest
    → All (λ (i : ℕ). i < 2048) (word_indices n h rest)
unfolding word_indices
word_indices-lt zero h rest small = small
word_indices-lt (suc n) h rest small =
    word_indices-lt n (shift_right 11 h) (h.lo % 2048 ∷ rest) (omega arith, small)

pub length-word_indices :
    (n : ℕ) (h : Halves) (rest : List ℕ) → length (word_indices n h rest) ≡ n + length rest
unfolding word_indices
length-word_indices zero h rest = omega arith
length-word_indices (suc n) h rest =
    omega (arith, length-word_indices n (shift_right 11 h) (h.lo % 2048 ∷ rest))

-- The last index is the one that was there before.
pub word_indices-append :
    (n : ℕ) (h : Halves) (rest : List ℕ) → word_indices n h rest ≡ word_indices n h [] ++ rest
unfolding word_indices
word_indices-append zero h rest = refl
word_indices-append (suc n) h rest =
    let g = shift_right 11 h in
    let w = h.lo % 2048 in
    word_indices-append n g (w ∷ rest)
    ∙ sym (append_assoc (word_indices n g []) (w ∷ []) rest)
    ∙ ap (λ (xs : List ℕ). xs ++ rest) (sym (word_indices-append n g (w ∷ [])))
