-- ===== src/Renter/Windows.antt =====
-- Windows of lists, for the slices of Go that renter/reedsolomon.go and renter/upload.go take.
use us.Prelude.{
  ℕ, zero, suc, ◌-◌, ◌≤◌, ◌≡◌, refl, ap, ◌∙◌, List, [], ◌∷◌, ◌++◌, arith, length, take, drop,
  length-drop,
}

pub take-append_more {ℓ} :
    {A : Type ℓ} (n : ℕ) (xs ys : List A) → take n (xs ++ ys) ≡ take n xs ++ take (n - length xs) ys
take-append_more zero xs ys = let e : 0 - length xs ≡ 0 = omega arith in rw e
take-append_more (suc n) [] ys = let e : suc n - 0 ≡ suc n = omega arith in rw e
take-append_more (suc n) (x ∷ xs) ys =
    let e : suc n - suc (length xs) ≡ n - length xs = omega arith in
    rw e (ap (◌∷◌ x) (take-append_more n xs ys))

pub drop-append_more {ℓ} :
    {A : Type ℓ} (n : ℕ) (xs ys : List A) → drop n (xs ++ ys) ≡ drop n xs ++ drop (n - length xs) ys
drop-append_more zero xs ys = let e : 0 - length xs ≡ 0 = omega arith in rw e
drop-append_more (suc n) [] ys = let e : suc n - 0 ≡ suc n = omega arith in rw e
drop-append_more (suc n) (x ∷ xs) ys =
    let e : suc n - suc (length xs) ≡ n - length xs = omega arith in rw e (drop-append_more n xs ys)

pub drop_all : (n : ℕ) (xs : List ℕ) → length xs ≤ n → drop n xs ≡ []
drop_all zero [] le = refl
drop_all zero (x ∷ xs) le = absurd (omega arith)
drop_all (suc n) [] le = refl
drop_all (suc n) (x ∷ xs) le = drop_all n xs (omega arith)

pub drop-take_append : (n : ℕ) (xs ys : List ℕ) → n ≤ length xs → drop n (take n xs ++ ys) ≡ ys
drop-take_append zero xs ys le = refl
drop-take_append (suc n) [] ys le = absurd (omega arith)
drop-take_append (suc n) (x ∷ xs) ys le = drop-take_append n xs ys (omega arith)

pub take-take_append :
    (k n : ℕ) (xs ys : List ℕ) → k ≤ n → n ≤ length xs → take k (take n xs ++ ys) ≡ take k xs
take-take_append zero n xs ys le fits = refl
take-take_append (suc k) zero xs ys le fits = absurd (omega arith)
take-take_append (suc k) (suc n) [] ys le fits = absurd (omega arith)
take-take_append (suc k) (suc n) (x ∷ xs) ys le fits =
    ap (◌∷◌ x) (take-take_append k n xs ys (omega arith) (omega arith))

pub take_all : (n : ℕ) (xs : List ℕ) → length xs ≤ n → take n xs ≡ xs
take_all zero [] le = refl
take_all zero (x ∷ xs) le = absurd (omega arith)
take_all (suc n) [] le = refl
take_all (suc n) (x ∷ xs) le = ap (◌∷◌ x) (take_all n xs (omega arith))

pub take_nil : (n : ℕ) → take {A = ℕ} n [] ≡ []
take_nil zero = refl
take_nil (suc n) = refl

pub take_none : (n : ℕ) (xs : List ℕ) → n ≡ 0 → take n xs ≡ []
take_none n xs e = rw e

pub window_past : (n k : ℕ) (xs : List ℕ) → length xs ≤ k → take n (drop k xs) ≡ []
window_past n k xs le = ap (take n) (drop_all k xs le) ∙ take_nil n

-- A window of two lists in a row.
pub window-append :
    (n s : ℕ) (xs ys : List ℕ)
    → take n (drop s (xs ++ ys))
      ≡ take n (drop s xs) ++ take (n - (length xs - s)) (drop (s - length xs) ys)
window-append n s xs ys =
    ap (take n) (drop-append_more s xs ys)
    ∙ take-append_more n (drop s xs) (drop (s - length xs) ys)
    ∙ ap (λ (k : ℕ). take n (drop s xs) ++ take (n - k) (drop (s - length xs) ys))
        (length-drop s xs)
