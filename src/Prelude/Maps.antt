-- ===== src/Prelude/Maps.antt =====
-- Maps with byte strings as keys, as association lists. The order of the entries stands for no
-- order of iteration that the source could rely on.
use us.Prelude.Tests.{Bool-cases}
use us.Prelude.Lists.{eq_bytes, eq_bytes_refl, eq_of_eq_bytes}
use Prim.Native.Nat.{ℕ}
use mathlib.Core.Path.{◌≡◌, refl}
use mathlib.Core.Bool.{Bool, false}
use mathlib.Core.Logic.{inl, inr}
use mathlib.Core.List.{List, [], ◌∷◌}
use mathlib.Core.Option.{Option, none, some}
use us.Prelude.Tests.{if◌then◌else◌}

module _ {ℓ} {V : Type ℓ} where
  unfoldable pub lookup : List ℕ → List (List ℕ × V) → Option V
  lookup k [] = none
  lookup k ((k', v) ∷ m) = let rest = lookup k m in if eq_bytes k k' then some v else rest

  unfoldable pub delete : List ℕ → List (List ℕ × V) → List (List ℕ × V)
  delete k [] = []
  delete k ((k', v) ∷ m) = let rest = delete k m in if eq_bytes k k' then rest else (k', v) ∷ rest

  unfoldable pub put : List ℕ → V → List (List ℕ × V) → List (List ℕ × V)
  unfolding delete
  put k v m = (k, v) ∷ delete k m

  pub lookup-delete_same : (k : List ℕ) (m : List (List ℕ × V)) → lookup k (delete k m) ≡ none
  unfolding lookup delete
  lookup-delete_same k [] = refl
  lookup-delete_same k ((k', v) ∷ m) = elim (Bool-cases (eq_bytes k k')) [
    | inl e ↦ rw e (lookup-delete_same k m)
    | inr e ↦ rw (e, e) (lookup-delete_same k m)
  ]

  pub lookup-delete_other :
      (k j : List ℕ) (m : List (List ℕ × V))
      → eq_bytes k j ≡ false
      → lookup k (delete j m) ≡ lookup k m
  unfolding lookup delete
  lookup-delete_other k j [] d = refl
  lookup-delete_other k j ((k', v) ∷ m) d = elim (Bool-cases (eq_bytes j k')) [
    | inl e ↦ rw (e, ← eq_of_eq_bytes j k' e, d) (lookup-delete_other k j m d)
    | inr e ↦ elim (Bool-cases (eq_bytes k k')) [
      | inl same ↦ rw (e, same)
      | inr other ↦ rw (e, other) (lookup-delete_other k j m d)
    ]
  ]

  pub lookup-put_same : (k : List ℕ) (v : V) (m : List (List ℕ × V)) → lookup k (put k v m) ≡ some v
  unfolding lookup put
  lookup-put_same k v m = rw eq_bytes_refl

  pub lookup-put_other :
      (k j : List ℕ) (v : V) (m : List (List ℕ × V))
      → eq_bytes k j ≡ false
      → lookup k (put j v m) ≡ lookup k m
  unfolding lookup put
  lookup-put_other k j v m d = rw d (lookup-delete_other k j m d)

-- The first entry that satisfies `p` is removed.
unfoldable pub remove_first {ℓ} : {A : Type ℓ} → (A → Bool) → List A → List A
remove_first p [] = []
remove_first p (x ∷ xs) = let rest = remove_first p xs in if p x then xs else x ∷ rest

unfoldable pub foldl {ℓ ℓ'} : {A : Type ℓ} {B : Type ℓ'} → (B → A → B) → B → List A → B
foldl f b [] = b
foldl f b (x ∷ xs) = foldl f (f b x) xs
