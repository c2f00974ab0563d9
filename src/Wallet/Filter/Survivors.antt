-- ===== src/Wallet/Filter/Survivors.antt =====
-- The map survivingOutputs of FilterConsensusChange (wallet/wallet.go), for one ID.
use us.Prelude.{
  ◌≡◌, refl, sym, ap, ◌∙◌, Bool, true, false, not, inl, inr, List, [], ◌∷◌, if◌then◌else◌,
  Bool-cases, eq_bytes, eq_of_eq_bytes, delete, foldl, lookup-delete_same, lookup-delete_other,
  lookup-put_same, lookup-put_other,
}
use us.Merkle.Hash.{Hash}
use us.Wallet.Store.{is_some}
use us.Wallet.Filter.{SiacoinOutputDiff, survive, surviving_outputs, survives}

unfoldable pub xor : Bool → Bool → Bool
xor true b = not b
xor false b = b

pub xor-not : (a b : Bool) → xor (not a) b ≡ xor a (not b)
unfolding xor
xor-not true true = refl
xor-not true false = refl
xor-not false b = refl

-- An odd number of the diffs has the ID.
unfoldable pub odd : Hash → List SiacoinOutputDiff → Bool
odd id [] = false
odd id (d ∷ diffs) = if eq_bytes id d.id then not (odd id diffs) else odd id diffs

pub survives-delete_same :
    (id : Hash) (m : List (Hash × Unit {0})) → survives (delete id m) id ≡ false
unfolding survives is_some
survives-delete_same id m = rw (lookup-delete_same id m) refl

pub survives-delete_other :
    (id j : Hash) (m : List (Hash × Unit {0}))
    → eq_bytes id j ≡ false
    → survives (delete j m) id ≡ survives m id
unfolding survives
survives-delete_other id j m e = rw (lookup-delete_other id j m e) refl

survives-survive_same :
    (id : Hash) (m : List (Hash × Unit {0})) (d : SiacoinOutputDiff)
    → id ≡ d.id
    → survives (survive m d) id ≡ not (survives m id)
unfolding survive
survives-survive_same id m d e = rw e (elim (Bool-cases (survives m d.id)) [
  | inl here ↦ rw here (survives-delete_same d.id m)
  | inr gone ↦ rw gone (ap {B = Bool} is_some (lookup-put_same d.id tt m))
])

survives-survive_other :
    (id : Hash) (m : List (Hash × Unit {0})) (d : SiacoinOutputDiff)
    → eq_bytes id d.id ≡ false
    → survives (survive m d) id ≡ survives m id
unfolding survive
survives-survive_other id m d e = elim (Bool-cases (survives m d.id)) [
  | inl here ↦ rw here (survives-delete_other id d.id m e)
  | inr gone ↦ rw gone (ap {B = Bool} is_some (lookup-put_other id d.id tt m e))
]

pub xor-false : (a : Bool) → xor a false ≡ a
unfolding xor
xor-false true = refl
xor-false false = refl

-- An ID survives when its number of diffs is odd.
pub survives-surviving_outputs :
    (id : Hash) (m : List (Hash × Unit {0})) (diffs : List SiacoinOutputDiff)
    → survives (surviving_outputs m diffs) id ≡ xor (survives m id) (odd id diffs)
unfolding surviving_outputs odd foldl
survives-surviving_outputs id m [] = sym (xor-false (survives m id))
survives-surviving_outputs id m (d ∷ diffs) =
    survives-surviving_outputs id (survive m d) diffs ∙ elim (Bool-cases (eq_bytes id d.id)) [
      | inl same ↦
          rw (same, survives-survive_same id m d (eq_of_eq_bytes id d.id same))
            (xor-not (survives m id) (odd id diffs))
      | inr other ↦ rw (other, survives-survive_other id m d other) refl
    ]
