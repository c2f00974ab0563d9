-- ===== src/Merkle/AppendStack/Merge.antt =====
-- Lemmas on mergeNodeBuf of appendStack (merkle/stack.go), against the counter of groups.
use native.Mathlib.Nat.{pow-suc, div-div-eq-div-mul}
use mathlib.Core.Option
use us.Prelude.{
  ℕ, suc, ◌+◌, ◌-◌, ◌*◌, ◌/◌, ◌%◌, ◌^◌, ◌<◌, ◌≡◌, refl, ap, ◌∙◌, true, false, inl, inr, List, [],
  ◌∷◌, ◌++◌, Option, none, some, arith, ◌==◌, if◌then◌else◌, length, get_elem?, set, has_bit,
  Bool-cases,
}
use us.Merkle.Forest.{insert, view}
use us.Merkle.Hash.{Blake, Group, sum_nodes}
use us.Merkle.AppendStack.{AppendStack, has_node_at_height, merge_loop, merge_node_buf}

-- The list `xs` in reverse, before `ys`: the stack in memory, from its entries lowest first.
unfoldable pub onto {ℓ} : {A : Type ℓ} → List A → List A → List A
onto [] ys = ys
onto (x ∷ xs) ys = onto xs (x ∷ ys)

module _ {ℓ} {A : Type ℓ} where
  pub get_elem?-onto :
      (xs ys : List A) (k i : ℕ) → i ≡ length xs + k → get_elem? (onto xs ys) i ≡ get_elem? ys k
  unfolding onto
  get_elem?-onto [] ys k i e = let e' : i ≡ k = omega arith in rw e'
  get_elem?-onto (x ∷ xs) ys k i e = get_elem?-onto xs (x ∷ ys) (suc k) i (omega arith)

  set-onto :
      (xs ys : List A) (k i : ℕ) (v : A)
      → i ≡ length xs + k
      → set (onto xs ys) i v ≡ onto xs (set ys k v)
  unfolding onto
  set-onto [] ys k i v e = let e' : i ≡ k = omega arith in rw e'
  set-onto (x ∷ xs) ys k i v e = set-onto xs (x ∷ ys) (suc k) i v (omega arith)

  append-onto : (xs ys zs : List A) → onto xs ys ++ zs ≡ onto xs (ys ++ zs)
  unfolding onto
  append-onto [] ys zs = refl
  append-onto (x ∷ xs) ys zs = append-onto xs (x ∷ ys) zs

  pub length-onto : (xs ys : List A) → length (onto xs ys) ≡ length xs + length ys
  unfolding onto
  length-onto [] ys = omega arith
  length-onto (x ∷ xs) ys = omega (arith, length-onto xs (x ∷ ys))

pub div-pow_suc_right : (n k : ℕ) → n / 2 ^ suc k ≡ n / 2 ^ k / 2
div-pow_suc_right n k = rw (pow-suc 2 k, div-div-eq-div-mul)

relift {ℓ} :
    {A : Type ℓ} (x : A) (back : List A) (o : Option (List A))
    → Option.map (λ r. onto r (x ∷ back)) o ≡ Option.map (λ r. onto r back) (Option.map (◌∷◌ x) o)
unfolding onto
relift x back none = refl
relift x back (some r) = refl

module _ ⦃blake : Blake⦄ where
  -- mergeNodeBuf over the entries lowest first; `c` is the counter from there on.
  merged : List Group → Group → ℕ → Option (List Group)
  merged [] nodes c = none
  merged (x ∷ xs) nodes c =
      let more = Option.map (◌∷◌ (sum_nodes x nodes)) (merged xs (sum_nodes x nodes) (c / 2)) in
      if c % 2 == 1 then more else some (nodes ∷ xs)

  merge_loop-merged :
      (xs back rest : List Group) (buf nodes : Group) (used : ℕ)
      → length xs + length back ≡ 15
      → back ++ buf ∷ [] ≡ nodes ∷ rest
      → merge_loop (length xs) (onto xs back) buf nodes used
        ≡ Option.map (λ r. onto r back) (merged xs nodes (used / 4 / 2 ^ length back))
  unfolding merge_loop merged has_node_at_height has_bit onto
  merge_loop-merged [] back rest buf nodes used n h = refl
  merge_loop-merged (x ∷ xs) back rest buf nodes used n h =
      let at : 15 - suc (length xs) ≡ length back = omega arith in
      let here : get_elem? (onto xs (x ∷ back) ++ buf ∷ []) (length xs) ≡ some x =
        ap (λ (l : List Group). get_elem? l (length xs)) (append-onto xs (x ∷ back) (buf ∷ []))
        ∙ get_elem?-onto xs _ 0 (length xs) (omega arith) in
      let next : get_elem? (onto xs (x ∷ back) ++ buf ∷ []) (suc (length xs)) ≡ some nodes =
        ap (λ (l : List Group). get_elem? l (suc (length xs)))
          (append-onto xs (x ∷ back) (buf ∷ []))
        ∙ get_elem?-onto xs _ 1 (suc (length xs)) (omega arith)
        ∙ ap (λ (l : List Group). get_elem? l 0) h in
      elim (Bool-cases (used / 4 / 2 ^ length back % 2 == 1)) [
        | inl odd ↦
            rw
              (
                at,
                odd,
                here,
                next,
                set-onto xs (x ∷ back) 0 (length xs) (sum_nodes x nodes) (omega arith),
              )
              (merge_loop-merged xs (sum_nodes x nodes ∷ back) (back ++ buf ∷ []) buf
                  (sum_nodes x nodes) used (omega arith) refl
                ∙ rw (div-pow_suc_right (used / 4) (length back)) (
                    relift (sum_nodes x nodes) back
                      (merged xs (sum_nodes x nodes) (used / 4 / 2 ^ length back / 2))))
        | inr even ↦ rw (at, even, set-onto xs (x ∷ back) 0 (length xs) nodes (omega arith)) refl
      ]

  merged-view :
      (xs : List Group) (nodes : Group) (c : ℕ)
      → c + 1 < 2 ^ length xs
      → (r : List Group) × (merged xs nodes c ≡ some r)
        × (length r ≡ length xs)
        × (view (c + 1) r ≡ insert sum_nodes 0 nodes (view c xs))
  unfolding merged view insert
  merged-view [] nodes c p = absurd (omega arith)
  merged-view (x ∷ xs) nodes c p = elim (Bool-cases (c % 2 == 1)) [
    | inl odd ↦
        let (r, found, size, same) =
          merged-view xs (sum_nodes x nodes) (c / 2) (ground (arith, pow-suc 2 (length xs))) in
        let half : (c + 1) / 2 ≡ c / 2 + 1 = ground arith in
        let low : ((c + 1) % 2 == 1) ≡ false = ground arith in
        (
          sum_nodes x nodes ∷ r,
          rw (odd, found),
          ap suc size,
          rw (odd, half, low) (ap (◌∷◌ none) same),
        )
    | inr even ↦
        let half : (c + 1) / 2 ≡ c / 2 = ground arith in
        let low : ((c + 1) % 2 == 1) ≡ true = ground arith in
        (nodes ∷ xs, rw even, refl, rw (even, half, low))
  ]

-- `s` is a stack of 15 groups in which those of `f` are in use.
pub record Represents (s : AppendStack) (f : List (Option Group)) : Type 0 where
  pub lowest : List Group
  pub memory : s.stack ≡ onto lowest []
  pub size : length lowest ≡ 15
  pub entries : view (s.used / 4) lowest ≡ f

module _ ⦃blake : Blake⦄ where
  -- mergeNodeBuf succeeds while the counter stays below 4 * 2 ^ 15, and adds the buffer as one
  -- group.
  pub merge_node_buf-Represents :
      (s : AppendStack) (f : List (Option Group))
      → Represents s f
      → s.used + 4 < 4 * 2 ^ 15
      → (t : AppendStack) × (merge_node_buf s ≡ some t)
        × Represents t (insert sum_nodes 0 s.node_buf f)
        × (t.used ≡ s.used + 4)
        × (t.node_buf ≡ s.node_buf)
  unfolding merge_node_buf
  merge_node_buf-Represents s f r q =
      let (xs, found, size, same) =
        merged-view r.lowest s.node_buf (s.used / 4) (rw r.size (omega arith)) in
      let none_before : s.used / 4 / 2 ^ 0 ≡ s.used / 4 = omega arith in
      let lifted : Option.map {A = List Group} (λ r. onto r [])
            (merged r.lowest s.node_buf (s.used / 4 / 2 ^ 0))
          ≡ some (onto xs []) =
        rw (none_before, found) in
      let fits : (s.used + 4) % 2 ^ 32 ≡ s.used + 4 = omega arith in
      let count : (s.used + 4) / 4 ≡ s.used / 4 + 1 = omega arith in
      let high : length (onto r.lowest []) ≡ length r.lowest =
        length-onto r.lowest [] ∙ omega arith in
      let ran : merge_loop (length (onto r.lowest [])) (onto r.lowest []) s.node_buf s.node_buf
            s.used
          ≡ some (onto xs []) =
        rw high (
          merge_loop-merged r.lowest [] [] s.node_buf s.node_buf s.used (omega (arith, r.size)) refl
          ∙ lifted) in
      (
        record { stack = onto xs []; node_buf = s.node_buf; used = s.used + 4 },
        rw (r.memory, ran, fits),
        record {
          lowest = xs;
          memory = refl;
          size = size ∙ r.size;
          entries = rw count (same ∙ ap (insert sum_nodes 0 s.node_buf) r.entries);
        },
        refl,
        refl,
      )
