-- ===== src/Merkle/RangeProof/Binding.antt =====
-- VerifyProof (merkle/proof.go) on two proofs for one root.
use native.Mathlib.Nat.{pow-suc}
use native.Mathlib.Decide.{dec_lt}
use mathlib.Core.Path.{ap₂}
use us.Prelude.{
  ℕ, zero, suc, ◌+◌, ◌-◌, ◌*◌, ◌^◌, ◌<◌, ◌≤◌, ◌≡◌, refl, ap, sym, ◌∙◌, Bool, true, false, inl, inr,
  ◌⊎◌, List, [], ◌∷◌, ◌++◌, Option, none, some, arith, ◌==◌, ◌>>=◌, length, take, drop, drop-drop,
  length-drop, take-append-drop, eq_bytes, eq_of_eq_bytes, Bool-cases, pow_mono,
}
use us.Merkle.Build.{Build, segments_per_sector}
use us.Merkle.Hash.{Blake, Hash}
use us.Merkle.Collision.{Collision, sum_pair-injective, node-injective}
use us.Merkle.RangeProof.{segments, subtree_root, verify_loop, verify_with, verify_proof}
use us.Merkle.Size.{proof_size}
use us.Merkle.RangeProof.Tree.{verify-within, single_leaf, Place, inside, outside, across, place}
use us.Merkle.RangeProof.Complete.{node}
use us.Merkle.RangeProof.Sound.{
  AreHashes, Same, range_roots, range_roots-node, some_pair, verify-across, verify_loop-AreHashes,
}

module _ ⦃blake : Blake⦄ where
  -- Contents that agree on every segment are equal.
  eq_of_Same :
      (n : ℕ) (xs ys : List ℕ)
      → length xs ≡ 64 * n
      → length ys ≡ 64 * n
      → ((t : ℕ) → t < n → (take 64 (drop (64 * t) xs) ≡ take 64 (drop (64 * t) ys)) ⊎ Collision)
      → (xs ≡ ys) ⊎ Collision
  eq_of_Same zero [] [] p q h = inl refl
  eq_of_Same zero [] (y ∷ ys) p q h = absurd (omega arith)
  eq_of_Same zero (x ∷ xs) ys p q h = absurd (omega arith)
  eq_of_Same (suc n) xs ys p q h = elim (h 0 (omega arith)) [
    | inr c ↦ inr c
    | inl first ↦
        elim (eq_of_Same n (drop 64 xs) (drop 64 ys) (omega (arith, length-drop 64 xs))
          (omega (arith, length-drop 64 ys)) later) [
            | inr c ↦ inr c
            | inl rest ↦
                inl (sym (take-append-drop 64 xs) ∙ ap₂ ◌++◌ first rest ∙ take-append-drop 64 ys)
          ]
  ]
    where
      later :
          (t : ℕ)
          → t < n
          → (take 64 (drop (64 * t) (drop 64 xs)) ≡ take 64 (drop (64 * t) (drop 64 ys)))
            ⊎ Collision
      later t lt =
          let at : 64 + 64 * t ≡ 64 * suc t = omega arith in
          rw (drop-drop, drop-drop, at) (h (suc t) (omega arith))

module _ ⦃blake : Blake⦄ (start end : ℕ) (legal : start < end) (xs ys : List ℕ)
    (size_x : length xs ≡ (end - start) * 64) (size_y : length ys ≡ (end - start) * 64) where
  -- Two accepted subtrees of one root agree on the segments of the range.
  verify_loop-Same :
      (k i : ℕ) (p q : List Hash) (h : Hash) (p' q' : List Hash)
      → k ≤ 16
      → AreHashes p
      → AreHashes q
      → Place start end i (i + 2 ^ k)
      → verify_loop (range_roots start end legal xs) start end (suc k) i (i + 2 ^ k) p
        ≡ some (h, p')
      → verify_loop (range_roots start end legal ys) start end (suc k) i (i + 2 ^ k) q
        ≡ some (h, q')
      → (t : ℕ) → i ≤ t
      → t < i + 2 ^ k
      → start ≤ t
      → t < end
      → Same start xs ys t ⊎ Collision
  verify_loop-Same k i p q h p' q' fits a b (inside e) r s t low high from to =
      let pow = pow_mono k 16 fits in
      let found_x = range_roots-node start end legal xs size_x k i (omega (arith, pow)) e in
      let found_y = range_roots-node start end legal ys size_y k i (omega (arith, pow)) e in
      let step_x =
        sym (verify-within start end (range_roots start end legal xs) k i (i + 2 ^ k) p e) ∙ r in
      let step_y =
        sym (verify-within start end (range_roots start end legal ys) k i (i + 2 ^ k) q e) ∙ s in
      let (same_x, _) = some_pair h (node xs k (i - start)) p' p (rw found_x at step_x) in
      let (same_y, _) = some_pair h (node ys k (i - start)) q' q (rw found_y at step_y) in
      node-injective xs ys k (i - start) (t - start) (same_x ∙ sym same_y) (omega arith)
        (ground arith)
  verify_loop-Same k i p q h p' q' fits a b (outside e o) r s t low high from to =
      absurd (ground arith)
  verify_loop-Same zero i p q h p' q' fits a b (across e o) r s t low high from to =
      absurd (single_leaf start end i legal e o)
  verify_loop-Same (suc k) i p q h p' q' fits a b (across e o) r s t low high from to =
      let roots_x = range_roots start end legal xs in
      let roots_y = range_roots start end legal ys in
      let at_left = place start end i (i + 2 ^ k) in
      let at_right = place start end (i + 2 ^ k) (i + 2 ^ k + 2 ^ k) in
      let (l, m, left, right, joined, _) = verify-across start end legal roots_x k i p h p' e o r in
      let (l', m', left', right', joined', _) =
        verify-across start end legal roots_y k i q h q' e o s in
      let (len, c) =
        verify_loop-AreHashes start end legal xs size_x k i p l.0 l.1 (omega arith) a at_left
          left in
      let (len', d) =
        verify_loop-AreHashes start end legal ys size_y k i q l'.0 l'.1 (omega arith) b at_left
          left' in
      elim (sum_pair-injective l.0 l'.0 m.0 m'.0 (len ∙ sym len') (sym joined ∙ joined')) [
        | inr x ↦ inr x
        | inl (same, same') ↦ elim (dec_lt t (i + 2 ^ k)) [
          | yes first ↦
              verify_loop-Same k i p q l.0 l.1 l'.1 (omega arith) a b at_left left
                (left' ∙ ap (λ (x : Hash). some (x, l'.1)) (sym same)) t low first from to
          | no second ↦
              verify_loop-Same k (i + 2 ^ k) l.1 l'.1 m.0 m.1 m'.1 (omega arith) c d at_right right
                (right' ∙ ap (λ (x : Hash). some (x, m'.1)) (sym same')) t (omega arith)
                (omega (arith, pow-suc 2 k)) from to
        ]
      ]

module _ ⦃blake : Blake⦄ ⦃build : Build⦄ where
  -- What an accepted proof went through.
  verify_proof-accepted :
      (proof : List Hash) (leaves : List ℕ) (start end : ℕ) (root : Hash)
      → verify_proof proof leaves start end root ≡ some true
      → (length leaves ≡ (end - start) * 64)
        × (start < end)
        × (end ≤ segments_per_sector)
        × (verify_with proof
              (λ i j. subtree_root (segments leaves (i - start) (j - start)))
              start
              end
              root
            ≡ some true)
  unfolding verify_proof
  verify_proof-accepted proof leaves start end root ran = ground arith

  accepted-run :
      (root : Hash) (o : Option (Hash × List Hash))
      → (o >>= λ r. some (eq_bytes r.0 root)) ≡ some true
      → (rest : List Hash) × (o ≡ some (root, rest))
  accepted-run root none ran = cc
  accepted-run root (some (h, rest)) ran =
      let same : eq_bytes h root ≡ true = cc in
      (rest, ap (λ (x : Hash). some (x, rest)) (eq_of_eq_bytes h root same))

  false_answer_absurd : ¬ ◌≡◌ {A = Option Bool} (some false) (some true)
  false_answer_absurd e = cc

  verify_with-accepted :
      (proof : List Hash) (subtree : ℕ → ℕ → Option Hash) (start end : ℕ) (root : Hash)
      → verify_with proof subtree start end root ≡ some true
      → (rest : List Hash) × (verify_loop subtree start end
            (suc build.height)
            0
            segments_per_sector
            proof
          ≡ some (root, rest))
  unfolding verify_with
  verify_with-accepted proof subtree start end root ran =
      elim (Bool-cases (length proof == proof_size segments_per_sector start end)) [
        | inl e ↦
            accepted-run root
              (verify_loop subtree start end (suc build.height) 0 segments_per_sector proof)
              (rw e at ran)
        | inr e ↦ absurd (false_answer_absurd (rw e at ran))
      ]

  whole_tree : segments_per_sector ≡ 0 + 2 ^ build.height
  unfolding segments_per_sector
  whole_tree = omega arith

  -- Two proofs made of 32-byte hashes that VerifyProof accepts for one range under one root come
  -- with the same segments, or else two different messages with one hash can be given.
  pub verify_proof-binding :
      (proof proof' : List Hash) (xs ys : List ℕ) (start end : ℕ) (root : Hash)
      → AreHashes proof
      → AreHashes proof'
      → verify_proof proof xs start end root ≡ some true
      → verify_proof proof' ys start end root ≡ some true
      → (xs ≡ ys) ⊎ Collision
  verify_proof-binding proof proof' xs ys start end root a b first second =
      let (size_x, legal, top, ran_x) = verify_proof-accepted proof xs start end root first in
      let (size_y, _, _, ran_y) = verify_proof-accepted proof' ys start end root second in
      let (p, at_x) =
        verify_with-accepted proof (range_roots start end legal xs) start end root ran_x in
      let (q, at_y) =
        verify_with-accepted proof' (range_roots start end legal ys) start end root ran_y in
      eq_of_Same (end - start) xs ys (omega (arith, size_x)) (omega (arith, size_y)) (λ t lt.
        let back : start + t - start ≡ t = omega arith in
        rw back at (
          verify_loop-Same start end legal xs ys size_x size_y build.height 0 proof proof' root p q
            build.fits a b (place start end 0 (0 + 2 ^ build.height)) (rw whole_tree at at_x)
            (rw whole_tree at at_y) (start + t) (omega arith) (omega (arith, top, whole_tree))
            (omega arith) (omega arith)))
