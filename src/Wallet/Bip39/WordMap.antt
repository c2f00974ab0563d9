-- ===== src/Wallet/Bip39/WordMap.antt =====
-- The word list of wallet/bip39.go and its map of indices.
use us.Prelude.{
  ℕ, zero, suc, ◌+◌, ◌<◌, ◌≡◌, refl, ap, ◌∙◌, Bool, true, false, ◌||◌, List, [], ◌∷◌, some, arith,
  length, get_elem?, eq_bytes, lookup, put, lookup-put_same, lookup-put_other, All,
}
use us.Wallet.Bip39.{Word, fill_word_map, word_map, words_at, indices_of}

unfoldable pub has_word : Word → List Word → Bool
has_word w [] = false
has_word w (x ∷ ws) = eq_bytes w x || has_word w ws

-- No word stands in the list twice.
abbrev pub DistinctWords : List Word → Type 0
DistinctWords [] = Unit {0}
DistinctWords (w ∷ ws) = (has_word w ws ≡ false) × DistinctWords ws

or_none : (a b : Bool) → a || b ≡ false → (a ≡ false) × (b ≡ false)
or_none true b e = cc
or_none false b e = (refl, e)

some-eq {ℓ} : {A : Type ℓ} (x y : A) → some x ≡ some y → x ≡ y
some-eq x y e = cc

lookup-fill_absent :
    (w : Word) (i : ℕ) (ws : List Word) (m : List (Word × ℕ))
    → has_word w ws ≡ false
    → lookup w (fill_word_map i ws m) ≡ lookup w m
unfolding fill_word_map has_word
lookup-fill_absent w i [] m e = refl
lookup-fill_absent w i (x ∷ ws) m e =
    let (here, later) = or_none (eq_bytes w x) (has_word w ws) e in
    lookup-fill_absent w (suc i) ws (put x i m) later ∙ lookup-put_other w x i m here

lookup-fill_word_map :
    (i j : ℕ) (w : Word) (ws : List Word) (m : List (Word × ℕ))
    → DistinctWords ws
    → get_elem? ws j ≡ some w
    → lookup w (fill_word_map i ws m) ≡ some (i + j)
unfolding fill_word_map
lookup-fill_word_map i j w [] m distinct e = cc
lookup-fill_word_map i zero w (x ∷ ws) m distinct e =
    let same : x ≡ w = some-eq x w e in
    let z : i + 0 ≡ i = omega arith in
    rw (z, ← same) (lookup-fill_absent x (suc i) ws (put x i m) distinct.0 ∙ lookup-put_same x i m)
lookup-fill_word_map i (suc j) w (x ∷ ws) m distinct e =
    let n : suc i + j ≡ i + suc j = omega arith in
    lookup-fill_word_map (suc i) j w ws (put x i m) distinct.1 e ∙ ap some n

get_elem?-known : (ws : List Word) (i : ℕ) → i < length ws → (w : Word) × (get_elem? ws i ≡ some w)
get_elem?-known [] i lt = absurd (omega arith)
get_elem?-known (x ∷ ws) zero lt = (x, refl)
get_elem?-known (x ∷ ws) (suc i) lt = get_elem?-known ws i (omega arith)

-- Words taken from the list are found in the map, at their indices.
pub indices_of-words_at :
    (word_list : List Word) (is : List ℕ)
    → DistinctWords word_list
    → All (λ (i : ℕ). i < length word_list) is
    → (ws : List Word) × (words_at word_list is ≡ some ws)
      × (indices_of word_list ws ≡ some is)
      × (length ws ≡ length is)
unfolding words_at indices_of word_map
indices_of-words_at word_list [] distinct small = ([], refl, refl, refl)
indices_of-words_at word_list (i ∷ is) distinct small =
    let (w, at) = get_elem?-known word_list i small.0 in
    let (ws, ran, back, size) = indices_of-words_at word_list is distinct small.1 in
    let z : 0 + i ≡ i = omega arith in
    let found = lookup-fill_word_map 0 i w word_list [] distinct at ∙ ap some z in
    (w ∷ ws, rw (at, ran) refl, rw (found, back) refl, ap suc size)
