-- ===== src/Merkle/Reader.antt =====
-- ReaderRoot of merkle/merkle.go. A reader is the bytes that it still delivers and the error after
-- them, which is io.EOF or another. `none` is a panic, or fuel that ran out.
use us.Prelude.{
  ℕ, zero, suc, ◌+◌, ◌-◌, ◌*◌, ◌%◌, ◌^◌, ◌<◌, ◌≤◌, ◌≡◌, refl, ap, sym, ◌∙◌, true, inl, inr, List,
  [], ◌∷◌, ◌++◌, Option, none, some, arith, ◌==◌, leb, if◌then◌else◌, ◌>>=◌, length, take, drop,
  Bool-cases, length-take, length-drop, length-append, take-take, drop-take, le_of_leb,
}
use mathlib.Core.List.{append_assoc, append-nil}
use us.Merkle.Hash.{Blake, Hash, sum_leaf}
use us.Merkle.Tree.{tree_root}
use us.Merkle.AppendStack.{AppendStack, empty, append_leaves, root}
use us.Merkle.AppendStack.Append.{Appended, unused-Appended}
use us.Merkle.AppendStack.Leaves.{
  leaf_hashes, leaf_hashes-add, length-leaf_hashes, append_leaves-Appended,
}
use us.Merkle.AppendStack.Root.{root-Appended}

pub data ReadError : Type 0 where
  eof : ReadError
  unexpected_eof : ReadError
  other : ℕ → ReadError

-- The results of ReaderRoot.
pub data ReadRoot : Type 0 where
  success : Hash → ReadRoot
  failure : ReadError → ReadRoot

-- The error of io.ReadFull, when `n` bytes, less than the buffer holds, were read before the error
-- `end` of the reader.
unfoldable pub read_full_error : ℕ → ReadError → ReadError
read_full_error zero end = end
read_full_error (suc n) eof = unexpected_eof
read_full_error (suc n) unexpected_eof = unexpected_eof
read_full_error (suc n) (other e) = other e

module _ ⦃blake : Blake⦄ where
  -- What the loop does with an error of io.ReadFull after `leaves`; `again` is what it does next,
  -- when no bytes are left.
  unfoldable pub reader_end :
      AppendStack → List ℕ → (AppendStack → Option ReadRoot) → ReadError → Option ReadRoot
  reader_end s leaves again eof = root s >>= λ h. some (success h)
  reader_end s leaves again unexpected_eof =
      let last = append_leaves s leaves >>= again in
      if length leaves % 64 == 0 then last else some (failure unexpected_eof)
  reader_end s leaves again (other e) = some (failure (other e))

  -- The loop; a full buffer has 256 bytes.
  unfoldable pub reader_root_loop : ℕ → AppendStack → List ℕ → ReadError → Option ReadRoot
  unfolding reader_end read_full_error
  reader_root_loop zero s stream end = none
  reader_root_loop (suc fuel) s stream end =
      let more =
        append_leaves s (take 256 stream) >>= λ t. reader_root_loop fuel t (drop 256 stream) end in
      let again = λ (t : AppendStack). reader_root_loop fuel t [] end in
      if leb 256 (length stream)
      then more
      else reader_end s stream again (read_full_error (length stream) end)

  unfoldable pub reader_root : List ℕ → ReadError → Option ReadRoot
  unfolding reader_root_loop
  reader_root stream end = reader_root_loop (suc (length stream)) empty stream end

  -- The stack at the end of the stream.
  reader_end-root :
      (fuel : ℕ) (s : AppendStack) (xs : List Hash) (n : ℕ) (stream : List ℕ)
      → Appended s xs
      → length xs % 4 ≡ 0
      → length stream ≡ 64 * n
      → length xs + n < 2 ^ 17
      → length stream ≤ fuel
      → reader_end s stream
          (λ t. reader_root_loop fuel t [] eof)
          (read_full_error (length stream) eof)
        ≡ some (success (tree_root (xs ++ leaf_hashes n stream)))
  unfolding reader_end read_full_error leaf_hashes reader_root_loop
  reader_end-root fuel s xs zero [] v even size room f =
      rw (root-Appended s xs v (omega arith), append-nil) refl
  reader_end-root fuel s xs zero (b ∷ stream) v even size room f = absurd (omega arith)
  reader_end-root fuel s xs (suc n) [] v even size room f = absurd (omega arith)
  reader_end-root zero s xs (suc n) (b ∷ stream) v even size room f = absurd (omega arith)
  reader_end-root (suc fuel) s xs (suc n) (b ∷ stream) v even size room f =
      let whole : (length (b ∷ stream) % 64 == 0) ≡ true = ground arith in
      let (t, ran, w) = append_leaves-Appended s xs (suc n) (b ∷ stream) v even size room in
      let hashes = length-leaf_hashes (suc n) (b ∷ stream) in
      let small : length (xs ++ leaf_hashes (suc n) (b ∷ stream)) < 2 ^ 17 =
        omega (arith, length-append xs (leaf_hashes (suc n) (b ∷ stream)), hashes) in
      rw (whole, ran, root-Appended t (xs ++ leaf_hashes (suc n) (b ∷ stream)) w small) refl

  leaf_hashes-take :
      (n m : ℕ) (stream : List ℕ)
      → 64 * n ≤ m
      → leaf_hashes n (take m stream) ≡ leaf_hashes n stream
  unfolding leaf_hashes
  leaf_hashes-take zero m stream le = refl
  leaf_hashes-take (suc n) m stream le =
      rw (take-take 64 m stream (omega arith), drop-take 64 m stream (omega arith))
        (ap (◌∷◌ (sum_leaf (take 64 stream)))
          (leaf_hashes-take n (m - 64) (drop 64 stream) (omega arith)))

  -- Four leaves and the rest are all leaves.
  read_on :
      (n : ℕ) (xs : List Hash) (stream : List ℕ)
      → 4 ≤ n
      → (xs ++ leaf_hashes 4 (take 256 stream)) ++ leaf_hashes (n - 4) (drop 256 stream)
        ≡ xs ++ leaf_hashes n stream
  read_on n xs stream le =
      let all : 4 + (n - 4) ≡ n = omega arith in
      append_assoc xs (leaf_hashes 4 (take 256 stream)) (leaf_hashes (n - 4) (drop 256 stream))
      ∙ ap (λ (l : List Hash). xs ++ (l ++ leaf_hashes (n - 4) (drop 256 stream)))
          (leaf_hashes-take 4 256 stream (omega arith))
      ∙ ap (λ (l : List Hash). xs ++ l) (sym (leaf_hashes-add 4 (n - 4) stream))
      ∙ ap (λ (k : ℕ). xs ++ leaf_hashes k stream) all

  reader_root_loop-tree_root :
      (fuel : ℕ) (s : AppendStack) (xs : List Hash) (n : ℕ) (stream : List ℕ)
      → Appended s xs
      → length xs % 4 ≡ 0
      → length stream ≡ 64 * n
      → length xs + n < 2 ^ 17
      → length stream < fuel
      → reader_root_loop fuel s stream eof ≡ some (success (tree_root (xs ++ leaf_hashes n stream)))
  unfolding reader_root_loop
  reader_root_loop-tree_root zero s xs n stream v even size room f = absurd (omega arith)
  reader_root_loop-tree_root (suc fuel) s xs n stream v even size room f =
      elim (Bool-cases (leb 256 (length stream))) [
        | inr short ↦ rw short (reader_end-root fuel s xs n stream v even size room (omega arith))
        | inl full ↦
            let long : 256 ≤ length stream = le_of_leb _ _ full in
            let four : length (take 256 stream) ≡ 64 * 4 = omega (arith, length-take 256 stream) in
            let left : length (drop 256 stream) ≡ 64 * (n - 4) =
              omega (arith, length-drop 256 stream) in
            let (t, ran, w) =
              append_leaves-Appended s xs 4 (take 256 stream) v even four (omega arith) in
            let hashes = length-leaf_hashes 4 (take 256 stream) in
            let grown = length-append xs (leaf_hashes 4 (take 256 stream)) in
            rw (full, ran)
              (reader_root_loop-tree_root fuel t (xs ++ leaf_hashes 4 (take 256 stream)) (n - 4)
                  (drop 256 stream) w (omega arith) left (omega arith) (omega arith)
                ∙ ap (λ (l : List Hash). some (success (tree_root l)))
                    (read_on n xs stream (omega arith)))
      ]

  -- For a reader that delivers `n` whole segments, fewer than 2 ^ 17, and then io.EOF, ReaderRoot
  -- ends and returns the root of the Merkle tree of the hashes of the segments.
  pub reader_root-tree_root :
      (n : ℕ) (stream : List ℕ)
      → length stream ≡ 64 * n
      → n < 2 ^ 17
      → reader_root stream eof ≡ some (success (tree_root (leaf_hashes n stream)))
  unfolding reader_root
  reader_root-tree_root n stream size room =
      reader_root_loop-tree_root (suc (length stream)) empty [] n stream
        (unfold empty in (unused-Appended empty refl refl)) (omega arith) size (omega arith)
        (omega arith)
