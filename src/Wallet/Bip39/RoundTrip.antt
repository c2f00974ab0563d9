-- ===== src/Wallet/Bip39/RoundTrip.antt =====
-- Decoding a seed phrase of wallet/bip39.go gives the entropy that it was encoded from.
use mathlib.Core.List.{reverse, reverse-reverse, reverse-cons}
use mathlib.Core.Path.{ap₂}
use native.Mathlib.Nat.{pow-suc}
use us.Prelude.{
  ℕ, zero, suc, ◌+◌, ◌*◌, ◌/◌, ◌%◌, ◌^◌, ◌<◌, ◌≡◌, refl, sym, ap, ◌∙◌, List, [], ◌∷◌, ◌++◌, some,
  arith, eq_iff, length, take, drop, foldl, All, take-append-drop, length-take, length-drop,
  length-append,
}
use us.Prelude.Bytes.{little_endian, from_little_endian}
use us.Wallet.Bip39.{
  Word, Sha256, Halves, from_big_endian, big_endian, halves_of, bytes_of, shift_right, shift_left,
  push_word, word_indices, last_index, all_but_last, bip39_checksum, checked_entropy,
  encode_bip39_phrase, decode_indices, decode_known, decode_bip39_phrase, decoded,
}
use us.Wallet.Bip39.Shifts.{
  Fits, value, push-word_indices, shifted-zero, shift_right_7-Fits, left-right_7, word_indices-lt,
  length-word_indices, word_indices-append,
}
use us.Wallet.Bip39.WordMap.{DistinctWords, indices_of-words_at}

abbrev pub AreBytes : List ℕ → Type 0
AreBytes = All (λ (b : ℕ). b < 256)

AreBytes-append : (xs ys : List ℕ) → AreBytes xs → AreBytes ys → AreBytes (xs ++ ys)
AreBytes-append [] ys hx hy = hy
AreBytes-append (x ∷ xs) ys hx hy = (hx.0, AreBytes-append xs ys hx.1 hy)

AreBytes-reverse : (xs : List ℕ) → AreBytes xs → AreBytes (reverse xs)
AreBytes-reverse [] h = tt
AreBytes-reverse (x ∷ xs) h =
    rw (reverse-cons x xs)
      (AreBytes-append (reverse xs) (x ∷ []) (AreBytes-reverse xs h.1) (h.0, tt))

AreBytes-take : (n : ℕ) (xs : List ℕ) → AreBytes xs → AreBytes (take n xs)
AreBytes-take zero xs h = tt
AreBytes-take (suc n) [] h = tt
AreBytes-take (suc n) (x ∷ xs) h = (h.0, AreBytes-take n xs h.1)

AreBytes-drop : (n : ℕ) (xs : List ℕ) → AreBytes xs → AreBytes (drop n xs)
AreBytes-drop zero xs h = h
AreBytes-drop (suc n) [] h = tt
AreBytes-drop (suc n) (x ∷ xs) h = AreBytes-drop n xs h.1

from_little_endian-lt :
    (bytes : List ℕ) → AreBytes bytes → from_little_endian bytes < 256 ^ length bytes
unfolding from_little_endian
from_little_endian-lt [] h = omega arith
from_little_endian-lt (b ∷ bytes) h =
    omega (arith, from_little_endian-lt bytes h.1, h.0, pow-suc 256 (length bytes))

little_endian-from_little_endian :
    (bytes : List ℕ)
    → AreBytes bytes
    → little_endian (length bytes) (from_little_endian bytes) ≡ bytes
unfolding little_endian from_little_endian
little_endian-from_little_endian [] h = refl
little_endian-from_little_endian (b ∷ bytes) h =
    let low : (b + 256 * from_little_endian bytes) % 256 ≡ b = omega (arith, h.0) in
    let high : (b + 256 * from_little_endian bytes) / 256 ≡ from_little_endian bytes =
      omega (arith, h.0) in
    rw (low, high) (ap (◌∷◌ b) (little_endian-from_little_endian bytes h.1))

length-reverse : (xs : List ℕ) → length (reverse xs) ≡ length xs
length-reverse [] = refl
length-reverse (x ∷ xs) =
    ap (length {A = ℕ}) (reverse-cons x xs)
    ∙ omega (arith, length-append (reverse xs) (x ∷ []), length-reverse xs)

from_big_endian-lt :
    (bytes : List ℕ) → length bytes ≡ 8 → AreBytes bytes → from_big_endian bytes < 2 ^ 64
unfolding from_big_endian
from_big_endian-lt bytes size h =
    let bound = from_little_endian-lt (reverse bytes) (AreBytes-reverse bytes h) in
    rw (length-reverse bytes, size) at bound

big_endian-from_big_endian :
    (bytes : List ℕ)
    → length bytes ≡ 8
    → AreBytes bytes
    → big_endian (from_big_endian bytes) ≡ bytes
unfolding big_endian from_big_endian
big_endian-from_big_endian bytes size h =
    ap (λ (n : ℕ). reverse (little_endian n (from_little_endian (reverse bytes))))
      (sym (length-reverse bytes ∙ size))
    ∙ ap (reverse {A = ℕ})
        (little_endian-from_little_endian (reverse bytes) (AreBytes-reverse bytes h))
    ∙ reverse-reverse bytes

halves_of-Fits :
    (entropy : List ℕ) → length entropy ≡ 16 → AreBytes entropy → Fits (halves_of entropy)
unfolding halves_of
halves_of-Fits entropy size h = record {
  hi =
      from_big_endian-lt (take 8 entropy) (omega (arith, length-take 8 entropy, size))
        (AreBytes-take 8 entropy h);
  lo =
      from_big_endian-lt (drop 8 entropy) (omega (arith, length-drop 8 entropy, size))
        (AreBytes-drop 8 entropy h);
}

bytes_of-halves_of :
    (entropy : List ℕ)
    → length entropy ≡ 16
    → AreBytes entropy
    → bytes_of (halves_of entropy) ≡ entropy
unfolding bytes_of halves_of
bytes_of-halves_of entropy size h =
    rw
      (
        big_endian-from_big_endian (take 8 entropy) (omega (arith, length-take 8 entropy, size))
            (AreBytes-take 8 entropy h),
        big_endian-from_big_endian (drop 8 entropy) (omega (arith, length-drop 8 entropy, size))
            (AreBytes-drop 8 entropy h),
      )
      (take-append-drop 8 entropy)

foldl-none : (h : Halves) → foldl push_word h [] ≡ h
unfolding foldl
foldl-none h = refl

last_index-append : (is : List ℕ) (i : ℕ) → last_index (is ++ (i ∷ [])) ≡ i
unfolding last_index
last_index-append [] i = refl
last_index-append (x ∷ []) i = refl
last_index-append (x ∷ y ∷ is) i = last_index-append (y ∷ is) i

all_but_last-append : (is : List ℕ) (i : ℕ) → all_but_last (is ++ (i ∷ [])) ≡ is
unfolding all_but_last
all_but_last-append [] i = refl
all_but_last-append (x ∷ []) i = refl
all_but_last-append (x ∷ y ∷ is) i = ap (◌∷◌ x) (all_but_last-append (y ∷ is) i)

value-shift_right_7 : (h : Halves) → Fits h → value (shift_right 7 h) < 2 ^ 121
unfolding shift_right
value-shift_right_7 h fits = omega (arith, fits.hi, fits.lo)

module _ ⦃sha : Sha256⦄ where
  checksum-lt : (entropy : List ℕ) → bip39_checksum entropy < 16
  unfolding bip39_checksum
  checksum-lt entropy = omega arith

  checked_entropy-same :
      (entropy : List ℕ) → checked_entropy (bip39_checksum entropy) entropy ≡ decoded entropy
  unfolding checked_entropy
  checked_entropy-same entropy =
      rw ((eq_iff (bip39_checksum entropy) (bip39_checksum entropy)).1 refl) refl

  -- The eleven whole words and the last one.
  decode_indices-append :
      (is : List ℕ) (w : ℕ)
      → decode_indices (is ++ (w ∷ []))
        ≡ checked_entropy
            (w % 16)
            (bytes_of (shift_left 7 (w / 16) (foldl push_word (record { hi = 0; lo = 0 }) is)))
  unfolding decode_indices
  decode_indices-append is w =
      ap₂
        (λ (i : ℕ) (xs : List ℕ).
          checked_entropy (i % 16)
            (bytes_of (shift_left 7 (i / 16) (foldl push_word (record { hi = 0; lo = 0 }) xs))))
        (last_index-append is w) (all_but_last-append is w)

  decode_indices-encoded :
      (entropy : List ℕ)
      → length entropy ≡ 16
      → AreBytes entropy
      → decode_indices (
          word_indices 11
            (shift_right 7 (halves_of entropy))
            (((halves_of entropy).lo % 128 * 16 + bip39_checksum entropy) ∷ []))
        ≡ decoded entropy
  decode_indices-encoded entropy size bytes =
      let h = halves_of entropy in
      let g = shift_right 7 h in
      let w = h.lo % 128 * 16 + bip39_checksum entropy in
      let fits = halves_of-Fits entropy size bytes in
      let fits' = shift_right_7-Fits h fits in
      let start = shifted-zero g fits' (value-shift_right_7 h fits) in
      let folded : foldl push_word (record { hi = 0; lo = 0 }) (word_indices 11 g []) ≡ g =
        ap (λ (z : Halves). foldl push_word z (word_indices 11 g [])) (sym start)
        ∙ push-word_indices 11 g [] fits'
        ∙ foldl-none g in
      let top : w / 16 ≡ h.lo % 128 = omega (arith, checksum-lt entropy) in
      let low : w % 16 ≡ bip39_checksum entropy = omega (arith, checksum-lt entropy) in
      ap decode_indices (word_indices-append 11 g (w ∷ []))
      ∙ decode_indices-append (word_indices 11 g []) w
      ∙ ap₂ checked_entropy low (
          ap bytes_of (ap₂ (shift_left 7) top folded ∙ left-right_7 h fits)
          ∙ bytes_of-halves_of entropy size bytes)
      ∙ checked_entropy-same entropy

  -- For a word list of 2048 words without repetitions and 16 bytes of entropy: encodeBIP39Phrase
  -- does not panic and gives 12 words, and decodeBIP39Phrase of them returns the entropy without
  -- an error.
  pub decode-encode_bip39_phrase :
      (word_list : List Word) (entropy : List ℕ)
      → DistinctWords word_list
      → length word_list ≡ 2048
      → length entropy ≡ 16
      → AreBytes entropy
      → (phrase : List Word) × (encode_bip39_phrase word_list entropy ≡ some phrase)
        × (length phrase ≡ 12)
        × (decode_bip39_phrase word_list phrase ≡ decoded entropy)
  unfolding encode_bip39_phrase decode_bip39_phrase decode_known
  decode-encode_bip39_phrase word_list entropy distinct full size bytes =
      let h = halves_of entropy in
      let g = shift_right 7 h in
      let w = h.lo % 128 * 16 + bip39_checksum entropy in
      let is = word_indices 11 g (w ∷ []) in
      let small = word_indices-lt 11 g (w ∷ []) (omega (arith, checksum-lt entropy), tt) in
      let (phrase, ran, back, count) = indices_of-words_at word_list is distinct (rw full small) in
      let twelve : length phrase ≡ 12 = count ∙ length-word_indices 11 g (w ∷ []) in
      (phrase, ran, twelve, rw (twelve, back) (decode_indices-encoded entropy size bytes))
