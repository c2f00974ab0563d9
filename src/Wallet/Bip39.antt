-- ===== src/Wallet/Bip39.antt =====
-- wallet/bip39.go: seed phrases of 12 words. A phrase is its list of words, as strings.Join and
-- strings.Fields take it apart; the word list and SHA-256 are arguments. The bits that `|` joins
-- are disjoint, so it is a sum.
pub mod Shifts
pub mod WordMap
pub mod RoundTrip
mod Tests
use mathlib.Core.List.{reverse}
use us.Prelude.{
  ℕ, zero, suc, ◌+◌, ◌-◌, ◌*◌, ◌/◌, ◌%◌, ◌^◌, ◌<◌, ◌≡◌, Bool, true, false, List, [], ◌∷◌, ◌++◌,
  Option, none, some, ◌==◌, if◌then◌else◌, length, get_elem?, take, drop, lookup, put, foldl, ◌>>=◌,
}
use us.Prelude.Bytes.{little_endian, from_little_endian}

-- A word, as its bytes.
abbrev pub Word : Type 0
Word = List ℕ

-- crypto/sha256: Sum256, of 32 bytes.
pub record Sha256 : Type 0 where
  pub sum256 : List ℕ → List ℕ

-- The two halves of 128 bits.
pub record Halves : Type 0 where
  pub hi : ℕ
  pub lo : ℕ

-- binary.BigEndian.Uint64 and PutUint64
unfoldable pub from_big_endian : List ℕ → ℕ
from_big_endian bytes = from_little_endian (reverse bytes)

unfoldable pub big_endian : ℕ → List ℕ
big_endian x = reverse (little_endian 8 x)

unfoldable pub halves_of : List ℕ → Halves
unfolding from_big_endian
halves_of entropy = record {
  hi = from_big_endian (take 8 entropy);
  lo = from_big_endian (drop 8 entropy);
}

unfoldable pub bytes_of : Halves → List ℕ
unfolding big_endian
bytes_of h = big_endian h.hi ++ big_endian h.lo

-- `lo = lo>>k | hi<<(64-k); hi >>= k`
unfoldable pub shift_right : ℕ → Halves → Halves
shift_right k h = record { lo = h.lo / 2 ^ k + (h.hi * 2 ^ (64 - k)) % 2 ^ 64; hi = h.hi / 2 ^ k }

-- `hi = hi<<k | lo>>(64-k); lo = lo<<k | w`
unfoldable pub shift_left : ℕ → ℕ → Halves → Halves
shift_left k w h = record {
  hi = (h.hi * 2 ^ k) % 2 ^ 64 + h.lo / 2 ^ (64 - k);
  lo = (h.lo * 2 ^ k) % 2 ^ 64 + w;
}

-- The indices of the words, from the last to the first, before those that are known.
unfoldable pub word_indices : ℕ → Halves → List ℕ → List ℕ
unfolding shift_right
word_indices zero h rest = rest
word_indices (suc n) h rest = word_indices n (shift_right 11 h) (h.lo % 2048 ∷ rest)

-- Indexing the word list; out of range it panics.
unfoldable pub words_at : List Word → List ℕ → Option (List Word)
words_at word_list [] = some []
words_at word_list (i ∷ is) =
    get_elem? word_list i >>= λ w. words_at word_list is >>= λ ws. some (w ∷ ws)

unfoldable pub push_word : Halves → ℕ → Halves
unfolding shift_left
push_word h w = shift_left 11 w h

-- wordMap
unfoldable pub fill_word_map : ℕ → List Word → List (Word × ℕ) → List (Word × ℕ)
fill_word_map i [] m = m
fill_word_map i (w ∷ ws) m = fill_word_map (suc i) ws (put w i m)

unfoldable pub word_map : List Word → Word → Option ℕ
unfolding fill_word_map
word_map word_list w = lookup w (fill_word_map 0 word_list [])

unfoldable pub indices_of : List Word → List Word → Option (List ℕ)
unfolding word_map
indices_of word_list [] = some []
indices_of word_list (w ∷ ws) =
    word_map word_list w >>= λ i. indices_of word_list ws >>= λ is. some (i ∷ is)

pub data PhraseError : Type 0 where
  wrong_number : PhraseError
  unrecognized : PhraseError
  invalid_checksum : PhraseError

pub data Decoded : Type 0 where
  decoded : List ℕ → Decoded
  undecodable : PhraseError → Decoded

unfoldable pub last_index : List ℕ → ℕ
last_index [] = 0
last_index (i ∷ []) = i
last_index (i ∷ i' ∷ is) = last_index (i' ∷ is)

unfoldable pub all_but_last : List ℕ → List ℕ
all_but_last [] = []
all_but_last (i ∷ []) = []
all_but_last (i ∷ i' ∷ is) = i ∷ all_but_last (i' ∷ is)

module _ ⦃sha : Sha256⦄ where
  unfoldable pub first_of : List ℕ → ℕ
  first_of [] = 0
  first_of (b ∷ bytes) = b

  -- `(hash[0] & 0xF0) >> 4`
  unfoldable pub bip39_checksum : List ℕ → ℕ
  unfolding first_of
  bip39_checksum entropy = first_of (sha.sum256 entropy) % 256 / 16

  unfoldable pub encode_bip39_phrase : List Word → List ℕ → Option (List Word)
  unfolding halves_of words_at word_indices bip39_checksum shift_right
  encode_bip39_phrase word_list entropy =
      let h = halves_of entropy in
      let w = h.lo % 128 * 16 + bip39_checksum entropy in
      words_at word_list (word_indices 11 (shift_right 7 h) (w ∷ []))

  unfoldable pub checked_entropy : ℕ → List ℕ → Decoded
  unfolding bip39_checksum
  checked_entropy checksum entropy =
      if bip39_checksum entropy == checksum then decoded entropy else undecodable invalid_checksum

  unfoldable pub decode_indices : List ℕ → Decoded
  unfolding push_word shift_left bytes_of checked_entropy last_index all_but_last
  decode_indices is =
      let w = last_index is in
      let h = foldl push_word (record { hi = 0; lo = 0 }) (all_but_last is) in
      checked_entropy (w % 16) (bytes_of (shift_left 7 (w / 16) h))

  unfoldable pub decode_known : Option (List ℕ) → Decoded
  unfolding decode_indices
  decode_known none = undecodable unrecognized
  decode_known (some is) = decode_indices is

  unfoldable pub decode_bip39_phrase : List Word → List Word → Decoded
  unfolding decode_known indices_of
  decode_bip39_phrase word_list ws =
      if length ws == 12 then decode_known (indices_of word_list ws) else undecodable wrong_number
