-- ===== src/Wallet/Bip39/Tests.antt =====
-- A seed phrase from a list of 2048 numbered words.
use us.Prelude.{
  ℕ, zero, suc, ◌<◌, ◌≡◌, refl, ap, false, List, [], ◌∷◌, some, arith, length, replicate,
}
use us.Wallet.Bip39.{Word, Sha256, encode_bip39_phrase, decode_bip39_phrase, decoded}
use us.Wallet.Bip39.WordMap.{has_word, DistinctWords}
use us.Wallet.Bip39.RoundTrip.{decode-encode_bip39_phrase}

numbered : ℕ → ℕ → List Word
numbered start zero = []
numbered start (suc n) = (start ∷ []) ∷ numbered (suc start) n

length-numbered : (start n : ℕ) → length (numbered start n) ≡ n
unfolding numbered
length-numbered start zero = refl
length-numbered start (suc n) = ap suc (length-numbered (suc start) n)

numbered-absent : (i start n : ℕ) → i < start → has_word (i ∷ []) (numbered start n) ≡ false
unfolding numbered has_word
numbered-absent i start zero lt = refl
numbered-absent i start (suc n) lt = ground (arith, numbered-absent i (suc start) n)

numbered-DistinctWords : (start n : ℕ) → DistinctWords (numbered start n)
unfolding numbered
numbered-DistinctWords start zero = tt
numbered-DistinctWords start (suc n) =
    (numbered-absent start (suc start) n (omega arith), numbered-DistinctWords (suc start) n)

abbrev toy_sha : Sha256
toy_sha = record { sum256 = λ msg. replicate 32 (length msg) }

abbrev entropy : List ℕ
entropy = 7 ∷ replicate 15 200

decode-encode_bip39_phrase_example :
    (phrase : List Word) × (encode_bip39_phrase ⦃sha = toy_sha⦄ (numbered 0 2048) entropy
      ≡ some phrase)
    × (length phrase ≡ 12)
    × (decode_bip39_phrase ⦃sha = toy_sha⦄ (numbered 0 2048) phrase ≡ decoded entropy)
decode-encode_bip39_phrase_example =
    decode-encode_bip39_phrase ⦃sha = toy_sha⦄ (numbered 0 2048) entropy
      (numbered-DistinctWords 0 2048) (length-numbered 0 2048) refl (omega arith)
