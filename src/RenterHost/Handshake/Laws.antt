-- ===== src/RenterHost/Handshake/Laws.antt =====
-- loopKeyExchangeResponse, written and then read.
use us.Prelude.{
  ℕ, ◌+◌, ◌^◌, ◌<◌, ◌≤◌, ◌≡◌, ap, sym, ◌∙◌, false, List, ◌++◌, arith, length, take, drop, ltb, ◌==◌,
  if◌then◌else◌, Bool-cases, inl, inr, All, length-append, drop-drop,
}
use mathlib.Core.List.{append_assoc}
use us.Prelude.Bytes.{
  little_endian, from_little_endian, length-little_endian, from_little_endian-little_endian,
}
use us.RenterHost.Session.Framing.{take-append_length, drop-append_length}
use us.RenterHost.Handshake.{
  LoopKeyExchangeRequest, LoopKeyExchangeResponse, unexpected_eof, non_ed25519_signature,
  write_key_response, read_key_response,
}

-- Arrays of the sizes of their types, and at most as many ciphers as a host reads.
pub record IsKeyRequest (req : LoopKeyExchangeRequest) : Type 0 where
  pub public_key : length req.public_key ≡ 32
  pub ciphers : All (λ c. length c ≡ 16) req.ciphers
  pub few : length req.ciphers ≤ 16

pub record IsKeyResponse (resp : LoopKeyExchangeResponse) : Type 0 where
  pub public_key : length resp.public_key ≡ 32
  pub signature : length resp.signature < 2 ^ 64
  pub cipher : length resp.cipher ≡ 16

-- Three fields in a row: where each is found.
module _ (a b c : List ℕ) where
  pub second_field : (n m : ℕ) → length a ≡ n → length b ≡ m → take m (drop n (a ++ (b ++ c))) ≡ b
  second_field n m e e' =
      ap (take m) (drop-append_length n a (b ++ c) e) ∙ take-append_length m b c e'

  pub after_second : (n m : ℕ) → length a ≡ n → length b ≡ m → drop (n + m) (a ++ (b ++ c)) ≡ c
  after_second n m e e' =
      sym (drop-drop n m (a ++ (b ++ c)))
      ∙ ap (drop m) (drop-append_length n a (b ++ c) e)
      ∙ drop-append_length m b c e'

-- readFrom of loopKeyExchangeResponse, on what writeTo sends for a response with arrays of their
-- lengths and a signature shorter than 2 ^ 64 bytes, followed by any bytes: it gives the response
-- and leaves those bytes if the signature has 64 bytes; else it fails for the end of the stream if
-- there are fewer than 120 bytes in all, and for the length of the signature if there are more.
pub read_key_response-write_key_response :
    (resp : LoopKeyExchangeResponse) (rest : List ℕ)
    → IsKeyResponse resp
    → read_key_response (write_key_response resp ++ rest) ≡ (
        if length resp.signature == 64
        then inr (resp, rest)
        else if ltb (56 + length resp.signature + length rest) 120
        then inl unexpected_eof
        else inl non_ed25519_signature)
unfolding write_key_response read_key_response
read_key_response-write_key_response resp rest valid =
    let key = resp.public_key in
    let sig = resp.signature in
    let size = little_endian 8 (length sig) in
    let tail = resp.cipher ++ rest in
    let stream = key ++ (size ++ (sig ++ tail)) in
    let whole : length size ≡ 8 = length-little_endian 8 (length sig) in
    let split : write_key_response resp ++ rest ≡ stream =
      append_assoc key (size ++ (sig ++ resp.cipher)) rest
      ∙ ap (λ l. key ++ l)
          (append_assoc size (sig ++ resp.cipher) rest
            ∙ ap (λ l. size ++ l) (append_assoc sig resp.cipher rest)) in
    let total : length stream ≡ 56 + length sig + length rest = omega (
      arith,
      length-append key (size ++ (sig ++ tail)),
      length-append size (sig ++ tail),
      length-append sig tail,
      length-append resp.cipher rest,
      whole,
      valid.public_key,
      valid.cipher,
    ) in
    let sig_len : from_little_endian (take 8 (drop 32 stream)) ≡ length sig =
      ap from_little_endian (second_field key size (sig ++ tail) 32 8 valid.public_key whole)
      ∙ from_little_endian-little_endian 8 (length sig) valid.signature in
    ap read_key_response split ∙ (elim (Bool-cases (length sig == 64)) [
      | inl same ↦
          let sixty_four : length sig ≡ 64 = ground arith in
          let long : ltb (length stream) 120 ≡ false = ground arith in
          let key_read = take-append_length 32 key (size ++ (sig ++ tail)) valid.public_key in
          let after : drop 40 stream ≡ sig ++ tail =
            after_second key size (sig ++ tail) 32 8 valid.public_key whole in
          let sig_read : take 64 (drop 40 stream) ≡ sig =
            ap (take 64) after ∙ take-append_length 64 sig tail sixty_four in
          let later : drop 104 stream ≡ tail =
            sym (drop-drop 40 64 stream)
            ∙ ap (drop 64) after
            ∙ drop-append_length 64 sig tail sixty_four in
          let cipher_read : take 16 (drop 104 stream) ≡ resp.cipher =
            ap (take 16) later ∙ take-append_length 16 resp.cipher rest valid.cipher in
          let left : drop 120 stream ≡ rest =
            sym (drop-drop 104 16 stream)
            ∙ ap (drop 16) later
            ∙ drop-append_length 16 resp.cipher rest valid.cipher in
          rw (read_key_response, long, sig_len, same, key_read, sig_read, cipher_read, left)
      | inr other ↦ rw (read_key_response, total, sig_len, other)
    ])
