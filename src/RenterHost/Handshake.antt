-- ===== src/RenterHost/Handshake.antt =====
-- The objects of the handshake of renterhost/session.go, which renterhost/encoding.go sends
-- unencrypted.
pub mod Laws
pub mod Request
pub mod Sessions
mod Tests
use us.Prelude.{
  ℕ, zero, suc, ◌+◌, ◌*◌, ◌-◌, ◌^◌, ◌≡◌, Bool, true, false, not, List, [], ◌∷◌, ◌++◌, length, take,
  drop, replicate, ltb, ◌==◌, if◌then◌else◌, eq_bytes, inl, inr, ◌⊎◌,
}
use us.RenterHost.Session.{SessionError}
use us.Prelude.Bytes.{little_endian, from_little_endian}

pub record LoopKeyExchangeRequest : Type 0 where
  pub public_key : List ℕ
  pub ciphers : List (List ℕ)

pub record LoopKeyExchangeResponse : Type 0 where
  pub public_key : List ℕ
  pub signature : List ℕ
  pub cipher : List ℕ

pub data HandshakeError : Type 0 where
  unexpected_eof : HandshakeError
  wrong_specifier : HandshakeError
  too_many_ciphers : HandshakeError
  non_ed25519_signature : HandshakeError
  no_supported_ciphers : HandshakeError
  invalid_signature : HandshakeError
  no_proposed_cipher : HandshakeError
  unsupported_cipher : HandshakeError
  message_failed : SessionError → HandshakeError

-- newSpecifier("LoopEnter")
abbrev pub loop_enter : List ℕ
loop_enter = 76 ∷ 111 ∷ 111 ∷ 112 ∷ 69 ∷ 110 ∷ 116 ∷ 101 ∷ 114 ∷ replicate 7 0

-- The loop that copies the ciphers, one after the other.
unfoldable pub write_ciphers : List (List ℕ) → List ℕ
write_ciphers [] = []
write_ciphers (c ∷ cs) = c ++ write_ciphers cs

-- The loop that reads them.
unfoldable pub read_ciphers : ℕ → List ℕ → List (List ℕ)
read_ciphers zero buf = []
read_ciphers (suc n) buf = take 16 buf ∷ read_ciphers n (drop 16 buf)

unfoldable pub write_key_request : LoopKeyExchangeRequest → List ℕ
unfolding little_endian write_ciphers
write_key_request req =
    loop_enter
    ++ (req.public_key ++ (little_endian 8 (length req.ciphers) ++ write_ciphers req.ciphers))

unfoldable pub write_key_response : LoopKeyExchangeResponse → List ℕ
unfolding little_endian
write_key_response resp =
    resp.public_key ++ (little_endian 8 (length resp.signature) ++ (resp.signature ++ resp.cipher))

-- The first read gives `n` bytes of the stream, at least 56 if there are so many and at most 1024;
-- the second gives the missing ones. The result has the bytes that are left in the stream.
unfoldable pub read_key_request : ℕ → List ℕ → HandshakeError ⊎ (LoopKeyExchangeRequest × List ℕ)
unfolding from_little_endian read_ciphers
read_key_request n stream =
    let num_ciphers = from_little_endian (take 8 (drop 48 stream)) in
    let size = 56 + num_ciphers * 16 in
    let request : LoopKeyExchangeRequest = record {
      public_key = take 32 (drop 16 stream);
      ciphers = read_ciphers num_ciphers (drop 56 stream);
    } in
    if ltb (length stream) 56
    then inl unexpected_eof
    else if not (eq_bytes (take 16 stream) loop_enter)
    then inl wrong_specifier
    else if ltb 16 num_ciphers
    then inl too_many_ciphers
    else if ltb n size
    then (if ltb (length stream) size then inl unexpected_eof else inr (request, drop size stream))
    else inr (request, drop n stream)

unfoldable pub read_key_response : List ℕ → HandshakeError ⊎ (LoopKeyExchangeResponse × List ℕ)
unfolding from_little_endian
read_key_response stream =
    let sig_len = from_little_endian (take 8 (drop 32 stream)) in
    if ltb (length stream) 120
    then inl unexpected_eof
    else if not (sig_len == 64)
    then inl non_ed25519_signature
    else inr (
      record {
        public_key = take 32 stream;
        signature = take 64 (drop 40 stream);
        cipher = take 16 (drop 104 stream);
      },
      drop 120 stream,
    )
