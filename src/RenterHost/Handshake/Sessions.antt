-- ===== src/RenterHost/Handshake/Sessions.antt =====
-- NewHostSession and NewRenterSession of renterhost/session.go.
pub mod Agree
use us.Prelude.{
  ℕ, ◌≡◌, ◌<◌, ◌^◌, Bool, true, false, not, List, [], ◌∷◌, ◌++◌, Option, none, some, inl, inr, ◌⊎◌,
  length, replicate, if◌then◌else◌, eq_bytes,
}
use us.Merkle.Hash.{Blake}
use us.RenterHost.Object.Keys.{obj_specifier}
use us.RenterHost.Session.{
  Aead, Conn, Session, SessionError, Received, write_message, read_message, min_message_size,
}
use us.RenterHost.Session.Rpcs.{Entropy, result}
use us.RenterHost.Handshake.{
  LoopKeyExchangeRequest, LoopKeyExchangeResponse, HandshakeError, no_supported_ciphers,
  invalid_signature, no_proposed_cipher, unsupported_cipher, message_failed, write_key_request,
  write_key_response, read_key_request, read_key_response,
}

-- The libraries that the handshake calls: X25519 of Sia's package crypto, where both sides derive
-- one secret, ed25519, and chacha20poly1305.New.
pub record Crypto : Type 0 where
  pub public : List ℕ → List ℕ
  pub derive : List ℕ → List ℕ → List ℕ
  pub sign : List ℕ → List ℕ → List ℕ
  pub sign_public : List ℕ → List ℕ
  pub verify : List ℕ → List ℕ → List ℕ → Bool
  pub cipher : List ℕ → Aead
  pub length-public : (secret : List ℕ) → length (public secret) ≡ 32
  pub derive_comm : (a b : List ℕ) → derive a (public b) ≡ derive b (public a)
  pub length-sign : (priv hash : List ℕ) → length (sign priv hash) ≡ 64
  pub verify-sign : (priv hash : List ℕ) → verify (sign_public priv) hash (sign priv hash) ≡ true

-- newSpecifier("ChaCha20Poly1305")
abbrev pub cipher_chacha20_poly1305 : List ℕ
cipher_chacha20_poly1305 =
    67 ∷ 104 ∷ 97 ∷ 67 ∷ 104 ∷ 97 ∷ 50 ∷ 48 ∷ 80 ∷ 111 ∷ 108 ∷ 121 ∷ 49 ∷ 51 ∷ 48 ∷ 53 ∷ []

-- newSpecifier("NoOverlap")
abbrev pub cipher_no_overlap : List ℕ
cipher_no_overlap = 78 ∷ 111 ∷ 79 ∷ 118 ∷ 101 ∷ 114 ∷ 108 ∷ 97 ∷ 112 ∷ replicate 7 0

-- A session with the key of its cipher.
pub record Opened : Type 0 where
  pub key : List ℕ
  pub session : Session

abbrev pub set_challenge : List ℕ → Session → Session
set_challenge challenge s = record s { challenge = challenge }

-- The loop over the ciphers of a request.
unfoldable pub supports_chacha : List (List ℕ) → Bool
supports_chacha [] = false
supports_chacha (c ∷ cs) = if eq_bytes c cipher_chacha20_poly1305 then true else supports_chacha cs

module _ ⦃blake : Blake⦄ ⦃crypto : Crypto⦄ where
  unfoldable pub hash_keys : List ℕ → List ℕ → List ℕ
  hash_keys k1 k2 = blake.sum256 (k1 ++ k2)

  -- The text "challenge" in 16 bytes, and the challenge.
  unfoldable pub hash_challenge : List ℕ → List ℕ
  hash_challenge challenge =
      blake.sum256
        ((99 ∷ 104 ∷ 97 ∷ 108 ∷ 108 ∷ 101 ∷ 110 ∷ 103 ∷ 101 ∷ replicate 7 0) ++ challenge)

  unfoldable pub sign_challenge : List ℕ → Session → List ℕ
  unfolding hash_challenge
  sign_challenge priv s = crypto.sign priv (hash_challenge s.challenge)

  unfoldable pub verify_challenge : List ℕ → List ℕ → Session → Bool
  unfolding hash_challenge
  verify_challenge sig pub_key s = crypto.verify pub_key (hash_challenge s.challenge) sig

  -- NewHostSession after the challenge is sent: the session, and the bytes that were written.
  unfoldable pub greeted :
      List ℕ → Option SessionError × Session → (HandshakeError ⊎ Opened) × List ℕ
  greeted key (some e, s) = (inl (message_failed e), s.conn.outgoing)
  greeted key (none, s) = (inr (record { key = key; session = s }), s.conn.outgoing)

  abbrev pub host_response : List ℕ → List ℕ → List ℕ → LoopKeyExchangeResponse
  host_response secret priv renter_key = record {
    public_key = crypto.public secret;
    signature = crypto.sign priv (hash_keys renter_key (crypto.public secret));
    cipher = cipher_chacha20_poly1305;
  }

  abbrev pub host_start : List ℕ → LoopKeyExchangeResponse → List ℕ → Session
  host_start challenge resp rest = record {
    conn = record { incoming = rest; outgoing = write_key_response resp; is_open = true };
    challenge = challenge;
    err = none;
    closed = false;
    is_renter = false;
  }

  -- NewHostSession after the request is read.
  unfoldable pub host_answer :
      List ℕ
      → List ℕ
      → List ℕ
      → Entropy
      → HandshakeError ⊎ (LoopKeyExchangeRequest × List ℕ)
      → (HandshakeError ⊎ Opened) × List ℕ
  unfolding greeted supports_chacha hash_keys write_message write_key_response obj_specifier
  host_answer secret priv challenge entropy (inl e) = (inl e, [])
  host_answer secret priv challenge entropy (inr (req, rest)) =
      let resp = host_response secret priv req.public_key in
      let key = crypto.derive secret req.public_key in
      if supports_chacha req.ciphers
      then greeted key (
          write_message ⦃aead = crypto.cipher key⦄ obj_specifier challenge entropy.nonce
            entropy.memory (host_start challenge resp rest))
      else (
        inl no_supported_ciphers,
        write_key_response
            (record { public_key = replicate 32 0; signature = []; cipher = cipher_no_overlap }),
      )

  -- The secret of X25519, the key for signatures, the challenge and the nonce are random or given;
  -- the first read gets `n` bytes.
  unfoldable pub new_host_session :
      List ℕ → List ℕ → List ℕ → Entropy → ℕ → List ℕ → (HandshakeError ⊎ Opened) × List ℕ
  unfolding host_answer read_key_request
  new_host_session secret priv challenge entropy n stream =
      host_answer secret priv challenge entropy (read_key_request n stream)

  -- What NewRenterSession writes.
  abbrev pub renter_request : List ℕ → LoopKeyExchangeRequest
  renter_request secret = record {
    public_key = crypto.public secret;
    ciphers = cipher_chacha20_poly1305 ∷ [];
  }

  -- NewRenterSession after the challenge is read; `none` is a panic.
  unfoldable pub challenged :
      List ℕ → Option (Received (List ℕ) × Session) → Option (HandshakeError ⊎ Opened)
  unfolding result
  challenged key none = none
  challenged key (some (r, s)) = elim (result (replicate 16 0) r).1 [
    | some e ↦ some (inl (message_failed e))
    | none ↦ some (
        inr
          (record { key = key; session = record s { challenge = (result (replicate 16 0) r).0 } }))
  ]

  abbrev pub renter_start : List ℕ → List ℕ → Session
  renter_start secret rest = record {
    conn = record {
      incoming = rest;
      outgoing = write_key_request (renter_request secret);
      is_open = true;
    };
    challenge = replicate 16 0;
    err = none;
    closed = false;
    is_renter = true;
  }

  -- NewRenterSession after the response is read.
  unfoldable pub renter_answer :
      List ℕ
      → List ℕ
      → HandshakeError ⊎ (LoopKeyExchangeResponse × List ℕ)
      → Option (HandshakeError ⊎ Opened)
  unfolding challenged hash_keys read_message obj_specifier write_key_request
  renter_answer secret pub_key (inl e) = some (inl e)
  renter_answer secret pub_key (inr (resp, rest)) =
      let key = crypto.derive secret resp.public_key in
      if not
        (crypto.verify pub_key (hash_keys (crypto.public secret) resp.public_key) resp.signature)
      then some (inl invalid_signature)
      else if eq_bytes resp.cipher cipher_no_overlap
      then some (inl no_proposed_cipher)
      else if not (eq_bytes resp.cipher cipher_chacha20_poly1305)
      then some (inl unsupported_cipher)
      else challenged key (
          read_message ⦃aead = crypto.cipher key⦄ obj_specifier min_message_size
            (renter_start secret rest))

  unfoldable pub new_renter_session : List ℕ → List ℕ → List ℕ → Option (HandshakeError ⊎ Opened)
  unfolding renter_answer read_key_response
  new_renter_session secret pub_key stream = renter_answer secret pub_key (read_key_response stream)
