-- ===== src/RenterHost/Handshake/Sessions/Agree.antt =====
-- A handshake between a renter and a host.
use us.Prelude.{
  true, zero, suc, ℕ, ◌+◌, ◌-◌, ◌≤◌, ◌≡◌, refl, ap, sym, ◌∙◌, not, List, [], ◌++◌, Option, some,
  inl, inr, ◌⊎◌, arith, length, drop, if◌then◌else◌, ltb, ◌==◌, Bool-cases,
}
use mathlib.Core.List.{append-nil}
use us.Merkle.Hash.{Blake}
use us.RenterHost.Object.Keys.{obj_specifier, obj_specifier-IsCodec}
use us.RenterHost.Session.{read_message, min_message_size}
use us.RenterHost.Session.Rpcs.{Entropy, result}
use us.RenterHost.Session.Transfer.{IsReady, read_message-seal_message}
use us.RenterHost.Session.Exchange.{frame, sent, write_message-ready, IsWithin}
use us.RenterHost.Handshake.{
  LoopKeyExchangeRequest, LoopKeyExchangeResponse, HandshakeError, unexpected_eof,
  non_ed25519_signature, invalid_signature, write_key_request, write_key_response, read_key_request,
  read_key_response,
}
use us.RenterHost.Handshake.Laws.{IsKeyRequest, IsKeyResponse, read_key_response-write_key_response}
use us.RenterHost.Handshake.Request.{read_key_request-write_key_request}
use us.RenterHost.Handshake.Sessions.{
  Crypto, Opened, supports_chacha, hash_keys, hash_challenge, sign_challenge, verify_challenge,
  greeted, host_response, host_start, host_answer, new_host_session, renter_request, renter_start,
  challenged, renter_answer, new_renter_session,
}

drop-nil : (n : ℕ) → drop {A = ℕ} n [] ≡ []
drop-nil zero = refl
drop-nil (suc n) = refl

module _ ⦃blake : Blake⦄ ⦃crypto : Crypto⦄ (renter_secret host_secret priv challenge : List ℕ)
    (entropy : Entropy) where
  abbrev request : LoopKeyExchangeRequest
  request = renter_request renter_secret

  abbrev response : LoopKeyExchangeResponse
  response = host_response host_secret priv request.public_key

  abbrev pub shared_key : List ℕ
  shared_key = crypto.derive host_secret request.public_key

  abbrev greeting : List ℕ
  greeting = frame ⦃aead = crypto.cipher shared_key⦄ obj_specifier challenge entropy

  request-IsKeyRequest : IsKeyRequest request
  request-IsKeyRequest = record {
    public_key = crypto.length-public renter_secret;
    ciphers = (refl, tt);
    few = omega arith;
  }

  response-IsKeyResponse : IsKeyResponse response
  response-IsKeyResponse = record {
    public_key = crypto.length-public host_secret;
    signature =
        omega (
          arith,
          crypto.length-sign priv (hash_keys request.public_key (crypto.public host_secret)),
        );
    cipher = refl;
  }

  request_read :
      (n : ℕ) → 56 ≤ n → read_key_request n (write_key_request request) ≡ inr (request, [])
  request_read n le =
      ap (read_key_request n) (sym (append-nil (write_key_request request)))
      ∙ read_key_request-write_key_request request [] n request-IsKeyRequest le
      ∙ (elim (Bool-cases (ltb n 72)) [
        | inl less ↦ rw less refl
        | inr more ↦ rw (more, drop-nil (n - 72))
      ])

  -- What both sides end in.
  abbrev pub host_opened : Opened
  host_opened = record {
    key = shared_key;
    session = sent greeting (host_start challenge response []);
  }

  abbrev pub renter_opened : Opened
  renter_opened = record {
    key = shared_key;
    session = record (renter_start renter_secret []) { challenge = challenge };
  }

  host_opens :
      (n : ℕ)
      → 56 ≤ n
      → new_host_session host_secret priv challenge entropy n (write_key_request request)
        ≡ (inr host_opened, write_key_response response ++ greeting)
  unfolding new_host_session host_answer supports_chacha greeted
  host_opens n le =
      ap (host_answer host_secret priv challenge entropy) (request_read n le)
      ∙ ap (greeted shared_key) (
          write_message-ready ⦃aead = crypto.cipher shared_key⦄ obj_specifier challenge entropy
            (host_start challenge response []) (refl, refl))

  response_read :
      read_key_response (write_key_response response ++ greeting) ≡ inr (response, greeting)
  response_read =
      read_key_response-write_key_response response greeting response-IsKeyResponse
      ∙ ap
          (λ (k : ℕ).
            if k == 64
            then inr (response, greeting)
            else if ltb (56 + k + length greeting) 120
            then inl unexpected_eof
            else inl non_ed25519_signature)
          (crypto.length-sign priv (hash_keys request.public_key (crypto.public host_secret)))

  -- The renter, with a key for its cipher.
  abbrev renter_with : List ℕ → Option (HandshakeError ⊎ Opened)
  renter_with key = challenged key (
      read_message ⦃aead = crypto.cipher key⦄ obj_specifier min_message_size
        (renter_start renter_secret greeting))

  module _ (size : length challenge ≡ 16)
      (whole : length entropy.nonce ≡ (crypto.cipher shared_key).nonce_size)
      (short : IsWithin ⦃aead = crypto.cipher shared_key⦄ 16 min_message_size) where
    challenge_read : renter_with shared_key ≡ some (inr renter_opened)
    unfolding obj_specifier
    challenge_read =
        ap
          (λ l. challenged shared_key (
            read_message ⦃aead = crypto.cipher shared_key⦄ obj_specifier min_message_size
              (renter_start renter_secret l)))
          (sym (append-nil greeting))
        ∙ ap (challenged shared_key) (
            read_message-seal_message ⦃aead = crypto.cipher shared_key⦄ obj_specifier-IsCodec
              challenge min_message_size entropy.nonce entropy.memory []
              (renter_start renter_secret []) size whole (refl, refl) short.0 short.1)
        ∙ (unfold challenged in unfold result in refl)

    renter_opens :
        new_renter_session renter_secret
          (crypto.sign_public priv)
          (write_key_response response ++ greeting)
        ≡ some (inr renter_opened)
    unfolding new_renter_session renter_answer
    renter_opens =
        ap (renter_answer renter_secret (crypto.sign_public priv)) response_read
        ∙ ap
            (λ b.
              if not b
              then some (inl invalid_signature)
              else renter_with (crypto.derive renter_secret response.public_key))
            (crypto.verify-sign priv (hash_keys request.public_key (crypto.public host_secret)))
        ∙ ap renter_with (crypto.derive_comm renter_secret host_secret)
        ∙ challenge_read

-- The two sides have one key and one challenge, which each can sign for the other, can go on, and
-- have read all there is.
pub record AreConnected ⦃blake : Blake⦄ ⦃crypto : Crypto⦄ (host renter : Opened) : Type 0 where
  pub keys : renter.key ≡ host.key
  pub challenges : renter.session.challenge ≡ host.session.challenge
  pub host_ready : IsReady host.session
  pub renter_ready : IsReady renter.session
  pub host_incoming : host.session.conn.incoming ≡ []
  pub signs :
      (priv : List ℕ)
      → verify_challenge (sign_challenge priv renter.session) (crypto.sign_public priv) host.session
        ≡ true
  pub renter_incoming : renter.session.conn.incoming ≡ []

-- A host reads the request of a renter, whichever number of bytes from 56 on its first read gets,
-- and the renter reads what the host answers. If the challenge has 16 bytes, the nonce has the
-- size of the cipher and a specifier fits a message, then NewHostSession and NewRenterSession with
-- the public key of the host both return a session: both have one key and one challenge, which the
-- host verifies when the renter signs it with any key, no error, and nothing left to read.
pub new_renter_session-new_host_session :
    ⦃blake : Blake⦄ ⦃crypto : Crypto⦄ (renter_secret host_secret priv challenge : List ℕ)
    (entropy : Entropy) (n : ℕ)
    → 56 ≤ n
    → length challenge ≡ 16
    → length entropy.nonce
      ≡ (crypto.cipher (crypto.derive host_secret (crypto.public renter_secret))).nonce_size
    → IsWithin ⦃aead = crypto.cipher (crypto.derive host_secret (crypto.public renter_secret))⦄ 16
        min_message_size
    → let answer =
        new_host_session host_secret priv challenge entropy n
          (write_key_request (renter_request renter_secret)) in
      (host : Opened) × (renter : Opened) × (answer.0 ≡ inr host)
      × (new_renter_session renter_secret (crypto.sign_public priv) answer.1 ≡ some (inr renter))
      × AreConnected host renter
new_renter_session-new_host_session ⦃crypto = crypto⦄ renter_secret host_secret priv challenge
      entropy n le size whole short =
    let opens = host_opens renter_secret host_secret priv challenge entropy n le in
    let renter = renter_opens renter_secret host_secret priv challenge entropy size whole short in
    (
      host_opened renter_secret host_secret priv challenge entropy,
      renter_opened renter_secret host_secret priv challenge entropy,
      ap (λ p. p.0) opens,
      ap (λ p. new_renter_session renter_secret (crypto.sign_public priv) p.1) opens ∙ renter,
      record {
        keys = refl;
        challenges = refl;
        host_ready = (refl, refl);
        renter_ready = (refl, refl);
        host_incoming = refl;
        signs = λ key.
            unfold verify_challenge in
            unfold sign_challenge in crypto.verify-sign key (hash_challenge challenge);
        renter_incoming = refl;
      },
    )
