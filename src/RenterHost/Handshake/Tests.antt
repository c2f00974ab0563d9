-- ===== src/RenterHost/Handshake/Tests.antt =====
-- Runs of the handshake of package renterhost with toy ciphers and signatures.
use us.Prelude.{
  ℕ, ◌+◌, ◌≡◌, refl, ap, inl, inr, true, List, [], ◌∷◌, ◌++◌, some, arith, replicate, drop, ltb,
  if◌then◌else◌, ◌==◌,
}
use us.RenterHost.Session.{message_size, min_message_size, read_limit}
use us.RenterHost.Session.Exchange.{IsWithin}
use us.RenterHost.Handshake.{
  LoopKeyExchangeRequest, LoopKeyExchangeResponse, unexpected_eof, non_ed25519_signature,
  write_key_request, write_key_response, read_key_request, read_key_response,
}
use us.RenterHost.Handshake.Laws.{read_key_response-write_key_response}
use us.RenterHost.Handshake.Request.{read_key_request-write_key_request}
use us.Merkle.Hash.{Blake}
use us.RenterHost.Session.Toy.{toy, entropy}
use us.RenterHost.Handshake.Sessions.{
  Crypto, Opened, new_host_session, new_renter_session, renter_request,
}
use us.RenterHost.Handshake.Sessions.Agree.{AreConnected, new_renter_session-new_host_session}

abbrev key_request : LoopKeyExchangeRequest
key_request = record { public_key = replicate 32 1; ciphers = replicate 16 1 ∷ replicate 16 2 ∷ [] }

read_key_request-write_key_request_example :
    read_key_request 60 (write_key_request key_request ++ (3 ∷ []))
    ≡ inr (key_request, (if ltb 60 88 then 3 ∷ [] else drop 0 (3 ∷ [])))
read_key_request-write_key_request_example =
    read_key_request-write_key_request key_request (3 ∷ []) 60
      (record { public_key = refl; ciphers = (refl, (refl, tt)); few = omega arith }) (omega arith)

-- The response of a host that supports none of the ciphers: it has no signature.
abbrev no_overlap : LoopKeyExchangeResponse
no_overlap = record { public_key = replicate 32 0; signature = []; cipher = replicate 16 78 }

read_key_response-write_key_response_example :
    read_key_response (write_key_response no_overlap ++ []) ≡ (
      if 0 == 64
      then inr (no_overlap, [])
      else if ltb 56 120
      then inl unexpected_eof
      else inl non_ed25519_signature)
read_key_response-write_key_response_example =
    read_key_response-write_key_response no_overlap []
      (record { public_key = refl; signature = omega arith; cipher = refl })

add_up : List ℕ → ℕ
add_up [] = 0
add_up (x ∷ xs) = x + add_up xs

abbrev blake : Blake
blake = record { sum256 = λ msg. add_up msg ∷ replicate 31 0; length-sum256 = λ msg. refl }

-- The shared key is the sum of the secrets.
first : List ℕ → ℕ
first [] = 0
first (x ∷ xs) = x

abbrev crypto : Crypto
unfolding first
crypto = record {
  public = λ secret. add_up secret ∷ replicate 31 0;
  derive = λ secret key. (add_up secret + first key) ∷ [];
  sign = λ priv hash. replicate 64 1;
  sign_public = λ priv. priv;
  verify = λ key hash sig. true;
  cipher = λ key. toy;
  length-public = λ secret. refl;
  derive_comm = λ a b. ap (λ (n : ℕ). n ∷ []) (omega arith);
  length-sign = λ priv hash. refl;
  verify-sign = λ priv hash. refl;
}

specifier-IsWithin : IsWithin ⦃aead = toy⦄ 16 min_message_size
unfolding message_size read_limit
specifier-IsWithin = (omega arith, omega arith)

new_renter_session-new_host_session_example :
    let answer =
      new_host_session ⦃blake = blake⦄ ⦃crypto = crypto⦄
        (5 ∷ [])
        (6 ∷ [])
        (replicate 16 9)
        entropy
        72
        (write_key_request (renter_request ⦃blake = blake⦄ ⦃crypto = crypto⦄ (4 ∷ []))) in
    (host : Opened) × (renter : Opened) × (answer.0 ≡ inr host)
    × (new_renter_session ⦃blake = blake⦄ ⦃crypto = crypto⦄
          (4 ∷ [])
          (crypto.sign_public (6 ∷ []))
          answer.1
        ≡ some (inr renter))
    × AreConnected ⦃blake = blake⦄ ⦃crypto = crypto⦄ host renter
unfolding crypto
new_renter_session-new_host_session_example =
    new_renter_session-new_host_session ⦃blake = blake⦄ ⦃crypto = crypto⦄ (4 ∷ []) (5 ∷ []) (6 ∷ [])
      (replicate 16 9) entropy 72 (omega arith) refl refl specifier-IsWithin
