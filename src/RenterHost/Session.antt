-- ===== src/RenterHost/Session.antt =====
-- Session of renterhost/session.go: messages that are framed, padded and encrypted, on a connection.
pub mod Rpcs
pub mod Framing
pub mod Transfer
pub mod Exchange
pub mod Pulls
pub mod Tag
pub mod Size
pub mod Toy
mod Tests
pub mod Steps
use us.Prelude.{
  ℕ, ◌+◌, ◌-◌, ◌^◌, ◌≡◌, Bool, true, false, List, [], ◌++◌, Option, none, some, inl, inr, ◌⊎◌,
  length, take, drop, replicate, ltb, leb, if◌then◌else◌,
}
use us.RenterHost.Buffer.{BufferError, unread, read_uint64, write_prefix, ◌followed_by◌}
use us.RenterHost.Object.{ProtocolObject}
use us.RenterHost.Rpc.Errors.{RpcError}

-- cipher.AEAD of crypto/cipher, with the key of the session: the sealed text of a nonce and a text
-- is longer by `overhead`, and opens to the text.
pub record Aead : Type 0 where
  pub nonce_size : ℕ
  pub overhead : ℕ
  pub seal : List ℕ → List ℕ → List ℕ
  pub unseal : List ℕ → List ℕ → Option (List ℕ)
  pub length-seal :
      (nonce text : List ℕ)
      → length nonce ≡ nonce_size
      → length (seal nonce text) ≡ length text + overhead
  pub unseal-seal :
      (nonce text : List ℕ) → length nonce ≡ nonce_size → unseal nonce (seal nonce text) ≡ some text

pub data SessionError : Type 0 where
  conn_closed : SessionError
  conn_unexpected_eof : SessionError
  message_too_large : SessionError
  message_too_small : SessionError
  authentication_failed : SessionError
  renter_closed : SessionError
  object_error : BufferError → SessionError
  rpc_failure : RpcError → SessionError

-- The two directions of a connection: what is still to be read, and what was written. No error but
-- the end of the stream is temporary or comes from the network.
pub record Conn : Type 0 where
  pub incoming : List ℕ
  pub outgoing : List ℕ
  pub is_open : Bool

pub record Session : Type 0 where
  pub conn : Conn
  pub challenge : List ℕ
  pub err : Option SessionError
  pub closed : Bool
  pub is_renter : Bool

abbrev pub min_message_size : ℕ
min_message_size = 4096

abbrev pub close_conn : Session → Session
close_conn s = record s { conn = record s.conn { is_open = false } }

unfoldable pub set_err : SessionError → Session → Session
set_err e s = elim s.err [ none ↦ record (close_conn s) { err = some e } | some first ↦ s ]

-- conn.Write
unfoldable pub send : List ℕ → Session → Option SessionError × Session
unfolding set_err
send bytes s =
    if s.conn.is_open
    then (none, record s { conn = record s.conn { outgoing = s.conn.outgoing ++ bytes } })
    else (some conn_closed, set_err conn_closed s)

-- copyN from the connection, and setErr.
unfoldable pub receive : ℕ → Session → (SessionError ⊎ List ℕ) × Session
unfolding set_err
receive n s =
    if s.conn.is_open
    then if leb n (length s.conn.incoming)
      then (
        inr (take n s.conn.incoming),
        record s { conn = record s.conn { incoming = drop n s.conn.incoming } },
      )
      else (
        inl conn_unexpected_eof,
        set_err conn_unexpected_eof (record s { conn = record s.conn { incoming = [] } }),
      )
    else (inl conn_closed, set_err conn_closed s)

-- `buf[:n]`: beyond what was written, the memory of the buffer, and zeros where it is new.
unfoldable pub extend : ℕ → List ℕ → List ℕ → List ℕ
extend n written memory = take n (written ++ (memory ++ replicate n 0))

-- What reading a message leaves: an error before the object is decoded, or the object and the error
-- of its decoding.
pub data Received {ℓ} (A : Type ℓ) : Type ℓ where
  rejected : SessionError → Received A
  received : A → Option BufferError → Received A

-- The least limit on the size of a message that is read.
unfoldable pub read_limit : ℕ → ℕ
read_limit max_len = if ltb max_len min_message_size then min_message_size else max_len

module _ ⦃aead : Aead⦄ where
  unfoldable pub message_size : ℕ → ℕ
  message_size size =
      let msg_size = 8 + aead.nonce_size + size + aead.overhead in
      if ltb msg_size min_message_size then min_message_size else msg_size

  -- The prefix, the nonce and the object in the buffer, with the payload encrypted in place.
  unfoldable pub seal_message : ℕ → List ℕ → List ℕ → List ℕ → List ℕ
  unfolding extend
  seal_message msg_size nonce object memory =
      let msg =
        extend msg_size (write_prefix (msg_size - 8) followed_by nonce followed_by object) memory in
      let start = 8 + length nonce in
      take start msg
      ++ aead.seal (take (length nonce) (drop 8 msg))
          (drop start (take (msg_size - aead.overhead) msg))

  unfoldable pub write_message {ℓ} :
      {A : Type ℓ}
      → ProtocolObject A
      → A
      → List ℕ
      → List ℕ
      → Session
      → Option SessionError × Session
  unfolding message_size seal_message send
  write_message o x nonce memory s = elim s.err [
    | some e ↦ (some e, s)
    | none ↦
        send (seal_message (message_size (o.marshalled_size x)) nonce (o.marshal_buffer x) memory) s
  ]

  -- Open writes the text over the sealed one in the buffer, which keeps the tag at its end.
  unfoldable pub decode_text {ℓ} :
      {A : Type ℓ} → ProtocolObject A → List ℕ → Option (List ℕ) → Session → Received A × Session
  unfolding set_err
  decode_text o sealed none s = (rejected authentication_failed, set_err authentication_failed s)
  decode_text o sealed (some text) s =
      let read =
        o.unmarshal_buffer (unread (text ++ drop (length sealed - aead.overhead) sealed)) in
      (received read.0 read.1.err, s)

  unfoldable pub decode_message {ℓ} :
      {A : Type ℓ} → ProtocolObject A → List ℕ → Session → Received A × Session
  unfolding decode_text
  decode_message o payload s =
      let nonce = take aead.nonce_size payload in
      let sealed = drop aead.nonce_size payload in decode_text o sealed (aead.unseal nonce sealed) s

  unfoldable pub receive_payload {ℓ} :
      {A : Type ℓ} → ProtocolObject A → (SessionError ⊎ List ℕ) × Session → Received A × Session
  unfolding decode_message
  receive_payload o (inl e, s) = (rejected e, s)
  receive_payload o (inr payload, s) = decode_message o payload s

  -- The checks of the size of the message. `none` is the panic of Grow on a negative size.
  unfoldable pub receive_sized {ℓ} :
      {A : Type ℓ}
      → ProtocolObject A
      → ℕ
      → (SessionError ⊎ List ℕ) × Session
      → Option (Received A × Session)
  unfolding receive_payload receive
  receive_sized o max_len (inl e, s) = some (rejected e, s)
  receive_sized o max_len (inr prefix, s) =
      let msg_size = (read_uint64 (unread prefix)).0 in
      if ltb max_len msg_size
      then some (rejected message_too_large, s)
      else if ltb msg_size (aead.nonce_size + aead.overhead)
      then some (rejected message_too_small, s)
      else if leb (2 ^ 63) msg_size
      then none
      else some (receive_payload o (receive msg_size s))

  unfoldable pub read_message {ℓ} :
      {A : Type ℓ} → ProtocolObject A → ℕ → Session → Option (Received A × Session)
  unfolding receive_sized receive read_limit
  read_message o max_len s = elim s.err [
    | some e ↦ some (rejected e, s)
    | none ↦ receive_sized o (read_limit max_len) (receive 8 s)
  ]
