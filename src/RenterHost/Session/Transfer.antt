-- ===== src/RenterHost/Session/Transfer.antt =====
-- A message of Session that is written and then read.
use us.Prelude.{
  ℕ, ◌+◌, ◌-◌, ◌^◌, ◌<◌, ◌≤◌, ◌≡◌, ap, sym, ◌∙◌, true, false, List, [], ◌++◌, none, some, arith,
  inr, length, drop, length-append, ltb, leb,
}
use mathlib.Core.List.{append_assoc, append-nil}
use us.RenterHost.Buffer.{unread, write_prefix, read_uint64}
use us.RenterHost.Buffer.Primitives.{Decodes-read_uint64}
use us.RenterHost.Object.{ProtocolObject, IsCodec}
use us.RenterHost.Session.{
  Aead, Session, received, rejected, message_size, seal_message, receive, decode_text,
  decode_message, receive_payload, receive_sized, read_message, read_limit,
}
use us.RenterHost.Session.Framing.{
  padding, length-padding, length-message_size, length-write_prefix, take-append_length,
  drop-append_length, seal_message-padding,
}

-- The session when these bytes are still to be read.
abbrev pub arriving : List ℕ → Session → Session
arriving bs s = record s { conn = record s.conn { incoming = bs } }

-- No error yet, on an open connection.
abbrev pub IsReady : Session → Type 0
IsReady s = (s.err ≡ none) × (s.conn.is_open ≡ true)

pub receive-append :
    (n : ℕ) (bs rest : List ℕ) (s : Session)
    → IsReady s
    → length bs ≡ n
    → receive n (arriving (bs ++ rest) s) ≡ (inr bs, arriving rest s)
unfolding receive
receive-append n bs rest s ready e =
    let enough : leb n (length (bs ++ rest)) ≡ true = ground (arith, length-append bs rest) in
    rw (ready.1, enough, take-append_length n bs rest e, drop-append_length n bs rest e)

read_prefix-value : (n : ℕ) → n < 2 ^ 64 → (read_uint64 (unread (write_prefix n))).0 ≡ n
unfolding write_prefix
read_prefix-value n small =
    let d = Decodes-read_uint64 n small in
    ap (λ l. (read_uint64 (unread l)).0) (sym (append-nil (write_prefix n)))
    ∙ ap (λ p. p.0) (d.reads [])

module _ {ℓ κ} ⦃aead : Aead⦄ {A : Type ℓ} {P : A → Type κ} {o : ProtocolObject A}
    (c : IsCodec P o) where
  decode_message-seal :
      (x : A) (nonce pad : List ℕ) (s : Session)
      → P x
      → length nonce ≡ aead.nonce_size
      → decode_message o (nonce ++ aead.seal nonce (o.marshal_buffer x ++ pad)) s
        ≡ (received x none, s)
  unfolding decode_message
  decode_message-seal x nonce pad s valid whole =
      let text = o.marshal_buffer x ++ pad in
      let sealed = aead.seal nonce text in
      let tag = drop (length sealed - aead.overhead) sealed in
      let read : o.unmarshal_buffer (unread (text ++ tag)) ≡ (x, unread (pad ++ tag)) =
        ap (λ l. o.unmarshal_buffer (unread l)) (append_assoc (o.marshal_buffer x) pad tag)
        ∙ (c.decodes x valid).reads (pad ++ tag) in
      let nonce_read = take-append_length aead.nonce_size nonce sealed whole in
      let sealed_read = drop-append_length aead.nonce_size nonce sealed whole in
      ap
        (λ n.
          decode_text o (drop aead.nonce_size (nonce ++ sealed))
            (aead.unseal n (drop aead.nonce_size (nonce ++ sealed))) s)
        nonce_read
      ∙ ap (λ l. decode_text o l (aead.unseal nonce l) s) sealed_read
      ∙ ap (λ t. decode_text o sealed t s) (aead.unseal-seal nonce text whole)
      ∙ (unfold decode_text in ap (λ p. (received p.0 p.1.err, s)) read)

  receive_sized-prefix :
      (max_len n : ℕ) (s : Session)
      → n ≤ max_len
      → aead.nonce_size + aead.overhead ≤ n
      → n < 2 ^ 63
      → receive_sized o max_len (inr (write_prefix n), s) ≡ some (receive_payload o (receive n s))
  unfolding receive_sized
  receive_sized-prefix max_len n s le ge small =
      let large : ltb max_len n ≡ false = ground arith in
      let tiny : ltb n (aead.nonce_size + aead.overhead) ≡ false = ground arith in
      let negative : leb (2 ^ 63) n ≡ false = ground arith in
      rw (read_prefix-value n (omega arith), large, tiny, negative)

  read_message-ready :
      (max_len : ℕ) (s : Session)
      → s.err ≡ none
      → read_message o max_len s ≡ receive_sized o (read_limit max_len) (receive 8 s)
  unfolding read_message
  read_message-ready max_len s h =
      ap
        (λ e. elim e [
          | some e ↦ some (rejected e, s)
          | none ↦ receive_sized o (read_limit max_len) (receive 8 s)
        ])
        h

  pub read_message-seal_message :
      (x : A) (max_len : ℕ) (nonce memory rest : List ℕ) (r : Session)
      → P x
      → length nonce ≡ aead.nonce_size
      → IsReady r
      → message_size (o.marshalled_size x) ≤ 8 + read_limit max_len
      → message_size (o.marshalled_size x) < 2 ^ 63
      → read_message o max_len (
          arriving
            (seal_message (message_size (o.marshalled_size x)) nonce (o.marshal_buffer x) memory
              ++ rest)
            r)
        ≡ some (received x none, arriving rest r)
  read_message-seal_message x max_len nonce memory rest r valid whole ready le small =
      let size = o.marshalled_size x in
      let m = message_size size in
      let object = o.marshal_buffer x in
      let object_size : length object ≡ size = (c.decodes x valid).size in
      let fits : 8 + aead.nonce_size + size + aead.overhead ≤ m = length-message_size size in
      let pad = padding m (length object) memory in
      let sealed = aead.seal nonce (object ++ pad) in
      let payload = nonce ++ sealed in
      let payload_size : length payload ≡ m - 8 = omega (
        arith,
        object_size,
        fits,
        whole,
        length-append nonce sealed,
        aead.length-seal nonce (object ++ pad) whole,
        length-append object pad,
        length-padding m (length object) memory,
      ) in
      let frame : seal_message m nonce object memory ++ rest
          ≡ write_prefix (m - 8) ++ (payload ++ rest) =
        ap (λ l. l ++ rest)
          (seal_message-padding m nonce object memory whole (omega (arith, object_size, fits)))
        ∙ append_assoc (write_prefix (m - 8)) payload rest in
      read_message-ready max_len (arriving (seal_message m nonce object memory ++ rest) r) ready.0
      ∙ ap (λ l. receive_sized o (read_limit max_len) (receive 8 (arriving l r))) frame
      ∙ ap (receive_sized o (read_limit max_len)) (
          receive-append 8 (write_prefix (m - 8)) (payload ++ rest) r ready
            (length-write_prefix (m - 8)))
      ∙ receive_sized-prefix (read_limit max_len) (m - 8) (arriving (payload ++ rest) r)
          (omega arith) (omega (arith, fits)) (omega arith)
      ∙ ap (λ p. some (receive_payload o p))
          (receive-append (m - 8) payload rest r ready payload_size)
      ∙ (unfold receive_payload in
          ap some (decode_message-seal x nonce pad (arriving rest r) valid whole))
