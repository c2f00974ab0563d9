-- ===== src/RenterHost/Session/Size.antt =====
-- How long the messages of Session are, and how much is read for one.
use us.Prelude.{
  ◌-◌, ℕ, ◌+◌, ◌≤◌, ◌≡◌, ◌∙◌, ap, ◌++◌, some, arith, length, length-append, if◌then◌else◌, ltb,
}
use us.RenterHost.Buffer.{write_prefix}
use us.RenterHost.Object.{ProtocolObject, IsCodec}
use us.RenterHost.Session.{
  Aead, Session, Received, message_size, min_message_size, read_message, read_limit,
}
use us.RenterHost.Session.Rpcs.{Entropy}
use us.RenterHost.Session.Framing.{
  padding, length-padding, length-message_size, length-write_prefix, seal_message-padding,
}
use us.RenterHost.Session.Exchange.{frame, IsNonce}
use us.RenterHost.Session.Pulls.{read_message-Pulls}

module _ {ℓ κ} ⦃aead : Aead⦄ {A : Type ℓ} {P : A → Type κ} {o : ProtocolObject A}
    (c : IsCodec P o) where
  -- The message that writeMessage sends for a valid object has msgSize bytes: the size of the
  -- object with prefix, nonce and tag, or MinMessageSize if that is more. So messages of objects
  -- below that size cannot be told apart by their lengths.
  pub length-frame :
      (x : A) (entropy : Entropy)
      → P x
      → IsNonce entropy
      → length (frame o x entropy) ≡ message_size (o.marshalled_size x)
  length-frame x entropy valid whole =
      let size = o.marshalled_size x in
      let m = message_size size in
      let object = o.marshal_buffer x in
      let object_size : length object ≡ size = (c.decodes x valid).size in
      let fits : 8 + aead.nonce_size + size + aead.overhead ≤ m = length-message_size size in
      let pad = padding m (length object) entropy.memory in
      let sealed = aead.seal entropy.nonce (object ++ pad) in
      ap (λ l. length l)
        (seal_message-padding m entropy.nonce object entropy.memory whole
          (omega (arith, object_size, fits)))
      ∙ omega (
        arith,
        object_size,
        fits,
        whole,
        length-write_prefix (m - 8),
        length-append (write_prefix (m - 8)) (entropy.nonce ++ sealed),
        length-append entropy.nonce sealed,
        aead.length-seal entropy.nonce (object ++ pad) whole,
        length-append object pad,
        length-padding m (length object) entropy.memory,
      )

module _ ⦃aead : Aead⦄ {A : Type 0} (o : ProtocolObject A) where
  -- A call of readMessage that does not panic takes at most 8 bytes and the larger of maxLen and
  -- MinMessageSize off the connection, whatever is on it and whether it succeeds or fails.
  pub read_message-incoming :
      (max_len : ℕ) (s s' : Session) (r : Received A)
      → read_message o max_len s ≡ some (r, s')
      → length s.conn.incoming
        ≤ length s'.conn.incoming
          + 8
          + (if ltb max_len min_message_size then min_message_size else max_len)
  unfolding read_limit
  read_message-incoming max_len s s' r read =
      omega (arith, (read_message-Pulls o max_len s s' r read).takes)
