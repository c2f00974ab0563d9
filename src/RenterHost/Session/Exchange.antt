-- ===== src/RenterHost/Session/Exchange.antt =====
-- Requests and responses of Session between a renter and a host.
use us.Prelude.{
  ℕ, ◌+◌, ◌^◌, ◌<◌, ◌≤◌, ◌≡◌, refl, ap, ◌∙◌, true, false, ◌||◌, List, [], ◌++◌, none, some, inl,
  inr, ◌⊎◌, length, replicate, if◌then◌else◌, eq_bytes,
}
use mathlib.Core.List.{append_assoc}
use us.RenterHost.Object.{ProtocolObject, IsCodec}
use us.RenterHost.Object.Keys.{obj_specifier, obj_specifier-IsCodec}
use us.RenterHost.Rpc.Errors.{RpcError}
use us.RenterHost.Rpc.Response.{
  RpcResponse, IsRpcResponse, failure, success, rpc_response, rpc_response-IsCodec,
}
use us.RenterHost.Session.{
  Aead, Session, SessionError, conn_closed, renter_closed, rpc_failure, received, message_size,
  min_message_size, seal_message, send, set_err, read_limit, write_message, close_conn,
}
use us.RenterHost.Session.Rpcs.{
  Entropy, ResponseError, rpc_error_value, other_error, response_error, loop_exit, is_closed,
  result, check_exit, open_response, write_request_object, write_request, read_id, read_request,
  write_response, read_response, close,
}
use us.RenterHost.Session.Transfer.{arriving, IsReady, read_message-seal_message}

-- The RPCError that the other side gets for an error: one as it is, and for another error one that
-- has the text of the error as description and no type and data.
abbrev pub error_of : ResponseError → RpcError
error_of (rpc_error_value e) = e
error_of (other_error text) = record { type = replicate 16 0; «data» = []; description = text }

-- The session when these bytes were written too.
abbrev pub sent : List ℕ → Session → Session
sent bs s = record s { conn = record s.conn { outgoing = s.conn.outgoing ++ bs } }

module _ {ℓ} ⦃aead : Aead⦄ {A : Type ℓ} (o : ProtocolObject A) where
  -- The bytes of a message.
  abbrev pub frame : A → Entropy → List ℕ
  frame x entropy =
      seal_message (message_size (o.marshalled_size x)) entropy.nonce (o.marshal_buffer x)
        entropy.memory

  pub write_message-ready :
      (x : A) (entropy : Entropy) (s : Session)
      → IsReady s
      → write_message o x entropy.nonce entropy.memory s ≡ (none, sent (frame x entropy) s)
  unfolding write_message send
  write_message-ready x entropy s ready =
      ap (λ e. elim e [ some e ↦ (some e, s) | none ↦ send (frame x entropy) s ]) ready.0
      ∙ ap
          (λ b.
            if b
            then (none, sent (frame x entropy) s)
            else (some conn_closed, set_err conn_closed s))
          ready.1

module _ ⦃aead : Aead⦄ where
  -- A message of this size passes a limit.
  abbrev pub IsWithin : ℕ → ℕ → Type 0
  IsWithin size max_len =
      (message_size size ≤ 8 + read_limit max_len) × (message_size size < 2 ^ 63)

  abbrev pub IsNonce : Entropy → Type 0
  IsNonce entropy = length entropy.nonce ≡ aead.nonce_size

  read_id-frame :
      (rpc_id rest : List ℕ) (entropy : Entropy) (r : Session)
      → length rpc_id ≡ 16
      → IsNonce entropy
      → IsReady r
      → IsWithin 16 min_message_size
      → read_id (arriving (frame obj_specifier rpc_id entropy ++ rest) r)
        ≡ some (check_exit (rpc_id, none), arriving rest r)
  unfolding read_id
  read_id-frame rpc_id rest entropy r size whole ready within =
      ap
        (λ m. elim m [
          | none ↦ none
          | some (r, s') ↦ some (check_exit (result (replicate 16 0) r), s')
        ])
        (read_message-seal_message obj_specifier-IsCodec rpc_id min_message_size entropy.nonce
          entropy.memory rest r size whole ready (unfold obj_specifier in within.0)
          (unfold obj_specifier in within.1))
      ∙ (unfold result in refl)

  module _ {ℓ κ} {A : Type ℓ} {P : A → Type κ} {o : ProtocolObject A} (c : IsCodec P o) where
    read_request-frame :
        (x zero_value : A) (max_len : ℕ) (rest : List ℕ) (entropy : Entropy) (r : Session)
        → P x
        → IsNonce entropy
        → IsReady r
        → IsWithin (o.marshalled_size x) max_len
        → read_request o zero_value max_len (arriving (frame o x entropy ++ rest) r)
          ≡ some ((x, none), arriving rest r)
    unfolding read_request
    read_request-frame x zero_value max_len rest entropy r valid whole ready within =
        ap (λ m. elim m [ none ↦ none | some (r, s') ↦ some (result zero_value r, s') ])
          (read_message-seal_message c x max_len entropy.nonce entropy.memory rest r valid whole
            ready within.0 within.1)
        ∙ (unfold result in refl)

    write_request-frames :
        (x : A) (rpc_id : List ℕ) (e1 e2 : Entropy) (s : Session)
        → IsReady s
        → write_request rpc_id o (some x) e1 e2 s
          ≡ (none, sent (frame o x e2) (sent (frame obj_specifier rpc_id e1) s))
    unfolding write_request
    write_request-frames x rpc_id e1 e2 s ready =
        ap (write_request_object o (some x) e2)
          (write_message-ready obj_specifier rpc_id e1 s ready)
        ∙ (unfold write_request_object in
            write_message-ready o x e2 (sent (frame obj_specifier rpc_id e1) s) ready)

    -- A renter and a host have open sessions without error, the renter has written nothing else,
    -- and the messages are within the limits of the reader. Then after WriteRequest of an ID other
    -- than the one that ends the session and of a valid object, ReadID gives the host the ID and
    -- ReadRequest the object, both without error, and what follows on the connection is left.
    pub read_request-write_request :
        (x zero_value : A) (rpc_id rest : List ℕ) (e1 e2 : Entropy) (s r : Session) (max_len : ℕ)
        → P x
        → length rpc_id ≡ 16
        → eq_bytes rpc_id loop_exit ≡ false
        → IsNonce e1
        → IsNonce e2
        → IsReady s
        → IsReady r
        → s.conn.outgoing ≡ []
        → IsWithin 16 min_message_size
        → IsWithin (o.marshalled_size x) max_len
        → let written = (write_request rpc_id o (some x) e1 e2 s).1.conn.outgoing in
          (between : Session) × (read_id (arriving (written ++ rest) r)
            ≡ some ((rpc_id, none), between))
          × (read_request o zero_value max_len between ≡ some ((x, none), arriving rest r))
    read_request-write_request x zero_value rpc_id rest e1 e2 s r max_len valid size runs whole1
          whole2 ready ready' empty short within =
        let first = frame obj_specifier rpc_id e1 in
        let second = frame o x e2 in
        let written : (write_request rpc_id o (some x) e1 e2 s).1.conn.outgoing ++ rest
            ≡ first ++ (second ++ rest) =
          ap (λ p. p.1.conn.outgoing ++ rest) (write_request-frames x rpc_id e1 e2 s ready)
          ∙ ap (λ l. ((l ++ first) ++ second) ++ rest) empty
          ∙ append_assoc first second rest in
        (
          arriving (second ++ rest) r,
          ap (λ l. read_id (arriving l r)) written
              ∙ read_id-frame rpc_id (second ++ rest) e1 r size whole1 ready' short
              ∙ (unfold check_exit in
                  ap
                    (λ b. some (
                      (rpc_id, if b then some renter_closed else none),
                      arriving (second ++ rest) r,
                    ))
                    runs),
          read_request-frame x zero_value max_len rest e2 r valid whole2 ready' within,
        )

  -- What the other side reads of a response that is given as an error or as data.
  abbrev pub delivered : {A : Type 0} → ResponseError ⊎ A → SessionError ⊎ A
  delivered (inl e) = inl (rpc_failure (error_of e))
  delivered (inr x) = inr x

  abbrev pub response_of : {A : Type 0} → ResponseError ⊎ A → RpcResponse A
  response_of (inl e) = failure (error_of e)
  response_of (inr x) = success x

  module _ {A : Type 0} {P : A → Type 0} {o : ProtocolObject A} (c : IsCodec P o) where
    write_response-frame :
        (resp : ResponseError ⊎ A) (entropy : Entropy) (s : Session)
        → IsReady s
        → write_response o resp entropy s
          ≡ (none, sent (frame (rpc_response o) (response_of resp) entropy) s)
    unfolding write_response response_error
    write_response-frame (inl (rpc_error_value e)) entropy s ready =
        write_message-ready (rpc_response o) (failure e) entropy s ready
    write_response-frame (inl (other_error text)) entropy s ready =
        write_message-ready (rpc_response o) (failure (error_of (other_error text))) entropy s ready
    write_response-frame (inr x) entropy s ready =
        write_message-ready (rpc_response o) (success x) entropy s ready

    open_response-delivered :
        (resp : ResponseError ⊎ A)
        → open_response (received (response_of resp) none) ≡ delivered resp
    unfolding open_response
    open_response-delivered (inl e) = refl
    open_response-delivered (inr x) = refl

    -- Two sessions are open without error, the writer has written nothing else, and the message is
    -- within the limit of the reader. Then after WriteResponse of a valid object, of an RPCError
    -- or of another error, ReadResponse returns the object, the RPCError, or an RPCError with the
    -- text of the other error, and leaves what follows on the connection.
    pub read_response-write_response :
        (resp : ResponseError ⊎ A) (rest : List ℕ) (entropy : Entropy) (s r : Session) (max_len : ℕ)
        → IsRpcResponse P (response_of resp)
        → IsNonce entropy
        → IsReady s
        → IsReady r
        → s.conn.outgoing ≡ []
        → IsWithin ((rpc_response o).marshalled_size (response_of resp)) max_len
        → read_response o max_len
            (arriving ((write_response o resp entropy s).1.conn.outgoing ++ rest) r)
          ≡ some (delivered resp, arriving rest r)
    unfolding read_response
    read_response-write_response resp rest entropy s r max_len valid whole ready ready' empty
          within =
        let bytes = frame (rpc_response o) (response_of resp) entropy in
        let written : (write_response o resp entropy s).1.conn.outgoing ++ rest ≡ bytes ++ rest =
          ap (λ p. p.1.conn.outgoing ++ rest) (write_response-frame resp entropy s ready)
          ∙ ap (λ l. (l ++ bytes) ++ rest) empty in
        ap (λ l. read_response o max_len (arriving l r)) written
        ∙ ap (λ m. elim m [ none ↦ none | some (r, s') ↦ some (open_response r, s') ])
            (read_message-seal_message (rpc_response-IsCodec c) (response_of resp) max_len
              entropy.nonce entropy.memory rest r valid whole ready' within.0 within.1)
        ∙ ap (λ d. some (d, arriving rest r)) (open_response-delivered resp)

  -- When a renter closes its open session without error, having written nothing before, ReadID of
  -- an open session without error returns the exit ID with the error that the renter has closed,
  -- and leaves what follows on the connection.
  pub read_id-close :
      (rest : List ℕ) (entropy : Entropy) (s r : Session)
      → IsNonce entropy
      → IsReady s
      → IsReady r
      → s.closed ≡ false
      → s.is_renter ≡ true
      → s.conn.outgoing ≡ []
      → IsWithin 16 min_message_size
      → read_id (arriving ((close entropy s).conn.outgoing ++ rest) r)
        ≡ some ((loop_exit, some renter_closed), arriving rest r)
  unfolding close is_closed
  read_id-close rest entropy s r whole ready ready' running renter empty short =
      let bytes = frame obj_specifier loop_exit entropy in
      let closing = record s { closed = true } in
      let not_closed : is_closed s ≡ false =
        ap (λ b. b || elim s.err [ none ↦ false | some e ↦ true ]) running
        ∙ ap (λ e. elim e [ none ↦ false | some e ↦ true ]) ready.0 in
      let written : (close entropy s).conn.outgoing ++ rest ≡ bytes ++ rest =
        ap
          (λ b.
            (if b
              then s
              else if s.is_renter
              then (close_conn
                  (write_request loop_exit obj_specifier none entropy entropy closing).1)
              else close_conn closing).conn.outgoing
            ++ rest)
          not_closed
        ∙ ap
            (λ b.
              (if b
                then (close_conn
                    (write_request loop_exit obj_specifier none entropy entropy closing).1)
                else close_conn closing).conn.outgoing
              ++ rest)
            renter
        ∙ (unfold write_request in
            ap (λ p. (write_request_object obj_specifier none entropy p).1.conn.outgoing ++ rest)
              (write_message-ready obj_specifier loop_exit entropy closing ready))
        ∙ (unfold write_request_object in ap (λ l. (l ++ bytes) ++ rest) empty) in
      ap (λ l. read_id (arriving l r)) written
      ∙ read_id-frame loop_exit rest entropy r refl whole ready' short
      ∙ (unfold check_exit in refl)
