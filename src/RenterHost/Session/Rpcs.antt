-- ===== src/RenterHost/Session/Rpcs.antt =====
-- The requests and responses of Session in renterhost/session.go.
use us.Prelude.{
  ℕ, ◌-◌, Bool, true, false, ◌||◌, List, [], ◌∷◌, ◌++◌, Option, none, some, inl, inr, ◌⊎◌, length,
  replicate, leb, if◌then◌else◌, eq_bytes,
}
use us.RenterHost.Object.{ProtocolObject}
use us.RenterHost.Object.Keys.{obj_specifier}
use us.RenterHost.Rpc.Errors.{RpcError}
use us.RenterHost.Rpc.Response.{RpcResponse, failure, success, rpc_response}
use us.RenterHost.Session.{
  Aead, Session, SessionError, renter_closed, object_error, rpc_failure, Received, rejected,
  received, read_message, write_message, close_conn, min_message_size,
}

-- newSpecifier, on the bytes of a string; `none` is its panic.
unfoldable pub new_specifier : List ℕ → Option (List ℕ)
new_specifier str =
    if leb (length str) 16 then some (str ++ replicate (16 - length str) 0) else none

-- newSpecifier("LoopExit")
abbrev pub loop_exit : List ℕ
loop_exit = 76 ∷ 111 ∷ 111 ∷ 112 ∷ 69 ∷ 120 ∷ 105 ∷ 116 ∷ replicate 8 0

-- What a call takes from outside: the random nonce, and the memory of the buffer.
pub record Entropy : Type 0 where
  pub nonce : List ℕ
  pub memory : List ℕ

-- The error that WriteResponse is given: an RPCError, or the text of another error.
pub data ResponseError : Type 0 where
  rpc_error_value : RpcError → ResponseError
  other_error : List ℕ → ResponseError

unfoldable pub response_error : ResponseError → RpcError
response_error (rpc_error_value e) = e
response_error (other_error text) = record {
  type = replicate 16 0;
  «data» = [];
  description = text;
}

unfoldable pub is_closed : Session → Bool
is_closed s = s.closed || elim s.err [ none ↦ false | some e ↦ true ]

-- The object that is returned, and the error.
unfoldable pub result {ℓ} : {A : Type ℓ} → A → Received A → A × Option SessionError
result zero_value (rejected e) = (zero_value, some e)
result zero_value (received x none) = (x, none)
result zero_value (received x (some e)) = (x, some (object_error e))

-- ReadID after readMessage.
unfoldable pub check_exit : List ℕ × Option SessionError → List ℕ × Option SessionError
check_exit (rpc_id, err) = (rpc_id, if eq_bytes rpc_id loop_exit then some renter_closed else err)

-- ReadResponse after readMessage.
unfoldable pub open_response {ℓ} : {A : Type ℓ} → Received (RpcResponse A) → SessionError ⊎ A
open_response (rejected e) = inl e
open_response (received r (some e)) = inl (object_error e)
open_response (received (failure e) none) = inl (rpc_failure e)
open_response (received (success x) none) = inr x

module _ ⦃aead : Aead⦄ where
  -- WriteRequest after its first message.
  unfoldable pub write_request_object {ℓ} :
      {A : Type ℓ}
      → ProtocolObject A
      → Option A
      → Entropy
      → Option SessionError × Session
      → Option SessionError × Session
  unfolding write_message
  write_request_object o req entropy (some e, s) = (some e, s)
  write_request_object o none entropy (none, s) = (none, s)
  write_request_object o (some x) entropy (none, s) =
      write_message o x entropy.nonce entropy.memory s

  unfoldable pub write_request {ℓ} :
      {A : Type ℓ}
      → List ℕ
      → ProtocolObject A
      → Option A
      → Entropy
      → Entropy
      → Session
      → Option SessionError × Session
  unfolding write_request_object write_message obj_specifier
  write_request rpc_id o req first second s =
      write_request_object o req second
        (write_message obj_specifier rpc_id first.nonce first.memory s)

  unfoldable pub read_id : Session → Option ((List ℕ × Option SessionError) × Session)
  unfolding read_message obj_specifier result check_exit
  read_id s = elim (read_message obj_specifier min_message_size s) [
    | none ↦ none
    | some (r, s') ↦ some (check_exit (result (replicate 16 0) r), s')
  ]

  unfoldable pub read_request {ℓ} :
      {A : Type ℓ}
      → ProtocolObject A
      → A
      → ℕ
      → Session
      → Option ((A × Option SessionError) × Session)
  unfolding read_message result
  read_request o req max_len s = elim (read_message o max_len s) [
    | none ↦ none
    | some (r, s') ↦ some (result req r, s')
  ]

  unfoldable pub write_response :
      {A : Type 0}
      → ProtocolObject A
      → ResponseError ⊎ A
      → Entropy
      → Session
      → Option SessionError × Session
  unfolding write_message rpc_response response_error
  write_response o (inl e) entropy s =
      write_message (rpc_response o) (failure (response_error e)) entropy.nonce entropy.memory s
  write_response o (inr x) entropy s =
      write_message (rpc_response o) (success x) entropy.nonce entropy.memory s

  unfoldable pub read_response :
      {A : Type 0} → ProtocolObject A → ℕ → Session → Option ((SessionError ⊎ A) × Session)
  unfolding read_message rpc_response open_response
  read_response o max_len s = elim (read_message (rpc_response o) max_len s) [
    | none ↦ none
    | some (r, s') ↦ some (open_response r, s')
  ]

  -- The error of the message is dropped, and the connection is closed.
  unfoldable pub close : Entropy → Session → Session
  unfolding is_closed write_request
  close entropy s =
      if is_closed s
      then s
      else if s.is_renter
      then (close_conn
          (write_request loop_exit obj_specifier none entropy entropy
            (record s { closed = true })).1)
      else close_conn (record s { closed = true })
