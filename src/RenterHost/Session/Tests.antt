-- ===== src/RenterHost/Session/Tests.antt =====
-- Runs of the sessions of package renterhost with a toy cipher.
use us.Prelude.{
  ℕ, ◌+◌, ◌%◌, ◌≤◌, ◌≡◌, refl, ◌⊎◌, inl, Bool, true, false, List, [], ◌∷◌, ◌++◌, none, some, arith,
  length, replicate, if◌then◌else◌, ◌==◌,
}
use us.RenterHost.Session.Toy.{toy, entropy}
use us.RenterHost.Object.Keys.{obj_specifier}
use us.RenterHost.Rpc.Errors.{IsRpcError, rpc_error}
use us.RenterHost.Rpc.Lock.{
  RpcLockRequest, IsRpcLockRequest, rpc_lock_request, rpc_lock_request-IsCodec,
}
use us.RenterHost.Rpc.Response.{failure, rpc_response, response_size}
use us.RenterHost.Session.{
  Session, conn_unexpected_eof, renter_closed, rpc_failure, rejected, message_size,
  min_message_size, read_limit, read_message, receive_sized, receive, set_err, write_message,
}
use us.RenterHost.Session.Rpcs.{
  ResponseError, other_error, loop_exit, write_request, read_id, read_request, write_response,
  read_response, close,
}
use us.RenterHost.Session.Transfer.{arriving}
use us.RenterHost.Session.Exchange.{
  error_of, IsWithin, read_request-write_request, read_response-write_response, read_id-close,
}
use us.RenterHost.Session.Steps.{stop, step, writing, reading, Steps-frozen, Steps-IsShut}
use us.RenterHost.Session.Pulls.{IsShut}
use us.RenterHost.Session.Size.{read_message-incoming}
use us.RenterHost.Session.Tag.{mac_tail, aead_tail, mac_tail-aead_tail}

abbrev fresh : Bool → Session
fresh is_renter = record {
  conn = record { incoming = []; outgoing = []; is_open = true };
  challenge = replicate 16 0;
  err = none;
  closed = false;
  is_renter = is_renter;
}

abbrev lock : RpcLockRequest
lock = record { contract_id = replicate 32 4; signature = 5 ∷ 6 ∷ []; timeout = 1000 }

lock-IsRpcLockRequest : IsRpcLockRequest lock
lock-IsRpcLockRequest = record {
  contract_id = refl;
  signature = omega arith;
  timeout = omega arith;
}

-- "LoopLock"
abbrev lock_id : List ℕ
lock_id = 76 ∷ 111 ∷ 111 ∷ 112 ∷ 76 ∷ 111 ∷ 99 ∷ 107 ∷ replicate 8 0

abbrev refusal : ResponseError ⊎ RpcLockRequest
refusal = inl (other_error (110 ∷ 111 ∷ []))

specifier-IsWithin : IsWithin ⦃aead = toy⦄ 16 min_message_size
unfolding message_size read_limit
specifier-IsWithin = (omega arith, omega arith)

lock-IsWithin : IsWithin ⦃aead = toy⦄ (rpc_lock_request.marshalled_size lock) 0
unfolding message_size read_limit rpc_lock_request
lock-IsWithin = (omega arith, omega arith)

read_request-write_request_example :
    let written =
      (write_request ⦃aead = toy⦄ lock_id rpc_lock_request
        (some lock)
        entropy
        entropy
        (fresh true)).1.conn.outgoing in
    (between : Session) × (read_id ⦃aead = toy⦄ (arriving (written ++ (8 ∷ [])) (fresh false))
      ≡ some ((lock_id, none), between))
    × (read_request ⦃aead = toy⦄ rpc_lock_request lock 0 between
        ≡ some ((lock, none), arriving (8 ∷ []) (fresh false)))
read_request-write_request_example =
    read_request-write_request ⦃aead = toy⦄ rpc_lock_request-IsCodec lock lock lock_id (8 ∷ [])
      entropy entropy (fresh true) (fresh false) 0 lock-IsRpcLockRequest refl refl refl refl
      (refl, refl) (refl, refl) refl specifier-IsWithin lock-IsWithin

refusal-IsWithin :
    IsWithin ⦃aead = toy⦄
      ((rpc_response rpc_lock_request).marshalled_size
        (failure (error_of (other_error (110 ∷ 111 ∷ [])))))
      0
unfolding message_size read_limit rpc_response response_size rpc_error
refusal-IsWithin = (omega arith, omega arith)

refusal-IsRpcError : IsRpcError (error_of (other_error (110 ∷ 111 ∷ [])))
refusal-IsRpcError = record { type = refl; «data» = omega arith; description = omega arith }

read_response-write_response_example :
    read_response ⦃aead = toy⦄ rpc_lock_request 0 (
      arriving
        ((write_response ⦃aead = toy⦄ rpc_lock_request refusal entropy
            (fresh false)).1.conn.outgoing
          ++ (8 ∷ []))
        (fresh true))
    ≡ some (
      inl (rpc_failure (error_of (other_error (110 ∷ 111 ∷ [])))),
      arriving (8 ∷ []) (fresh true),
    )
read_response-write_response_example =
    read_response-write_response ⦃aead = toy⦄ rpc_lock_request-IsCodec refusal (8 ∷ []) entropy
      (fresh false) (fresh true) 0 refusal-IsRpcError refl (refl, refl) (refl, refl) refl
      refusal-IsWithin

read_id-close_example :
    read_id ⦃aead = toy⦄
      (arriving ((close ⦃aead = toy⦄ entropy (fresh true)).conn.outgoing ++ []) (fresh false))
    ≡ some ((loop_exit, some renter_closed), arriving [] (fresh false))
read_id-close_example =
    read_id-close ⦃aead = toy⦄ [] entropy (fresh true) (fresh false) refl (refl, refl) (refl, refl)
      refl refl refl specifier-IsWithin

-- A reading without a byte on the connection.
abbrev broken : Session
broken = record {
  conn = record { incoming = []; outgoing = []; is_open = false };
  challenge = replicate 16 0;
  err = some conn_unexpected_eof;
  closed = false;
  is_renter = true;
}

read_nothing :
    read_message ⦃aead = toy⦄ obj_specifier 0 (fresh true)
    ≡ some (rejected conn_unexpected_eof, broken)
unfolding read_message receive_sized receive set_err
read_nothing = refl

read_message-incoming_example :
    length (fresh true).conn.incoming ≤ length broken.conn.incoming + 8 + 4096
read_message-incoming_example =
    read_message-incoming ⦃aead = toy⦄ obj_specifier 0 (fresh true) broken
      (rejected conn_unexpected_eof) read_nothing

Steps-frozen_example :
    ((write_message ⦃aead = toy⦄ obj_specifier loop_exit (replicate 12 5) (1 ∷ 2 ∷ []) broken).1.err
      ≡ some conn_unexpected_eof)
    × ((write_message ⦃aead = toy⦄ obj_specifier loop_exit
          (replicate 12 5)
          (1 ∷ 2 ∷ [])
          broken).1.conn.outgoing
        ≡ [])
Steps-frozen_example =
    Steps-frozen ⦃aead = toy⦄ broken
      (write_message ⦃aead = toy⦄ obj_specifier loop_exit (replicate 12 5) (1 ∷ 2 ∷ []) broken).1
      conn_unexpected_eof (step (writing obj_specifier loop_exit entropy broken) (stop _)) refl

Steps-IsShut_example : IsShut broken
Steps-IsShut_example =
    Steps-IsShut ⦃aead = toy⦄ (fresh true) broken
      (step (reading obj_specifier 0 read_nothing) (stop broken)) refl

mac_tail-aead_tail_example :
    mac_tail 32 ≡ (if 32 % 16 == 0 then replicate 16 0 ++ aead_tail 32 else aead_tail 32)
mac_tail-aead_tail_example = mac_tail-aead_tail 32
