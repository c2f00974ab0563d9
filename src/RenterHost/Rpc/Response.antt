-- ===== src/RenterHost/Rpc/Response.antt =====
-- rpcResponse of renterhost/session.go and renterhost/encoding.go: an error or the data of a
-- response. Exactly one of the two fields of the source is set.
use us.Prelude.{ℕ, ◌+◌, Bool, true, false, List}
use us.RenterHost.Buffer.{Read, ◌>>=◌, ◌into◌, ◌followed_by◌, write_bool, read_bool}
use us.RenterHost.Buffer.Laws.{Sticky, Sticky->>=, Sticky-into, Decodes, Decodes->>=, Decodes-into}
use us.RenterHost.Buffer.Primitives.{Sticky-read_bool, Decodes-read_bool}
use us.RenterHost.Object.{ProtocolObject, IsCodec}
use us.RenterHost.Rpc.Errors.{RpcError, IsRpcError, rpc_error, rpc_error-IsCodec}

pub data RpcResponse {ℓ} (A : Type ℓ) : Type ℓ where
  failure : RpcError → RpcResponse A
  success : A → RpcResponse A

module _ {A : Type 0} (o : ProtocolObject A) where
  unfoldable pub response_size : RpcResponse A → ℕ
  response_size (failure e) = 1 + rpc_error.marshalled_size e
  response_size (success x) = 1 + o.marshalled_size x

  unfoldable pub write_response : RpcResponse A → List ℕ
  write_response (failure e) = write_bool true followed_by rpc_error.marshal_buffer e
  write_response (success x) = write_bool false followed_by o.marshal_buffer x

  -- After the flag, `is_err`.
  unfoldable pub read_branch : Bool → Read (RpcResponse A)
  read_branch true = rpc_error.unmarshal_buffer into failure
  read_branch false = o.unmarshal_buffer into success

  unfoldable pub rpc_response : ProtocolObject (RpcResponse A)
  rpc_response = record {
    marshalled_size = response_size;
    marshal_buffer = write_response;
    unmarshal_buffer = read_bool >>= read_branch;
  }

abbrev pub IsRpcResponse : {A : Type 0} → (A → Type 0) → RpcResponse A → Type 0
IsRpcResponse P (failure e) = IsRpcError e
IsRpcResponse P (success x) = P x

module _ {A : Type 0} {P : A → Type 0} {o : ProtocolObject A} (c : IsCodec P o) where
  Sticky-read_branch : (is_err : Bool) → Sticky (read_branch o is_err)
  unfolding read_branch
  Sticky-read_branch true = Sticky-into failure rpc_error-IsCodec.sticky
  Sticky-read_branch false = Sticky-into success c.sticky

  Decodes-read_branch :
      (r : RpcResponse A)
      → IsRpcResponse P r
      → Decodes (read_bool >>= read_branch o) (write_response o r) r (response_size o r)
  unfolding read_branch write_response response_size
  Decodes-read_branch (failure e) valid =
      Decodes->>= (read_branch o) (Decodes-read_bool true) Sticky-read_branch
        (Decodes-into failure (rpc_error-IsCodec.decodes e valid))
  Decodes-read_branch (success x) valid =
      Decodes->>= (read_branch o) (Decodes-read_bool false) Sticky-read_branch
        (Decodes-into success (c.decodes x valid))

  pub rpc_response-IsCodec : IsCodec (IsRpcResponse P) (rpc_response o)
  unfolding rpc_response
  rpc_response-IsCodec = record {
    sticky = Sticky->>= (read_branch o) Sticky-read_bool Sticky-read_branch;
    decodes = Decodes-read_branch;
  }
