-- ===== src/RenterHost/Rpc/Errors.antt =====
-- RPCError of renterhost/encoding.go.
use us.Prelude.{ℕ, ◌+◌, ◌^◌, ◌<◌, List, arith, length}
use us.RenterHost.Buffer.{◌followed_by◌, ◌into◌, ◌⊗◌, read_prefixed_bytes, write_prefixed_bytes}
use us.RenterHost.Buffer.Laws.{Sticky-⊗, Sticky-into, Decodes-⊗, Decodes-into, Decodes-size}
use us.RenterHost.Buffer.Prefix.{Sticky-read_prefixed_bytes, Decodes-read_prefixed_bytes}
use us.RenterHost.Object.{ProtocolObject, IsCodec}
use us.RenterHost.Object.Keys.{IsSpecifier, obj_specifier, obj_specifier-IsCodec}

pub record RpcError : Type 0 where
  pub type : List ℕ
  pub «data» : List ℕ
  pub description : List ℕ

pub record IsRpcError (x : RpcError) : Type 0 where
  pub type : IsSpecifier x.type
  pub «data» : length x.«data» < 2 ^ 64
  pub description : length x.description < 2 ^ 64

unfoldable pub rpc_error : ProtocolObject RpcError
rpc_error = record {
  marshalled_size = λ x. 16 + 8 + length x.«data» + 8 + length x.description;
  marshal_buffer = λ x.
      obj_specifier.marshal_buffer x.type
      followed_by write_prefixed_bytes x.«data»
      followed_by write_prefixed_bytes x.description;
  unmarshal_buffer =
      obj_specifier.unmarshal_buffer ⊗ read_prefixed_bytes ⊗ read_prefixed_bytes into λ t. record {
        type = t.0;
        «data» = t.1.0;
        description = t.1.1;
      };
}

pub rpc_error-IsCodec : IsCodec IsRpcError rpc_error
unfolding rpc_error obj_specifier
rpc_error-IsCodec = record {
  sticky = Sticky-into _ (
      Sticky-⊗ obj_specifier-IsCodec.sticky
        (Sticky-⊗ Sticky-read_prefixed_bytes Sticky-read_prefixed_bytes));
  decodes = λ x v.
      Decodes-size
        (Decodes-into _ (
          Decodes-⊗ (obj_specifier-IsCodec.decodes x.type v.type) (
            Decodes-⊗ (Decodes-read_prefixed_bytes x.«data» v.«data»)
              (Decodes-read_prefixed_bytes x.description v.description))))
        (omega arith);
}
