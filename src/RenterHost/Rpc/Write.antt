-- ===== src/RenterHost/Rpc/Write.antt =====
-- RPCWriteAction, RPCWriteRequest of renterhost/encoding.go.
use us.Prelude.{ℕ, ◌+◌, ◌^◌, ◌<◌, ◌≡◌, refl, Bool, List, arith, length}
use us.RenterHost.Buffer.{
  ◌followed_by◌, ◌into◌, ◌⊗◌, read, read_bool, read_uint64, read_prefixed_bytes, read_slice,
  write_bool, write_uint64, write_prefixed_bytes, write_slice, sum_sizes,
}
use us.RenterHost.Buffer.Laws.{Sticky-⊗, Sticky-into, Decodes-⊗, Decodes-into, Decodes-size}
use us.RenterHost.Buffer.Primitives.{
  Sticky-read, Sticky-read_bool, Sticky-read_uint64, Decodes-read, Decodes-read_bool,
  Decodes-read_uint64,
}
use us.RenterHost.Buffer.Prefix.{
  Sticky-read_prefixed_bytes, Sticky-read_slice, Decodes-read_prefixed_bytes,
}
use us.RenterHost.Object.{ProtocolObject, IsCodec}
use us.RenterHost.Object.Fields.{IsLeast, IsSlice, Decodes-slice}
use us.RenterHost.Object.Currency.{
  obj_currency, IsCurrency, obj_currency-IsCodec, sizeof_currency, sizeof_currency-IsLeast,
}

pub record RpcWriteAction : Type 0 where
  pub type : List ℕ
  pub a : ℕ
  pub b : ℕ
  pub «data» : List ℕ

pub record IsRpcWriteAction (x : RpcWriteAction) : Type 0 where
  pub type : length x.type ≡ 16
  pub a : x.a < 2 ^ 64
  pub b : x.b < 2 ^ 64
  pub «data» : length x.«data» < 2 ^ 64

unfoldable pub rpc_write_action : ProtocolObject RpcWriteAction
rpc_write_action = record {
  marshalled_size = λ x. 8 + 8 + 8 + length x.«data» + 16;
  marshal_buffer = λ x.
      x.type
      followed_by write_uint64 x.a
      followed_by write_uint64 x.b
      followed_by write_prefixed_bytes x.«data»;
  unmarshal_buffer = read 16 ⊗ read_uint64 ⊗ read_uint64 ⊗ read_prefixed_bytes into λ t. record {
    type = t.0;
    a = t.1.0;
    b = t.1.1.0;
    «data» = t.1.1.1;
  };
}

pub rpc_write_action-IsLeast : IsLeast rpc_write_action 40
unfolding rpc_write_action
rpc_write_action-IsLeast = (omega arith, λ x. omega arith)

unfoldable pub sizeof_action : ℕ
sizeof_action = 16 + 8 + 8 + 8

sizeof_action-value : sizeof_action ≡ 40
unfolding sizeof_action
sizeof_action-value = refl

pub sizeof_action-IsLeast : IsLeast rpc_write_action sizeof_action
sizeof_action-IsLeast = rw sizeof_action-value rpc_write_action-IsLeast

pub rpc_write_action-IsCodec : IsCodec IsRpcWriteAction rpc_write_action
unfolding rpc_write_action
rpc_write_action-IsCodec = record {
  sticky = Sticky-into _ (
      Sticky-⊗ (Sticky-read 16)
        (Sticky-⊗ Sticky-read_uint64 (Sticky-⊗ Sticky-read_uint64 Sticky-read_prefixed_bytes)));
  decodes = λ x v.
      Decodes-size
        (Decodes-into _ (
          Decodes-⊗ (Decodes-read 16 x.type v.type) (
            Decodes-⊗ (Decodes-read_uint64 x.a v.a) (
              Decodes-⊗ (Decodes-read_uint64 x.b v.b)
                (Decodes-read_prefixed_bytes x.«data» v.«data»)))))
        (omega arith);
}

pub record RpcWriteRequest : Type 0 where
  pub actions : List RpcWriteAction
  pub merkle_proof : Bool
  pub new_revision_number : ℕ
  pub new_valid_proof_values : List ℕ
  pub new_missed_proof_values : List ℕ

pub record IsRpcWriteRequest (x : RpcWriteRequest) : Type 0 where
  pub actions : IsSlice IsRpcWriteAction x.actions
  pub new_revision_number : x.new_revision_number < 2 ^ 64
  pub new_valid_proof_values : IsSlice IsCurrency x.new_valid_proof_values
  pub new_missed_proof_values : IsSlice IsCurrency x.new_missed_proof_values

unfoldable pub rpc_write_request : ProtocolObject RpcWriteRequest
rpc_write_request = record {
  marshalled_size = λ x.
      (8 + sum_sizes rpc_write_action.marshalled_size x.actions)
      + 1
      + 8
      + (8 + sum_sizes obj_currency.marshalled_size x.new_valid_proof_values)
      + (8 + sum_sizes obj_currency.marshalled_size x.new_missed_proof_values);
  marshal_buffer = λ x.
      write_slice rpc_write_action.marshal_buffer x.actions
      followed_by write_bool x.merkle_proof
      followed_by write_uint64 x.new_revision_number
      followed_by write_slice obj_currency.marshal_buffer x.new_valid_proof_values
      followed_by write_slice obj_currency.marshal_buffer x.new_missed_proof_values;
  unmarshal_buffer =
      read_slice sizeof_action rpc_write_action.unmarshal_buffer
        ⊗ read_bool
        ⊗ read_uint64
        ⊗ read_slice sizeof_currency obj_currency.unmarshal_buffer
        ⊗ read_slice sizeof_currency obj_currency.unmarshal_buffer
      into λ t. record {
        actions = t.0;
        merkle_proof = t.1.0;
        new_revision_number = t.1.1.0;
        new_valid_proof_values = t.1.1.1.0;
        new_missed_proof_values = t.1.1.1.1;
      };
}

pub rpc_write_request-IsCodec : IsCodec IsRpcWriteRequest rpc_write_request
unfolding rpc_write_request
rpc_write_request-IsCodec = record {
  sticky = Sticky-into _ (
      Sticky-⊗
        (Sticky-read_slice sizeof_action rpc_write_action.unmarshal_buffer
          rpc_write_action-IsCodec.sticky)
        (Sticky-⊗ Sticky-read_bool (
          Sticky-⊗ Sticky-read_uint64 (
            Sticky-⊗
              (Sticky-read_slice sizeof_currency obj_currency.unmarshal_buffer
                obj_currency-IsCodec.sticky)
              (Sticky-read_slice sizeof_currency obj_currency.unmarshal_buffer
                obj_currency-IsCodec.sticky)))));
  decodes = λ x v.
      Decodes-size
        (Decodes-into _ (
          Decodes-⊗
            (Decodes-slice rpc_write_action-IsCodec sizeof_action-IsLeast x.actions v.actions)
            (Decodes-⊗ (Decodes-read_bool x.merkle_proof) (
              Decodes-⊗ (Decodes-read_uint64 x.new_revision_number v.new_revision_number) (
                Decodes-⊗
                  (Decodes-slice obj_currency-IsCodec sizeof_currency-IsLeast
                    x.new_valid_proof_values v.new_valid_proof_values)
                  (Decodes-slice obj_currency-IsCodec sizeof_currency-IsLeast
                    x.new_missed_proof_values v.new_missed_proof_values))))))
        (omega arith);
}
