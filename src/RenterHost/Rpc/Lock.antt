-- ===== src/RenterHost/Rpc/Lock.antt =====
-- RPCLockRequest, RPCLockResponse, RPCSettingsResponse of renterhost/encoding.go.
use us.Prelude.{ℕ, ◌+◌, ◌^◌, ◌<◌, ◌≡◌, Bool, List, arith, length}
use us.RenterHost.Buffer.{
  ◌followed_by◌, ◌into◌, ◌⊗◌, read, read_bool, read_uint64, read_prefixed_bytes, read_slice,
  write_bool, write_uint64, write_prefixed_bytes, write_slice, sum_sizes,
}
use us.RenterHost.Buffer.Laws.{Sticky-⊗, Sticky-into, Decodes-⊗, Decodes-into, Decodes-size}
use us.RenterHost.Buffer.Primitives.{
  Sticky-read, Sticky-read_bool, Sticky-read_uint64, Decodes-read, Decodes-read_bool,
  Decodes-read_uint64,
}
use us.RenterHost.Buffer.Prefix.{
  Sticky-read_prefixed_bytes, Sticky-read_slice, Decodes-read_prefixed_bytes,
}
use us.RenterHost.Object.{ProtocolObject, IsCodec, hash_size}
use us.RenterHost.Object.Fields.{IsHash, IsSlice, Decodes-slice}
use us.RenterHost.Object.Signatures.{
  TransactionSignature, IsTransactionSignature, obj_transaction_signature,
  obj_transaction_signature-IsCodec, sizeof_transaction_signature,
  sizeof_transaction_signature-IsLeast,
}
use us.RenterHost.Object.FileContractRevision.{
  FileContractRevision, IsFileContractRevision, obj_file_contract_revision,
  obj_file_contract_revision-IsCodec,
}

pub record RpcLockRequest : Type 0 where
  pub contract_id : List ℕ
  pub signature : List ℕ
  pub timeout : ℕ

pub record IsRpcLockRequest (x : RpcLockRequest) : Type 0 where
  pub contract_id : IsHash x.contract_id
  pub signature : length x.signature < 2 ^ 64
  pub timeout : x.timeout < 2 ^ 64

unfoldable pub rpc_lock_request : ProtocolObject RpcLockRequest
rpc_lock_request = record {
  marshalled_size = λ x. hash_size + 8 + length x.signature + 8;
  marshal_buffer = λ x.
      x.contract_id followed_by write_prefixed_bytes x.signature followed_by write_uint64 x.timeout;
  unmarshal_buffer = read hash_size ⊗ read_prefixed_bytes ⊗ read_uint64 into λ t. record {
    contract_id = t.0;
    signature = t.1.0;
    timeout = t.1.1;
  };
}

pub rpc_lock_request-IsCodec : IsCodec IsRpcLockRequest rpc_lock_request
unfolding rpc_lock_request
rpc_lock_request-IsCodec = record {
  sticky =
      Sticky-into _
        (Sticky-⊗ (Sticky-read hash_size) (Sticky-⊗ Sticky-read_prefixed_bytes Sticky-read_uint64));
  decodes = λ x v.
      Decodes-size
        (Decodes-into _ (
          Decodes-⊗ (Decodes-read hash_size x.contract_id v.contract_id) (
            Decodes-⊗ (Decodes-read_prefixed_bytes x.signature v.signature)
              (Decodes-read_uint64 x.timeout v.timeout))))
        (omega arith);
}

pub record RpcLockResponse : Type 0 where
  pub acquired : Bool
  pub new_challenge : List ℕ
  pub revision : FileContractRevision
  pub signatures : List TransactionSignature

pub record IsRpcLockResponse (x : RpcLockResponse) : Type 0 where
  pub new_challenge : length x.new_challenge ≡ 16
  pub revision : IsFileContractRevision x.revision
  pub signatures : IsSlice IsTransactionSignature x.signatures

unfoldable pub rpc_lock_response : ProtocolObject RpcLockResponse
rpc_lock_response = record {
  marshalled_size = λ x.
      1
      + 16
      + obj_file_contract_revision.marshalled_size x.revision
      + (8 + sum_sizes obj_transaction_signature.marshalled_size x.signatures);
  marshal_buffer = λ x.
      write_bool x.acquired
      followed_by x.new_challenge
      followed_by obj_file_contract_revision.marshal_buffer x.revision
      followed_by write_slice obj_transaction_signature.marshal_buffer x.signatures;
  unmarshal_buffer =
      read_bool
        ⊗ read 16
        ⊗ obj_file_contract_revision.unmarshal_buffer
        ⊗ read_slice sizeof_transaction_signature obj_transaction_signature.unmarshal_buffer
      into λ t. record {
        acquired = t.0;
        new_challenge = t.1.0;
        revision = t.1.1.0;
        signatures = t.1.1.1;
      };
}

pub rpc_lock_response-IsCodec : IsCodec IsRpcLockResponse rpc_lock_response
unfolding rpc_lock_response
rpc_lock_response-IsCodec = record {
  sticky = Sticky-into _ (
      Sticky-⊗ Sticky-read_bool (
        Sticky-⊗ (Sticky-read 16) (
          Sticky-⊗ obj_file_contract_revision-IsCodec.sticky (
            Sticky-read_slice sizeof_transaction_signature
              obj_transaction_signature.unmarshal_buffer
              obj_transaction_signature-IsCodec.sticky))));
  decodes = λ x v.
      Decodes-size
        (Decodes-into _ (
          Decodes-⊗ (Decodes-read_bool x.acquired) (
            Decodes-⊗ (Decodes-read 16 x.new_challenge v.new_challenge) (
              Decodes-⊗ (obj_file_contract_revision-IsCodec.decodes x.revision v.revision) (
                Decodes-slice obj_transaction_signature-IsCodec sizeof_transaction_signature-IsLeast
                  x.signatures v.signatures)))))
        (omega arith);
}

pub record RpcSettingsResponse : Type 0 where
  pub settings : List ℕ

pub record IsRpcSettingsResponse (x : RpcSettingsResponse) : Type 0 where
  pub settings : length x.settings < 2 ^ 64

unfoldable pub rpc_settings_response : ProtocolObject RpcSettingsResponse
rpc_settings_response = record {
  marshalled_size = λ x. 8 + length x.settings;
  marshal_buffer = λ x. write_prefixed_bytes x.settings;
  unmarshal_buffer = read_prefixed_bytes into λ t. record { settings = t };
}

pub rpc_settings_response-IsCodec : IsCodec IsRpcSettingsResponse rpc_settings_response
unfolding rpc_settings_response
rpc_settings_response-IsCodec = record {
  sticky = Sticky-into _ Sticky-read_prefixed_bytes;
  decodes = λ x v.
      Decodes-size (Decodes-into _ (Decodes-read_prefixed_bytes x.settings v.settings))
        (omega arith);
}
