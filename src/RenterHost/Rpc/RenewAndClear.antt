-- ===== src/RenterHost/Rpc/RenewAndClear.antt =====
-- RPCRenewAndClearContractRequest, RPCRenewAndClearContractSignatures of
-- renterhost/encoding.go.
use us.Prelude.{ℕ, ◌+◌, ◌^◌, ◌<◌, List, arith, length}
use us.RenterHost.Buffer.{
  ◌followed_by◌, ◌into◌, ◌⊗◌, read_prefixed_bytes, read_slice, write_prefixed_bytes, write_slice,
  sum_sizes,
}
use us.RenterHost.Buffer.Laws.{Sticky-⊗, Sticky-into, Decodes-⊗, Decodes-into, Decodes-size}
use us.RenterHost.Buffer.Prefix.{
  Sticky-read_prefixed_bytes, Sticky-read_slice, Decodes-read_prefixed_bytes,
}
use us.RenterHost.Object.{ProtocolObject, IsCodec}
use us.RenterHost.Object.Fields.{IsSlice, Decodes-slice}
use us.RenterHost.Object.Currency.{
  obj_currency, IsCurrency, obj_currency-IsCodec, sizeof_currency, sizeof_currency-IsLeast,
}
use us.RenterHost.Object.Keys.{
  SiaPublicKey, IsSiaPublicKey, obj_sia_public_key, obj_sia_public_key-IsCodec,
}
use us.RenterHost.Object.Signatures.{
  TransactionSignature, IsTransactionSignature, obj_transaction_signature,
  obj_transaction_signature-IsCodec, sizeof_transaction_signature,
  sizeof_transaction_signature-IsLeast,
}
use us.RenterHost.Object.Transaction.{
  Transaction, IsTransaction, obj_transaction, obj_transaction-IsCodec, sizeof_transaction,
  sizeof_transaction-IsLeast,
}

pub record RpcRenewAndClearContractRequest : Type 0 where
  pub transactions : List Transaction
  pub renter_key : SiaPublicKey
  pub final_valid_proof_values : List ℕ
  pub final_missed_proof_values : List ℕ

pub record IsRpcRenewAndClearContractRequest (x : RpcRenewAndClearContractRequest) : Type 0 where
  pub transactions : IsSlice IsTransaction x.transactions
  pub renter_key : IsSiaPublicKey x.renter_key
  pub final_valid_proof_values : IsSlice IsCurrency x.final_valid_proof_values
  pub final_missed_proof_values : IsSlice IsCurrency x.final_missed_proof_values

unfoldable pub rpc_renew_and_clear_contract_request : ProtocolObject RpcRenewAndClearContractRequest
rpc_renew_and_clear_contract_request = record {
  marshalled_size = λ x.
      24
      + sum_sizes obj_transaction.marshalled_size x.transactions
      + obj_sia_public_key.marshalled_size x.renter_key
      + sum_sizes obj_currency.marshalled_size x.final_valid_proof_values
      + sum_sizes obj_currency.marshalled_size x.final_missed_proof_values;
  marshal_buffer = λ x.
      write_slice obj_transaction.marshal_buffer x.transactions
      followed_by obj_sia_public_key.marshal_buffer x.renter_key
      followed_by write_slice obj_currency.marshal_buffer x.final_valid_proof_values
      followed_by write_slice obj_currency.marshal_buffer x.final_missed_proof_values;
  unmarshal_buffer =
      read_slice sizeof_transaction obj_transaction.unmarshal_buffer
        ⊗ obj_sia_public_key.unmarshal_buffer
        ⊗ read_slice sizeof_currency obj_currency.unmarshal_buffer
        ⊗ read_slice sizeof_currency obj_currency.unmarshal_buffer
      into λ t. record {
        transactions = t.0;
        renter_key = t.1.0;
        final_valid_proof_values = t.1.1.0;
        final_missed_proof_values = t.1.1.1;
      };
}

pub rpc_renew_and_clear_contract_request-IsCodec :
    IsCodec IsRpcRenewAndClearContractRequest rpc_renew_and_clear_contract_request
unfolding rpc_renew_and_clear_contract_request
rpc_renew_and_clear_contract_request-IsCodec = record {
  sticky = Sticky-into _ (
      Sticky-⊗
        (Sticky-read_slice sizeof_transaction obj_transaction.unmarshal_buffer
          obj_transaction-IsCodec.sticky)
        (Sticky-⊗ obj_sia_public_key-IsCodec.sticky (
          Sticky-⊗
            (Sticky-read_slice sizeof_currency obj_currency.unmarshal_buffer
              obj_currency-IsCodec.sticky)
            (Sticky-read_slice sizeof_currency obj_currency.unmarshal_buffer
              obj_currency-IsCodec.sticky))));
  decodes = λ x v.
      Decodes-size
        (Decodes-into _ (
          Decodes-⊗
            (Decodes-slice obj_transaction-IsCodec sizeof_transaction-IsLeast x.transactions
              v.transactions)
            (Decodes-⊗ (obj_sia_public_key-IsCodec.decodes x.renter_key v.renter_key) (
              Decodes-⊗
                (Decodes-slice obj_currency-IsCodec sizeof_currency-IsLeast
                  x.final_valid_proof_values v.final_valid_proof_values)
                (Decodes-slice obj_currency-IsCodec sizeof_currency-IsLeast
                  x.final_missed_proof_values v.final_missed_proof_values)))))
        (omega arith);
}

pub record RpcRenewAndClearContractSignatures : Type 0 where
  pub contract_signatures : List TransactionSignature
  pub revision_signature : TransactionSignature
  pub final_revision_signature : List ℕ

pub record IsRpcRenewAndClearContractSignatures (x : RpcRenewAndClearContractSignatures)
    : Type 0 where
  pub contract_signatures : IsSlice IsTransactionSignature x.contract_signatures
  pub revision_signature : IsTransactionSignature x.revision_signature
  pub final_revision_signature : length x.final_revision_signature < 2 ^ 64

unfoldable pub rpc_renew_and_clear_contract_signatures :
    ProtocolObject RpcRenewAndClearContractSignatures
rpc_renew_and_clear_contract_signatures = record {
  marshalled_size = λ x.
      16
      + sum_sizes obj_transaction_signature.marshalled_size x.contract_signatures
      + obj_transaction_signature.marshalled_size x.revision_signature
      + length x.final_revision_signature;
  marshal_buffer = λ x.
      write_slice obj_transaction_signature.marshal_buffer x.contract_signatures
      followed_by obj_transaction_signature.marshal_buffer x.revision_signature
      followed_by write_prefixed_bytes x.final_revision_signature;
  unmarshal_buffer =
      read_slice sizeof_transaction_signature obj_transaction_signature.unmarshal_buffer
        ⊗ obj_transaction_signature.unmarshal_buffer
        ⊗ read_prefixed_bytes
      into λ t. record {
        contract_signatures = t.0;
        revision_signature = t.1.0;
        final_revision_signature = t.1.1;
      };
}

pub rpc_renew_and_clear_contract_signatures-IsCodec :
    IsCodec IsRpcRenewAndClearContractSignatures rpc_renew_and_clear_contract_signatures
unfolding rpc_renew_and_clear_contract_signatures
rpc_renew_and_clear_contract_signatures-IsCodec = record {
  sticky = Sticky-into _ (
      Sticky-⊗
        (Sticky-read_slice sizeof_transaction_signature obj_transaction_signature.unmarshal_buffer
          obj_transaction_signature-IsCodec.sticky)
        (Sticky-⊗ obj_transaction_signature-IsCodec.sticky Sticky-read_prefixed_bytes));
  decodes = λ x v.
      Decodes-size
        (Decodes-into _ (
          Decodes-⊗
            (Decodes-slice obj_transaction_signature-IsCodec sizeof_transaction_signature-IsLeast
              x.contract_signatures v.contract_signatures)
            (Decodes-⊗
              (obj_transaction_signature-IsCodec.decodes x.revision_signature v.revision_signature)
              (Decodes-read_prefixed_bytes x.final_revision_signature v.final_revision_signature))))
        (omega arith);
}
