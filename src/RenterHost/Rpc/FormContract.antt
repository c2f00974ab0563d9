-- ===== src/RenterHost/Rpc/FormContract.antt =====
-- RPCFormContractRequest, RPCFormContractAdditions, RPCFormContractSignatures of
-- renterhost/encoding.go.
use us.Prelude.{◌+◌, List, arith}
use us.RenterHost.Buffer.{◌followed_by◌, ◌into◌, ◌⊗◌, read_slice, write_slice, sum_sizes}
use us.RenterHost.Buffer.Laws.{Sticky-⊗, Sticky-into, Decodes-⊗, Decodes-into, Decodes-size}
use us.RenterHost.Buffer.Prefix.{Sticky-read_slice}
use us.RenterHost.Object.{ProtocolObject, IsCodec}
use us.RenterHost.Object.Fields.{IsSlice, Decodes-slice}
use us.RenterHost.Object.Keys.{
  SiaPublicKey, IsSiaPublicKey, obj_sia_public_key, obj_sia_public_key-IsCodec,
}
use us.RenterHost.Object.Inputs.{
  SiacoinInput, IsSiacoinInput, obj_siacoin_input, obj_siacoin_input-IsCodec, sizeof_siacoin_input,
  sizeof_siacoin_input-IsLeast,
}
use us.RenterHost.Object.Outputs.{
  SiacoinOutput, IsSiacoinOutput, obj_siacoin_output, obj_siacoin_output-IsCodec,
  sizeof_siacoin_output, sizeof_siacoin_output-IsLeast,
}
use us.RenterHost.Object.Signatures.{
  TransactionSignature, IsTransactionSignature, obj_transaction_signature,
  obj_transaction_signature-IsCodec, sizeof_transaction_signature,
  sizeof_transaction_signature-IsLeast,
}
use us.RenterHost.Object.Transaction.{
  Transaction, IsTransaction, obj_transaction, obj_transaction-IsCodec, sizeof_transaction,
  sizeof_transaction-IsLeast,
}

pub record RpcFormContractRequest : Type 0 where
  pub transactions : List Transaction
  pub renter_key : SiaPublicKey

pub record IsRpcFormContractRequest (x : RpcFormContractRequest) : Type 0 where
  pub transactions : IsSlice IsTransaction x.transactions
  pub renter_key : IsSiaPublicKey x.renter_key

unfoldable pub rpc_form_contract_request : ProtocolObject RpcFormContractRequest
rpc_form_contract_request = record {
  marshalled_size = λ x.
      (8 + sum_sizes obj_transaction.marshalled_size x.transactions)
      + obj_sia_public_key.marshalled_size x.renter_key;
  marshal_buffer = λ x.
      write_slice obj_transaction.marshal_buffer x.transactions
      followed_by obj_sia_public_key.marshal_buffer x.renter_key;
  unmarshal_buffer =
      read_slice sizeof_transaction obj_transaction.unmarshal_buffer
        ⊗ obj_sia_public_key.unmarshal_buffer
      into λ t. record { transactions = t.0; renter_key = t.1 };
}

pub rpc_form_contract_request-IsCodec : IsCodec IsRpcFormContractRequest rpc_form_contract_request
unfolding rpc_form_contract_request
rpc_form_contract_request-IsCodec = record {
  sticky = Sticky-into _ (
      Sticky-⊗
        (Sticky-read_slice sizeof_transaction obj_transaction.unmarshal_buffer
          obj_transaction-IsCodec.sticky)
        obj_sia_public_key-IsCodec.sticky);
  decodes = λ x v.
      Decodes-size
        (Decodes-into _ (
          Decodes-⊗
            (Decodes-slice obj_transaction-IsCodec sizeof_transaction-IsLeast x.transactions
              v.transactions)
            (obj_sia_public_key-IsCodec.decodes x.renter_key v.renter_key)))
        (omega arith);
}

pub record RpcFormContractAdditions : Type 0 where
  pub parents : List Transaction
  pub inputs : List SiacoinInput
  pub outputs : List SiacoinOutput

pub record IsRpcFormContractAdditions (x : RpcFormContractAdditions) : Type 0 where
  pub parents : IsSlice IsTransaction x.parents
  pub inputs : IsSlice IsSiacoinInput x.inputs
  pub outputs : IsSlice IsSiacoinOutput x.outputs

unfoldable pub rpc_form_contract_additions : ProtocolObject RpcFormContractAdditions
rpc_form_contract_additions = record {
  marshalled_size = λ x.
      (8 + sum_sizes obj_transaction.marshalled_size x.parents)
      + (8 + sum_sizes obj_siacoin_input.marshalled_size x.inputs)
      + (8 + sum_sizes obj_siacoin_output.marshalled_size x.outputs);
  marshal_buffer = λ x.
      write_slice obj_transaction.marshal_buffer x.parents
      followed_by write_slice obj_siacoin_input.marshal_buffer x.inputs
      followed_by write_slice obj_siacoin_output.marshal_buffer x.outputs;
  unmarshal_buffer =
      read_slice sizeof_transaction obj_transaction.unmarshal_buffer
        ⊗ read_slice sizeof_siacoin_input obj_siacoin_input.unmarshal_buffer
        ⊗ read_slice sizeof_siacoin_output obj_siacoin_output.unmarshal_buffer
      into λ t. record { parents = t.0; inputs = t.1.0; outputs = t.1.1 };
}

pub rpc_form_contract_additions-IsCodec :
    IsCodec IsRpcFormContractAdditions rpc_form_contract_additions
unfolding rpc_form_contract_additions
rpc_form_contract_additions-IsCodec = record {
  sticky = Sticky-into _ (
      Sticky-⊗
        (Sticky-read_slice sizeof_transaction obj_transaction.unmarshal_buffer
          obj_transaction-IsCodec.sticky)
        (Sticky-⊗
          (Sticky-read_slice sizeof_siacoin_input obj_siacoin_input.unmarshal_buffer
            obj_siacoin_input-IsCodec.sticky)
          (Sticky-read_slice sizeof_siacoin_output obj_siacoin_output.unmarshal_buffer
            obj_siacoin_output-IsCodec.sticky)));
  decodes = λ x v.
      Decodes-size
        (Decodes-into _ (
          Decodes-⊗
            (Decodes-slice obj_transaction-IsCodec sizeof_transaction-IsLeast x.parents v.parents)
            (Decodes-⊗
              (Decodes-slice obj_siacoin_input-IsCodec sizeof_siacoin_input-IsLeast x.inputs
                v.inputs)
              (Decodes-slice obj_siacoin_output-IsCodec sizeof_siacoin_output-IsLeast x.outputs
                v.outputs))))
        (omega arith);
}

pub record RpcFormContractSignatures : Type 0 where
  pub contract_signatures : List TransactionSignature
  pub revision_signature : TransactionSignature

pub record IsRpcFormContractSignatures (x : RpcFormContractSignatures) : Type 0 where
  pub contract_signatures : IsSlice IsTransactionSignature x.contract_signatures
  pub revision_signature : IsTransactionSignature x.revision_signature

unfoldable pub rpc_form_contract_signatures : ProtocolObject RpcFormContractSignatures
rpc_form_contract_signatures = record {
  marshalled_size = λ x.
      (8 + sum_sizes obj_transaction_signature.marshalled_size x.contract_signatures)
      + obj_transaction_signature.marshalled_size x.revision_signature;
  marshal_buffer = λ x.
      write_slice obj_transaction_signature.marshal_buffer x.contract_signatures
      followed_by obj_transaction_signature.marshal_buffer x.revision_signature;
  unmarshal_buffer =
      read_slice sizeof_transaction_signature obj_transaction_signature.unmarshal_buffer
        ⊗ obj_transaction_signature.unmarshal_buffer
      into λ t. record { contract_signatures = t.0; revision_signature = t.1 };
}

pub rpc_form_contract_signatures-IsCodec :
    IsCodec IsRpcFormContractSignatures rpc_form_contract_signatures
unfolding rpc_form_contract_signatures
rpc_form_contract_signatures-IsCodec = record {
  sticky = Sticky-into _ (
      Sticky-⊗
        (Sticky-read_slice sizeof_transaction_signature obj_transaction_signature.unmarshal_buffer
          obj_transaction_signature-IsCodec.sticky)
        obj_transaction_signature-IsCodec.sticky);
  decodes = λ x v.
      Decodes-size
        (Decodes-into _ (
          Decodes-⊗
            (Decodes-slice obj_transaction_signature-IsCodec sizeof_transaction_signature-IsLeast
              x.contract_signatures v.contract_signatures)
            (obj_transaction_signature-IsCodec.decodes x.revision_signature v.revision_signature)))
        (omega arith);
}
