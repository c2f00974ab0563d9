-- ===== src/RenterHost/Object/Transaction.antt =====
-- objTransaction of renterhost/encoding.go.
use us.Prelude.{ℕ, ◌+◌, ◌^◌, ◌<◌, ◌≡◌, refl, List, [], arith, length}
use us.RenterHost.Buffer.{
  ◌followed_by◌, ◌into◌, ◌⊗◌, read_prefixed_bytes, read_slice, write_prefixed_bytes, write_slice,
  sum_sizes,
}
use us.RenterHost.Buffer.Laws.{Sticky-⊗, Sticky-into, Decodes-⊗, Decodes-into, Decodes-size}
use us.RenterHost.Buffer.Prefix.{Sticky-read_prefixed_bytes, Sticky-read_slice}
use us.RenterHost.Object.{ProtocolObject, IsCodec}
use us.RenterHost.Object.Fields.{IsLeast, IsSlice, Decodes-slice, Decodes-byte_slices}
use us.RenterHost.Object.Currency.{
  obj_currency, IsCurrency, obj_currency-IsCodec, sizeof_currency, sizeof_currency-IsLeast,
}
use us.RenterHost.Object.Inputs.{
  SiacoinInput, IsSiacoinInput, obj_siacoin_input, obj_siacoin_input-IsCodec, sizeof_siacoin_input,
  sizeof_siacoin_input-IsLeast, SiafundInput, IsSiafundInput, obj_siafund_input,
  obj_siafund_input-IsCodec, sizeof_siafund_input, sizeof_siafund_input-IsLeast,
}
use us.RenterHost.Object.Outputs.{
  SiacoinOutput, IsSiacoinOutput, obj_siacoin_output, obj_siacoin_output-IsCodec,
  sizeof_siacoin_output, sizeof_siacoin_output-IsLeast, SiafundOutput, IsSiafundOutput,
  obj_siafund_output, obj_siafund_output-IsCodec, sizeof_siafund_output,
  sizeof_siafund_output-IsLeast,
}
use us.RenterHost.Object.Signatures.{
  TransactionSignature, IsTransactionSignature, obj_transaction_signature,
  obj_transaction_signature-IsCodec, sizeof_transaction_signature,
  sizeof_transaction_signature-IsLeast,
}
use us.RenterHost.Object.FileContract.{
  FileContract, IsFileContract, obj_file_contract, obj_file_contract-IsCodec, sizeof_file_contract,
  sizeof_file_contract-IsLeast,
}
use us.RenterHost.Object.FileContractRevision.{
  FileContractRevision, IsFileContractRevision, obj_file_contract_revision,
  obj_file_contract_revision-IsCodec, sizeof_file_contract_revision,
  sizeof_file_contract_revision-IsLeast,
}
use us.RenterHost.Object.StorageProof.{
  StorageProof, IsStorageProof, obj_storage_proof, obj_storage_proof-IsCodec, sizeof_storage_proof,
  sizeof_storage_proof-IsLeast,
}

pub record Transaction : Type 0 where
  pub siacoin_inputs : List SiacoinInput
  pub siacoin_outputs : List SiacoinOutput
  pub file_contracts : List FileContract
  pub file_contract_revisions : List FileContractRevision
  pub storage_proofs : List StorageProof
  pub siafund_inputs : List SiafundInput
  pub siafund_outputs : List SiafundOutput
  pub miner_fees : List ℕ
  pub arbitrary_data : List (List ℕ)
  pub transaction_signatures : List TransactionSignature

pub record IsTransaction (x : Transaction) : Type 0 where
  pub siacoin_inputs : IsSlice IsSiacoinInput x.siacoin_inputs
  pub siacoin_outputs : IsSlice IsSiacoinOutput x.siacoin_outputs
  pub file_contracts : IsSlice IsFileContract x.file_contracts
  pub file_contract_revisions : IsSlice IsFileContractRevision x.file_contract_revisions
  pub storage_proofs : IsSlice IsStorageProof x.storage_proofs
  pub siafund_inputs : IsSlice IsSiafundInput x.siafund_inputs
  pub siafund_outputs : IsSlice IsSiafundOutput x.siafund_outputs
  pub miner_fees : IsSlice IsCurrency x.miner_fees
  pub arbitrary_data : IsSlice (λ p. length p < 2 ^ 64) x.arbitrary_data
  pub transaction_signatures : IsSlice IsTransactionSignature x.transaction_signatures

unfoldable pub obj_transaction : ProtocolObject Transaction
obj_transaction = record {
  marshalled_size = λ x.
      8
      + sum_sizes obj_siacoin_input.marshalled_size x.siacoin_inputs
      + 8
      + sum_sizes obj_siacoin_output.marshalled_size x.siacoin_outputs
      + 8
      + sum_sizes obj_file_contract.marshalled_size x.file_contracts
      + 8
      + sum_sizes obj_file_contract_revision.marshalled_size x.file_contract_revisions
      + 8
      + sum_sizes obj_storage_proof.marshalled_size x.storage_proofs
      + 8
      + sum_sizes obj_siafund_input.marshalled_size x.siafund_inputs
      + 8
      + sum_sizes obj_siafund_output.marshalled_size x.siafund_outputs
      + 8
      + sum_sizes obj_currency.marshalled_size x.miner_fees
      + 8
      + sum_sizes (λ p. 8 + length p) x.arbitrary_data
      + 8
      + sum_sizes obj_transaction_signature.marshalled_size x.transaction_signatures;
  marshal_buffer = λ x.
      write_slice obj_siacoin_input.marshal_buffer x.siacoin_inputs
      followed_by write_slice obj_siacoin_output.marshal_buffer x.siacoin_outputs
      followed_by write_slice obj_file_contract.marshal_buffer x.file_contracts
      followed_by write_slice obj_file_contract_revision.marshal_buffer x.file_contract_revisions
      followed_by write_slice obj_storage_proof.marshal_buffer x.storage_proofs
      followed_by write_slice obj_siafund_input.marshal_buffer x.siafund_inputs
      followed_by write_slice obj_siafund_output.marshal_buffer x.siafund_outputs
      followed_by write_slice obj_currency.marshal_buffer x.miner_fees
      followed_by write_slice write_prefixed_bytes x.arbitrary_data
      followed_by write_slice obj_transaction_signature.marshal_buffer x.transaction_signatures;
  unmarshal_buffer =
      read_slice sizeof_siacoin_input obj_siacoin_input.unmarshal_buffer
        ⊗ read_slice sizeof_siacoin_output obj_siacoin_output.unmarshal_buffer
        ⊗ read_slice sizeof_file_contract obj_file_contract.unmarshal_buffer
        ⊗ read_slice sizeof_file_contract_revision obj_file_contract_revision.unmarshal_buffer
        ⊗ read_slice sizeof_storage_proof obj_storage_proof.unmarshal_buffer
        ⊗ read_slice sizeof_siafund_input obj_siafund_input.unmarshal_buffer
        ⊗ read_slice sizeof_siafund_output obj_siafund_output.unmarshal_buffer
        ⊗ read_slice sizeof_currency obj_currency.unmarshal_buffer
        ⊗ read_slice 1 read_prefixed_bytes
        ⊗ read_slice sizeof_transaction_signature obj_transaction_signature.unmarshal_buffer
      into λ t. record {
        siacoin_inputs = t.0;
        siacoin_outputs = t.1.0;
        file_contracts = t.1.1.0;
        file_contract_revisions = t.1.1.1.0;
        storage_proofs = t.1.1.1.1.0;
        siafund_inputs = t.1.1.1.1.1.0;
        siafund_outputs = t.1.1.1.1.1.1.0;
        miner_fees = t.1.1.1.1.1.1.1.0;
        arbitrary_data = t.1.1.1.1.1.1.1.1.0;
        transaction_signatures = t.1.1.1.1.1.1.1.1.1;
      };
}

pub obj_transaction-IsLeast : IsLeast obj_transaction 80
unfolding obj_transaction
obj_transaction-IsLeast = (omega arith, λ x. omega arith)

abbrev pub zero_transaction : Transaction
zero_transaction = record {
  siacoin_inputs = [];
  siacoin_outputs = [];
  file_contracts = [];
  file_contract_revisions = [];
  storage_proofs = [];
  siafund_inputs = [];
  siafund_outputs = [];
  miner_fees = [];
  arbitrary_data = [];
  transaction_signatures = [];
}

unfoldable pub sizeof_transaction : ℕ
sizeof_transaction = obj_transaction.marshalled_size zero_transaction

sizeof_transaction-value : sizeof_transaction ≡ 80
unfolding sizeof_transaction obj_transaction sum_sizes
sizeof_transaction-value = refl

pub sizeof_transaction-IsLeast : IsLeast obj_transaction sizeof_transaction
sizeof_transaction-IsLeast = rw sizeof_transaction-value obj_transaction-IsLeast

pub obj_transaction-IsCodec : IsCodec IsTransaction obj_transaction
unfolding obj_transaction
obj_transaction-IsCodec = record {
  sticky = Sticky-into _ (
      Sticky-⊗
        (Sticky-read_slice sizeof_siacoin_input obj_siacoin_input.unmarshal_buffer
          obj_siacoin_input-IsCodec.sticky)
        (Sticky-⊗
          (Sticky-read_slice sizeof_siacoin_output obj_siacoin_output.unmarshal_buffer
            obj_siacoin_output-IsCodec.sticky)
          (Sticky-⊗
            (Sticky-read_slice sizeof_file_contract obj_file_contract.unmarshal_buffer
              obj_file_contract-IsCodec.sticky)
            (Sticky-⊗
              (Sticky-read_slice sizeof_file_contract_revision
                obj_file_contract_revision.unmarshal_buffer
                obj_file_contract_revision-IsCodec.sticky)
              (Sticky-⊗
                (Sticky-read_slice sizeof_storage_proof obj_storage_proof.unmarshal_buffer
                  obj_storage_proof-IsCodec.sticky)
                (Sticky-⊗
                  (Sticky-read_slice sizeof_siafund_input obj_siafund_input.unmarshal_buffer
                    obj_siafund_input-IsCodec.sticky)
                  (Sticky-⊗
                    (Sticky-read_slice sizeof_siafund_output obj_siafund_output.unmarshal_buffer
                      obj_siafund_output-IsCodec.sticky)
                    (Sticky-⊗
                      (Sticky-read_slice sizeof_currency obj_currency.unmarshal_buffer
                        obj_currency-IsCodec.sticky)
                      (Sticky-⊗ (Sticky-read_slice 1 read_prefixed_bytes Sticky-read_prefixed_bytes)
                        (Sticky-read_slice sizeof_transaction_signature
                          obj_transaction_signature.unmarshal_buffer
                          obj_transaction_signature-IsCodec.sticky))))))))));
  decodes = λ x v.
      Decodes-size
        (Decodes-into _ (
          Decodes-⊗
            (Decodes-slice obj_siacoin_input-IsCodec sizeof_siacoin_input-IsLeast x.siacoin_inputs
              v.siacoin_inputs)
            (Decodes-⊗
              (Decodes-slice obj_siacoin_output-IsCodec sizeof_siacoin_output-IsLeast
                x.siacoin_outputs v.siacoin_outputs)
              (Decodes-⊗
                (Decodes-slice obj_file_contract-IsCodec sizeof_file_contract-IsLeast
                  x.file_contracts v.file_contracts)
                (Decodes-⊗
                  (Decodes-slice obj_file_contract_revision-IsCodec
                    sizeof_file_contract_revision-IsLeast x.file_contract_revisions
                    v.file_contract_revisions)
                  (Decodes-⊗
                    (Decodes-slice obj_storage_proof-IsCodec sizeof_storage_proof-IsLeast
                      x.storage_proofs v.storage_proofs)
                    (Decodes-⊗
                      (Decodes-slice obj_siafund_input-IsCodec sizeof_siafund_input-IsLeast
                        x.siafund_inputs v.siafund_inputs)
                      (Decodes-⊗
                        (Decodes-slice obj_siafund_output-IsCodec sizeof_siafund_output-IsLeast
                          x.siafund_outputs v.siafund_outputs)
                        (Decodes-⊗
                          (Decodes-slice obj_currency-IsCodec sizeof_currency-IsLeast x.miner_fees
                            v.miner_fees)
                          (Decodes-⊗ (Decodes-byte_slices x.arbitrary_data v.arbitrary_data) (
                            Decodes-slice obj_transaction_signature-IsCodec
                              sizeof_transaction_signature-IsLeast x.transaction_signatures
                              v.transaction_signatures)))))))))))
        (omega arith);
}
