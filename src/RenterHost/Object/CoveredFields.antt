-- ===== src/RenterHost/Object/CoveredFields.antt =====
-- objCoveredFields of renterhost/encoding.go.
use us.Prelude.{ℕ, ◌+◌, ◌*◌, ◌^◌, ◌<◌, Bool, false, List, [], arith, length}
use us.RenterHost.Buffer.{
  ◌followed_by◌, ◌into◌, ◌⊗◌, read_bool, read_uint64, read_slice, write_bool, write_uint64,
  write_slice,
}
use us.RenterHost.Buffer.Laws.{Sticky-⊗, Sticky-into, Decodes-⊗, Decodes-into, Decodes-size}
use us.RenterHost.Buffer.Primitives.{Sticky-read_bool, Sticky-read_uint64, Decodes-read_bool}
use us.RenterHost.Buffer.Prefix.{Sticky-read_slice}
use us.RenterHost.Object.{ProtocolObject, IsCodec}
use us.RenterHost.Object.Fields.{IsLeast, IsSlice, Decodes-uint64s}

pub record CoveredFields : Type 0 where
  pub whole_transaction : Bool
  pub siacoin_inputs : List ℕ
  pub siacoin_outputs : List ℕ
  pub file_contracts : List ℕ
  pub file_contract_revisions : List ℕ
  pub storage_proofs : List ℕ
  pub siafund_inputs : List ℕ
  pub siafund_outputs : List ℕ
  pub miner_fees : List ℕ
  pub arbitrary_data : List ℕ
  pub transaction_signatures : List ℕ

pub record IsCoveredFields (x : CoveredFields) : Type 0 where
  pub siacoin_inputs : IsSlice (λ u. u < 2 ^ 64) x.siacoin_inputs
  pub siacoin_outputs : IsSlice (λ u. u < 2 ^ 64) x.siacoin_outputs
  pub file_contracts : IsSlice (λ u. u < 2 ^ 64) x.file_contracts
  pub file_contract_revisions : IsSlice (λ u. u < 2 ^ 64) x.file_contract_revisions
  pub storage_proofs : IsSlice (λ u. u < 2 ^ 64) x.storage_proofs
  pub siafund_inputs : IsSlice (λ u. u < 2 ^ 64) x.siafund_inputs
  pub siafund_outputs : IsSlice (λ u. u < 2 ^ 64) x.siafund_outputs
  pub miner_fees : IsSlice (λ u. u < 2 ^ 64) x.miner_fees
  pub arbitrary_data : IsSlice (λ u. u < 2 ^ 64) x.arbitrary_data
  pub transaction_signatures : IsSlice (λ u. u < 2 ^ 64) x.transaction_signatures

unfoldable pub obj_covered_fields : ProtocolObject CoveredFields
obj_covered_fields = record {
  marshalled_size = λ x.
      1
      + ((8 + length x.siacoin_inputs * 8)
          + (8 + length x.siacoin_outputs * 8)
          + (8 + length x.file_contracts * 8)
          + (8 + length x.file_contract_revisions * 8)
          + (8 + length x.storage_proofs * 8)
          + (8 + length x.siafund_inputs * 8)
          + (8 + length x.siafund_outputs * 8)
          + (8 + length x.miner_fees * 8)
          + (8 + length x.arbitrary_data * 8)
          + (8 + length x.transaction_signatures * 8));
  marshal_buffer = λ x.
      write_bool x.whole_transaction
      followed_by write_slice write_uint64 x.siacoin_inputs
      followed_by write_slice write_uint64 x.siacoin_outputs
      followed_by write_slice write_uint64 x.file_contracts
      followed_by write_slice write_uint64 x.file_contract_revisions
      followed_by write_slice write_uint64 x.storage_proofs
      followed_by write_slice write_uint64 x.siafund_inputs
      followed_by write_slice write_uint64 x.siafund_outputs
      followed_by write_slice write_uint64 x.miner_fees
      followed_by write_slice write_uint64 x.arbitrary_data
      followed_by write_slice write_uint64 x.transaction_signatures;
  unmarshal_buffer =
      read_bool
        ⊗ read_slice 8 read_uint64
        ⊗ read_slice 8 read_uint64
        ⊗ read_slice 8 read_uint64
        ⊗ read_slice 8 read_uint64
        ⊗ read_slice 8 read_uint64
        ⊗ read_slice 8 read_uint64
        ⊗ read_slice 8 read_uint64
        ⊗ read_slice 8 read_uint64
        ⊗ read_slice 8 read_uint64
        ⊗ read_slice 8 read_uint64
      into λ t. record {
        whole_transaction = t.0;
        siacoin_inputs = t.1.0;
        siacoin_outputs = t.1.1.0;
        file_contracts = t.1.1.1.0;
        file_contract_revisions = t.1.1.1.1.0;
        storage_proofs = t.1.1.1.1.1.0;
        siafund_inputs = t.1.1.1.1.1.1.0;
        siafund_outputs = t.1.1.1.1.1.1.1.0;
        miner_fees = t.1.1.1.1.1.1.1.1.0;
        arbitrary_data = t.1.1.1.1.1.1.1.1.1.0;
        transaction_signatures = t.1.1.1.1.1.1.1.1.1.1;
      };
}

pub obj_covered_fields-IsLeast : IsLeast obj_covered_fields 81
unfolding obj_covered_fields
obj_covered_fields-IsLeast = (omega arith, λ x. omega arith)

abbrev pub zero_covered_fields : CoveredFields
zero_covered_fields = record {
  whole_transaction = false;
  siacoin_inputs = [];
  siacoin_outputs = [];
  file_contracts = [];
  file_contract_revisions = [];
  storage_proofs = [];
  siafund_inputs = [];
  siafund_outputs = [];
  miner_fees = [];
  arbitrary_data = [];
  transaction_signatures = [];
}

pub obj_covered_fields-IsCodec : IsCodec IsCoveredFields obj_covered_fields
unfolding obj_covered_fields
obj_covered_fields-IsCodec = record {
  sticky = Sticky-into _ (
      Sticky-⊗ Sticky-read_bool (
        Sticky-⊗ (Sticky-read_slice 8 read_uint64 Sticky-read_uint64) (
          Sticky-⊗ (Sticky-read_slice 8 read_uint64 Sticky-read_uint64) (
            Sticky-⊗ (Sticky-read_slice 8 read_uint64 Sticky-read_uint64) (
              Sticky-⊗ (Sticky-read_slice 8 read_uint64 Sticky-read_uint64) (
                Sticky-⊗ (Sticky-read_slice 8 read_uint64 Sticky-read_uint64) (
                  Sticky-⊗ (Sticky-read_slice 8 read_uint64 Sticky-read_uint64) (
                    Sticky-⊗ (Sticky-read_slice 8 read_uint64 Sticky-read_uint64) (
                      Sticky-⊗ (Sticky-read_slice 8 read_uint64 Sticky-read_uint64) (
                        Sticky-⊗ (Sticky-read_slice 8 read_uint64 Sticky-read_uint64)
                          (Sticky-read_slice 8 read_uint64 Sticky-read_uint64)))))))))));
  decodes = λ x v.
      Decodes-size
        (Decodes-into _ (
          Decodes-⊗ (Decodes-read_bool x.whole_transaction) (
            Decodes-⊗ (Decodes-uint64s x.siacoin_inputs v.siacoin_inputs) (
              Decodes-⊗ (Decodes-uint64s x.siacoin_outputs v.siacoin_outputs) (
                Decodes-⊗ (Decodes-uint64s x.file_contracts v.file_contracts) (
                  Decodes-⊗ (Decodes-uint64s x.file_contract_revisions v.file_contract_revisions) (
                    Decodes-⊗ (Decodes-uint64s x.storage_proofs v.storage_proofs) (
                      Decodes-⊗ (Decodes-uint64s x.siafund_inputs v.siafund_inputs) (
                        Decodes-⊗ (Decodes-uint64s x.siafund_outputs v.siafund_outputs) (
                          Decodes-⊗ (Decodes-uint64s x.miner_fees v.miner_fees) (
                            Decodes-⊗ (Decodes-uint64s x.arbitrary_data v.arbitrary_data) (
                              Decodes-uint64s x.transaction_signatures
                                v.transaction_signatures))))))))))))
        (omega arith);
}
