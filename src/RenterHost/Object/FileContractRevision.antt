-- ===== src/RenterHost/Object/FileContractRevision.antt =====
-- objFileContractRevision of renterhost/encoding.go.
use us.Prelude.{ℕ, ◌+◌, ◌^◌, ◌<◌, ◌≡◌, refl, List, [], arith, replicate}
use us.RenterHost.Buffer.{
  ◌followed_by◌, ◌into◌, ◌⊗◌, read, read_uint64, read_slice, write_uint64, write_slice, sum_sizes,
}
use us.RenterHost.Buffer.Laws.{Sticky-⊗, Sticky-into, Decodes-⊗, Decodes-into, Decodes-size}
use us.RenterHost.Buffer.Primitives.{
  Sticky-read, Sticky-read_uint64, Decodes-read, Decodes-read_uint64,
}
use us.RenterHost.Buffer.Prefix.{Sticky-read_slice}
use us.RenterHost.Object.{ProtocolObject, IsCodec, hash_size}
use us.RenterHost.Object.Fields.{IsHash, IsLeast, IsSlice, Decodes-slice}
use us.RenterHost.Object.Keys.{
  UnlockConditions, IsUnlockConditions, obj_unlock_conditions, obj_unlock_conditions-IsCodec,
  obj_unlock_conditions-IsLeast, zero_unlock_conditions,
}
use us.RenterHost.Object.Outputs.{
  SiacoinOutput, IsSiacoinOutput, obj_siacoin_output, obj_siacoin_output-IsCodec,
  sizeof_siacoin_output, sizeof_siacoin_output-IsLeast,
}

pub record FileContractRevision : Type 0 where
  pub parent_id : List ℕ
  pub unlock_conditions : UnlockConditions
  pub new_revision_number : ℕ
  pub new_file_size : ℕ
  pub new_file_merkle_root : List ℕ
  pub new_window_start : ℕ
  pub new_window_end : ℕ
  pub new_valid_proof_outputs : List SiacoinOutput
  pub new_missed_proof_outputs : List SiacoinOutput
  pub new_unlock_hash : List ℕ

pub record IsFileContractRevision (x : FileContractRevision) : Type 0 where
  pub parent_id : IsHash x.parent_id
  pub unlock_conditions : IsUnlockConditions x.unlock_conditions
  pub new_revision_number : x.new_revision_number < 2 ^ 64
  pub new_file_size : x.new_file_size < 2 ^ 64
  pub new_file_merkle_root : IsHash x.new_file_merkle_root
  pub new_window_start : x.new_window_start < 2 ^ 64
  pub new_window_end : x.new_window_end < 2 ^ 64
  pub new_valid_proof_outputs : IsSlice IsSiacoinOutput x.new_valid_proof_outputs
  pub new_missed_proof_outputs : IsSlice IsSiacoinOutput x.new_missed_proof_outputs
  pub new_unlock_hash : IsHash x.new_unlock_hash

unfoldable pub obj_file_contract_revision : ProtocolObject FileContractRevision
obj_file_contract_revision = record {
  marshalled_size = λ x.
      hash_size
      + obj_unlock_conditions.marshalled_size x.unlock_conditions
      + 8
      + 8
      + hash_size
      + 8
      + 8
      + (8 + sum_sizes obj_siacoin_output.marshalled_size x.new_valid_proof_outputs)
      + (8 + sum_sizes obj_siacoin_output.marshalled_size x.new_missed_proof_outputs)
      + hash_size;
  marshal_buffer = λ x.
      x.parent_id
      followed_by obj_unlock_conditions.marshal_buffer x.unlock_conditions
      followed_by write_uint64 x.new_revision_number
      followed_by write_uint64 x.new_file_size
      followed_by x.new_file_merkle_root
      followed_by write_uint64 x.new_window_start
      followed_by write_uint64 x.new_window_end
      followed_by write_slice obj_siacoin_output.marshal_buffer x.new_valid_proof_outputs
      followed_by write_slice obj_siacoin_output.marshal_buffer x.new_missed_proof_outputs
      followed_by x.new_unlock_hash;
  unmarshal_buffer =
      read hash_size
        ⊗ obj_unlock_conditions.unmarshal_buffer
        ⊗ read_uint64
        ⊗ read_uint64
        ⊗ read hash_size
        ⊗ read_uint64
        ⊗ read_uint64
        ⊗ read_slice sizeof_siacoin_output obj_siacoin_output.unmarshal_buffer
        ⊗ read_slice sizeof_siacoin_output obj_siacoin_output.unmarshal_buffer
        ⊗ read hash_size
      into λ t. record {
        parent_id = t.0;
        unlock_conditions = t.1.0;
        new_revision_number = t.1.1.0;
        new_file_size = t.1.1.1.0;
        new_file_merkle_root = t.1.1.1.1.0;
        new_window_start = t.1.1.1.1.1.0;
        new_window_end = t.1.1.1.1.1.1.0;
        new_valid_proof_outputs = t.1.1.1.1.1.1.1.0;
        new_missed_proof_outputs = t.1.1.1.1.1.1.1.1.0;
        new_unlock_hash = t.1.1.1.1.1.1.1.1.1;
      };
}

pub obj_file_contract_revision-IsLeast : IsLeast obj_file_contract_revision 168
unfolding obj_file_contract_revision
obj_file_contract_revision-IsLeast =
    (omega arith, λ x. omega (arith, obj_unlock_conditions-IsLeast.1 x.unlock_conditions))

abbrev pub zero_file_contract_revision : FileContractRevision
zero_file_contract_revision = record {
  parent_id = replicate hash_size 0;
  unlock_conditions = zero_unlock_conditions;
  new_revision_number = 0;
  new_file_size = 0;
  new_file_merkle_root = replicate hash_size 0;
  new_window_start = 0;
  new_window_end = 0;
  new_valid_proof_outputs = [];
  new_missed_proof_outputs = [];
  new_unlock_hash = replicate hash_size 0;
}

unfoldable pub sizeof_file_contract_revision : ℕ
sizeof_file_contract_revision =
    obj_file_contract_revision.marshalled_size zero_file_contract_revision

sizeof_file_contract_revision-value : sizeof_file_contract_revision ≡ 168
unfolding sizeof_file_contract_revision obj_file_contract_revision obj_unlock_conditions sum_sizes
sizeof_file_contract_revision-value = refl

pub sizeof_file_contract_revision-IsLeast :
    IsLeast obj_file_contract_revision sizeof_file_contract_revision
sizeof_file_contract_revision-IsLeast =
    rw sizeof_file_contract_revision-value obj_file_contract_revision-IsLeast

pub obj_file_contract_revision-IsCodec : IsCodec IsFileContractRevision obj_file_contract_revision
unfolding obj_file_contract_revision
obj_file_contract_revision-IsCodec = record {
  sticky = Sticky-into _ (
      Sticky-⊗ (Sticky-read hash_size) (
        Sticky-⊗ obj_unlock_conditions-IsCodec.sticky (
          Sticky-⊗ Sticky-read_uint64 (
            Sticky-⊗ Sticky-read_uint64 (
              Sticky-⊗ (Sticky-read hash_size) (
                Sticky-⊗ Sticky-read_uint64 (
                  Sticky-⊗ Sticky-read_uint64 (
                    Sticky-⊗
                      (Sticky-read_slice sizeof_siacoin_output obj_siacoin_output.unmarshal_buffer
                        obj_siacoin_output-IsCodec.sticky)
                      (Sticky-⊗
                        (Sticky-read_slice sizeof_siacoin_output obj_siacoin_output.unmarshal_buffer
                          obj_siacoin_output-IsCodec.sticky)
                        (Sticky-read hash_size))))))))));
  decodes = λ x v.
      Decodes-size
        (Decodes-into _ (
          Decodes-⊗ (Decodes-read hash_size x.parent_id v.parent_id) (
            Decodes-⊗
              (obj_unlock_conditions-IsCodec.decodes x.unlock_conditions v.unlock_conditions)
              (Decodes-⊗ (Decodes-read_uint64 x.new_revision_number v.new_revision_number) (
                Decodes-⊗ (Decodes-read_uint64 x.new_file_size v.new_file_size) (
                  Decodes-⊗ (Decodes-read hash_size x.new_file_merkle_root v.new_file_merkle_root) (
                    Decodes-⊗ (Decodes-read_uint64 x.new_window_start v.new_window_start) (
                      Decodes-⊗ (Decodes-read_uint64 x.new_window_end v.new_window_end) (
                        Decodes-⊗
                          (Decodes-slice obj_siacoin_output-IsCodec sizeof_siacoin_output-IsLeast
                            x.new_valid_proof_outputs v.new_valid_proof_outputs)
                          (Decodes-⊗
                            (Decodes-slice obj_siacoin_output-IsCodec sizeof_siacoin_output-IsLeast
                              x.new_missed_proof_outputs v.new_missed_proof_outputs)
                            (Decodes-read hash_size x.new_unlock_hash v.new_unlock_hash)))))))))))
        (omega arith);
}
