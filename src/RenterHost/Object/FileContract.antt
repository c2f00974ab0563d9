-- ===== src/RenterHost/Object/FileContract.antt =====
-- objFileContract of renterhost/encoding.go.
use us.Prelude.{ℕ, ◌+◌, ◌^◌, ◌<◌, ◌≡◌, refl, List, [], arith, replicate}
use us.RenterHost.Buffer.{
  ◌followed_by◌, ◌into◌, ◌⊗◌, read, read_uint64, read_slice, write_uint64, write_slice, sum_sizes,
}
use us.RenterHost.Buffer.Laws.{Sticky-⊗, Sticky-into, Decodes-⊗, Decodes-into, Decodes-size}
use us.RenterHost.Buffer.Primitives.{
  Sticky-read, Sticky-read_uint64, Decodes-read, Decodes-read_uint64,
}
use us.RenterHost.Buffer.Prefix.{Sticky-read_slice}
use us.RenterHost.Object.{ProtocolObject, IsCodec, hash_size}
use us.RenterHost.Object.Fields.{IsHash, IsLeast, IsSlice, Decodes-slice}
use us.RenterHost.Currency.{size_loop, count_words}
use us.RenterHost.Object.Currency.{
  obj_currency, IsCurrency, obj_currency-IsCodec, obj_currency-IsLeast,
}
use us.RenterHost.Object.Outputs.{
  SiacoinOutput, IsSiacoinOutput, obj_siacoin_output, obj_siacoin_output-IsCodec,
  sizeof_siacoin_output, sizeof_siacoin_output-IsLeast,
}

pub record FileContract : Type 0 where
  pub file_size : ℕ
  pub file_merkle_root : List ℕ
  pub window_start : ℕ
  pub window_end : ℕ
  pub payout : ℕ
  pub valid_proof_outputs : List SiacoinOutput
  pub missed_proof_outputs : List SiacoinOutput
  pub unlock_hash : List ℕ
  pub revision_number : ℕ

pub record IsFileContract (x : FileContract) : Type 0 where
  pub file_size : x.file_size < 2 ^ 64
  pub file_merkle_root : IsHash x.file_merkle_root
  pub window_start : x.window_start < 2 ^ 64
  pub window_end : x.window_end < 2 ^ 64
  pub payout : IsCurrency x.payout
  pub valid_proof_outputs : IsSlice IsSiacoinOutput x.valid_proof_outputs
  pub missed_proof_outputs : IsSlice IsSiacoinOutput x.missed_proof_outputs
  pub unlock_hash : IsHash x.unlock_hash
  pub revision_number : x.revision_number < 2 ^ 64

unfoldable pub obj_file_contract : ProtocolObject FileContract
obj_file_contract = record {
  marshalled_size = λ x.
      8
      + hash_size
      + 8
      + 8
      + obj_currency.marshalled_size x.payout
      + (8 + sum_sizes obj_siacoin_output.marshalled_size x.valid_proof_outputs)
      + (8 + sum_sizes obj_siacoin_output.marshalled_size x.missed_proof_outputs)
      + hash_size
      + 8;
  marshal_buffer = λ x.
      write_uint64 x.file_size
      followed_by x.file_merkle_root
      followed_by write_uint64 x.window_start
      followed_by write_uint64 x.window_end
      followed_by obj_currency.marshal_buffer x.payout
      followed_by write_slice obj_siacoin_output.marshal_buffer x.valid_proof_outputs
      followed_by write_slice obj_siacoin_output.marshal_buffer x.missed_proof_outputs
      followed_by x.unlock_hash
      followed_by write_uint64 x.revision_number;
  unmarshal_buffer =
      read_uint64
        ⊗ read hash_size
        ⊗ read_uint64
        ⊗ read_uint64
        ⊗ obj_currency.unmarshal_buffer
        ⊗ read_slice sizeof_siacoin_output obj_siacoin_output.unmarshal_buffer
        ⊗ read_slice sizeof_siacoin_output obj_siacoin_output.unmarshal_buffer
        ⊗ read hash_size
        ⊗ read_uint64
      into λ t. record {
        file_size = t.0;
        file_merkle_root = t.1.0;
        window_start = t.1.1.0;
        window_end = t.1.1.1.0;
        payout = t.1.1.1.1.0;
        valid_proof_outputs = t.1.1.1.1.1.0;
        missed_proof_outputs = t.1.1.1.1.1.1.0;
        unlock_hash = t.1.1.1.1.1.1.1.0;
        revision_number = t.1.1.1.1.1.1.1.1;
      };
}

pub obj_file_contract-IsLeast : IsLeast obj_file_contract 120
unfolding obj_file_contract
obj_file_contract-IsLeast = (omega arith, λ x. omega (arith, obj_currency-IsLeast.1 x.payout))

abbrev pub zero_file_contract : FileContract
zero_file_contract = record {
  file_size = 0;
  file_merkle_root = replicate hash_size 0;
  window_start = 0;
  window_end = 0;
  payout = 0;
  valid_proof_outputs = [];
  missed_proof_outputs = [];
  unlock_hash = replicate hash_size 0;
  revision_number = 0;
}

unfoldable pub sizeof_file_contract : ℕ
sizeof_file_contract = obj_file_contract.marshalled_size zero_file_contract

sizeof_file_contract-value : sizeof_file_contract ≡ 120
unfolding sizeof_file_contract count_words obj_currency obj_file_contract size_loop sum_sizes
sizeof_file_contract-value = refl

pub sizeof_file_contract-IsLeast : IsLeast obj_file_contract sizeof_file_contract
sizeof_file_contract-IsLeast = rw sizeof_file_contract-value obj_file_contract-IsLeast

pub obj_file_contract-IsCodec : IsCodec IsFileContract obj_file_contract
unfolding obj_file_contract
obj_file_contract-IsCodec = record {
  sticky = Sticky-into _ (
      Sticky-⊗ Sticky-read_uint64 (
        Sticky-⊗ (Sticky-read hash_size) (
          Sticky-⊗ Sticky-read_uint64 (
            Sticky-⊗ Sticky-read_uint64 (
              Sticky-⊗ obj_currency-IsCodec.sticky (
                Sticky-⊗
                  (Sticky-read_slice sizeof_siacoin_output obj_siacoin_output.unmarshal_buffer
                    obj_siacoin_output-IsCodec.sticky)
                  (Sticky-⊗
                    (Sticky-read_slice sizeof_siacoin_output obj_siacoin_output.unmarshal_buffer
                      obj_siacoin_output-IsCodec.sticky)
                    (Sticky-⊗ (Sticky-read hash_size) Sticky-read_uint64))))))));
  decodes = λ x v.
      Decodes-size
        (Decodes-into _ (
          Decodes-⊗ (Decodes-read_uint64 x.file_size v.file_size) (
            Decodes-⊗ (Decodes-read hash_size x.file_merkle_root v.file_merkle_root) (
              Decodes-⊗ (Decodes-read_uint64 x.window_start v.window_start) (
                Decodes-⊗ (Decodes-read_uint64 x.window_end v.window_end) (
                  Decodes-⊗ (obj_currency-IsCodec.decodes x.payout v.payout) (
                    Decodes-⊗
                      (Decodes-slice obj_siacoin_output-IsCodec sizeof_siacoin_output-IsLeast
                        x.valid_proof_outputs v.valid_proof_outputs)
                      (Decodes-⊗
                        (Decodes-slice obj_siacoin_output-IsCodec sizeof_siacoin_output-IsLeast
                          x.missed_proof_outputs v.missed_proof_outputs)
                        (Decodes-⊗ (Decodes-read hash_size x.unlock_hash v.unlock_hash)
                          (Decodes-read_uint64 x.revision_number v.revision_number))))))))))
        (omega arith);
}
