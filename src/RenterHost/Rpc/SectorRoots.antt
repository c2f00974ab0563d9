-- ===== src/RenterHost/Rpc/SectorRoots.antt =====
-- RPCSectorRootsRequest, RPCSectorRootsResponse of renterhost/encoding.go.
use us.Prelude.{ℕ, ◌+◌, ◌*◌, ◌^◌, ◌<◌, List, arith, length}
use us.RenterHost.Buffer.{
  ◌followed_by◌, ◌into◌, ◌⊗◌, read_uint64, read_prefixed_bytes, read_slice, write_uint64,
  write_prefixed_bytes, write_slice, sum_sizes,
}
use us.RenterHost.Buffer.Laws.{Sticky-⊗, Sticky-into, Decodes-⊗, Decodes-into, Decodes-size}
use us.RenterHost.Buffer.Primitives.{Sticky-read_uint64, Decodes-read_uint64}
use us.RenterHost.Buffer.Prefix.{
  Sticky-read_prefixed_bytes, Sticky-read_slice, Decodes-read_prefixed_bytes,
}
use us.RenterHost.Object.{ProtocolObject, IsCodec, hash_size}
use us.RenterHost.Object.Fields.{
  IsHash, IsSlice, read_hashes, write_hashes, Sticky-read_hashes, Decodes-read_hashes,
  Decodes-slice,
}
use us.RenterHost.Object.Currency.{
  obj_currency, IsCurrency, obj_currency-IsCodec, sizeof_currency, sizeof_currency-IsLeast,
}

pub record RpcSectorRootsRequest : Type 0 where
  pub root_offset : ℕ
  pub num_roots : ℕ
  pub new_revision_number : ℕ
  pub new_valid_proof_values : List ℕ
  pub new_missed_proof_values : List ℕ
  pub signature : List ℕ

pub record IsRpcSectorRootsRequest (x : RpcSectorRootsRequest) : Type 0 where
  pub root_offset : x.root_offset < 2 ^ 64
  pub num_roots : x.num_roots < 2 ^ 64
  pub new_revision_number : x.new_revision_number < 2 ^ 64
  pub new_valid_proof_values : IsSlice IsCurrency x.new_valid_proof_values
  pub new_missed_proof_values : IsSlice IsCurrency x.new_missed_proof_values
  pub signature : length x.signature < 2 ^ 64

unfoldable pub rpc_sector_roots_request : ProtocolObject RpcSectorRootsRequest
rpc_sector_roots_request = record {
  marshalled_size = λ x.
      8
      + 8
      + 8
      + (8 + sum_sizes obj_currency.marshalled_size x.new_valid_proof_values)
      + (8 + sum_sizes obj_currency.marshalled_size x.new_missed_proof_values)
      + 8
      + length x.signature;
  marshal_buffer = λ x.
      write_uint64 x.root_offset
      followed_by write_uint64 x.num_roots
      followed_by write_uint64 x.new_revision_number
      followed_by write_slice obj_currency.marshal_buffer x.new_valid_proof_values
      followed_by write_slice obj_currency.marshal_buffer x.new_missed_proof_values
      followed_by write_prefixed_bytes x.signature;
  unmarshal_buffer =
      read_uint64
        ⊗ read_uint64
        ⊗ read_uint64
        ⊗ read_slice sizeof_currency obj_currency.unmarshal_buffer
        ⊗ read_slice sizeof_currency obj_currency.unmarshal_buffer
        ⊗ read_prefixed_bytes
      into λ t. record {
        root_offset = t.0;
        num_roots = t.1.0;
        new_revision_number = t.1.1.0;
        new_valid_proof_values = t.1.1.1.0;
        new_missed_proof_values = t.1.1.1.1.0;
        signature = t.1.1.1.1.1;
      };
}

pub rpc_sector_roots_request-IsCodec : IsCodec IsRpcSectorRootsRequest rpc_sector_roots_request
unfolding rpc_sector_roots_request
rpc_sector_roots_request-IsCodec = record {
  sticky = Sticky-into _ (
      Sticky-⊗ Sticky-read_uint64 (
        Sticky-⊗ Sticky-read_uint64 (
          Sticky-⊗ Sticky-read_uint64 (
            Sticky-⊗
              (Sticky-read_slice sizeof_currency obj_currency.unmarshal_buffer
                obj_currency-IsCodec.sticky)
              (Sticky-⊗
                (Sticky-read_slice sizeof_currency obj_currency.unmarshal_buffer
                  obj_currency-IsCodec.sticky)
                Sticky-read_prefixed_bytes)))));
  decodes = λ x v.
      Decodes-size
        (Decodes-into _ (
          Decodes-⊗ (Decodes-read_uint64 x.root_offset v.root_offset) (
            Decodes-⊗ (Decodes-read_uint64 x.num_roots v.num_roots) (
              Decodes-⊗ (Decodes-read_uint64 x.new_revision_number v.new_revision_number) (
                Decodes-⊗
                  (Decodes-slice obj_currency-IsCodec sizeof_currency-IsLeast
                    x.new_valid_proof_values v.new_valid_proof_values)
                  (Decodes-⊗
                    (Decodes-slice obj_currency-IsCodec sizeof_currency-IsLeast
                      x.new_missed_proof_values v.new_missed_proof_values)
                    (Decodes-read_prefixed_bytes x.signature v.signature)))))))
        (omega arith);
}

pub record RpcSectorRootsResponse : Type 0 where
  pub signature : List ℕ
  pub sector_roots : List (List ℕ)
  pub merkle_proof : List (List ℕ)

pub record IsRpcSectorRootsResponse (x : RpcSectorRootsResponse) : Type 0 where
  pub signature : length x.signature < 2 ^ 64
  pub sector_roots : IsSlice IsHash x.sector_roots
  pub merkle_proof : IsSlice IsHash x.merkle_proof

unfoldable pub rpc_sector_roots_response : ProtocolObject RpcSectorRootsResponse
rpc_sector_roots_response = record {
  marshalled_size = λ x.
      8
      + length x.signature
      + 8
      + length x.sector_roots * hash_size
      + 8
      + length x.merkle_proof * hash_size;
  marshal_buffer = λ x.
      write_prefixed_bytes x.signature
      followed_by write_hashes x.sector_roots
      followed_by write_hashes x.merkle_proof;
  unmarshal_buffer = read_prefixed_bytes ⊗ read_hashes ⊗ read_hashes into λ t. record {
    signature = t.0;
    sector_roots = t.1.0;
    merkle_proof = t.1.1;
  };
}

pub rpc_sector_roots_response-IsCodec : IsCodec IsRpcSectorRootsResponse rpc_sector_roots_response
unfolding rpc_sector_roots_response
rpc_sector_roots_response-IsCodec = record {
  sticky =
      Sticky-into _
        (Sticky-⊗ Sticky-read_prefixed_bytes (Sticky-⊗ Sticky-read_hashes Sticky-read_hashes));
  decodes = λ x v.
      Decodes-size
        (Decodes-into _ (
          Decodes-⊗ (Decodes-read_prefixed_bytes x.signature v.signature) (
            Decodes-⊗ (Decodes-read_hashes x.sector_roots v.sector_roots)
              (Decodes-read_hashes x.merkle_proof v.merkle_proof))))
        (omega arith);
}
