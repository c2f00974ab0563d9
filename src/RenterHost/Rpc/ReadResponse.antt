-- ===== src/RenterHost/Rpc/ReadResponse.antt =====
-- RPCReadResponse of renterhost/encoding.go.
use us.Prelude.{ℕ, ◌+◌, ◌*◌, ◌^◌, ◌<◌, List, arith, length}
use us.RenterHost.Buffer.{◌followed_by◌, ◌into◌, ◌⊗◌, read_prefixed_bytes, write_prefixed_bytes}
use us.RenterHost.Buffer.Laws.{Sticky-⊗, Sticky-into, Decodes-⊗, Decodes-into, Decodes-size}
use us.RenterHost.Buffer.Prefix.{Sticky-read_prefixed_bytes, Decodes-read_prefixed_bytes}
use us.RenterHost.Object.{ProtocolObject, IsCodec, hash_size}
use us.RenterHost.Object.Fields.{
  IsHash, IsSlice, read_hashes, write_hashes, Sticky-read_hashes, Decodes-read_hashes,
}

pub record RpcReadResponse : Type 0 where
  pub signature : List ℕ
  pub «data» : List ℕ
  pub merkle_proof : List (List ℕ)

pub record IsRpcReadResponse (x : RpcReadResponse) : Type 0 where
  pub signature : length x.signature < 2 ^ 64
  pub «data» : length x.«data» < 2 ^ 64
  pub merkle_proof : IsSlice IsHash x.merkle_proof

unfoldable pub rpc_read_response : ProtocolObject RpcReadResponse
rpc_read_response = record {
  marshalled_size =
      λ x. 8 + length x.signature + 8 + length x.«data» + 8 + length x.merkle_proof * hash_size;
  marshal_buffer = λ x.
      write_prefixed_bytes x.signature
      followed_by write_prefixed_bytes x.«data»
      followed_by write_hashes x.merkle_proof;
  unmarshal_buffer = read_prefixed_bytes ⊗ read_prefixed_bytes ⊗ read_hashes into λ t. record {
    signature = t.0;
    «data» = t.1.0;
    merkle_proof = t.1.1;
  };
}

pub rpc_read_response-IsCodec : IsCodec IsRpcReadResponse rpc_read_response
unfolding rpc_read_response
rpc_read_response-IsCodec = record {
  sticky = Sticky-into _ (
      Sticky-⊗ Sticky-read_prefixed_bytes (Sticky-⊗ Sticky-read_prefixed_bytes Sticky-read_hashes));
  decodes = λ x v.
      Decodes-size
        (Decodes-into _ (
          Decodes-⊗ (Decodes-read_prefixed_bytes x.signature v.signature) (
            Decodes-⊗ (Decodes-read_prefixed_bytes x.«data» v.«data»)
              (Decodes-read_hashes x.merkle_proof v.merkle_proof))))
        (omega arith);
}
