-- ===== src/RenterHost/Rpc/WriteResponse.antt =====
-- RPCWriteMerkleProof, RPCWriteResponse of renterhost/encoding.go.
use us.Prelude.{ℕ, ◌+◌, ◌*◌, ◌^◌, ◌<◌, List, arith, length}
use us.RenterHost.Buffer.{
  ◌followed_by◌, ◌into◌, ◌⊗◌, read, read_prefixed_bytes, write_prefixed_bytes,
}
use us.RenterHost.Buffer.Laws.{Sticky-⊗, Sticky-into, Decodes-⊗, Decodes-into, Decodes-size}
use us.RenterHost.Buffer.Primitives.{Sticky-read, Decodes-read}
use us.RenterHost.Buffer.Prefix.{Sticky-read_prefixed_bytes, Decodes-read_prefixed_bytes}
use us.RenterHost.Object.{ProtocolObject, IsCodec, hash_size}
use us.RenterHost.Object.Fields.{
  IsHash, IsSlice, read_hashes, write_hashes, Sticky-read_hashes, Decodes-read_hashes,
}

pub record RpcWriteMerkleProof : Type 0 where
  pub old_subtree_hashes : List (List ℕ)
  pub old_leaf_hashes : List (List ℕ)
  pub new_merkle_root : List ℕ

pub record IsRpcWriteMerkleProof (x : RpcWriteMerkleProof) : Type 0 where
  pub old_subtree_hashes : IsSlice IsHash x.old_subtree_hashes
  pub old_leaf_hashes : IsSlice IsHash x.old_leaf_hashes
  pub new_merkle_root : IsHash x.new_merkle_root

unfoldable pub rpc_write_merkle_proof : ProtocolObject RpcWriteMerkleProof
rpc_write_merkle_proof = record {
  marshalled_size = λ x.
      8
      + length x.old_subtree_hashes * hash_size
      + 8
      + length x.old_leaf_hashes * hash_size
      + hash_size;
  marshal_buffer = λ x.
      write_hashes x.old_subtree_hashes
      followed_by write_hashes x.old_leaf_hashes
      followed_by x.new_merkle_root;
  unmarshal_buffer = read_hashes ⊗ read_hashes ⊗ read hash_size into λ t. record {
    old_subtree_hashes = t.0;
    old_leaf_hashes = t.1.0;
    new_merkle_root = t.1.1;
  };
}

pub rpc_write_merkle_proof-IsCodec : IsCodec IsRpcWriteMerkleProof rpc_write_merkle_proof
unfolding rpc_write_merkle_proof
rpc_write_merkle_proof-IsCodec = record {
  sticky =
      Sticky-into _
        (Sticky-⊗ Sticky-read_hashes (Sticky-⊗ Sticky-read_hashes (Sticky-read hash_size)));
  decodes = λ x v.
      Decodes-size
        (Decodes-into _ (
          Decodes-⊗ (Decodes-read_hashes x.old_subtree_hashes v.old_subtree_hashes) (
            Decodes-⊗ (Decodes-read_hashes x.old_leaf_hashes v.old_leaf_hashes)
              (Decodes-read hash_size x.new_merkle_root v.new_merkle_root))))
        (omega arith);
}

pub record RpcWriteResponse : Type 0 where
  pub signature : List ℕ

pub record IsRpcWriteResponse (x : RpcWriteResponse) : Type 0 where
  pub signature : length x.signature < 2 ^ 64

unfoldable pub rpc_write_response : ProtocolObject RpcWriteResponse
rpc_write_response = record {
  marshalled_size = λ x. 8 + length x.signature;
  marshal_buffer = λ x. write_prefixed_bytes x.signature;
  unmarshal_buffer = read_prefixed_bytes into λ t. record { signature = t };
}

pub rpc_write_response-IsCodec : IsCodec IsRpcWriteResponse rpc_write_response
unfolding rpc_write_response
rpc_write_response-IsCodec = record {
  sticky = Sticky-into _ Sticky-read_prefixed_bytes;
  decodes = λ x v.
      Decodes-size (Decodes-into _ (Decodes-read_prefixed_bytes x.signature v.signature))
        (omega arith);
}
