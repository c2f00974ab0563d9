-- ===== src/RenterHost/Object/StorageProof.antt =====
-- objStorageProof of renterhost/encoding.go.
use us.Prelude.{ℕ, ◌+◌, ◌*◌, ◌≡◌, refl, List, [], arith, length, replicate}
use us.RenterHost.Buffer.{◌followed_by◌, ◌into◌, ◌⊗◌, read, sum_sizes}
use us.RenterHost.Buffer.Laws.{Sticky-⊗, Sticky-into, Decodes-⊗, Decodes-into, Decodes-size}
use us.RenterHost.Buffer.Primitives.{Sticky-read, Decodes-read}
use us.RenterHost.Object.{ProtocolObject, IsCodec, hash_size}
use us.RenterHost.Object.Fields.{
  IsHash, IsLeast, IsSlice, read_hashes, write_hashes, Sticky-read_hashes, Decodes-read_hashes,
}

pub record StorageProof : Type 0 where
  pub parent_id : List ℕ
  pub segment : List ℕ
  pub hash_set : List (List ℕ)

pub record IsStorageProof (x : StorageProof) : Type 0 where
  pub parent_id : IsHash x.parent_id
  pub segment : length x.segment ≡ 64
  pub hash_set : IsSlice IsHash x.hash_set

unfoldable pub obj_storage_proof : ProtocolObject StorageProof
obj_storage_proof = record {
  marshalled_size = λ x. hash_size + 64 + 8 + hash_size * length x.hash_set;
  marshal_buffer = λ x. x.parent_id followed_by x.segment followed_by write_hashes x.hash_set;
  unmarshal_buffer = read hash_size ⊗ read 64 ⊗ read_hashes into λ t. record {
    parent_id = t.0;
    segment = t.1.0;
    hash_set = t.1.1;
  };
}

pub obj_storage_proof-IsLeast : IsLeast obj_storage_proof 104
unfolding obj_storage_proof
obj_storage_proof-IsLeast = (omega arith, λ x. omega arith)

abbrev pub zero_storage_proof : StorageProof
zero_storage_proof = record {
  parent_id = replicate hash_size 0;
  segment = replicate 64 0;
  hash_set = [];
}

unfoldable pub sizeof_storage_proof : ℕ
sizeof_storage_proof = obj_storage_proof.marshalled_size zero_storage_proof

sizeof_storage_proof-value : sizeof_storage_proof ≡ 104
unfolding sizeof_storage_proof obj_storage_proof sum_sizes
sizeof_storage_proof-value = refl

pub sizeof_storage_proof-IsLeast : IsLeast obj_storage_proof sizeof_storage_proof
sizeof_storage_proof-IsLeast = rw sizeof_storage_proof-value obj_storage_proof-IsLeast

pub obj_storage_proof-IsCodec : IsCodec IsStorageProof obj_storage_proof
unfolding obj_storage_proof
obj_storage_proof-IsCodec = record {
  sticky =
      Sticky-into _
        (Sticky-⊗ (Sticky-read hash_size) (Sticky-⊗ (Sticky-read 64) Sticky-read_hashes));
  decodes = λ x v.
      Decodes-size
        (Decodes-into _ (
          Decodes-⊗ (Decodes-read hash_size x.parent_id v.parent_id) (
            Decodes-⊗ (Decodes-read 64 x.segment v.segment)
              (Decodes-read_hashes x.hash_set v.hash_set))))
        (omega arith);
}
