-- ===== src/RenterHost/HashRevision.antt =====
-- HashRevision of renterhost/encoding.go, the hash that the renter and the host sign.
use us.Prelude.{◌≡◌, ◌⊎◌, inl, inr}
use us.Merkle.Hash.{Blake, Hash}
use us.Merkle.Collision.{Collision, sum256-injective}
use us.RenterHost.Object.FileContractRevision.{
  FileContractRevision, IsFileContractRevision, obj_file_contract_revision,
}
use us.RenterHost.Messages.{file_contract_revision}
use us.RenterHost.Messages.Codecs.{marshal_buffer-injective}

module _ ⦃blake : Blake⦄ where
  unfoldable pub hash_revision : FileContractRevision → Hash
  hash_revision rev = blake.sum256 (obj_file_contract_revision.marshal_buffer rev)

  -- Two valid contract revisions of the same HashRevision are equal, or else two messages are
  -- given that are a collision of the hash function.
  pub hash_revision-injective :
      (rev rev' : FileContractRevision)
      → IsFileContractRevision rev
      → IsFileContractRevision rev'
      → hash_revision rev ≡ hash_revision rev'
      → (rev ≡ rev') ⊎ Collision
  unfolding hash_revision
  hash_revision-injective rev rev' valid valid' e =
      elim (sum256-injective (obj_file_contract_revision.marshal_buffer rev)
        (obj_file_contract_revision.marshal_buffer rev') e) [
          | inl same ↦
              inl (marshal_buffer-injective file_contract_revision rev rev' valid valid' same)
          | inr collision ↦ inr collision
        ]
