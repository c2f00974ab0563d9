-- ===== src/RenterHost/Object.antt =====
-- ProtocolObject of renterhost/encoding.go. An object that is read is a zero value before; `marshal_buffer`
-- gives the bytes that are appended.
pub mod Currency
pub mod Fields
pub mod Keys
pub mod Inputs
pub mod Outputs
pub mod CoveredFields
pub mod Signatures
pub mod FileContract
pub mod FileContractRevision
pub mod StorageProof
pub mod Transaction
use us.Prelude.{ℕ, ◌≤◌, ◌<◌, ◌^◌, ◌%◌, List, ◌++◌}
use us.RenterHost.Buffer.{Read, ◌into◌, read_uint64}
use us.RenterHost.Buffer.Laws.{Sticky, Decodes}

pub record ProtocolObject {ℓ} (A : Type ℓ) : Type ℓ where
  pub marshalled_size : A → ℕ
  pub marshal_buffer : A → List ℕ
  pub unmarshal_buffer : Read A

-- What the object promises of the values that satisfy `P`.
pub record IsCodec {ℓ κ} {A : Type ℓ} (P : A → Type κ) (o : ProtocolObject A) : Type (ℓ ⊔ κ) where
  pub sticky : Sticky o.unmarshal_buffer
  pub decodes :
      (x : A) → P x → Decodes o.unmarshal_buffer (o.marshal_buffer x) x (o.marshalled_size x)

-- An array has the length of its type: crypto.HashSize for hashes and identifiers.
abbrev pub hash_size : ℕ
hash_size = 32
