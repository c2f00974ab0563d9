-- ===== src/RenterHost/Object/Signatures.antt =====
-- objTransactionSignature of renterhost/encoding.go.
use us.Prelude.{ℕ, ◌+◌, ◌^◌, ◌<◌, ◌≡◌, refl, List, [], arith, length, replicate}
use us.RenterHost.Buffer.{
  ◌followed_by◌, ◌into◌, ◌⊗◌, read, read_uint64, read_prefixed_bytes, write_uint64,
  write_prefixed_bytes, sum_sizes,
}
use us.RenterHost.Buffer.Laws.{Sticky-⊗, Sticky-into, Decodes-⊗, Decodes-into, Decodes-size}
use us.RenterHost.Buffer.Primitives.{
  Sticky-read, Sticky-read_uint64, Decodes-read, Decodes-read_uint64,
}
use us.RenterHost.Buffer.Prefix.{Sticky-read_prefixed_bytes, Decodes-read_prefixed_bytes}
use us.RenterHost.Object.{ProtocolObject, IsCodec, hash_size}
use us.RenterHost.Object.Fields.{IsHash, IsLeast}
use us.RenterHost.Object.CoveredFields.{
  CoveredFields, IsCoveredFields, obj_covered_fields, obj_covered_fields-IsCodec,
  obj_covered_fields-IsLeast, zero_covered_fields,
}

pub record TransactionSignature : Type 0 where
  pub parent_id : List ℕ
  pub public_key_index : ℕ
  pub timelock : ℕ
  pub covered_fields : CoveredFields
  pub signature : List ℕ

pub record IsTransactionSignature (x : TransactionSignature) : Type 0 where
  pub parent_id : IsHash x.parent_id
  pub public_key_index : x.public_key_index < 2 ^ 64
  pub timelock : x.timelock < 2 ^ 64
  pub covered_fields : IsCoveredFields x.covered_fields
  pub signature : length x.signature < 2 ^ 64

unfoldable pub obj_transaction_signature : ProtocolObject TransactionSignature
obj_transaction_signature = record {
  marshalled_size = λ x.
      hash_size
      + 8
      + 8
      + obj_covered_fields.marshalled_size x.covered_fields
      + 8
      + length x.signature;
  marshal_buffer = λ x.
      x.parent_id
      followed_by write_uint64 x.public_key_index
      followed_by write_uint64 x.timelock
      followed_by obj_covered_fields.marshal_buffer x.covered_fields
      followed_by write_prefixed_bytes x.signature;
  unmarshal_buffer =
      read hash_size
        ⊗ read_uint64
        ⊗ read_uint64
        ⊗ obj_covered_fields.unmarshal_buffer
        ⊗ read_prefixed_bytes
      into λ t. record {
        parent_id = t.0;
        public_key_index = t.1.0;
        timelock = t.1.1.0;
        covered_fields = t.1.1.1.0;
        signature = t.1.1.1.1;
      };
}

pub obj_transaction_signature-IsLeast : IsLeast obj_transaction_signature 137
unfolding obj_transaction_signature
obj_transaction_signature-IsLeast =
    (omega arith, λ x. omega (arith, obj_covered_fields-IsLeast.1 x.covered_fields))

abbrev pub zero_transaction_signature : TransactionSignature
zero_transaction_signature = record {
  parent_id = replicate hash_size 0;
  public_key_index = 0;
  timelock = 0;
  covered_fields = zero_covered_fields;
  signature = [];
}

unfoldable pub sizeof_transaction_signature : ℕ
sizeof_transaction_signature = obj_transaction_signature.marshalled_size zero_transaction_signature

sizeof_transaction_signature-value : sizeof_transaction_signature ≡ 137
unfolding sizeof_transaction_signature obj_covered_fields obj_transaction_signature sum_sizes
sizeof_transaction_signature-value = refl

pub sizeof_transaction_signature-IsLeast :
    IsLeast obj_transaction_signature sizeof_transaction_signature
sizeof_transaction_signature-IsLeast =
    rw sizeof_transaction_signature-value obj_transaction_signature-IsLeast

pub obj_transaction_signature-IsCodec : IsCodec IsTransactionSignature obj_transaction_signature
unfolding obj_transaction_signature
obj_transaction_signature-IsCodec = record {
  sticky = Sticky-into _ (
      Sticky-⊗ (Sticky-read hash_size) (
        Sticky-⊗ Sticky-read_uint64 (
          Sticky-⊗ Sticky-read_uint64
            (Sticky-⊗ obj_covered_fields-IsCodec.sticky Sticky-read_prefixed_bytes))));
  decodes = λ x v.
      Decodes-size
        (Decodes-into _ (
          Decodes-⊗ (Decodes-read hash_size x.parent_id v.parent_id) (
            Decodes-⊗ (Decodes-read_uint64 x.public_key_index v.public_key_index) (
              Decodes-⊗ (Decodes-read_uint64 x.timelock v.timelock) (
                Decodes-⊗ (obj_covered_fields-IsCodec.decodes x.covered_fields v.covered_fields)
                  (Decodes-read_prefixed_bytes x.signature v.signature))))))
        (omega arith);
}
