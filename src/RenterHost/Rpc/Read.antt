-- ===== src/RenterHost/Rpc/Read.antt =====
-- RPCReadRequestSection, RPCReadRequest of renterhost/encoding.go.
use us.Prelude.{ℕ, ◌+◌, ◌*◌, ◌^◌, ◌<◌, ◌≡◌, refl, Bool, List, arith, length}
use us.RenterHost.Buffer.{
  ◌followed_by◌, ◌into◌, ◌⊗◌, read, read_bool, read_uint64, read_prefixed_bytes, read_slice,
  write_bool, write_uint64, write_prefixed_bytes, write_slice, sum_sizes,
}
use us.RenterHost.Buffer.Laws.{Sticky-⊗, Sticky-into, Decodes-⊗, Decodes-into, Decodes-size}
use us.RenterHost.Buffer.Primitives.{
  Sticky-read, Sticky-read_bool, Sticky-read_uint64, Decodes-read, Decodes-read_bool,
  Decodes-read_uint64,
}
use us.RenterHost.Buffer.Prefix.{
  Sticky-read_prefixed_bytes, Sticky-read_slice, Decodes-read_prefixed_bytes,
}
use us.RenterHost.Object.{ProtocolObject, IsCodec, hash_size}
use us.RenterHost.Object.Fields.{
  IsHash, IsLeast, IsSlice, read_uint32, Sticky-read_uint32, Decodes-read_uint32, Decodes-slice,
  sum_sizes-const,
}
use us.RenterHost.Object.Currency.{
  obj_currency, IsCurrency, obj_currency-IsCodec, sizeof_currency, sizeof_currency-IsLeast,
}

pub record RpcReadRequestSection : Type 0 where
  pub merkle_root : List ℕ
  pub offset : ℕ
  pub len : ℕ

pub record IsRpcReadRequestSection (x : RpcReadRequestSection) : Type 0 where
  pub merkle_root : IsHash x.merkle_root
  pub offset : x.offset < 2 ^ 32
  pub len : x.len < 2 ^ 32

unfoldable pub rpc_read_request_section : ProtocolObject RpcReadRequestSection
rpc_read_request_section = record {
  marshalled_size = λ x. hash_size + 8 + 8;
  marshal_buffer =
      λ x. x.merkle_root followed_by write_uint64 x.offset followed_by write_uint64 x.len;
  unmarshal_buffer = read hash_size ⊗ read_uint32 ⊗ read_uint32 into λ t. record {
    merkle_root = t.0;
    offset = t.1.0;
    len = t.1.1;
  };
}

pub rpc_read_request_section-IsLeast : IsLeast rpc_read_request_section 48
unfolding rpc_read_request_section
rpc_read_request_section-IsLeast = (omega arith, λ x. omega arith)

unfoldable pub sizeof_section : ℕ
sizeof_section = hash_size + 8 + 8

sizeof_section-value : sizeof_section ≡ 48
unfolding sizeof_section
sizeof_section-value = refl

pub sizeof_section-IsLeast : IsLeast rpc_read_request_section sizeof_section
sizeof_section-IsLeast = rw sizeof_section-value rpc_read_request_section-IsLeast

pub rpc_read_request_section-IsCodec : IsCodec IsRpcReadRequestSection rpc_read_request_section
unfolding rpc_read_request_section
rpc_read_request_section-IsCodec = record {
  sticky =
      Sticky-into _
        (Sticky-⊗ (Sticky-read hash_size) (Sticky-⊗ Sticky-read_uint32 Sticky-read_uint32));
  decodes = λ x v.
      Decodes-size
        (Decodes-into _ (
          Decodes-⊗ (Decodes-read hash_size x.merkle_root v.merkle_root)
            (Decodes-⊗ (Decodes-read_uint32 x.offset v.offset) (Decodes-read_uint32 x.len v.len))))
        (omega arith);
}

pub record RpcReadRequest : Type 0 where
  pub sections : List RpcReadRequestSection
  pub merkle_proof : Bool
  pub new_revision_number : ℕ
  pub new_valid_proof_values : List ℕ
  pub new_missed_proof_values : List ℕ
  pub signature : List ℕ

pub record IsRpcReadRequest (x : RpcReadRequest) : Type 0 where
  pub sections : IsSlice IsRpcReadRequestSection x.sections
  pub new_revision_number : x.new_revision_number < 2 ^ 64
  pub new_valid_proof_values : IsSlice IsCurrency x.new_valid_proof_values
  pub new_missed_proof_values : IsSlice IsCurrency x.new_missed_proof_values
  pub signature : length x.signature < 2 ^ 64

unfoldable pub rpc_read_request : ProtocolObject RpcReadRequest
rpc_read_request = record {
  marshalled_size = λ x.
      8
      + length x.sections * (hash_size + 8 + 8)
      + 1
      + 8
      + (8 + sum_sizes obj_currency.marshalled_size x.new_valid_proof_values)
      + (8 + sum_sizes obj_currency.marshalled_size x.new_missed_proof_values)
      + 8
      + length x.signature;
  marshal_buffer = λ x.
      write_slice rpc_read_request_section.marshal_buffer x.sections
      followed_by write_bool x.merkle_proof
      followed_by write_uint64 x.new_revision_number
      followed_by write_slice obj_currency.marshal_buffer x.new_valid_proof_values
      followed_by write_slice obj_currency.marshal_buffer x.new_missed_proof_values
      followed_by write_prefixed_bytes x.signature;
  unmarshal_buffer =
      read_slice sizeof_section rpc_read_request_section.unmarshal_buffer
        ⊗ read_bool
        ⊗ read_uint64
        ⊗ read_slice sizeof_currency obj_currency.unmarshal_buffer
        ⊗ read_slice sizeof_currency obj_currency.unmarshal_buffer
        ⊗ read_prefixed_bytes
      into λ t. record {
        sections = t.0;
        merkle_proof = t.1.0;
        new_revision_number = t.1.1.0;
        new_valid_proof_values = t.1.1.1.0;
        new_missed_proof_values = t.1.1.1.1.0;
        signature = t.1.1.1.1.1;
      };
}

size_sections :
    (xs : List RpcReadRequestSection)
    → sum_sizes rpc_read_request_section.marshalled_size xs ≡ length xs * (hash_size + 8 + 8)
unfolding rpc_read_request_section
size_sections xs = sum_sizes-const (hash_size + 8 + 8) xs

pub rpc_read_request-IsCodec : IsCodec IsRpcReadRequest rpc_read_request
unfolding rpc_read_request
rpc_read_request-IsCodec = record {
  sticky = Sticky-into _ (
      Sticky-⊗
        (Sticky-read_slice sizeof_section rpc_read_request_section.unmarshal_buffer
          rpc_read_request_section-IsCodec.sticky)
        (Sticky-⊗ Sticky-read_bool (
          Sticky-⊗ Sticky-read_uint64 (
            Sticky-⊗
              (Sticky-read_slice sizeof_currency obj_currency.unmarshal_buffer
                obj_currency-IsCodec.sticky)
              (Sticky-⊗
                (Sticky-read_slice sizeof_currency obj_currency.unmarshal_buffer
                  obj_currency-IsCodec.sticky)
                Sticky-read_prefixed_bytes)))));
  decodes = λ x v.
      Decodes-size
        (Decodes-into _ (
          Decodes-⊗
            (Decodes-slice rpc_read_request_section-IsCodec sizeof_section-IsLeast x.sections
              v.sections)
            (Decodes-⊗ (Decodes-read_bool x.merkle_proof) (
              Decodes-⊗ (Decodes-read_uint64 x.new_revision_number v.new_revision_number) (
                Decodes-⊗
                  (Decodes-slice obj_currency-IsCodec sizeof_currency-IsLeast
                    x.new_valid_proof_values v.new_valid_proof_values)
                  (Decodes-⊗
                    (Decodes-slice obj_currency-IsCodec sizeof_currency-IsLeast
                      x.new_missed_proof_values v.new_missed_proof_values)
                    (Decodes-read_prefixed_bytes x.signature v.signature)))))))
        (omega (arith, size_sections x.sections));
}
