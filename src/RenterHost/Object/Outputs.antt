-- ===== src/RenterHost/Object/Outputs.antt =====
-- objSiacoinOutput, objSiafundOutput of renterhost/encoding.go.
use us.Prelude.{ℕ, ◌+◌, ◌≡◌, refl, List, arith, replicate}
use us.RenterHost.Buffer.{◌followed_by◌, ◌into◌, ◌⊗◌, read, sum_sizes}
use us.RenterHost.Buffer.Laws.{Sticky-⊗, Sticky-into, Decodes-⊗, Decodes-into, Decodes-size}
use us.RenterHost.Buffer.Primitives.{Sticky-read, Decodes-read}
use us.RenterHost.Object.{ProtocolObject, IsCodec, hash_size}
use us.RenterHost.Object.Fields.{IsHash, IsLeast}
use us.RenterHost.Currency.{size_loop, count_words}
use us.RenterHost.Object.Currency.{
  obj_currency, IsCurrency, obj_currency-IsCodec, obj_currency-IsLeast,
}

pub record SiacoinOutput : Type 0 where
  pub value : ℕ
  pub unlock_hash : List ℕ

pub record IsSiacoinOutput (x : SiacoinOutput) : Type 0 where
  pub value : IsCurrency x.value
  pub unlock_hash : IsHash x.unlock_hash

unfoldable pub obj_siacoin_output : ProtocolObject SiacoinOutput
obj_siacoin_output = record {
  marshalled_size = λ x. hash_size + obj_currency.marshalled_size x.value;
  marshal_buffer = λ x. obj_currency.marshal_buffer x.value followed_by x.unlock_hash;
  unmarshal_buffer = obj_currency.unmarshal_buffer ⊗ read hash_size into λ t. record {
    value = t.0;
    unlock_hash = t.1;
  };
}

pub obj_siacoin_output-IsLeast : IsLeast obj_siacoin_output 40
unfolding obj_siacoin_output
obj_siacoin_output-IsLeast = (omega arith, λ x. omega (arith, obj_currency-IsLeast.1 x.value))

abbrev pub zero_siacoin_output : SiacoinOutput
zero_siacoin_output = record { value = 0; unlock_hash = replicate hash_size 0 }

unfoldable pub sizeof_siacoin_output : ℕ
sizeof_siacoin_output = obj_siacoin_output.marshalled_size zero_siacoin_output

sizeof_siacoin_output-value : sizeof_siacoin_output ≡ 40
unfolding sizeof_siacoin_output count_words obj_currency obj_siacoin_output size_loop sum_sizes
sizeof_siacoin_output-value = refl

pub sizeof_siacoin_output-IsLeast : IsLeast obj_siacoin_output sizeof_siacoin_output
sizeof_siacoin_output-IsLeast = rw sizeof_siacoin_output-value obj_siacoin_output-IsLeast

pub obj_siacoin_output-IsCodec : IsCodec IsSiacoinOutput obj_siacoin_output
unfolding obj_siacoin_output
obj_siacoin_output-IsCodec = record {
  sticky = Sticky-into _ (Sticky-⊗ obj_currency-IsCodec.sticky (Sticky-read hash_size));
  decodes = λ x v.
      Decodes-size
        (Decodes-into _ (
          Decodes-⊗ (obj_currency-IsCodec.decodes x.value v.value)
            (Decodes-read hash_size x.unlock_hash v.unlock_hash)))
        (omega arith);
}

pub record SiafundOutput : Type 0 where
  pub value : ℕ
  pub unlock_hash : List ℕ
  pub claim_start : ℕ

pub record IsSiafundOutput (x : SiafundOutput) : Type 0 where
  pub value : IsCurrency x.value
  pub unlock_hash : IsHash x.unlock_hash
  pub claim_start : IsCurrency x.claim_start

unfoldable pub obj_siafund_output : ProtocolObject SiafundOutput
obj_siafund_output = record {
  marshalled_size = λ x.
      obj_currency.marshalled_size x.value + hash_size + obj_currency.marshalled_size x.claim_start;
  marshal_buffer = λ x.
      obj_currency.marshal_buffer x.value
      followed_by x.unlock_hash
      followed_by obj_currency.marshal_buffer x.claim_start;
  unmarshal_buffer =
      obj_currency.unmarshal_buffer ⊗ read hash_size ⊗ obj_currency.unmarshal_buffer into λ t.
      record { value = t.0; unlock_hash = t.1.0; claim_start = t.1.1 };
}

pub obj_siafund_output-IsLeast : IsLeast obj_siafund_output 48
unfolding obj_siafund_output
obj_siafund_output-IsLeast = (
  omega arith,
  λ x. omega (arith, obj_currency-IsLeast.1 x.value, obj_currency-IsLeast.1 x.claim_start),
)

abbrev pub zero_siafund_output : SiafundOutput
zero_siafund_output = record { value = 0; unlock_hash = replicate hash_size 0; claim_start = 0 }

unfoldable pub sizeof_siafund_output : ℕ
sizeof_siafund_output = obj_siafund_output.marshalled_size zero_siafund_output

sizeof_siafund_output-value : sizeof_siafund_output ≡ 48
unfolding sizeof_siafund_output count_words obj_currency obj_siafund_output size_loop sum_sizes
sizeof_siafund_output-value = refl

pub sizeof_siafund_output-IsLeast : IsLeast obj_siafund_output sizeof_siafund_output
sizeof_siafund_output-IsLeast = rw sizeof_siafund_output-value obj_siafund_output-IsLeast

pub obj_siafund_output-IsCodec : IsCodec IsSiafundOutput obj_siafund_output
unfolding obj_siafund_output
obj_siafund_output-IsCodec = record {
  sticky = Sticky-into _ (
      Sticky-⊗ obj_currency-IsCodec.sticky
        (Sticky-⊗ (Sticky-read hash_size) obj_currency-IsCodec.sticky));
  decodes = λ x v.
      Decodes-size
        (Decodes-into _ (
          Decodes-⊗ (obj_currency-IsCodec.decodes x.value v.value) (
            Decodes-⊗ (Decodes-read hash_size x.unlock_hash v.unlock_hash)
              (obj_currency-IsCodec.decodes x.claim_start v.claim_start))))
        (omega arith);
}
