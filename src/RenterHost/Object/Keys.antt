-- ===== src/RenterHost/Object/Keys.antt =====
-- Specifier, objSiaPublicKey, objUnlockConditions of renterhost/encoding.go.
use us.Prelude.{ℕ, ◌+◌, ◌^◌, ◌<◌, ◌≡◌, refl, List, [], arith, length, replicate}
use us.RenterHost.Buffer.{
  ◌followed_by◌, ◌into◌, ◌⊗◌, read, read_uint64, read_prefixed_bytes, read_slice, write_uint64,
  write_prefixed_bytes, write_slice, sum_sizes,
}
use us.RenterHost.Buffer.Laws.{Sticky-⊗, Sticky-into, Decodes-⊗, Decodes-into, Decodes-size}
use us.RenterHost.Buffer.Primitives.{
  Sticky-read, Sticky-read_uint64, Decodes-read, Decodes-read_uint64,
}
use us.RenterHost.Buffer.Prefix.{
  Sticky-read_prefixed_bytes, Sticky-read_slice, Decodes-read_prefixed_bytes,
}
use us.RenterHost.Object.{ProtocolObject, IsCodec}
use us.RenterHost.Object.Fields.{IsLeast, IsSlice, Decodes-slice}

-- Specifier of session.go, an array of 16 bytes.
abbrev pub IsSpecifier : List ℕ → Type 0
IsSpecifier s = length s ≡ 16

unfoldable pub obj_specifier : ProtocolObject (List ℕ)
obj_specifier = record {
  marshalled_size = λ s. 16;
  marshal_buffer = λ s. s;
  unmarshal_buffer = read 16;
}

pub obj_specifier-IsCodec : IsCodec IsSpecifier obj_specifier
unfolding obj_specifier
obj_specifier-IsCodec = record { sticky = Sticky-read 16; decodes = Decodes-read 16 }

pub record SiaPublicKey : Type 0 where
  pub algorithm : List ℕ
  pub key : List ℕ

pub record IsSiaPublicKey (x : SiaPublicKey) : Type 0 where
  pub algorithm : length x.algorithm ≡ 16
  pub key : length x.key < 2 ^ 64

unfoldable pub obj_sia_public_key : ProtocolObject SiaPublicKey
obj_sia_public_key = record {
  marshalled_size = λ x. 16 + 8 + length x.key;
  marshal_buffer = λ x. x.algorithm followed_by write_prefixed_bytes x.key;
  unmarshal_buffer = read 16 ⊗ read_prefixed_bytes into λ t. record { algorithm = t.0; key = t.1 };
}

pub obj_sia_public_key-IsLeast : IsLeast obj_sia_public_key 24
unfolding obj_sia_public_key
obj_sia_public_key-IsLeast = (omega arith, λ x. omega arith)

abbrev pub zero_sia_public_key : SiaPublicKey
zero_sia_public_key = record { algorithm = replicate 16 0; key = [] }

unfoldable pub sizeof_sia_public_key : ℕ
sizeof_sia_public_key = obj_sia_public_key.marshalled_size zero_sia_public_key

sizeof_sia_public_key-value : sizeof_sia_public_key ≡ 24
unfolding sizeof_sia_public_key obj_sia_public_key sum_sizes
sizeof_sia_public_key-value = refl

pub sizeof_sia_public_key-IsLeast : IsLeast obj_sia_public_key sizeof_sia_public_key
sizeof_sia_public_key-IsLeast = rw sizeof_sia_public_key-value obj_sia_public_key-IsLeast

pub obj_sia_public_key-IsCodec : IsCodec IsSiaPublicKey obj_sia_public_key
unfolding obj_sia_public_key
obj_sia_public_key-IsCodec = record {
  sticky = Sticky-into _ (Sticky-⊗ (Sticky-read 16) Sticky-read_prefixed_bytes);
  decodes = λ x v.
      Decodes-size
        (Decodes-into _ (
          Decodes-⊗ (Decodes-read 16 x.algorithm v.algorithm)
            (Decodes-read_prefixed_bytes x.key v.key)))
        (omega arith);
}

pub record UnlockConditions : Type 0 where
  pub timelock : ℕ
  pub public_keys : List SiaPublicKey
  pub signatures_required : ℕ

pub record IsUnlockConditions (x : UnlockConditions) : Type 0 where
  pub timelock : x.timelock < 2 ^ 64
  pub public_keys : IsSlice IsSiaPublicKey x.public_keys
  pub signatures_required : x.signatures_required < 2 ^ 64

unfoldable pub obj_unlock_conditions : ProtocolObject UnlockConditions
obj_unlock_conditions = record {
  marshalled_size = λ x. 8 + 8 + (8 + sum_sizes obj_sia_public_key.marshalled_size x.public_keys);
  marshal_buffer = λ x.
      write_uint64 x.timelock
      followed_by write_slice obj_sia_public_key.marshal_buffer x.public_keys
      followed_by write_uint64 x.signatures_required;
  unmarshal_buffer =
      read_uint64
        ⊗ read_slice sizeof_sia_public_key obj_sia_public_key.unmarshal_buffer
        ⊗ read_uint64
      into λ t. record { timelock = t.0; public_keys = t.1.0; signatures_required = t.1.1 };
}

pub obj_unlock_conditions-IsLeast : IsLeast obj_unlock_conditions 24
unfolding obj_unlock_conditions
obj_unlock_conditions-IsLeast = (omega arith, λ x. omega arith)

abbrev pub zero_unlock_conditions : UnlockConditions
zero_unlock_conditions = record { timelock = 0; public_keys = []; signatures_required = 0 }

pub obj_unlock_conditions-IsCodec : IsCodec IsUnlockConditions obj_unlock_conditions
unfolding obj_unlock_conditions
obj_unlock_conditions-IsCodec = record {
  sticky = Sticky-into _ (
      Sticky-⊗ Sticky-read_uint64 (
        Sticky-⊗
          (Sticky-read_slice sizeof_sia_public_key obj_sia_public_key.unmarshal_buffer
            obj_sia_public_key-IsCodec.sticky)
          Sticky-read_uint64));
  decodes = λ x v.
      Decodes-size
        (Decodes-into _ (
          Decodes-⊗ (Decodes-read_uint64 x.timelock v.timelock) (
            Decodes-⊗
              (Decodes-slice obj_sia_public_key-IsCodec sizeof_sia_public_key-IsLeast x.public_keys
                v.public_keys)
              (Decodes-read_uint64 x.signatures_required v.signatures_required))))
        (omega arith);
}
