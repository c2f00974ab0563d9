-- ===== src/RenterHost/Object/Inputs.antt =====
-- objSiacoinInput, objSiafundInput of renterhost/encoding.go.
use us.Prelude.{ℕ, ◌+◌, ◌≡◌, refl, List, arith, replicate}
use us.RenterHost.Buffer.{◌followed_by◌, ◌into◌, ◌⊗◌, read, sum_sizes}
use us.RenterHost.Buffer.Laws.{Sticky-⊗, Sticky-into, Decodes-⊗, Decodes-into, Decodes-size}
use us.RenterHost.Buffer.Primitives.{Sticky-read, Decodes-read}
use us.RenterHost.Object.{ProtocolObject, IsCodec, hash_size}
use us.RenterHost.Object.Fields.{IsHash, IsLeast}
use us.RenterHost.Object.Keys.{
  UnlockConditions, IsUnlockConditions, obj_unlock_conditions, obj_unlock_conditions-IsCodec,
  obj_unlock_conditions-IsLeast, zero_unlock_conditions,
}

pub record SiacoinInput : Type 0 where
  pub parent_id : List ℕ
  pub unlock_conditions : UnlockConditions

pub record IsSiacoinInput (x : SiacoinInput) : Type 0 where
  pub parent_id : IsHash x.parent_id
  pub unlock_conditions : IsUnlockConditions x.unlock_conditions

unfoldable pub obj_siacoin_input : ProtocolObject SiacoinInput
obj_siacoin_input = record {
  marshalled_size = λ x. hash_size + obj_unlock_conditions.marshalled_size x.unlock_conditions;
  marshal_buffer =
      λ x. x.parent_id followed_by obj_unlock_conditions.marshal_buffer x.unlock_conditions;
  unmarshal_buffer = read hash_size ⊗ obj_unlock_conditions.unmarshal_buffer into λ t. record {
    parent_id = t.0;
    unlock_conditions = t.1;
  };
}

pub obj_siacoin_input-IsLeast : IsLeast obj_siacoin_input 56
unfolding obj_siacoin_input
obj_siacoin_input-IsLeast =
    (omega arith, λ x. omega (arith, obj_unlock_conditions-IsLeast.1 x.unlock_conditions))

abbrev pub zero_siacoin_input : SiacoinInput
zero_siacoin_input = record {
  parent_id = replicate hash_size 0;
  unlock_conditions = zero_unlock_conditions;
}

unfoldable pub sizeof_siacoin_input : ℕ
sizeof_siacoin_input = obj_siacoin_input.marshalled_size zero_siacoin_input

sizeof_siacoin_input-value : sizeof_siacoin_input ≡ 56
unfolding sizeof_siacoin_input obj_siacoin_input obj_unlock_conditions sum_sizes
sizeof_siacoin_input-value = refl

pub sizeof_siacoin_input-IsLeast : IsLeast obj_siacoin_input sizeof_siacoin_input
sizeof_siacoin_input-IsLeast = rw sizeof_siacoin_input-value obj_siacoin_input-IsLeast

pub obj_siacoin_input-IsCodec : IsCodec IsSiacoinInput obj_siacoin_input
unfolding obj_siacoin_input
obj_siacoin_input-IsCodec = record {
  sticky = Sticky-into _ (Sticky-⊗ (Sticky-read hash_size) obj_unlock_conditions-IsCodec.sticky);
  decodes = λ x v.
      Decodes-size
        (Decodes-into _ (
          Decodes-⊗ (Decodes-read hash_size x.parent_id v.parent_id)
            (obj_unlock_conditions-IsCodec.decodes x.unlock_conditions v.unlock_conditions)))
        (omega arith);
}

pub record SiafundInput : Type 0 where
  pub parent_id : List ℕ
  pub unlock_conditions : UnlockConditions
  pub claim_unlock_hash : List ℕ

pub record IsSiafundInput (x : SiafundInput) : Type 0 where
  pub parent_id : IsHash x.parent_id
  pub unlock_conditions : IsUnlockConditions x.unlock_conditions
  pub claim_unlock_hash : IsHash x.claim_unlock_hash

unfoldable pub obj_siafund_input : ProtocolObject SiafundInput
obj_siafund_input = record {
  marshalled_size =
      λ x. hash_size + obj_unlock_conditions.marshalled_size x.unlock_conditions + hash_size;
  marshal_buffer = λ x.
      x.parent_id
      followed_by obj_unlock_conditions.marshal_buffer x.unlock_conditions
      followed_by x.claim_unlock_hash;
  unmarshal_buffer =
      read hash_size ⊗ obj_unlock_conditions.unmarshal_buffer ⊗ read hash_size into λ t. record {
        parent_id = t.0;
        unlock_conditions = t.1.0;
        claim_unlock_hash = t.1.1;
      };
}

pub obj_siafund_input-IsLeast : IsLeast obj_siafund_input 88
unfolding obj_siafund_input
obj_siafund_input-IsLeast =
    (omega arith, λ x. omega (arith, obj_unlock_conditions-IsLeast.1 x.unlock_conditions))

abbrev pub zero_siafund_input : SiafundInput
zero_siafund_input = record {
  parent_id = replicate hash_size 0;
  unlock_conditions = zero_unlock_conditions;
  claim_unlock_hash = replicate hash_size 0;
}

unfoldable pub sizeof_siafund_input : ℕ
sizeof_siafund_input = obj_siafund_input.marshalled_size zero_siafund_input

sizeof_siafund_input-value : sizeof_siafund_input ≡ 88
unfolding sizeof_siafund_input obj_siafund_input obj_unlock_conditions sum_sizes
sizeof_siafund_input-value = refl

pub sizeof_siafund_input-IsLeast : IsLeast obj_siafund_input sizeof_siafund_input
sizeof_siafund_input-IsLeast = rw sizeof_siafund_input-value obj_siafund_input-IsLeast

pub obj_siafund_input-IsCodec : IsCodec IsSiafundInput obj_siafund_input
unfolding obj_siafund_input
obj_siafund_input-IsCodec = record {
  sticky = Sticky-into _ (
      Sticky-⊗ (Sticky-read hash_size)
        (Sticky-⊗ obj_unlock_conditions-IsCodec.sticky (Sticky-read hash_size)));
  decodes = λ x v.
      Decodes-size
        (Decodes-into _ (
          Decodes-⊗ (Decodes-read hash_size x.parent_id v.parent_id) (
            Decodes-⊗
              (obj_unlock_conditions-IsCodec.decodes x.unlock_conditions v.unlock_conditions)
              (Decodes-read hash_size x.claim_unlock_hash v.claim_unlock_hash))))
        (omega arith);
}
