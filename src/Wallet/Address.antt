-- ===== src/Wallet/Address.antt =====
-- wallet/wallet.go: the address of unlock conditions.
use us.Prelude.{List, [], ◌∷◌, ◌++◌, ◌&&◌, ◌==◌, if◌then◌else◌, length}
use us.Prelude.Bytes.{little_endian}
use us.Merkle.Hash.{Blake, Hash}
use us.Wallet.Types.{PublicKey, UnlockConditions, Sia}

abbrev pub timelock_hash : Hash
timelock_hash =
    81 ∷ 135 ∷ 183 ∷ 168 ∷ 2 ∷ 27 ∷ 244 ∷ 242 ∷ 192 ∷ 4 ∷ 234 ∷ 58 ∷ 84 ∷ 207 ∷ 236 ∷ 225 ∷ 117 ∷ 79
    ∷ 17 ∷ 199 ∷ 98 ∷ 77 ∷ 35 ∷ 99 ∷ 199 ∷ 244 ∷ 207 ∷ 79 ∷ 221 ∷ 209 ∷ 68 ∷ 30 ∷ []

abbrev pub sigsrequired_hash : Hash
sigsrequired_hash =
    179 ∷ 96 ∷ 16 ∷ 235 ∷ 40 ∷ 92 ∷ 21 ∷ 74 ∷ 140 ∷ 214 ∷ 48 ∷ 132 ∷ 172 ∷ 190 ∷ 126 ∷ 172 ∷ 12 ∷ 77
    ∷ 98 ∷ 90 ∷ 180 ∷ 225 ∷ 167 ∷ 110 ∷ 98 ∷ 74 ∷ 135 ∷ 152 ∷ 203 ∷ 99 ∷ 73 ∷ 123 ∷ []

module _ ⦃blake : Blake⦄ where
  -- The algorithm has 16 bytes.
  unfoldable pub standard_address : PublicKey → Hash
  unfolding little_endian
  standard_address pk =
      let pubkey_hash =
        blake.sum256 (0 ∷ (pk.algorithm ++ little_endian 8 (length pk.key) ++ pk.key)) in
      let tlpk_hash = blake.sum256 (1 ∷ (timelock_hash ++ pubkey_hash)) in
      blake.sum256 (1 ∷ (tlpk_hash ++ sigsrequired_hash))

  module _ ⦃sia : Sia⦄ where
    standard_key : UnlockConditions → List PublicKey → Hash
    standard_key uc (pk ∷ []) =
        if (uc.timelock == 0) && (uc.signatures_required == 1)
        then standard_address pk
        else sia.unlock_hash uc
    standard_key uc keys = sia.unlock_hash uc

    unfoldable pub calculate_unlock_hash : UnlockConditions → Hash
    unfolding standard_key
    calculate_unlock_hash uc = standard_key uc uc.public_keys
