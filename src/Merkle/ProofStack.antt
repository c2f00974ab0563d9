-- ===== src/Merkle/ProofStack.antt =====
-- proofStack of merkle/stack.go: the stack that verifies proofs, one hash per height. `none` is
-- the panic on an index out of range.
pub mod View
pub mod Root
use us.Prelude.{
  ℕ, zero, suc, ◌+◌, ◌-◌, ◌/◌, ◌%◌, ◌^◌, ◌<◌, ◌≡◌, Bool, List, [], ◌∷◌, Option, none, some, ltb,
  ◌==◌, if◌then◌else◌, ◌>>=◌, length, get_elem?, set, replicate, has_bit, trailing_zeros,
}
use us.Merkle.Hash.{Blake, Hash, zero_hash, sum_pair}

pub record ProofStack : Type 0 where
  pub stack : List Hash
  pub used : ℕ

-- The zero value: 17 zero hashes, none in use.
unfoldable pub empty : ProofStack
empty = record { stack = replicate 17 zero_hash; used = 0 }

unfoldable pub has_node_at_height : ProofStack → ℕ → Bool
unfolding has_bit
has_node_at_height s height = has_bit s.used height

module _ ⦃blake : Blake⦄ where
  -- The loop of insertNode: the height at which the carry stops, and the hash to store there.
  unfoldable pub carry : ℕ → List Hash → ℕ → ℕ → Hash → Option (ℕ × Hash)
  carry zero stack used i h = none
  carry (suc fuel) stack used i h =
      let more = get_elem? stack i >>= λ x. carry fuel stack used (suc i) (sum_pair x h) in
      if has_bit used i then more else some (i, h)

  -- No bit of a uint32 is set at height 32 or above, so the loop makes fewer than 33 rounds.
  unfoldable pub insert_node : ProofStack → Hash → ℕ → Option ProofStack
  insert_node s h height = do
    (i, top) ← carry 33 s.stack s.used height h
    if ltb i (length s.stack)
        then some (record { stack = set s.stack i top; used = (s.used + 2 ^ height) % 2 ^ 32 })
        else none

  -- The loop of root, over the heights from `i` up.
  unfoldable pub root_loop : ℕ → List Hash → ℕ → ℕ → Hash → Option Hash
  root_loop zero stack used i root = some root
  root_loop (suc rounds) stack used i root =
      let joined = get_elem? stack i >>= λ x. some (sum_pair x root) in
      let next = if has_bit used i then joined else some root in
      next >>= λ r. root_loop rounds stack used (suc i) r

  unfoldable pub root : ProofStack → Option Hash
  root s =
      let i = trailing_zeros 32 s.used in
      let joined = get_elem? s.stack i >>= λ r. root_loop (32 - suc i) s.stack s.used (suc i) r in
      if i == 32 then some zero_hash else joined
