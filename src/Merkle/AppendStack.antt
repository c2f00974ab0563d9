-- ===== src/Merkle/AppendStack.antt =====
-- appendStack of merkle/stack.go: the stack that computes roots, four hashes per height, the
-- largest subtrees first. `none` is a panic.
pub mod Merge
pub mod Append
pub mod Leaves
pub mod Root
use us.Prelude.{
  ℕ, zero, suc, ◌+◌, ◌-◌, ◌*◌, ◌/◌, ◌%◌, ◌^◌, ◌≡◌, Bool, List, [], ◌∷◌, ◌++◌, Option, none, some,
  ◌==◌, if◌then◌else◌, ◌>>=◌, length, get_elem?, set, take, drop, replicate, has_bit,
  trailing_zeros,
}
use us.Merkle.Hash.{
  Blake, Hash, zero_hash, Group, zero_group, sum_leaf, sum_pair, sum_leaves, sum_nodes,
}

pub record AppendStack : Type 0 where
  pub stack : List Group
  pub node_buf : Group
  pub used : ℕ

-- The zero value.
unfoldable pub empty : AppendStack
empty = record { stack = replicate 15 zero_group; node_buf = zero_group; used = 0 }

-- The order is reversed, and `used` is off by a factor of 4.
unfoldable pub has_node_at_height : ℕ → ℕ → Bool
unfolding has_bit
has_node_at_height used i = has_bit (used / 4) (15 - suc i)

-- `nodeBuf[i] = h`, for an index below 4.
unfoldable pub set_node : Group → ℕ → Hash → Group
set_node buf zero h = record buf { n0 = h }
set_node buf (suc zero) h = record buf { n1 = h }
set_node buf (suc (suc zero)) h = record buf { n2 = h }
set_node buf (suc (suc (suc i))) h = record buf { n3 = h }

unfoldable pub reset : AppendStack → AppendStack
reset s = record s { used = 0 }

module _ ⦃blake : Blake⦄ where
  -- The loop of mergeNodeBuf and the store after it. The first argument is `i + 1`; the eight
  -- nodes at `stack[i]` are that entry and the next one in memory, which is nodeBuf at the end.
  unfoldable pub merge_loop : ℕ → List Group → Group → Group → ℕ → Option (List Group)
  merge_loop zero stack node_buf nodes used = none
  merge_loop (suc i) stack node_buf nodes used =
      let more = get_elem? (stack ++ node_buf ∷ []) i >>= λ a.
      get_elem? (stack ++ node_buf ∷ []) (suc i) >>= λ b.
      merge_loop i (set stack i (sum_nodes a b)) node_buf (sum_nodes a b) used in
      if has_node_at_height used i then more else some (set stack i nodes)

  unfoldable pub merge_node_buf : AppendStack → Option AppendStack
  merge_node_buf s = do
    stack ← merge_loop (length s.stack) s.stack s.node_buf s.node_buf s.used
    some (record s { stack = stack; used = (s.used + 4) % 2 ^ 32 })

  unfoldable pub append_node : AppendStack → Hash → Option AppendStack
  append_node s h =
      let stored = record s {
        node_buf = set_node s.node_buf (s.used % 4) h;
        used = (s.used + 1) % 2 ^ 32;
      } in
      let full = record stored { used = (stored.used + 2 ^ 32 - 4) % 2 ^ 32 } in
      if stored.used % 4 == 0 then merge_node_buf full else some stored

  unfoldable pub append_nodes : AppendStack → List Hash → Option AppendStack
  append_nodes s [] = some s
  append_nodes s (h ∷ hs) = append_node s h >>= λ t. append_nodes t hs

  -- The first loop of appendLeaves: `n` rounds of four leaves.
  unfoldable pub append_quads : ℕ → AppendStack → List ℕ → Option AppendStack
  append_quads zero s leaves = some s
  append_quads (suc n) s leaves =
      merge_node_buf (record s { node_buf = sum_leaves leaves }) >>= λ t.
      append_quads n t (drop 256 leaves)

  -- The second loop: `n` rounds of one leaf.
  unfoldable pub append_singles : ℕ → AppendStack → List ℕ → Option AppendStack
  append_singles zero s leaves = some s
  append_singles (suc n) s leaves =
      append_node s (sum_leaf (take 64 leaves)) >>= λ t. append_singles n t (drop 64 leaves)

  unfoldable pub append_leaves : AppendStack → List ℕ → Option AppendStack
  append_leaves s leaves =
      let rem = length leaves % 256 in
      let whole = length leaves - rem in
      let run = append_quads (whole / 256) s leaves >>= λ t.
      append_singles (rem / 64) t (drop whole leaves) in
      if length leaves % 64 == 0 then run else none

  -- The root of a group: two rounds of hashing eight nodes, the last four of them zero.
  unfoldable pub root4 : Group → Hash
  root4 nodes = (sum_nodes (sum_nodes nodes zero_group) zero_group).n0

  -- The loop of root; the first argument is `i + 1`.
  unfoldable pub root_loop : ℕ → List Group → ℕ → Hash → Option Hash
  root_loop zero stack used root = some root
  root_loop (suc i) stack used root =
      let joined = get_elem? stack i >>= λ g. some (sum_pair (root4 g) root) in
      let next = if has_node_at_height used i then joined else some root in
      next >>= λ r. root_loop i stack used r

  -- The start of root: the root of the smallest subtree, and where the loop goes on.
  unfoldable pub root_start : List Group → Group → ℕ → ℕ → Option (ℕ × Hash)
  root_start stack buf i zero = get_elem? stack (i - 1) >>= λ g. some (i - 1, root4 g)
  root_start stack buf i (suc zero) = some (i, buf.n0)
  root_start stack buf i (suc (suc zero)) = some (i, sum_pair buf.n0 buf.n1)
  root_start stack buf i (suc (suc (suc n))) = some (i, sum_pair (sum_pair buf.n0 buf.n1) buf.n2)

  -- `i` is one more than in the source, which starts at 15 - 1 - TrailingZeros32(used >> 2).
  unfoldable pub root : AppendStack → Option Hash
  root s =
      let i = 15 - trailing_zeros 32 (s.used / 4) in
      let joined =
        root_start s.stack s.node_buf i (s.used % 4) >>= λ (j, r). root_loop j s.stack s.used r in
      if s.used == 0 then some zero_hash else joined
