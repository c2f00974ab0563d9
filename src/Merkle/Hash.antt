-- ===== src/Merkle/Hash.antt =====
-- merkle/blake2b/blake2b.go: the hashes of the nodes of a Merkle tree, by the portable functions.
use us.Prelude.{ℕ, ◌≡◌, List, ◌∷◌, ◌++◌, length, take, drop, replicate}

-- blake2b.Sum256 of golang.org/x/crypto, on a list of bytes: its result has 32 bytes.
pub record Blake : Type 0 where
  pub sum256 : List ℕ → List ℕ
  pub length-sum256 : (msg : List ℕ) → length (sum256 msg) ≡ 32

-- crypto.Hash, [32]byte.
abbrev pub Hash : Type 0
Hash = List ℕ

abbrev pub zero_hash : Hash
zero_hash = replicate 32 0

-- [4][32]byte
pub record Group : Type 0 where
  pub n0 : Hash
  pub n1 : Hash
  pub n2 : Hash
  pub n3 : Hash

abbrev pub zero_group : Group
zero_group = record { n0 = zero_hash; n1 = zero_hash; n2 = zero_hash; n3 = zero_hash }

module _ ⦃blake : Blake⦄ where
  unfoldable pub hash_block : List ℕ → ℕ → Hash
  hash_block msg prefix = blake.sum256 (prefix ∷ msg)

  unfoldable pub sum_leaf : List ℕ → Hash
  unfolding hash_block
  sum_leaf leaf = hash_block leaf 0

  unfoldable pub sum_pair : Hash → Hash → Hash
  unfolding hash_block
  sum_pair left right = hash_block (left ++ right) 1

  -- SumLeaves, on four leaves of 64 bytes that lie side by side.
  unfoldable pub sum_leaves : List ℕ → Group
  sum_leaves leaves = record {
    n0 = sum_leaf (take 64 leaves);
    n1 = sum_leaf (take 64 (drop 64 leaves));
    n2 = sum_leaf (take 64 (drop 128 leaves));
    n3 = sum_leaf (take 64 (drop 192 leaves));
  }

  -- SumNodes, on the eight nodes of two groups that lie side by side: the roots of the pairs.
  unfoldable pub sum_nodes : Group → Group → Group
  sum_nodes a b = record {
    n0 = sum_pair a.n0 a.n1;
    n1 = sum_pair a.n2 a.n3;
    n2 = sum_pair b.n0 b.n1;
    n3 = sum_pair b.n2 b.n3;
  }
