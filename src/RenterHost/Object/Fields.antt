-- ===== src/RenterHost/Object/Fields.antt =====
-- The fields of objects: integers that are narrower than they are sent, and slices.
use us.Prelude.{ℕ, ◌+◌, ◌*◌, ◌^◌, ◌%◌, ◌<◌, ◌≤◌, ◌≡◌, refl, List, [], ◌∷◌, arith, length, All}
use native.Mathlib.Nat.{mod-eq_of_lt}
use us.RenterHost.Buffer.{
  Read, ◌into◌, read, read_uint64, write_uint64, read_prefixed_bytes, write_prefixed_bytes,
  read_slice, write_slice, sum_sizes,
}
use us.RenterHost.Buffer.Laws.{
  Sticky, Sticky-into, Decodes, Decodes-into, Decodes-cast, Decodes-size,
}
use us.RenterHost.Buffer.Primitives.{
  Sticky-read, Sticky-read_uint64, Decodes-read, Decodes-read_uint64,
}
use us.RenterHost.Buffer.Prefix.{
  Sticky-read_prefixed_bytes, Sticky-read_slice, Decodes-read_prefixed_bytes, Decodes-read_slice,
}
use us.RenterHost.Object.{ProtocolObject, IsCodec, hash_size}

-- `uint32(b.readUint64())`
unfoldable pub read_uint32 : Read ℕ
read_uint32 = read_uint64 into λ u. u % 2 ^ 32

-- `make([]crypto.Hash, b.readPrefix(crypto.HashSize))` and its loop.
unfoldable pub read_hashes : Read (List (List ℕ))
read_hashes = read_slice hash_size (read hash_size)

unfoldable pub write_hashes : List (List ℕ) → List ℕ
write_hashes = write_slice (λ h. h)

pub Sticky-read_uint32 : Sticky read_uint32
unfolding read_uint32
Sticky-read_uint32 = Sticky-into (λ u. u % 2 ^ 32) Sticky-read_uint64

pub Decodes-read_uint32 : (u : ℕ) → u < 2 ^ 32 → Decodes read_uint32 (write_uint64 u) u 8
unfolding read_uint32
Decodes-read_uint32 u small =
    let word : Decodes read_uint64 (write_uint64 u) u 8 = Decodes-read_uint64 u (omega arith) in
    Decodes-cast (Decodes-into (λ u. u % 2 ^ 32) word) refl (mod-eq_of_lt small) refl

-- Elements that satisfy `P`, as many as a length can say.
abbrev pub IsSlice {ℓ κ} : {A : Type ℓ} → (A → Type κ) → List A → Type κ
IsSlice P xs = (length xs < 2 ^ 64) × All P xs

abbrev pub IsHash : List ℕ → Type 0
IsHash h = length h ≡ hash_size

-- `n` is the least size of an element.
abbrev pub IsLeast {ℓ} : {A : Type ℓ} → ProtocolObject A → ℕ → Type ℓ
IsLeast {A = A} o n = (0 < n) × ((x : A) → n ≤ o.marshalled_size x)

pub Decodes-slice {ℓ κ} :
    {A : Type ℓ} {P : A → Type κ} {o : ProtocolObject A} {n : ℕ}
    → IsCodec P o
    → IsLeast o n
    → (xs : List A) → IsSlice P xs
    → Decodes
        (read_slice n o.unmarshal_buffer)
        (write_slice o.marshal_buffer xs)
        xs
        (8 + sum_sizes o.marshalled_size xs)
Decodes-slice {P = P} {o = o} {n = n} c least xs valid =
    Decodes-read_slice P o.unmarshal_buffer o.marshal_buffer o.marshalled_size c.sticky c.decodes n
      xs least.0 least.1 valid.0 valid.1

pub sum_sizes-const {ℓ} : {A : Type ℓ} (n : ℕ) (xs : List A) → sum_sizes (λ x. n) xs ≡ length xs * n
unfolding sum_sizes
sum_sizes-const n [] = omega arith
sum_sizes-const n (x ∷ xs) = grind (arith, sum_sizes-const n xs)

pub Decodes-read_hashes :
    (xs : List (List ℕ))
    → IsSlice IsHash xs
    → Decodes read_hashes (write_hashes xs) xs (8 + length xs * hash_size)
unfolding read_hashes write_hashes
Decodes-read_hashes xs valid =
    Decodes-size
      (Decodes-read_slice IsHash (read hash_size) (λ h. h) (λ h. hash_size) (Sticky-read hash_size)
        (Decodes-read hash_size) hash_size xs (omega arith) (λ x. omega arith) valid.0 valid.1)
      (omega (arith, sum_sizes-const hash_size xs))

pub Sticky-read_hashes : Sticky read_hashes
unfolding read_hashes
Sticky-read_hashes = Sticky-read_slice hash_size (read hash_size) (Sticky-read hash_size)

pub Decodes-uint64s :
    (xs : List ℕ)
    → IsSlice (λ u. u < 2 ^ 64) xs
    → Decodes (read_slice 8 read_uint64) (write_slice write_uint64 xs) xs (8 + length xs * 8)
Decodes-uint64s xs valid =
    Decodes-size
      (Decodes-read_slice (λ u. u < 2 ^ 64) read_uint64 write_uint64 (λ u. 8) Sticky-read_uint64
        Decodes-read_uint64 8 xs (omega arith) (λ x. omega arith) valid.0 valid.1)
      (omega (arith, sum_sizes-const 8 xs))

pub Decodes-byte_slices :
    (xs : List (List ℕ))
    → IsSlice (λ p. length p < 2 ^ 64) xs
    → Decodes
        (read_slice 1 read_prefixed_bytes)
        (write_slice write_prefixed_bytes xs)
        xs
        (8 + sum_sizes (λ p. 8 + length p) xs)
Decodes-byte_slices xs valid =
    Decodes-read_slice (λ p. length p < 2 ^ 64) read_prefixed_bytes write_prefixed_bytes
      (λ p. 8 + length p) Sticky-read_prefixed_bytes Decodes-read_prefixed_bytes 1 xs (omega arith)
      (λ x. omega arith) valid.0 valid.1
