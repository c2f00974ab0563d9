-- ===== src/RenterHost/Buffer.antt =====
-- objBuffer of renterhost/encoding.go: a buffer of bytes with a sticky error. An object is read
-- into a zero value; what a write appends is given as a list of bytes.
pub mod Laws
pub mod Primitives
pub mod Prefix
use us.Prelude.{
  ℕ, zero, suc, ◌+◌, ◌-◌, ◌*◌, ◌/◌, ◌%◌, ◌^◌, Bool, true, false, ◌||◌, List, [], ◌∷◌, ◌++◌, Option,
  none, some, ◌==◌, leb, ltb, if◌then◌else◌, length, take, drop, replicate,
}
use us.Prelude.Bytes.{little_endian, from_little_endian}

pub data BufferError : Type 0 where
  eof : BufferError
  unexpected_eof : BufferError
  invalid_boolean : BufferError
  invalid_prefix : BufferError

pub record ObjBuffer : Type 0 where
  pub buf : List ℕ
  pub err : Option BufferError

abbrev pub unread : List ℕ → ObjBuffer
unread bs = record { buf = bs; err = none }

-- A reading method: its result, and the buffer after it.
abbrev pub Read {ℓ} : Type ℓ → Type ℓ
Read A = ObjBuffer → A × ObjBuffer

infixl 5 ◌>>=◌
abbrev pub ◌>>=◌ {ℓ κ} : {A : Type ℓ} {B : Type κ} → Read A → (A → Read B) → Read B
(m >>= k) b = k (m b).0 (m b).1

abbrev pub return {ℓ} : {A : Type ℓ} → A → Read A
return a b = (a, b)

-- The bytes of one writing after those of another.
infixr 25 ◌followed_by◌
abbrev pub ◌followed_by◌ : List ℕ → List ℕ → List ℕ
xs followed_by ys = xs ++ ys

unfoldable pub write_bool : Bool → List ℕ
write_bool true = 1 ∷ []
write_bool false = 0 ∷ []

unfoldable pub write_uint64 : ℕ → List ℕ
unfolding little_endian
write_uint64 u = little_endian 8 u

unfoldable pub write_prefix : ℕ → List ℕ
unfolding write_uint64
write_prefix i = write_uint64 i

unfoldable pub write_prefixed_bytes : List ℕ → List ℕ
unfolding write_prefix
write_prefixed_bytes p = write_prefix (length p) ++ p

-- io.ReadFull from the buffer into `n` zero bytes.
unfoldable pub read_full : ℕ → List ℕ → List ℕ × ObjBuffer
read_full n buf = if leb n (length buf) then (take n buf, unread (drop n buf)) else (
  buf ++ replicate (n - length buf) 0,
  record { buf = []; err = some (if length buf == 0 then eof else unexpected_eof) },
)

unfoldable pub read_checked : ℕ → List ℕ → Option BufferError → List ℕ × ObjBuffer
unfolding read_full
read_checked n buf none = read_full n buf
read_checked n buf (some e) = (replicate n 0, record { buf = buf; err = some e })

unfoldable pub read : ℕ → Read (List ℕ)
unfolding read_checked
read n b = read_checked n b.buf b.err

unfoldable pub read_bool_checked : List ℕ → Option BufferError → Bool × ObjBuffer
read_bool_checked buf (some e) = (false, record { buf = buf; err = some e })
read_bool_checked [] none = (false, record { buf = []; err = some eof })
read_bool_checked (c ∷ buf) none =
    if c == 0 || c == 1
    then (c == 1, unread buf)
    else (false, record { buf = buf; err = some invalid_boolean })

unfoldable pub read_bool : Read Bool
unfolding read_bool_checked
read_bool b = read_bool_checked b.buf b.err

unfoldable pub read_uint64_checked : List ℕ → Option BufferError → ℕ × ObjBuffer
read_uint64_checked buf (some e) = (0, record { buf = buf; err = some e })
read_uint64_checked buf none =
    if ltb (length buf) 8
    then (0, record { buf = []; err = some eof })
    else (from_little_endian (take 8 buf), unread (drop 8 buf))

unfoldable pub read_uint64 : Read ℕ
unfolding read_uint64_checked
read_uint64 b = read_uint64_checked b.buf b.err

unfoldable pub check_prefix : ℕ → ℕ → Read ℕ
check_prefix elem_size n b =
    if ltb (length b.buf / elem_size) n then (0, record b { err = some invalid_prefix }) else (n, b)

unfoldable pub read_prefix : ℕ → Read ℕ
unfolding read_uint64 check_prefix
read_prefix elem_size = read_uint64 >>= check_prefix elem_size

unfoldable pub read_prefixed_bytes : Read (List ℕ)
unfolding read_prefix read
read_prefixed_bytes = read_prefix 1 >>= read

-- Two readings, one after the other.
infixr 25 ◌⊗◌
abbrev pub ◌⊗◌ {ℓ κ} : {A : Type ℓ} {B : Type κ} → Read A → Read B → Read (A × B)
(m ⊗ n) b = (((m b).0, (n (m b).1).0), (n (m b).1).1)

-- What was read, as the fields of an object.
infixl 20 ◌into◌
unfoldable pub ◌into◌ {ℓ κ} : {A : Type ℓ} {B : Type κ} → Read A → (A → B) → Read B
(m into f) b = (f (m b).0, (m b).1)

-- A slice: its length, then its elements.
unfoldable pub write_all {ℓ} : {A : Type ℓ} → (A → List ℕ) → List A → List ℕ
write_all write [] = []
write_all write (x ∷ xs) = write x ++ write_all write xs

unfoldable pub write_slice {ℓ} : {A : Type ℓ} → (A → List ℕ) → List A → List ℕ
unfolding write_prefix write_all
write_slice write xs = write_prefix (length xs) ++ write_all write xs

unfoldable pub read_all {ℓ} : {A : Type ℓ} → ℕ → Read A → Read (List A)
read_all zero elem = return []
read_all (suc n) elem = elem >>= λ x. read_all n elem >>= λ xs. return (x ∷ xs)

unfoldable pub read_slice {ℓ} : {A : Type ℓ} → ℕ → Read A → Read (List A)
unfolding read_prefix read_all
read_slice elem_size elem = read_prefix elem_size >>= λ n. read_all n elem

-- The sum of the sizes of the elements.
unfoldable pub sum_sizes {ℓ} : {A : Type ℓ} → (A → ℕ) → List A → ℕ
sum_sizes size [] = 0
sum_sizes size (x ∷ xs) = size x + sum_sizes size xs
