-- ===== src/Prelude/Bytes.antt =====
-- Numbers as byte strings: encoding/binary's little-endian words and math/big's big-endian bytes.
use us.Prelude.Lists.{length}
use Prim.Native.Nat.{ℕ, zero, suc, ◌+◌, ◌*◌, ◌/◌, ◌%◌, ◌^◌, ◌<◌}
use mathlib.Core.Path.{◌≡◌, refl, ap}
use mathlib.Core.List.{List, [], ◌∷◌}
use native.Mathlib.Omega.{arith}
use native.Mathlib.Nat.{pow-suc}

-- binary.LittleEndian.PutUint64, the first `n` bytes.
unfoldable pub little_endian : ℕ → ℕ → List ℕ
little_endian zero x = []
little_endian (suc n) x = x % 256 ∷ little_endian n (x / 256)

-- binary.LittleEndian.Uint64, for 8 bytes.
unfoldable pub from_little_endian : List ℕ → ℕ
from_little_endian [] = 0
from_little_endian (b ∷ bs) = b + 256 * from_little_endian bs

pub length-little_endian : (n x : ℕ) → length (little_endian n x) ≡ n
unfolding little_endian
length-little_endian zero x = refl
length-little_endian (suc n) x = ap suc (length-little_endian n (x / 256))

pub from_little_endian-little_endian :
    (n x : ℕ) → x < 256 ^ n → from_little_endian (little_endian n x) ≡ x
unfolding little_endian from_little_endian
from_little_endian-little_endian zero x h = omega arith
from_little_endian-little_endian (suc n) x h =
    omega (arith, from_little_endian-little_endian n (x / 256) (omega (arith, pow-suc 256 n)))

-- big.Int.SetBytes, after the bytes read so far.
unfoldable pub set_bytes : ℕ → List ℕ → ℕ
set_bytes acc [] = acc
set_bytes acc (b ∷ bs) = set_bytes (256 * acc + b) bs
