-- ===== src/RenterHost/Currency.antt =====
-- objCurrency of renterhost/encoding.go. A currency is a big.Int: big.Int.Bits gives its words of
-- 64 bits, the lowest first, without zero words at the upper end.
pub mod Laws
use us.Prelude.{
  ℕ, zero, suc, ◌+◌, ◌-◌, ◌*◌, ◌/◌, ◌%◌, ◌^◌, ◌<◌, ◌≤◌, ◌≡◌, refl, ap, sym, ◌∙◌, Bool, true, false,
  inl, inr, List, [], ◌∷◌, ◌++◌, arith, ◌==◌, if◌then◌else◌, Bool-cases, eq_iff, length,
}
use native.Mathlib.Nat.{
  pow-suc, div-div-eq-div-mul, one-le-pow, div-lt_iff_lt-mul, div-add-mod, mod-lt, mul-le-mul_left,
  mul-add-mod_self_left, mod-eq_of_lt,
}
use us.Prelude.Bytes.{set_bytes}

-- The word at an index.
unfoldable pub word : ℕ → ℕ → ℕ
word c zero = c % 2 ^ 64
word c (suc k) = word (c / 2 ^ 64) k

-- The number of words: each has 64 bits, so the number itself is fuel enough.
unfoldable pub count_words : ℕ → ℕ → ℕ
count_words zero c = 0
count_words (suc fuel) c = elim (c == 0) [ true ↦ 0 | false ↦ suc (count_words fuel (c / 2 ^ 64)) ]

-- `bits[i/_S] >> (uint(i%_S) * 8)`
unfoldable pub byte_at : ℕ → ℕ → ℕ
byte_at c i = word c (i / 8) / 256 ^ (i % 8)

-- The first loop of marshalBuffer, from index `i - 1` down: one more than where it stops.
unfoldable pub significant : ℕ → ℕ → ℕ
significant c zero = 0
significant c (suc i) = elim (byte_at c i == 0) [ true ↦ significant c i | false ↦ suc i ]

-- The second loop.
unfoldable pub write_bytes : ℕ → ℕ → List ℕ
write_bytes c zero = []
write_bytes c (suc i) = byte_at c i % 256 ∷ write_bytes c i

-- The inner loop of marshalledSize, over the bytes of one word from `j - 1` down: how many are
-- left at the break, none if there is no break.
unfoldable pub significant_bytes : ℕ → ℕ → ℕ
significant_bytes w zero = 0
significant_bytes w (suc j) = elim (w / 256 ^ j == 0) [
  | true ↦ significant_bytes w j
  | false ↦ suc j
]

-- The outer loop, over the words from `i - 1` down: the size at its end.
unfoldable pub size_loop : ℕ → ℕ → ℕ
size_loop c zero = 0
size_loop c (suc i) =
    let left = significant_bytes (word c i) 8 in
    elim (left == 0) [ true ↦ size_loop c i | false ↦ 8 * i + left ]
