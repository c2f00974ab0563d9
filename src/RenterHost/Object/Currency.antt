-- ===== src/RenterHost/Object/Currency.antt =====
-- objCurrency of renterhost/encoding.go as a protocol object.
use us.Prelude.{ℕ, ◌*◌, ◌+◌, ◌^◌, ◌<◌, ◌≡◌, sym, ◌∙◌, ap, refl, ◌++◌, arith, length}
use native.Mathlib.Nat.{mod-eq_of_lt}
use us.Prelude.Bytes.{set_bytes}
use us.RenterHost.Currency.{count_words, significant, write_bytes, size_loop}
use us.RenterHost.Currency.Laws.{
  below_words, below_significant, set_bytes-write_bytes, length-write_bytes, size_loop-significant,
}
use us.RenterHost.Buffer.{◌into◌, read_prefixed_bytes, write_prefixed_bytes, write_prefix}
use us.RenterHost.Buffer.Laws.{Sticky-into, Decodes, Decodes-into, Decodes-cast}
use us.RenterHost.Buffer.Prefix.{Decodes-read_prefixed_bytes, Sticky-read_prefixed_bytes}
use us.RenterHost.Object.Fields.{IsLeast}
use us.RenterHost.Object.{ProtocolObject, IsCodec}

-- The number of bytes without zeros at the upper end.
unfoldable pub count_bytes : ℕ → ℕ
count_bytes c = significant c (8 * count_words c c)

unfoldable pub obj_currency : ProtocolObject ℕ
obj_currency = record {
  marshalled_size = λ c. 8 + size_loop c (count_words c c);
  marshal_buffer = λ c. let top = count_bytes c in write_prefix top ++ write_bytes c top;
  unmarshal_buffer = read_prefixed_bytes into set_bytes 0;
}

-- The number of bytes fits the length.
abbrev pub IsCurrency : ℕ → Type 0
IsCurrency c = count_bytes c < 2 ^ 64

set_bytes-marshal : (c : ℕ) → set_bytes 0 (write_bytes c (count_bytes c)) ≡ c
unfolding count_bytes
set_bytes-marshal c =
    let top = count_bytes c in
    let below : c < 256 ^ top =
      below_significant c (8 * count_words c c) (below_words c c (omega arith)) in
    set_bytes-write_bytes 0 c top ∙ omega (arith, mod-eq_of_lt below)

pub obj_currency-IsCodec : IsCodec IsCurrency obj_currency
unfolding obj_currency
obj_currency-IsCodec = record {
  sticky = Sticky-into (set_bytes 0) Sticky-read_prefixed_bytes;
  decodes = λ c valid.
      let top = count_bytes c in
      let bs = write_bytes c top in
      let whole : length bs ≡ top = length-write_bytes c top in
      let read : Decodes read_prefixed_bytes (write_prefixed_bytes bs) bs (8 + length bs) =
        Decodes-read_prefixed_bytes bs (omega (arith, whole, valid)) in
      let size : 8 + length bs ≡ 8 + size_loop c (count_words c c) =
        ap (λ (t : ℕ). 8 + t)
          (whole ∙ (unfold count_bytes in sym (size_loop-significant c (count_words c c)))) in
      let bytes : write_prefixed_bytes bs ≡ write_prefix top ++ bs =
        unfold write_prefixed_bytes in (rw whole) in
      Decodes-cast (Decodes-into (set_bytes 0) read) bytes (set_bytes-marshal c) size;
}

unfoldable pub sizeof_currency : ℕ
sizeof_currency = obj_currency.marshalled_size 0

pub obj_currency-IsLeast : IsLeast obj_currency 8
unfolding obj_currency
obj_currency-IsLeast = (omega arith, λ x. omega arith)

sizeof_currency-value : sizeof_currency ≡ 8
unfolding sizeof_currency obj_currency size_loop count_words
sizeof_currency-value = refl

pub sizeof_currency-IsLeast : IsLeast obj_currency sizeof_currency
sizeof_currency-IsLeast = rw sizeof_currency-value obj_currency-IsLeast
