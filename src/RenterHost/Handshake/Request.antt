-- ===== src/RenterHost/Handshake/Request.antt =====
-- loopKeyExchangeRequest, written and then read.
use us.Prelude.{
  ℕ, ◌+◌, ◌*◌, ◌-◌, ◌≤◌, ◌≡◌, refl, ap, sym, ◌∙◌, false, List, [], ◌∷◌, ◌++◌, arith, length, take,
  drop, ltb, if◌then◌else◌, Bool-cases, inl, inr, All, length-append, drop-drop,
}
use mathlib.Core.List.{append_assoc}
use us.Prelude.Bytes.{
  little_endian, from_little_endian, length-little_endian, from_little_endian-little_endian,
}
use us.RenterHost.Session.Framing.{take-append_length, drop-append_length}
use us.RenterHost.Handshake.{
  LoopKeyExchangeRequest, loop_enter, write_ciphers, read_ciphers, write_key_request,
  read_key_request,
}
use us.RenterHost.Handshake.Laws.{IsKeyRequest, second_field, after_second}

length-write_ciphers :
    (cs : List (List ℕ)) → All (λ c. length c ≡ 16) cs → length (write_ciphers cs) ≡ length cs * 16
unfolding write_ciphers
length-write_ciphers [] valid = omega arith
length-write_ciphers (c ∷ cs) valid =
    omega (arith, valid.0, length-append c (write_ciphers cs), length-write_ciphers cs valid.1)

read_ciphers-write_ciphers :
    (cs : List (List ℕ)) (rest : List ℕ)
    → All (λ c. length c ≡ 16) cs
    → read_ciphers (length cs) (write_ciphers cs ++ rest) ≡ cs
unfolding read_ciphers write_ciphers
read_ciphers-write_ciphers [] rest valid = refl
read_ciphers-write_ciphers (c ∷ cs) rest valid =
    let split = append_assoc c (write_ciphers cs) rest in
    let first : take 16 ((c ++ write_ciphers cs) ++ rest) ≡ c =
      ap (take 16) split ∙ take-append_length 16 c (write_ciphers cs ++ rest) valid.0 in
    let others : drop 16 ((c ++ write_ciphers cs) ++ rest) ≡ write_ciphers cs ++ rest =
      ap (drop 16) split ∙ drop-append_length 16 c (write_ciphers cs ++ rest) valid.0 in
    rw (first, others) (ap (◌∷◌ c) (read_ciphers-write_ciphers cs rest valid.1))

module _ (req : LoopKeyExchangeRequest) (rest : List ℕ) (valid : IsKeyRequest req) where
  abbrev count : ℕ
  count = length req.ciphers

  abbrev size : List ℕ
  size = little_endian 8 count

  abbrev tail : List ℕ
  tail = write_ciphers req.ciphers ++ rest

  abbrev stream : List ℕ
  stream = loop_enter ++ (req.public_key ++ (size ++ tail))

  length-size : length size ≡ 8
  length-size = length-little_endian 8 count

  length-ciphers : length (write_ciphers req.ciphers) ≡ count * 16
  length-ciphers = length-write_ciphers req.ciphers valid.ciphers

  split_request : write_key_request req ++ rest ≡ stream
  unfolding write_key_request
  split_request =
      let ciphers = write_ciphers req.ciphers in
      append_assoc loop_enter (req.public_key ++ (size ++ ciphers)) rest
      ∙ ap (λ l. loop_enter ++ l)
          (append_assoc req.public_key (size ++ ciphers) rest
            ∙ ap (λ l. req.public_key ++ l) (append_assoc size ciphers rest))

  length-stream : length stream ≡ 56 + count * 16 + length rest
  length-stream = omega (
    arith,
    length-append loop_enter (req.public_key ++ (size ++ tail)),
    length-append req.public_key (size ++ tail),
    length-append size tail,
    length-append (write_ciphers req.ciphers) rest,
    length-size,
    length-ciphers,
    valid.public_key,
  )

  key_read : take 32 (drop 16 stream) ≡ req.public_key
  key_read = second_field loop_enter req.public_key (size ++ tail) 16 32 refl valid.public_key

  after_key : drop 48 stream ≡ size ++ tail
  after_key = after_second loop_enter req.public_key (size ++ tail) 16 32 refl valid.public_key

  count_read : from_little_endian (take 8 (drop 48 stream)) ≡ count
  count_read =
      ap (λ l. from_little_endian (take 8 l)) after_key
      ∙ ap from_little_endian (take-append_length 8 size tail length-size)
      ∙ from_little_endian-little_endian 8 count (omega (arith, valid.few))

  after_count : drop 56 stream ≡ tail
  after_count =
      sym (drop-drop 48 8 stream)
      ∙ ap (drop 8) after_key
      ∙ drop-append_length 8 size tail length-size

  ciphers_read : read_ciphers count (drop 56 stream) ≡ req.ciphers
  ciphers_read =
      ap (read_ciphers count) after_count
      ∙ read_ciphers-write_ciphers req.ciphers rest valid.ciphers

  after_ciphers : drop (56 + count * 16) stream ≡ rest
  after_ciphers =
      sym (drop-drop 56 (count * 16) stream)
      ∙ ap (drop (count * 16)) after_count
      ∙ drop-append_length (count * 16) (write_ciphers req.ciphers) rest length-ciphers

  drop-stream : (n : ℕ) → 56 + count * 16 ≤ n → drop n stream ≡ drop (n - (56 + count * 16)) rest
  drop-stream n le =
      let d : 56 + count * 16 + (n - (56 + count * 16)) ≡ n = omega arith in
      ap (λ (k : ℕ). drop k stream) (sym d)
      ∙ sym (drop-drop (56 + count * 16) (n - (56 + count * 16)) stream)
      ∙ ap (drop (n - (56 + count * 16))) after_ciphers

-- readFrom of loopKeyExchangeRequest, on what writeTo sends for a key of 32 bytes and at most 16
-- ciphers of 16 bytes, gives the request, whichever number of bytes from 56 on the first read
-- gets; the rest of the stream is left as far as the first read did not get it.
pub read_key_request-write_key_request :
    (req : LoopKeyExchangeRequest) (rest : List ℕ) (n : ℕ)
    → IsKeyRequest req
    → 56 ≤ n
    → read_key_request n (write_key_request req ++ rest)
      ≡ inr (
        req,
        (if ltb n (56 + length req.ciphers * 16)
            then rest
            else drop (n - (56 + length req.ciphers * 16)) rest),
      )
unfolding read_key_request
read_key_request-write_key_request req rest n valid le =
    let bytes = stream req rest valid in
    let needed = 56 + length req.ciphers * 16 in
    let total = length-stream req rest valid in
    let long : ltb (length bytes) 56 ≡ false = ground arith in
    let enough : ltb (length bytes) needed ≡ false = ground arith in
    let few : ltb 16 (length req.ciphers) ≡ false = ground (arith, valid.few) in
    let num = count_read req rest valid in
    let key = key_read req rest valid in
    let read = ciphers_read req rest valid in
    ap (read_key_request n) (split_request req rest valid) ∙ (elim (Bool-cases (ltb n needed)) [
      | inl short ↦
          rw (
            read_key_request,
            num,
            key,
            read,
            long,
            few,
            short,
            enough,
            after_ciphers req rest valid,
          )
      | inr more ↦ rw (
        read_key_request,
        num,
        key,
        read,
        long,
        few,
        more,
        drop-stream req rest valid n (ground arith),
      )
    ])
