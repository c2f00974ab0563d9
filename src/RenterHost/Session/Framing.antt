-- ===== src/RenterHost/Session/Framing.antt =====
-- The bytes of a message of Session.
use us.Prelude.{
  ℕ, ◌+◌, ◌-◌, ◌≤◌, ◌≡◌, refl, ap, sym, ◌∙◌, List, ◌++◌, arith, inl, inr, length, take, drop,
  replicate, length-append, length-take, length-replicate, take-take, drop-take, ltb, Bool-cases,
}
use mathlib.Core.List.{append_assoc}
use us.Prelude.Bytes.{length-little_endian}
use us.RenterHost.Buffer.{write_prefix, write_uint64}
use us.RenterHost.Buffer.Laws.{take-append_more}
use us.RenterHost.Buffer.Primitives.{take-append_all, drop-append_all}
use us.RenterHost.Session.{Aead, message_size, seal_message, extend, min_message_size}

pub length-write_prefix : (n : ℕ) → length (write_prefix n) ≡ 8
unfolding write_prefix write_uint64
length-write_prefix n = length-little_endian 8 n

pub take-append_length : (n : ℕ) (xs ys : List ℕ) → length xs ≡ n → take n (xs ++ ys) ≡ xs
take-append_length n xs ys e = rw⁻¹ e (take-append_all xs ys)

pub drop-append_length : (n : ℕ) (xs ys : List ℕ) → length xs ≡ n → drop n (xs ++ ys) ≡ ys
drop-append_length n xs ys e = rw⁻¹ e (drop-append_all xs ys)

module _ ⦃aead : Aead⦄ where
  -- What is encrypted: the object, and memory of the buffer up to the size of the message.
  abbrev pub padding : ℕ → ℕ → List ℕ → List ℕ
  padding msg_size size memory =
      take (msg_size - aead.overhead - (8 + aead.nonce_size + size))
        (memory ++ replicate msg_size 0)

  pub length-message_size :
      (size : ℕ) → 8 + aead.nonce_size + size + aead.overhead ≤ message_size size
  unfolding message_size
  length-message_size size =
      elim (Bool-cases (ltb (8 + aead.nonce_size + size + aead.overhead) min_message_size)) [
        | inl less ↦ rw less (ground arith)
        | inr more ↦ rw more (omega arith)
      ]

  pub length-padding :
      (msg_size size : ℕ) (memory : List ℕ)
      → length (padding msg_size size memory)
        ≡ msg_size - aead.overhead - (8 + aead.nonce_size + size)
  length-padding msg_size size memory =
      let k = msg_size - aead.overhead - (8 + aead.nonce_size + size) in
      let long : length (memory ++ replicate msg_size 0) ≡ length memory + msg_size =
        omega (
          arith,
          length-append memory (replicate msg_size 0),
          length-replicate {A = ℕ} msg_size 0,
        ) in
      omega (arith, length-take k (memory ++ replicate msg_size 0), long)

  module _ (msg_size : ℕ) (nonce object memory : List ℕ) (whole : length nonce ≡ aead.nonce_size)
      (fits : 8 + aead.nonce_size + length object + aead.overhead ≤ msg_size) where
    header : List ℕ
    header = write_prefix (msg_size - 8) ++ nonce

    length-header : length header ≡ 8 + length nonce
    unfolding header
    length-header = omega (
      arith,
      length-append (write_prefix (msg_size - 8)) nonce,
      length-write_prefix (msg_size - 8),
    )

    filler : List ℕ
    filler = memory ++ replicate msg_size 0

    buffer : List ℕ
    unfolding extend
    buffer = extend msg_size (write_prefix (msg_size - 8) ++ (nonce ++ object)) memory

    buffer-header : take (8 + length nonce) buffer ≡ header
    unfolding buffer header filler
    buffer-header =
        take-take (8 + length nonce) msg_size
          ((write_prefix (msg_size - 8) ++ (nonce ++ object)) ++ filler)
          (omega (arith, whole, fits))
        ∙ ap (take (8 + length nonce)) (
            ap (λ l. l ++ filler) (sym (append_assoc (write_prefix (msg_size - 8)) nonce object))
            ∙ append_assoc header object filler)
        ∙ take-append_length (8 + length nonce) header (object ++ filler) length-header

    buffer-nonce : take (length nonce) (drop 8 buffer) ≡ nonce
    unfolding buffer header filler
    buffer-nonce =
        let written = write_prefix (msg_size - 8) ++ (nonce ++ object) in
        ap (take (length nonce)) (drop-take 8 msg_size (written ++ filler) (omega (arith, fits)))
        ∙ take-take (length nonce) (msg_size - 8) (drop 8 (written ++ filler))
            (omega (arith, whole, fits))
        ∙ ap (take (length nonce)) (
            ap (drop 8) (append_assoc (write_prefix (msg_size - 8)) (nonce ++ object) filler)
            ∙ drop-append_length 8 (write_prefix (msg_size - 8)) ((nonce ++ object) ++ filler)
                (length-write_prefix (msg_size - 8))
            ∙ append_assoc nonce object filler)
        ∙ take-append_length (length nonce) nonce (object ++ filler) refl

    buffer-payload :
        drop (8 + length nonce) (take (msg_size - aead.overhead) buffer)
        ≡ object ++ padding msg_size (length object) memory
    unfolding buffer header filler
    buffer-payload =
        let written = write_prefix (msg_size - 8) ++ (nonce ++ object) in
        let size : length written ≡ 8 + aead.nonce_size + length object = omega (
          arith,
          whole,
          length-append (write_prefix (msg_size - 8)) (nonce ++ object),
          length-append nonce object,
          length-write_prefix (msg_size - 8),
        ) in
        let pad = padding msg_size (length object) memory in
        let taken : take (msg_size - aead.overhead) buffer ≡ header ++ (object ++ pad) =
          take-take (msg_size - aead.overhead) msg_size (written ++ filler) (omega arith)
          ∙ take-append_more (msg_size - aead.overhead) written filler (omega (arith, size, fits))
          ∙ ap (λ (k : ℕ). written ++ take (msg_size - aead.overhead - k) filler) size
          ∙ ap (λ l. l ++ pad) (sym (append_assoc (write_prefix (msg_size - 8)) nonce object))
          ∙ append_assoc header object pad in
        ap (drop (8 + length nonce)) taken
        ∙ drop-append_length (8 + length nonce) header (object ++ pad) length-header

    pub seal_message-padding :
        seal_message msg_size nonce object memory
        ≡ write_prefix (msg_size - 8)
          ++ (nonce ++ aead.seal nonce (object ++ padding msg_size (length object) memory))
    unfolding seal_message buffer
    seal_message-padding =
        let text = drop (8 + length nonce) (take (msg_size - aead.overhead) buffer) in
        let sealed = aead.seal nonce (object ++ padding msg_size (length object) memory) in
        ap (λ l. l ++ aead.seal (take (length nonce) (drop 8 buffer)) text) buffer-header
        ∙ ap (λ l. header ++ aead.seal l text) buffer-nonce
        ∙ ap (λ l. header ++ aead.seal nonce l) buffer-payload
        ∙ (unfold header in append_assoc (write_prefix (msg_size - 8)) nonce sealed)
