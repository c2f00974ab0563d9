-- ===== src/RenterHost/Session/Tag.antt =====
-- The end of what ResponseReader.VerifyTag of renterhost/session.go authenticates.
use us.Prelude.{
  zero, suc, ◌∷◌, ℕ, ◌+◌, ◌-◌, ◌%◌, ◌≡◌, refl, ap, sym, ◌∙◌, List, ◌++◌, arith, inl, inr, replicate,
  ◌==◌, if◌then◌else◌, Bool-cases,
}
use mathlib.Core.List.{append_assoc}
use us.Prelude.Bytes.{little_endian}

-- `tail`, for a message of `clen` bytes.
unfoldable pub mac_tail : ℕ → List ℕ
unfolding little_endian
mac_tail clen = replicate (32 - clen % 16 - 8) 0 ++ little_endian 8 clen

-- RFC 8439, section 2.8: the message is padded with zeros to a multiple of 16 bytes, and the
-- lengths of the additional data, here 0, and of the message follow.
unfoldable pub aead_tail : ℕ → List ℕ
unfolding little_endian
aead_tail clen = replicate ((16 - clen % 16) % 16) 0 ++ (little_endian 8 0 ++ little_endian 8 clen)

replicate_add : (n m : ℕ) → replicate n 0 ++ replicate m 0 ≡ replicate {A = ℕ} (n + m) 0
replicate_add zero m = let e : 0 + m ≡ m = omega arith in rw e refl
replicate_add (suc n) m =
    let e : suc n + m ≡ suc (n + m) = omega arith in rw e (ap (◌∷◌ 0) (replicate_add n m))

aead_tail-zeros :
    (clen : ℕ) → aead_tail clen ≡ replicate ((16 - clen % 16) % 16 + 8) 0 ++ little_endian 8 clen
unfolding aead_tail
aead_tail-zeros clen =
    let pad = (16 - clen % 16) % 16 in
    let eight : little_endian 8 0 ≡ replicate 8 0 = unfold little_endian in refl in
    ap (λ l. replicate pad 0 ++ (l ++ little_endian 8 clen)) eight
    ∙ sym (append_assoc (replicate pad 0) (replicate 8 0) (little_endian 8 clen))
    ∙ ap (λ l. l ++ little_endian 8 clen) (replicate_add pad 8)

-- What VerifyTag writes to the MAC after a message is what RFC 8439 says if the length of the
-- message is not a multiple of 16, and else that after 16 more zeros.
pub mac_tail-aead_tail :
    (clen : ℕ)
    → mac_tail clen ≡ (if clen % 16 == 0 then replicate 16 0 ++ aead_tail clen else aead_tail clen)
unfolding mac_tail
mac_tail-aead_tail clen = elim (Bool-cases (clen % 16 == 0)) [
  | inl aligned ↦
      let zeros : 32 - clen % 16 - 8 ≡ 16 + ((16 - clen % 16) % 16 + 8) = ground arith in
      rw aligned (
        ap (λ (n : ℕ). replicate n 0 ++ little_endian 8 clen) zeros
        ∙ ap (λ l. l ++ little_endian 8 clen) (sym (replicate_add 16 ((16 - clen % 16) % 16 + 8)))
        ∙ append_assoc (replicate 16 0) (replicate ((16 - clen % 16) % 16 + 8) 0)
            (little_endian 8 clen)
        ∙ ap (λ l. replicate 16 0 ++ l) (sym (aead_tail-zeros clen)))
  | inr other ↦
      let zeros : 32 - clen % 16 - 8 ≡ (16 - clen % 16) % 16 + 8 = ground arith in
      rw other
        (ap (λ (n : ℕ). replicate n 0 ++ little_endian 8 clen) zeros ∙ sym (aead_tail-zeros clen))
]
