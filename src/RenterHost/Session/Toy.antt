-- ===== src/RenterHost/Session/Toy.antt =====
-- A toy cipher for the sessions of package renterhost.
use us.Prelude.{
  ℕ, ◌-◌, ◌≡◌, ap, ◌∙◌, List, [], ◌∷◌, ◌++◌, some, arith, length, replicate, take, length-append,
}
use us.RenterHost.Buffer.Primitives.{take-append_all}
use us.RenterHost.Session.{Aead}
use us.RenterHost.Session.Rpcs.{Entropy}

-- The text is followed by a tag of 16 zeros.
pub unseal_toy :
    (text : List ℕ) → take (length (text ++ replicate 16 0) - 16) (text ++ replicate 16 0) ≡ text
unseal_toy text =
    let e : length (text ++ replicate 16 0) - 16 ≡ length text =
      omega (arith, length-append text (replicate 16 0)) in
    ap (λ (n : ℕ). take n (text ++ replicate 16 0)) e ∙ take-append_all text (replicate 16 0)

abbrev pub toy : Aead
toy = record {
  nonce_size = 12;
  overhead = 16;
  seal = λ nonce text. text ++ replicate 16 0;
  unseal = λ nonce sealed. some (take (length sealed - 16) sealed);
  length-seal = λ nonce text h. length-append text (replicate 16 0);
  unseal-seal = λ nonce text h. ap some (unseal_toy text);
}

abbrev pub entropy : Entropy
entropy = record { nonce = replicate 12 5; memory = 1 ∷ 2 ∷ [] }
