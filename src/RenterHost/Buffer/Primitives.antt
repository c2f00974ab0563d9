-- ===== src/RenterHost/Buffer/Primitives.antt =====
-- The reading methods of objBuffer, each on what its writing method appends.
use us.Prelude.{
  ℕ, zero, suc, ◌^◌, ◌<◌, ◌≡◌, refl, ap, sym, ◌∙◌, Bool, true, false, List, [], ◌∷◌, ◌++◌, arith,
  ◌==◌, leb, ltb, if◌then◌else◌, length, take, drop, length-append, length-take,
}
use us.Prelude.Bytes.{little_endian, length-little_endian, from_little_endian-little_endian}
use us.RenterHost.Buffer.{
  eof, unexpected_eof, unread, write_bool, write_uint64, read_full, read, read_bool, read_uint64,
}
use us.RenterHost.Buffer.Laws.{Sticky, Failed, Decodes}

pub take-append_all : (xs ys : List ℕ) → take (length xs) (xs ++ ys) ≡ xs
take-append_all [] ys = refl
take-append_all (x ∷ xs) ys = ap (◌∷◌ x) (take-append_all xs ys)

pub drop-append_all : (xs ys : List ℕ) → drop (length xs) (xs ++ ys) ≡ ys
drop-append_all [] ys = refl
drop-append_all (x ∷ xs) ys = drop-append_all xs ys

read_full-append : (p rest : List ℕ) → read_full (length p) (p ++ rest) ≡ (p, unread rest)
unfolding read_full
read_full-append p rest =
    let fits : leb (length p) (length (p ++ rest)) ≡ true = ground (arith, length-append p rest) in
    rw (fits, take-append_all, drop-append_all)

read_full-short : (n : ℕ) (buf : List ℕ) → length buf < n → Failed (read_full n buf)
unfolding read_full
read_full-short n buf h =
    let short : leb n (length buf) ≡ false = ground arith in
    rw short (if length buf == 0 then eof else unexpected_eof, refl)

pub Sticky-read : (n : ℕ) → Sticky (read n)
unfolding read
Sticky-read n = record { stays = λ b e h. rw h refl }

pub Decodes-read : (n : ℕ) (p : List ℕ) → length p ≡ n → Decodes (read n) p p n
unfolding read
Decodes-read n p h = record {
  sticky = Sticky-read n;
  reads = λ rest. rw (sym h) (read_full-append p rest);
  truncated = λ k less. read_full-short n (take k p) (omega (arith, length-take k p));
  size = h;
}

pub Sticky-read_bool : Sticky read_bool
unfolding read_bool
Sticky-read_bool = record { stays = λ b e h. rw h refl }

take_one-Failed : (k c : ℕ) → k < 1 → Failed (read_bool (unread (take k (c ∷ []))))
unfolding read_bool
take_one-Failed zero c less = (eof, refl)
take_one-Failed (suc k) c less = absurd (omega arith)

pub Decodes-read_bool : (x : Bool) → Decodes read_bool (write_bool x) x 1
unfolding read_bool write_bool
Decodes-read_bool true = record {
  sticky = Sticky-read_bool;
  reads = λ rest. refl;
  truncated = λ k. take_one-Failed k 1;
  size = refl;
}
Decodes-read_bool false = record {
  sticky = Sticky-read_bool;
  reads = λ rest. refl;
  truncated = λ k. take_one-Failed k 0;
  size = refl;
}

pub Sticky-read_uint64 : Sticky read_uint64
unfolding read_uint64
Sticky-read_uint64 = record { stays = λ b e h. rw h refl }

pub Decodes-read_uint64 : (u : ℕ) → u < 2 ^ 64 → Decodes read_uint64 (write_uint64 u) u 8
unfolding read_uint64 write_uint64
Decodes-read_uint64 u h =
    let bs = little_endian 8 u in
    let whole : length bs ≡ 8 = length-little_endian 8 u in
    record {
      sticky = Sticky-read_uint64;
      reads = λ rest.
          let long : ltb (length (bs ++ rest)) 8 ≡ false = ground (arith, length-append bs rest) in
          let front : take 8 (bs ++ rest) ≡ bs =
            ap (λ (t : ℕ). take t (bs ++ rest)) (sym whole) ∙ take-append_all bs rest in
          let back : drop 8 (bs ++ rest) ≡ rest =
            ap (λ (t : ℕ). drop t (bs ++ rest)) (sym whole) ∙ drop-append_all bs rest in
          rw (long, front, back, from_little_endian-little_endian 8 u h);
      truncated = λ k less.
          let short : ltb (length (take k bs)) 8 ≡ true = ground (arith, length-take k bs) in
          rw short (eof, refl);
      size = whole;
    }
