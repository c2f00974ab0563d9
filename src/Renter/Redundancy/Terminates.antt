-- ===== src/Renter/Redundancy/Terminates.antt =====
-- The outer loop of simpleRedundancy.Recover (renter/reedsolomon.go) ends, on any shards and with
-- any writer; without shards it does not.
use us.Prelude.{
  ℕ, zero, suc, ◌+◌, ◌-◌, ◌*◌, ◌%◌, ◌<◌, ◌≡◌, refl, Bool, true, false, List, [], ◌∷◌, Option, none,
  some, arith, ltb, leb, ◌==◌, if◌then◌else◌, length, leb-eq_false, ltb-eq_true,
}
use us.Renter.Sections.{segment_size}
use us.Renter.Redundancy.{
  Shard, Writer, Recovery, Outcome, returned, failed, panicked, unfinished, too_few_shards,
  and_then, check_each, check_shards_of, segment_at, recover_segment, recover_shard, recover_round,
  recover_loop, recover, written,
}

unfoldable pub is_finished {ℓ} : {A : Type ℓ} → Outcome A → Bool
is_finished (returned a) = true
is_finished (failed e) = true
is_finished panicked = true
is_finished unfinished = false

and_then-finished {ℓ κ} :
    {A : Type ℓ} {B : Type κ} (m : Outcome A) (f : A → Outcome B)
    → is_finished m ≡ true
    → ((a : A) → is_finished (f a) ≡ true)
    → is_finished (and_then m f) ≡ true
unfolding is_finished
and_then-finished (returned a) f h k = k a
and_then-finished (failed e) f h k = refl
and_then-finished panicked f h k = refl
and_then-finished unfinished f h k = cc

if-finished {ℓ} :
    {A : Type ℓ} (b : Bool) (x y : Outcome A)
    → is_finished x ≡ true
    → is_finished y ≡ true
    → is_finished (if b then x else y) ≡ true
if-finished true x y h k = h
if-finished false x y h k = k

abbrev pub first_length : List Shard → ℕ
first_length [] = 0
first_length (s ∷ shards) = length s.visible

-- The checks have no loop to run out of fuel.
check_each-finished :
    (before : Option ℕ) (shards : List Shard) → is_finished (check_each before shards) ≡ true
unfolding check_each is_finished
check_each-finished before [] = refl
check_each-finished none (s ∷ shards) =
    let n = length s.visible in
    let next =
      if-finished (n % segment_size == 0) (check_each (some n) shards) panicked
        (check_each-finished (some n) shards) refl in
    if-finished (n == 0) (failed too_few_shards) _ refl next
check_each-finished (some m) (s ∷ shards) =
    let n = length s.visible in
    let next =
      if-finished (n % segment_size == 0) (check_each (some n) shards) panicked
        (check_each-finished (some n) shards) refl in
    if-finished (n == 0) (failed too_few_shards) _ refl (if-finished (n == m) _ panicked next refl)

module _ {ℓ} {W : Type ℓ} (writer : Writer W) where
  written-finished :
      (st : Recovery W) (s : List ℕ) (out : W × Bool) → is_finished (written writer st s out) ≡ true
  unfolding written is_finished
  written-finished st s (dst, true) = refl
  written-finished st s (dst, false) = refl

  recover_shard-finished :
      (st : Recovery W) (s : Option (List ℕ)) → is_finished (recover_shard writer st s) ≡ true
  unfolding recover_shard recover_segment is_finished
  recover_shard-finished st none = refl
  recover_shard-finished st (some s) =
      if-finished (leb (length s) st.skip) (returned (record st { skip = st.skip - length s })) _
        refl (written-finished st _ _)

  recover_round-finished :
      (off : ℕ) (shards : List Shard) (st : Recovery W)
      → is_finished (recover_round writer off shards st) ≡ true
  unfolding recover_round is_finished
  recover_round-finished off [] st = refl
  recover_round-finished off (s ∷ shards) st =
      and_then-finished (recover_shard writer st (segment_at off s))
        (λ mid. recover_round writer off shards mid) (recover_shard-finished st (segment_at off s))
        (λ mid. recover_round-finished off shards mid)

  -- Past the end of the first shard a round panics.
  recover_round-past :
      (off : ℕ) (s : Shard) (shards : List Shard) (st : Recovery W)
      → length s.visible < off
      → recover_round writer off (s ∷ shards) st ≡ panicked
  unfolding recover_round recover_shard segment_at
  recover_round-past off s shards st lt = rw (leb-eq_false off (length s.visible) lt) refl

  recover_loop-finished :
      (fuel off : ℕ) (s : Shard) (shards : List Shard) (st : Recovery W)
      → length s.visible < off + fuel * segment_size
      → is_finished (recover_loop writer (suc fuel) off (s ∷ shards) st) ≡ true
  unfolding recover_loop is_finished
  recover_loop-finished zero off s shards st lt =
      if-finished (ltb 0 st.rem) _ (returned st)
        (rw (recover_round-past off s shards st (omega arith)) refl) refl
  recover_loop-finished (suc fuel) off s shards st lt =
      if-finished (ltb 0 st.rem) _ (returned st)
        (and_then-finished (recover_round writer off (s ∷ shards) st)
          (λ mid. recover_loop writer (suc fuel) (off + segment_size) (s ∷ shards) mid)
          (recover_round-finished off (s ∷ shards) st)
          (λ mid. recover_loop-finished fuel (off + segment_size) s shards mid (omega arith)))
        refl

  -- For a positive number of shards, whatever shards and writer are given, Recover ends, by
  -- returning, an error or a panic, after a number of rounds that is one more than any number
  -- whose multiple of 64 exceeds the length of the first shard.
  pub recover-finished :
      (r fuel : ℕ) (dst : W) (shards : List Shard) (skip n : ℕ)
      → 0 < r
      → first_length shards < fuel * segment_size
      → is_finished (recover writer (suc fuel) r dst shards skip n) ≡ true
  unfolding recover check_shards_of is_finished
  recover-finished r fuel dst [] skip n pos enough =
      let e : (0 == r) ≡ false = ground arith in rw e refl
  recover-finished r fuel dst (s ∷ shards) skip n pos enough =
      and_then-finished (check_shards_of r (s ∷ shards)) _
        (if-finished (length (s ∷ shards) == r) _ panicked (check_each-finished none (s ∷ shards))
          refl)
        (λ _. recover_loop-finished fuel 0 s shards _ (omega arith))

  -- Without shards there is nothing to write and no segment to slice, so a positive `n` is never
  -- used up.
  recover_loop-empty :
      (fuel off : ℕ) (st : Recovery W)
      → 0 < st.rem
      → recover_loop writer fuel off [] st ≡ unfinished
  unfolding recover_loop recover_round
  recover_loop-empty zero off st more = refl
  recover_loop-empty (suc fuel) off st more =
      rw (ltb-eq_true 0 st.rem more) (recover_loop-empty fuel (off + segment_size) st more)

  pub recover-empty :
      (fuel : ℕ) (dst : W) (skip n : ℕ) → 0 < n → recover writer fuel 0 dst [] skip n ≡ unfinished
  unfolding recover check_shards_of check_each
  recover-empty fuel dst skip n more = recover_loop-empty fuel 0 _ more
