-- ===== src/Renter/Redundancy/Encode.antt =====
-- simpleRedundancy.Encode (renter/reedsolomon.go) puts the data into the segments of the shards,
-- row by row.
use native.Mathlib.Nat.{mod-add-div', mod-lt}
use us.Prelude.{
  ℕ, zero, suc, ◌+◌, ◌-◌, ◌*◌, ◌/◌, ◌%◌, ◌<◌, ◌≤◌, ◌≡◌, refl, sym, ap, ◌∙◌, inl, inr, ◌⊎◌, List, [],
  ◌∷◌, ◌++◌, some, arith, ◌==◌, Bool-cases, false, length, take, drop, length-append, length-take,
  length-drop, drop-drop, drop-take, All, leb-eq_true, ltb-eq_false,
}
use us.Renter.Sections.{segment_size}
use us.Renter.Windows.{drop_all, drop-take_append, take-take_append}
use us.Renter.Redundancy.{
  Shard, capacity, overlay, reslice, extend_shards, copy_at, encode_round, encode_loop, num_chunks,
}
use us.Renter.Redundancy.Overlay.{
  overlay-nil, overlay_empty, overlay-append, overlay-take, take-overlay, drop-overlay,
  length-overlay, seg, row, rows, HaveLength, length-seg, length-row,
}

module _ (off : ℕ) (p : List ℕ) (s : Shard) (fits : off ≤ length s.visible) where
  abbrev copied : Shard
  copied = record s { visible = take off s.visible ++ overlay p (drop off s.visible) }

  copy_at-copied : copy_at off p s ≡ some copied
  unfolding copy_at
  copy_at-copied = rw (leb-eq_true off (length s.visible) fits)

  length-copied : length copied.visible ≡ length s.visible
  length-copied = omega (
    arith,
    length-append (take off s.visible) (overlay p (drop off s.visible)),
    length-take off s.visible,
    length-overlay p (drop off s.visible),
    length-drop off s.visible,
  )

  seg-copied : seg off copied ≡ overlay p (seg off s)
  seg-copied =
      ap (take segment_size) (drop-take_append off s.visible (overlay p (drop off s.visible)) fits)
      ∙ take-overlay segment_size p (drop off s.visible)

  seg-copied_after :
      (j : ℕ) → length p ≤ segment_size → off + segment_size ≤ j → seg j copied ≡ seg j s
  seg-copied_after j short le =
      let d = j - off in
      let at : off + d ≡ j = omega arith in
      let v = s.visible in
      let moved : drop j copied.visible ≡ drop j v =
        ap (λ (i : ℕ). drop i copied.visible) (sym at)
        ∙ sym (drop-drop off d copied.visible)
        ∙ ap (drop d) (drop-take_append off v (overlay p (drop off v)) fits)
        ∙ drop-overlay d p (drop off v)
        ∙ ap (λ (q : List ℕ). overlay q (drop d (drop off v))) (drop_all d p (omega arith))
        ∙ overlay-nil (drop d (drop off v))
        ∙ drop-drop off d v
        ∙ ap (λ (i : ℕ). drop i v) at in
      ap (take segment_size) moved

  seg-copied_before : (j : ℕ) → j + segment_size ≤ off → seg j copied ≡ seg j s
  seg-copied_before j le =
      let e : j + segment_size - j ≡ segment_size = omega arith in
      let v = s.visible in
      sym (ap (λ (i : ℕ). take i (drop j copied.visible)) e)
      ∙ sym (drop-take j (j + segment_size) copied.visible (omega arith))
      ∙ ap (drop j) (take-take_append (j + segment_size) off v (overlay p (drop off v)) le fits)
      ∙ drop-take j (j + segment_size) v (omega arith)
      ∙ ap (λ (i : ℕ). take i (drop j v)) e

-- What a round at an offset makes of the shards.
record Round (off n : ℕ) (buf : List ℕ) (shards out : List Shard) : Type 0 where
  lengths : HaveLength n out
  count : length out ≡ length shards
  here : row off out ≡ overlay buf (row off shards)
  elsewhere :
      (j : ℕ) → (j + segment_size ≤ off) ⊎ (off + segment_size ≤ j) → row j out ≡ row j shards

short : (buf : List ℕ) → length (take segment_size buf) ≤ segment_size
short buf = omega (arith, length-take segment_size buf)

encode_round-Round :
    (off n : ℕ) (shards : List Shard) (buf : List ℕ)
    → HaveLength n shards
    → off + segment_size ≤ n
    → (out : List Shard) × (encode_round off shards buf
        ≡ some (out, drop (length shards * segment_size) buf))
      × Round off n buf shards out
unfolding encode_round
encode_round-Round off n [] buf same le = (
  [],
  refl,
  record { lengths = tt; count = refl; here = sym (overlay_empty buf); elsewhere = λ j away. refl },
)
encode_round-Round off n (s ∷ shards) buf same le =
    let p = take segment_size buf in
    let fits : off ≤ length s.visible = omega (arith, same.0) in
    let s' = copied off p s fits in
    let (out, ran, r) = encode_round-Round off n shards (drop segment_size buf) same.1 le in
    let rest : drop (length shards * segment_size) (drop segment_size buf)
        ≡ drop (suc (length shards) * segment_size) buf =
      drop-drop segment_size (length shards * segment_size) buf
      ∙ ap (λ (i : ℕ). drop i buf) (omega arith) in
    let size = length-seg off s (omega (arith, same.0)) in
    (
      s' ∷ out,
      rw (copy_at-copied off p s fits, ran, rest) refl,
      record {
        lengths = (length-copied off p s fits ∙ same.0, r.lengths);
        count = ap suc r.count;
        here =
            rw (seg-copied off p s fits, r.here)
              (rw size at (sym (overlay-append buf (seg off s) (row off shards))));
        elsewhere = λ j away. rw (r.elsewhere j away) (
            ap (λ (q : List ℕ). q ++ row j shards)
              (elim away [
                | inl before ↦ seg-copied_before off p s fits j before
                | inr after ↦ seg-copied_after off p s fits j (short buf) after
              ]));
      },
    )

rows-same :
    (off i j : ℕ) (shards out : List Shard)
    → off ≤ i
    → ((k : ℕ) → off ≤ k → row k out ≡ row k shards)
    → rows i j out ≡ rows i j shards
rows-same off i zero shards out le same = refl
rows-same off i (suc j) shards out le same =
    rw (same i le, rows-same off (i + segment_size) j shards out (omega arith) same) refl

-- What the rounds from an offset make of the shards.
pub record Rounds (off j n : ℕ) (buf : List ℕ) (shards out : List Shard) : Type 0 where
  pub lengths : HaveLength n out
  pub count : length out ≡ length shards
  pub here : rows off j out ≡ overlay buf (rows off j shards)
  pub before : (i : ℕ) → i + segment_size ≤ off → row i out ≡ row i shards

Rounds-more :
    (off j n : ℕ) (buf : List ℕ) (shards mid out : List Shard)
    → HaveLength n shards
    → off + segment_size ≤ n
    → Round off n buf shards mid
    → Rounds (off + segment_size) j n (drop (length shards * segment_size) buf) mid out
    → Rounds off (suc j) n buf shards out
Rounds-more off j n buf shards mid out same le r rs =
    let size = length-row off n shards same le in
    let later =
      rows-same (off + segment_size) (off + segment_size) j shards mid (omega arith)
        (λ k le. r.elsewhere k (inr le)) in
    record {
      lengths = rs.lengths;
      count = rs.count ∙ r.count;
      here =
          rw (rs.before off (omega arith), r.here, rs.here, later)
            (ap
                (λ (q : List ℕ).
                  q
                  ++ overlay (drop (length shards * segment_size) buf)
                      (rows (off + segment_size) j shards))
                (sym (overlay-take buf (row off shards)))
              ∙ rw (sym size)
                  (sym (overlay-append buf (row off shards) (rows (off + segment_size) j shards))));
      before = λ i away. rs.before i (omega arith) ∙ r.elsewhere i (inl away);
    }

-- The loop of Encode ends without a panic in as many rounds as the buffer has rows, and one more.
pub encode_loop-Rounds :
    (j fuel off n : ℕ) (shards : List Shard) (buf : List ℕ)
    → j < fuel
    → HaveLength n shards
    → off + j * segment_size ≤ n
    → length buf ≤ j * (length shards * segment_size)
    → (out : List Shard) × (encode_loop fuel off shards buf ≡ some out)
      × Rounds off j n buf shards out
unfolding encode_loop
encode_loop-Rounds j zero off n shards buf lt same le fits = absurd (omega arith)
encode_loop-Rounds j (suc fuel) off n shards [] lt same le fits = (
  shards,
  refl,
  record {
    lengths = same;
    count = refl;
    here = sym (overlay-nil (rows off j shards));
    before = λ i away. refl;
  },
)
encode_loop-Rounds zero (suc fuel) off n shards (x ∷ buf) lt same le fits = absurd (omega arith)
encode_loop-Rounds (suc j) (suc fuel) off n shards (x ∷ buf) lt same le fits =
    let (mid, ran, r) = encode_round-Round off n shards (x ∷ buf) same (omega arith) in
    let left = drop (length shards * segment_size) (x ∷ buf) in
    let (out, ran', rs) =
      encode_loop-Rounds j fuel (off + segment_size) n mid left (omega arith) r.lengths
        (omega arith)
        (rw r.count (omega (arith, length-drop (length shards * segment_size) (x ∷ buf)))) in
    let more : (length (x ∷ buf) == 0) ≡ false = ground arith in
    (out, rw (more, ran) ran', Rounds-more off j n (x ∷ buf) shards mid out same (omega arith) r rs)

reslice-length :
    (size : ℕ) (s : Shard)
    → size ≤ capacity s
    → (out : Shard) × (reslice size s ≡ some out) × (length out.visible ≡ size)
unfolding reslice capacity
reslice-length size s le = (
  record { visible = take size (s.visible ++ s.spare); spare = drop size (s.visible ++ s.spare) },
  rw (ltb-eq_false (length s.visible + length s.spare) size le),
  omega (arith, length-take size (s.visible ++ s.spare), length-append s.visible s.spare),
)

pub extend_shards-HaveLength :
    (size : ℕ) (shards : List Shard)
    → All (λ (s : Shard). size ≤ capacity s) shards
    → (out : List Shard) × (extend_shards size shards ≡ some out)
      × HaveLength size out
      × (length out ≡ length shards)
unfolding extend_shards
extend_shards-HaveLength size [] room = ([], refl, tt, refl)
extend_shards-HaveLength size (s ∷ shards) room =
    let (s', ran, here) = reslice-length size s room.0 in
    let (out, more, there, count) = extend_shards-HaveLength size shards room.1 in
    (s' ∷ out, rw (ran, more) refl, (here, there), ap suc count)

-- The chunks hold all bytes.
pub num_chunks-fits : (r n : ℕ) → 0 < r → n ≤ num_chunks r n * (r * segment_size)
unfolding num_chunks
num_chunks-fits r n pos =
    let c = r * segment_size in
    let whole : n % c + n / c * c ≡ n = mod-add-div' n c in
    let small : n % c < c = mod-lt n (omega arith) in
    elim (Bool-cases (n % c == 0)) [
      | inl even ↦ rw even (ground (arith, whole))
      | inr odd ↦ rw odd (
          let more : (n / c + 1) * c ≡ n / c * c + c = grind arith in
          omega (arith, whole, small, more))
    ]
