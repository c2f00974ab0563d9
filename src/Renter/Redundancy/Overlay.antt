-- ===== src/Renter/Redundancy/Overlay.antt =====
-- `copy` of Go on lists, and the rows of segments that shards have in common.
use us.Prelude.{
  ℕ, zero, suc, ◌+◌, ◌*◌, ◌≤◌, ◌≡◌, refl, sym, ap, ◌∙◌, List, [], ◌∷◌, ◌++◌, arith, length, take,
  drop, length-append, length-take, length-drop, All,
}
use us.Renter.Sections.{segment_size}
use us.Renter.Redundancy.{Shard, overlay}

pub overlay-nil : (dst : List ℕ) → overlay [] dst ≡ dst
unfolding overlay
overlay-nil dst = refl

pub overlay_empty : (src : List ℕ) → overlay src [] ≡ []
unfolding overlay
overlay_empty [] = refl
overlay_empty (x ∷ src) = refl

pub overlay-take : (src dst : List ℕ) → overlay (take (length dst) src) dst ≡ overlay src dst
unfolding overlay
overlay-take [] [] = refl
overlay-take [] (y ∷ dst) = refl
overlay-take (x ∷ src) [] = refl
overlay-take (x ∷ src) (y ∷ dst) = ap (◌∷◌ x) (overlay-take src dst)

pub length-overlay : (src dst : List ℕ) → length (overlay src dst) ≡ length dst
unfolding overlay
length-overlay [] dst = refl
length-overlay (x ∷ src) [] = refl
length-overlay (x ∷ src) (y ∷ dst) = ap suc (length-overlay src dst)

pub overlay-append :
    (src xs ys : List ℕ)
    → overlay src (xs ++ ys)
      ≡ overlay (take (length xs) src) xs ++ overlay (drop (length xs) src) ys
unfolding overlay
overlay-append src [] ys = refl
overlay-append [] (x ∷ xs) ys = refl
overlay-append (z ∷ src) (x ∷ xs) ys = ap (◌∷◌ z) (overlay-append src xs ys)

pub take-overlay : (n : ℕ) (src dst : List ℕ) → take n (overlay src dst) ≡ overlay src (take n dst)
unfolding overlay
take-overlay n [] dst = refl
take-overlay zero (x ∷ src) dst = refl
take-overlay (suc n) (x ∷ src) [] = refl
take-overlay (suc n) (x ∷ src) (y ∷ dst) = ap (◌∷◌ x) (take-overlay n src dst)

pub drop-overlay :
    (n : ℕ) (src dst : List ℕ) → drop n (overlay src dst) ≡ overlay (drop n src) (drop n dst)
unfolding overlay
drop-overlay zero src dst = refl
drop-overlay (suc n) [] dst = refl
drop-overlay (suc n) (x ∷ src) [] = sym (overlay_empty (drop n src))
drop-overlay (suc n) (x ∷ src) (y ∷ dst) = drop-overlay n src dst

-- What fits is there afterwards.
pub overlay-fits :
    (src dst : List ℕ) → length src ≤ length dst → overlay src dst ≡ src ++ drop (length src) dst
unfolding overlay
overlay-fits [] dst le = refl
overlay-fits (x ∷ src) [] le = absurd (omega arith)
overlay-fits (x ∷ src) (y ∷ dst) le = ap (◌∷◌ x) (overlay-fits src dst (omega arith))

-- The segment of a shard at an offset.
abbrev pub seg : ℕ → Shard → List ℕ
seg off s = take segment_size (drop off s.visible)

-- The segments of all shards at an offset, in their order.
abbrev pub row : ℕ → List Shard → List ℕ
row off [] = []
row off (s ∷ shards) = seg off s ++ row off shards

-- `j` rows from an offset.
abbrev pub rows : ℕ → ℕ → List Shard → List ℕ
rows off zero shards = []
rows off (suc j) shards = row off shards ++ rows (off + segment_size) j shards

-- All shards have this length.
abbrev pub HaveLength : ℕ → List Shard → Type 0
HaveLength n shards = All (λ (s : Shard). length s.visible ≡ n) shards

pub length-seg :
    (off : ℕ) (s : Shard)
    → off + segment_size ≤ length s.visible
    → length (seg off s) ≡ segment_size
length-seg off s le =
    omega (arith, length-take segment_size (drop off s.visible), length-drop off s.visible)

pub length-row :
    (off n : ℕ) (shards : List Shard)
    → HaveLength n shards
    → off + segment_size ≤ n
    → length (row off shards) ≡ length shards * segment_size
length-row off n [] same le = omega arith
length-row off n (s ∷ shards) same le = omega (
  arith,
  length-append (seg off s) (row off shards),
  length-seg off s (omega (arith, same.0)),
  length-row off n shards same.1 le,
)

pub length-rows :
    (off j n : ℕ) (shards : List Shard)
    → HaveLength n shards
    → off + j * segment_size ≤ n
    → length (rows off j shards) ≡ j * (length shards * segment_size)
length-rows off zero n shards same le = omega arith
length-rows off (suc j) n shards same le =
    let here = length-row off n shards same (omega arith) in
    let more = length-rows (off + segment_size) j n shards same (omega arith) in
    length-append (row off shards) (rows (off + segment_size) j shards)
    ∙ rw (here, more) (omega arith)
