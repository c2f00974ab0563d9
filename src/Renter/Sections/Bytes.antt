-- ===== src/Renter/Sections/Bytes.antt =====
-- The bytes of sectors that sections and slices stand for.
use us.Prelude.{
  ℕ, zero, suc, ◌+◌, ◌-◌, ◌*◌, ◌^◌, ◌<◌, ◌≤◌, ◌≡◌, refl, ap, ◌∙◌, List, [], ◌∷◌, ◌++◌, arith,
  length, take, drop,
}
use us.Renter.Sections.{SectorSlice, Section, segment_size, uint32, section_from}

-- The bytes of a sector: its root, and a position.
abbrev pub Byte : Type 0
Byte = List ℕ × ℕ

abbrev pub span : List ℕ → ℕ → ℕ → List Byte
span root start zero = []
span root start (suc n) = (root, start) ∷ span root (suc start) n

abbrev pub section_bytes : List Section → List Byte
section_bytes [] = []
section_bytes (s ∷ sections) = span s.merkle_root s.offset s.len ++ section_bytes sections

abbrev pub slice_bytes : List SectorSlice → List Byte
slice_bytes [] = []
slice_bytes (s ∷ slices) =
    span s.merkle_root (s.segment_index * segment_size) (s.num_segments * segment_size)
    ++ slice_bytes slices

-- The slice ends before 2 ^ 32 bytes.
abbrev pub IsWithinSector : SectorSlice → Type 0
IsWithinSector s = (s.segment_index + s.num_segments) * segment_size < 2 ^ 32

pub length-span : (root : List ℕ) (start n : ℕ) → length (span root start n) ≡ n
length-span root start zero = refl
length-span root start (suc n) = ap suc (length-span root (suc start) n)

pub take-span_append :
    (root : List ℕ) (start n k : ℕ) (rest : List Byte)
    → k ≤ n
    → take k (span root start n ++ rest) ≡ span root start k
take-span_append root start n zero rest le = refl
take-span_append root start zero (suc k) rest le = absurd (omega arith)
take-span_append root start (suc n) (suc k) rest le =
    ap (◌∷◌ (root, start)) (take-span_append root (suc start) n k rest (omega arith))

pub take-span_more :
    (root : List ℕ) (start n k : ℕ) (rest : List Byte)
    → n ≤ k
    → take k (span root start n ++ rest) ≡ span root start n ++ take (k - n) rest
take-span_more root start zero k rest le = let e : k - 0 ≡ k = omega arith in rw e
take-span_more root start (suc n) zero rest le = absurd (omega arith)
take-span_more root start (suc n) (suc k) rest le =
    let e : suc k - suc n ≡ k - n = omega arith in
    rw e (ap (◌∷◌ (root, start)) (take-span_more root (suc start) n k rest (omega arith)))

pub drop-span_append :
    (root : List ℕ) (start n k : ℕ) (rest : List Byte)
    → k ≤ n
    → drop k (span root start n ++ rest) ≡ span root (start + k) (n - k) ++ rest
drop-span_append root start n zero rest le =
    let e : start + 0 ≡ start = omega arith in let e' : n - 0 ≡ n = omega arith in rw (e, e') refl
drop-span_append root start zero (suc k) rest le = absurd (omega arith)
drop-span_append root start (suc n) (suc k) rest le =
    let e : suc start + k ≡ start + suc k = omega arith in
    let e' : suc n - suc k ≡ n - k = omega arith in
    rw e' (
      drop-span_append root (suc start) n k rest (omega arith)
      ∙ ap (λ (t : ℕ). span root t (n - k) ++ rest) e)

pub drop-span_more :
    (root : List ℕ) (start n k : ℕ) (rest : List Byte)
    → n ≤ k
    → drop k (span root start n ++ rest) ≡ drop (k - n) rest
drop-span_more root start zero k rest le = let e : k - 0 ≡ k = omega arith in rw e
drop-span_more root start (suc n) zero rest le = absurd (omega arith)
drop-span_more root start (suc n) (suc k) rest le =
    let e : suc k - suc n ≡ k - n = omega arith in
    rw e (drop-span_more root (suc start) n k rest (omega arith))

-- A section from within a slice.
pub section_from-value :
    (skip : ℕ) (s : SectorSlice)
    → skip ≤ s.num_segments * segment_size
    → IsWithinSector s
    → section_from skip s ≡ (record {
      merkle_root = s.merkle_root;
      offset = s.segment_index * segment_size + skip;
      len = s.num_segments * segment_size - skip;
    })
unfolding section_from
section_from-value skip s le within =
    let a : uint32 (uint32 (s.segment_index * segment_size) + uint32 skip)
        ≡ s.segment_index * segment_size + skip =
      omega arith in
    let b : uint32 (uint32 (s.num_segments * segment_size) + (2 ^ 32 - uint32 skip))
        ≡ s.num_segments * segment_size - skip =
      omega arith in
    rw (a, b)
