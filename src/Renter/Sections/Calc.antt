-- ===== src/Renter/Sections/Calc.antt =====
-- calcSections of renter/download.go, against the bytes of a shard.
use mathlib.Core.Path.{subst}
use us.Prelude.{
  ℕ, ◌+◌, ◌-◌, ◌*◌, ◌^◌, ◌<◌, ◌≤◌, ◌≡◌, refl, ap, sym, ◌∙◌, inl, inr, false, List, [], ◌∷◌, ◌++◌,
  arith, length, drop, length-append, All, ltb, ◌==◌, Bool-cases,
}
use us.Renter.Sections.{
  SectorSlice, Section, segment_size, seek, section_from, collect, trim, calc_from, calc_sections,
}
use us.Renter.Sections.Bytes.{
  Byte, span, slice_bytes, IsWithinSector, length-span, drop-span_append, drop-span_more,
  section_from-value,
}
use us.Renter.Sections.Cover.{
  Covers, collect-cons, collect_last, collect_more, trim-cons, Covers-last, Covers-cons,
  collect_short,
}

abbrev one_bytes : Section → List Byte
one_bytes s = span s.merkle_root s.offset s.len

from-bytes :
    (skip : ℕ) (s : SectorSlice) (rest : List Byte)
    → skip ≤ s.num_segments * segment_size
    → IsWithinSector s
    → one_bytes (section_from skip s) ++ rest
      ≡ drop skip (
          span s.merkle_root (s.segment_index * segment_size) (s.num_segments * segment_size)
          ++ rest)
from-bytes skip s rest le within =
    ap (λ x. one_bytes x ++ rest) (section_from-value skip s le within)
    ∙ sym (
        drop-span_append s.merkle_root (s.segment_index * segment_size)
          (s.num_segments * segment_size) skip rest le)

from-small : (skip : ℕ) (s : SectorSlice) → (section_from skip s).len < 2 ^ 32
unfolding section_from
from-small skip s = omega arith

collect-Covers :
    (need : ℕ) (section : Section) (slices : List SectorSlice)
    → 0 < need
    → section.len < 2 ^ 32
    → All IsWithinSector slices
    → Covers need (one_bytes section ++ slice_bytes slices) (trim (collect need section slices))
collect-Covers need section [] pos small within = elim (Bool-cases (ltb section.len need)) [
  | inl less ↦ inr (
    ground (
      arith,
      length-append (one_bytes section) [],
      length-span section.merkle_root section.offset section.len,
    ),
    collect_short need section less,
  )
  | inr more ↦
      subst (λ p. Covers need (one_bytes section ++ []) (trim p))
        (sym (collect_last need section [] more))
        (Covers-last need section [] pos small (ground arith))
]
collect-Covers need section (s ∷ slices) pos small within =
    elim (Bool-cases (ltb section.len need)) [
      | inl less ↦
          let rest = collect (need - section.len) (section_from 0 s) slices in
          let (first, others, e) = collect-cons (need - section.len) (section_from 0 s) slices in
          let later =
            collect-Covers (need - section.len) (section_from 0 s) slices (ground arith)
              (from-small 0 s) within.1 in
          let later' =
            subst (λ l. Covers (need - section.len) l (trim rest))
              (from-bytes 0 s (slice_bytes slices) (omega arith) within.0) later in
          subst (Covers need (one_bytes section ++ slice_bytes (s ∷ slices)))
            (sym (
              ap trim (collect_more need section s slices less)
              ∙ trim-cons section rest first others e))
            (Covers-cons need section (slice_bytes (s ∷ slices)) (trim rest) (ground arith) later')
      | inr more ↦
          subst (λ p. Covers need (one_bytes section ++ slice_bytes (s ∷ slices)) (trim p))
            (sym (collect_last need section (s ∷ slices) more))
            (Covers-last need section (slice_bytes (s ∷ slices)) pos small (ground arith))
    ]

-- Where seeking stops.
record Sought (slices : List SectorSlice) (offset n : ℕ) (found : List SectorSlice × ℕ)
    : Type 0 where
  pub slice : SectorSlice
  pub others : List SectorSlice
  pub start : ℕ
  pub stops : found ≡ (slice ∷ others, start)
  pub before : start ≤ offset
  pub inside : offset - start < slice.num_segments * segment_size
  pub within : All IsWithinSector (slice ∷ others)
  pub bytes :
      drop (offset - n) (slice_bytes slices) ≡ drop (offset - start) (slice_bytes (slice ∷ others))

seek-Sought :
    (all slices : List SectorSlice) (offset n : ℕ)
    → All IsWithinSector slices
    → n ≤ offset
    → offset < n + length (slice_bytes slices)
    → Sought slices offset n (seek all slices offset n)
unfolding seek
seek-Sought all [] offset n within le less = absurd (omega arith)
seek-Sought all (s ∷ slices) offset n within le less =
    let size = s.num_segments * segment_size in
    let own = span s.merkle_root (s.segment_index * segment_size) size in
    elim (Bool-cases (ltb offset (n + size))) [
      | inl here ↦ record {
        slice = s;
        others = slices;
        start = n;
        stops = rw (seek, here) refl;
        before = le;
        inside = ground arith;
        within = within;
        bytes = refl;
      }
      | inr later ↦
          let rest = seek-Sought all slices offset (n + size) within.1 (ground arith) (
            omega (
              arith,
              less,
              length-append own (slice_bytes slices),
              length-span s.merkle_root (s.segment_index * segment_size) size,
            )) in
          let skipped : offset - n - size ≡ offset - (n + size) = omega arith in
          record {
            slice = rest.slice;
            others = rest.others;
            start = rest.start;
            stops = rw (seek, later) rest.stops;
            before = rest.before;
            inside = rest.inside;
            within = rest.within;
            bytes =
                drop-span_more s.merkle_root (s.segment_index * segment_size) size (offset - n)
                  (slice_bytes slices) (ground arith)
                ∙ ap (λ (k : ℕ). drop k (slice_bytes slices)) skipped
                ∙ rest.bytes;
          }
    ]

-- For slices that end before 2 ^ 32 bytes of their sectors, an offset before the end of the shard
-- and a positive length: if the shard has the bytes from the offset on, calcSections gives
-- sections that read exactly these bytes of the sectors, in order; if there are too few, it gives
-- an error.
pub calc_sections-Covers :
    (slices : List SectorSlice) (offset len : ℕ)
    → All IsWithinSector slices
    → offset < length (slice_bytes slices)
    → 0 < len
    → Covers len (drop offset (slice_bytes slices)) (calc_sections slices offset len)
unfolding calc_sections calc_from
calc_sections-Covers slices offset len within less pos =
    let f = seek-Sought slices slices offset 0 within (omega arith) (omega arith) in
    let skip = offset - f.start in
    let zero_len : len == 0 ≡ false = ground arith in
    let result : calc_sections slices offset len
        ≡ trim (collect len (section_from skip f.slice) f.others) =
      rw (calc_sections, zero_len) (ap (calc_from offset len) f.stops) in
    let all : one_bytes (section_from skip f.slice) ++ slice_bytes f.others
        ≡ drop offset (slice_bytes slices) =
      from-bytes skip f.slice (slice_bytes f.others) (omega (arith, f.inside)) f.within.0
      ∙ sym f.bytes
      ∙ (let e : offset - 0 ≡ offset = omega arith in
          ap (λ (k : ℕ). drop k (slice_bytes slices)) e) in
    subst (Covers len (drop offset (slice_bytes slices))) (sym result) (
      subst (λ l. Covers len l (trim (collect len (section_from skip f.slice) f.others))) all
        (collect-Covers len (section_from skip f.slice) f.others pos (from-small skip f.slice)
          f.within.1))
