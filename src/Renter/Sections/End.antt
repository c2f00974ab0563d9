-- ===== src/Renter/Sections/End.antt =====
-- calcSections of renter/download.go at the end of a shard.
use us.Prelude.{
  ℕ, ◌+◌, ◌-◌, ◌*◌, ◌<◌, ◌≤◌, ◌≡◌, refl, ap, sym, ◌∙◌, true, false, List, [], ◌∷◌, ◌++◌, some,
  arith, length, length-append, ltb, ◌==◌, if◌then◌else◌,
}
use us.Renter.Sections.{
  SectorSlice, segment_size, seek, section_from, collect, trim, calc_from, calc_sections,
}
use us.Renter.Sections.Bytes.{span, slice_bytes, length-span}

seek-end :
    (all slices : List SectorSlice) (offset n : ℕ)
    → n + length (slice_bytes slices) ≤ offset
    → seek all slices offset n ≡ (all, n + length (slice_bytes slices))
unfolding seek
seek-end all [] offset n le = let e : n + 0 ≡ n = omega arith in rw e refl
seek-end all (s ∷ slices) offset n le =
    let size = s.num_segments * segment_size in
    let own = span s.merkle_root (s.segment_index * segment_size) size in
    let total : length (own ++ slice_bytes slices) ≡ size + length (slice_bytes slices) = omega (
      arith,
      length-append own (slice_bytes slices),
      length-span s.merkle_root (s.segment_index * segment_size) size,
    ) in
    let past : ltb offset (n + size) ≡ false = ground (arith, total) in
    let sum : n + size + length (slice_bytes slices) ≡ n + length (own ++ slice_bytes slices) =
      omega (arith, total) in
    rw (seek, past)
      (seek-end all slices offset (n + size) (omega (arith, le, total))
        ∙ ap (λ (k : ℕ). (all, k)) sum)

-- For a shard whose first slice is not empty and for every length, calcSections with the end of
-- the shard as the offset gives what it gives with the offset 0.
pub calc_sections-end :
    (s : SectorSlice) (slices : List SectorSlice) (len : ℕ)
    → 0 < s.num_segments
    → calc_sections (s ∷ slices) (length (slice_bytes (s ∷ slices))) len
      ≡ calc_sections (s ∷ slices) 0 len
unfolding calc_sections
calc_sections-end s slices len pos =
    let all = s ∷ slices in
    let total = length (slice_bytes all) in
    let at_end : seek all all total 0 ≡ (all, total) =
      seek-end all all total 0 (omega arith)
      ∙ (let e : 0 + total ≡ total = omega arith in ap (λ (k : ℕ). (all, k)) e) in
    let inside : ltb 0 (0 + s.num_segments * segment_size) ≡ true = ground arith in
    let at_start : seek all all 0 0 ≡ (all, 0) = unfold seek in rw (seek, inside) refl in
    let none_left : total - total ≡ 0 = omega arith in
    let same : calc_from total len (all, total) ≡ calc_from 0 len (all, 0) =
      unfold calc_from in
      (ap (λ (k : ℕ). trim (collect len (section_from k s) slices)) none_left) in
    ap (λ p. if len == 0 then some [] else calc_from total len p) at_end
    ∙ ap (λ r. if len == 0 then some [] else r) same
    ∙ sym (ap (λ p. if len == 0 then some [] else calc_from 0 len p) at_start)
