-- ===== src/Renter/Sections.antt =====
-- calcSections of renter/download.go, for an offset and a length that are not negative.
pub mod Bytes
pub mod Cover
pub mod Calc
pub mod End
use us.Prelude.{
  ℕ, ◌+◌, ◌-◌, ◌*◌, ◌%◌, ◌^◌, List, [], ◌∷◌, Option, none, some, ltb, ◌==◌, if◌then◌else◌,
}

-- SectorSlice of renter/meta.go.
pub record SectorSlice : Type 0 where
  pub merkle_root : List ℕ
  pub segment_index : ℕ
  pub num_segments : ℕ
  pub nonce : List ℕ

-- RPCReadRequestSection, with fields of 32 bits.
pub record Section : Type 0 where
  pub merkle_root : List ℕ
  pub offset : ℕ
  pub len : ℕ

abbrev pub segment_size : ℕ
segment_size = 64

abbrev pub uint32 : ℕ → ℕ
uint32 n = n % 2 ^ 32

-- Seek to the offset, at `n` bytes: the slices from there, or all of them if there is none, and
-- the bytes before.
unfoldable pub seek : List SectorSlice → List SectorSlice → ℕ → ℕ → List SectorSlice × ℕ
seek all [] offset n = (all, n)
seek all (s ∷ slices) offset n =
    let size = s.num_segments * segment_size in
    if ltb offset (n + size) then (s ∷ slices, n) else seek all slices offset (n + size)

-- The section of a slice after its first `skip` bytes.
unfoldable pub section_from : ℕ → SectorSlice → Section
section_from skip s = record {
  merkle_root = s.merkle_root;
  offset = uint32 (uint32 (s.segment_index * segment_size) + uint32 skip);
  len = uint32 (uint32 (s.num_segments * segment_size) + (2 ^ 32 - uint32 skip));
}

-- The sections for the remaining bytes, and `length` at the end of the loop: how many bytes are
-- missing, or how many there are too many.
unfoldable pub collect : ℕ → Section → List SectorSlice → List Section × (ℕ × ℕ)
unfolding section_from
collect need section [] =
    if ltb section.len need
    then (section ∷ [], (need - section.len, 0))
    else (section ∷ [], (0, section.len - need))
collect need section (s ∷ slices) =
    let rest = collect (need - section.len) (section_from 0 s) slices in
    if ltb section.len need
    then (section ∷ rest.0, rest.1)
    else (section ∷ [], (0, section.len - need))

-- The last section becomes shorter.
unfoldable pub trim_last : ℕ → List Section → List Section
trim_last over [] = []
trim_last over (s ∷ []) = record s { len = uint32 (s.len + (2 ^ 32 - uint32 over)) } ∷ []
trim_last over (s ∷ s' ∷ sections) = s ∷ trim_last over (s' ∷ sections)

unfoldable pub trim : List Section × (ℕ × ℕ) → Option (List Section)
unfolding trim_last
trim (sections, (missing, over)) = if ltb 0 missing then none else some (trim_last over sections)

-- From the slices that are left after seeking.
unfoldable pub calc_from : ℕ → ℕ → List SectorSlice × ℕ → Option (List Section)
unfolding trim collect section_from
calc_from offset length ([], n) = some []
calc_from offset length (s ∷ slices, n) = trim (collect length (section_from (offset - n) s) slices)

unfoldable pub calc_sections : List SectorSlice → ℕ → ℕ → Option (List Section)
unfolding calc_from seek
calc_sections slices offset length =
    if length == 0 then some [] else calc_from offset length (seek slices slices offset 0)
