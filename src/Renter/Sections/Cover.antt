-- ===== src/Renter/Sections/Cover.antt =====
-- The bytes that the result of calcSections reads.
use us.Prelude.{
  ℕ, ◌+◌, ◌-◌, ◌^◌, ◌<◌, ◌≤◌, ◌≡◌, refl, ap, sym, ◌∙◌, inl, inr, ◌⊎◌, true, false, List, [], ◌∷◌,
  ◌++◌, Option, none, some, arith, length, take, length-append, ltb, Bool-cases,
}
use mathlib.Core.List.{append-nil}
use us.Renter.Sections.{SectorSlice, Section, uint32, section_from, collect, trim_last, trim}
use us.Renter.Sections.Bytes.{
  Byte, span, section_bytes, length-span, take-span_append, take-span_more,
}

-- The first `need` bytes are read, or there are too few.
abbrev pub Covers : ℕ → List Byte → Option (List Section) → Type 0
Covers need all result =
    ((need ≤ length all)
      × (sections : List Section) × (result ≡ some sections)
      × (section_bytes sections ≡ take need all))
    ⊎ ((length all < need) × (result ≡ none))

pub collect-cons :
    (need : ℕ) (section : Section) (slices : List SectorSlice)
    → (first : Section) × (others : List Section) × ((collect need section slices).0
        ≡ first ∷ others)
unfolding collect
collect-cons need section [] = elim (Bool-cases (ltb section.len need)) [
  | inl less ↦ (section, [], rw less refl)
  | inr more ↦ (section, [], rw more refl)
]
collect-cons need section (s ∷ slices) = elim (Bool-cases (ltb section.len need)) [
  | inl less ↦
      (section, (collect (need - section.len) (section_from 0 s) slices).0, rw (collect, less) refl)
  | inr more ↦ (section, [], rw (collect, more) refl)
]

pub collect_last :
    (need : ℕ) (section : Section) (slices : List SectorSlice)
    → ltb section.len need ≡ false
    → collect need section slices ≡ (section ∷ [], (0, section.len - need))
unfolding collect
collect_last need section [] e = rw e refl
collect_last need section (s ∷ slices) e = rw (collect, e) refl

pub collect_more :
    (need : ℕ) (section : Section) (s : SectorSlice) (slices : List SectorSlice)
    → ltb section.len need ≡ true
    → let rest = collect (need - section.len) (section_from 0 s) slices in
      collect need section (s ∷ slices) ≡ (section ∷ rest.0, rest.1)
unfolding collect
collect_more need section s slices e = rw (collect, e) refl

pub trim-cons :
    (s : Section) (p : List Section × (ℕ × ℕ)) (first : Section) (others : List Section)
    → p.0 ≡ first ∷ others
    → trim (s ∷ p.0, p.1) ≡ elim (trim p) [ none ↦ none | some sections ↦ some (s ∷ sections) ]
unfolding trim trim_last
trim-cons s (sections, (missing, over)) first others e = elim (Bool-cases (ltb 0 missing)) [
  | inl bad ↦ rw (e, bad) refl
  | inr good ↦ rw (e, good) refl
]

pub Covers-last :
    (need : ℕ) (section : Section) (rest : List Byte)
    → 0 < need
    → section.len < 2 ^ 32
    → need ≤ section.len
    → Covers need
        (span section.merkle_root section.offset section.len ++ rest)
        (trim (section ∷ [], (0, section.len - need)))
unfolding trim trim_last
Covers-last need section rest pos small le =
    let bytes = span section.merkle_root section.offset section.len in
    let trimmed : uint32 (section.len + (2 ^ 32 - uint32 (section.len - need))) ≡ need =
      omega arith in
    inl (
      omega (
        arith,
        length-append bytes rest,
        length-span section.merkle_root section.offset section.len,
      ),
      record section { len = need } ∷ [],
      rw trimmed refl,
      append-nil (span section.merkle_root section.offset need)
          ∙ sym (take-span_append section.merkle_root section.offset section.len need rest le),
    )

pub Covers-cons :
    (need : ℕ) (section : Section) (all : List Byte) (result : Option (List Section))
    → section.len < need
    → Covers (need - section.len) all result
    → Covers need
        (span section.merkle_root section.offset section.len ++ all)
        (elim result [ none ↦ none | some sections ↦ some (section ∷ sections) ])
Covers-cons need section all result less (inl (le, sections, e, covered)) =
    let bytes = span section.merkle_root section.offset section.len in
    let size : length (bytes ++ all) ≡ section.len + length all = omega (
      arith,
      length-append bytes all,
      length-span section.merkle_root section.offset section.len,
    ) in
    inl (
      omega (arith, size),
      section ∷ sections,
      rw e refl,
      ap (λ l. bytes ++ l) covered
          ∙ sym (
              take-span_more section.merkle_root section.offset section.len need all (omega arith)),
    )
Covers-cons need section all result less (inr (few, e)) =
    let bytes = span section.merkle_root section.offset section.len in
    inr (
      omega (
        arith,
        length-append bytes all,
        length-span section.merkle_root section.offset section.len,
      ),
      rw e refl,
    )

pub collect_short :
    (need : ℕ) (section : Section)
    → ltb section.len need ≡ true
    → trim (collect need section []) ≡ none
unfolding collect trim
collect_short need section e =
    let missing : ltb 0 (need - section.len) ≡ true = ground arith in rw (e, missing) refl
