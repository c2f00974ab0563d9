-- ===== src/Renter/Redundancy/RoundTrip.antt =====
-- Recover after Encode of simpleRedundancy (renter/reedsolomon.go).
use us.Prelude.{
  ℕ, suc, ◌+◌, ◌-◌, ◌*◌, ◌%◌, ◌<◌, ◌≤◌, ◌≡◌, refl, sym, ap, ◌∙◌, inl, inr, ◌⊎◌, true, false, List,
  [], ◌∷◌, ◌++◌, Option, none, some, arith, ltb, ◌==◌, Bool-cases, length, take, drop, drop-take,
  take-take, All, eq_iff, lt_of_ltb, le_of_ltb,
}
use us.RenterHost.Session.Framing.{take-append_length}
use us.Renter.Sections.{segment_size}
use us.Renter.Redundancy.{
  Shard, capacity, Writer, Recovery, returned, check_shards, num_chunks, encode, check_each,
  check_shards_of, recover,
}
use us.Renter.Redundancy.Overlay.{rows, HaveLength, length-rows, overlay-fits}
use us.Renter.Redundancy.Encode.{encode_loop-Rounds, extend_shards-HaveLength, num_chunks-fits}
use us.Renter.Redundancy.Recover.{IsBuffer, recover_loop-window}

-- The shards hold the content in rows of segments, and are of the least length for it.
pub record IsEncoding (r : ℕ) (content : List ℕ) (shards : List Shard) : Type 0 where
  pub count : length shards ≡ r
  pub lengths : HaveLength (num_chunks r (length content) * segment_size) shards
  pub holds : take (length content) (rows 0 (num_chunks r (length content)) shards) ≡ content

check_shards-count :
    (shards : List Shard) (n size : ℕ) → check_shards shards n ≡ some size → length shards ≡ n
unfolding check_shards
check_shards-count shards n size e = elim (Bool-cases (length shards == n)) [
  | inl same ↦ (eq_iff (length shards) n).0 same
  | inr other ↦ let e' = rw other at e in cc
]

-- For a positive number of shards that pass checkShards and have room for the chunks of the data,
-- Encode does not panic, and gives the shards that length and the data in rows of segments.
pub encode-IsEncoding :
    (r size : ℕ) (content : List ℕ) (shards : List Shard)
    → 0 < r
    → check_shards shards r ≡ some size
    → All (λ (s : Shard). num_chunks r (length content) * segment_size ≤ capacity s) shards
    → (out : List Shard) × (encode r content shards ≡ some out) × IsEncoding r content out
unfolding encode
encode-IsEncoding r size content shards pos checked room =
    let chunks = num_chunks r (length content) in
    let total = chunks * segment_size in
    let count = check_shards-count shards r size checked in
    let (mid, ran, same, count') = extend_shards-HaveLength total shards room in
    let all_of : length mid ≡ r = count' ∙ count in
    let fits = num_chunks-fits r (length content) pos in
    let (out, ran', rs) =
      encode_loop-Rounds chunks (suc chunks) 0 total mid content (omega arith) same (omega arith)
        (rw all_of fits) in
    let positive : (r == 0) ≡ false = ground arith in
    let size_of = length-rows 0 chunks total mid same (omega arith) in
    (
      out,
      rw (checked, positive, ran) ran',
      record {
        count = rs.count ∙ all_of;
        lengths = rs.lengths;
        holds =
            rw (rs.here, overlay-fits content (rows 0 chunks mid) (rw (size_of, all_of) fits))
              (take-append_length (length content) content
                (drop (length content) (rows 0 chunks mid)) refl);
      },
    )

num_chunks-pos : (r n : ℕ) → 0 < r → 0 < n → 0 < num_chunks r n
num_chunks-pos r n pos full =
    let fits = num_chunks-fits r n pos in
    let k = num_chunks r n in
    elim (Bool-cases (ltb 0 k)) [
      | inl e ↦ lt_of_ltb 0 k e
      | inr e ↦
          let z : k ≡ 0 = omega (arith, le_of_ltb 0 k e) in absurd (omega (arith, rw z at fits))
    ]

check_each-returned :
    (c : ℕ) (before : Option ℕ) (shards : List Shard)
    → 0 < c
    → (before ≡ none) ⊎ (before ≡ some (c * segment_size))
    → HaveLength (c * segment_size) shards
    → check_each before shards ≡ returned tt
unfolding check_each
check_each-returned c before [] pos known same = refl
check_each-returned c before (s ∷ shards) pos known same =
    let n : ℕ = c * segment_size in
    let full : (n == 0) ≡ false = ground arith in
    let even : (n % segment_size == 0) ≡ true = ground arith in
    let equal : (n == n) ≡ true = ground arith in
    let rest = check_each-returned c (some n) shards pos (inr refl) same.1 in
    elim known [
      | inl first ↦ rw (first, same.0, full, even) rest
      | inr later ↦ rw (later, same.0, full, equal, even) rest
    ]

-- A window of a prefix.
window-take :
    (n skip : ℕ) (content q : List ℕ)
    → take (length content) q ≡ content
    → skip + n ≤ length content
    → take n (drop skip q) ≡ take n (drop skip content)
window-take n skip content q e le =
    sym (take-take n (length content - skip) (drop skip q) (omega arith))
    ∙ ap (take n) (sym (drop-take skip (length content) q (omega arith)) ∙ ap (drop skip) e)

module _ {ℓ} {W : Type ℓ} (writer : Writer W) (contents : W → List ℕ)
    (buffer : IsBuffer writer contents) where
  recover-IsEncoding :
      (r fuel : ℕ) (content : List ℕ) (shards : List Shard) (dst : W) (skip n : ℕ)
      → 0 < num_chunks r (length content)
      → num_chunks r (length content) < fuel
      → length content ≤ num_chunks r (length content) * (r * segment_size)
      → skip + n ≤ length content
      → IsEncoding r content shards
      → (st : Recovery W) × (recover writer fuel r dst shards skip n ≡ returned st)
        × (contents st.dst ≡ contents dst ++ take n (drop skip content))
  unfolding recover check_shards_of
  recover-IsEncoding r fuel content shards dst skip n pos enough fits le i =
      let chunks = num_chunks r (length content) in
      let total = chunks * segment_size in
      let counted : (length shards == r) ≡ true = (eq_iff (length shards) r).1 i.count in
      let checked = check_each-returned chunks none shards pos (inl refl) i.lengths in
      let start : Recovery W = record { skip = skip; rem = n; dst = dst } in
      let (st, ran, wrote) =
        recover_loop-window writer contents buffer chunks fuel 0 total shards start enough i.lengths
          (omega arith) (λ h. rw i.count (omega arith)) in
      (
        st,
        rw (counted, checked) ran,
        wrote
            ∙ ap (λ (q : List ℕ). contents dst ++ q)
                (window-take n skip content (rows 0 chunks shards) i.holds le),
      )

  -- For a positive number of shards that pass checkShards and have room for the chunks of the
  -- data, at least one byte of data, a window within the data and a writer that takes all bytes:
  -- Encode does not panic, and Recover on its shards then returns after at most as many rounds as
  -- there are chunks and one more, without an error, and has written the window of the data.
  pub recover-encode :
      (r size fuel : ℕ) (content : List ℕ) (shards : List Shard) (dst : W) (skip n : ℕ)
      → 0 < r
      → 0 < length content
      → check_shards shards r ≡ some size
      → All (λ (s : Shard). num_chunks r (length content) * segment_size ≤ capacity s) shards
      → skip + n ≤ length content
      → num_chunks r (length content) < fuel
      → (out : List Shard) × (encode r content shards ≡ some out)
        × (st : Recovery W) × (recover writer fuel r dst out skip n ≡ returned st)
        × (contents st.dst ≡ contents dst ++ take n (drop skip content))
  recover-encode r size fuel content shards dst skip n pos full checked room le enough =
      let (out, ran, i) = encode-IsEncoding r size content shards pos checked room in
      let (st, back, wrote) =
        recover-IsEncoding r fuel content out dst skip n
          (num_chunks-pos r (length content) pos full) enough
          (num_chunks-fits r (length content) pos) le i in
      (out, ran, st, back, wrote)
