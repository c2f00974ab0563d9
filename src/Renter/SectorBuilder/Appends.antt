-- ===== src/Renter/SectorBuilder/Appends.antt =====
-- What is appended to a SectorBuilder (renter/upload.go) can be read from its sector.
use mathlib.Core.Path.{ap₂}
use mathlib.Core.List.{append-nil, append_assoc}
use us.Prelude.{
  ℕ, ◌+◌, ◌-◌, ◌*◌, ◌/◌, ◌%◌, ◌≤◌, ◌≡◌, refl, ◌∙◌, true, false, List, [], ◌∷◌, ◌++◌, Option, some,
  arith, ltb, ◌==◌, eq_iff, length, take, drop, length-take, All, ◌>>=◌, ltb-eq_false,
}
use us.Renter.Sections.{SectorSlice, segment_size, uint32}
use us.Renter.SectorBuilder.{
  KeyStream, SectorBuilder, sector_bytes, place, unset_root, append_sector, finish, reset_builder,
  remaining,
}
use us.Renter.SectorBuilder.Slices.{
  Append, IsStream, window-placed, length-place, IsBuilder, Holds, AllHold, AllHold-place,
  AllHold-append,
}

pub length-finish :
    (random : ℕ → List ℕ) (sb : SectorBuilder)
    → IsBuilder sb
    → ((n : ℕ) → length (random n) ≡ n)
    → length (finish random sb).sector ≡ sector_bytes
unfolding finish
length-finish random sb b filled =
    let n = length sb.sector - sb.sector_len in
    let p = take n (random n) in
    let size : length p ≡ n = omega (arith, length-take n (random n), filled n) in
    length-place sb.sector_len p sb.sector (omega (arith, size, b.whole, b.within)) ∙ b.whole

remaining-finish :
    (random : ℕ → List ℕ) (sb : SectorBuilder)
    → IsBuilder sb
    → ((n : ℕ) → length (random n) ≡ n)
    → remaining (finish random sb) ≡ 0
unfolding remaining
remaining-finish random sb b filled =
    let len : (finish random sb).sector_len ≡ length sb.sector = unfold finish in refl in
    omega (arith, length-finish random sb b filled, len, b.whole)

module _ {κ} {Key : Type κ} ⦃cipher : KeyStream Key⦄ where
  abbrev pub new_slice : SectorBuilder → Append Key → SectorSlice
  new_slice sb a = record {
    merkle_root = unset_root;
    segment_index = uint32 (sb.sector_len / segment_size);
    num_segments = uint32 (length a.content / segment_size);
    nonce = a.nonce;
  }

  abbrev pub encrypted : SectorBuilder → Append Key → List ℕ
  encrypted sb a = cipher.xor_key_stream a.key a.nonce (sb.sector_len / segment_size) a.content

  abbrev pub appended : SectorBuilder → Append Key → SectorBuilder
  appended sb a = record sb {
    sector = place sb.sector_len (encrypted sb a) sb.sector;
    slices = sb.slices ++ (new_slice sb a ∷ []);
    sector_len = sb.sector_len + length a.content;
  }

  module _ (stream : IsStream cipher) (sb : SectorBuilder) (a : Append Key) where
    pub append_sector-appended :
        length a.content % segment_size ≡ 0
        → sb.sector_len + length a.content ≤ sector_bytes
        → append_sector a.content a.key a.nonce sb ≡ some (appended sb a, length sb.slices)
    unfolding append_sector
    append_sector-appended even fits =
        let e : (length a.content % segment_size == 0) ≡ true =
          (eq_iff (length a.content % segment_size) 0).1 even in
        let f : ltb sector_bytes (sb.sector_len + length a.content) ≡ false =
          ltb-eq_false sector_bytes (sb.sector_len + length a.content) fits in
        rw (e, f) refl

    pub appended-Holds :
        IsBuilder sb
        → length a.content % segment_size ≡ 0
        → sb.sector_len + length a.content ≤ sector_bytes
        → Holds (appended sb a).sector (appended sb a).sector_len a (new_slice sb a)
    appended-Holds b even fits =
        let len = sb.sector_len in
        let n = length a.content in
        let enc = encrypted sb a in
        let index : uint32 (len / segment_size) ≡ len / segment_size = omega (arith, b.within) in
        let start : uint32 (len / segment_size) * segment_size ≡ len =
          omega (arith, b.within, b.aligned) in
        let size : uint32 (n / segment_size) * segment_size ≡ length enc =
          omega (arith, even, fits, stream.keeps a.key a.nonce (len / segment_size) a.content) in
        let read : take (uint32 (n / segment_size) * segment_size)
              (drop (uint32 (len / segment_size) * segment_size) (place len enc sb.sector))
            ≡ enc =
          ap₂ (λ (i j : ℕ). take i (drop j (place len enc sb.sector))) size start
          ∙ window-placed len enc sb.sector (omega (arith, b.whole, b.within)) in
        record {
          reads =
              ap₂ (cipher.xor_key_stream a.key a.nonce) index read
              ∙ stream.twice a.key a.nonce (len / segment_size) a.content;
          ends =
              omega (arith, start, size, stream.keeps a.key a.nonce (len / segment_size) a.content);
        }

    pub appended-IsBuilder :
        IsBuilder sb
        → length a.content % segment_size ≡ 0
        → sb.sector_len + length a.content ≤ sector_bytes
        → IsBuilder (appended sb a)
    appended-IsBuilder b even fits = record {
      whole =
          length-place sb.sector_len (encrypted sb a) sb.sector (
            omega
              (arith, b.whole, stream.keeps a.key a.nonce (sb.sector_len / segment_size) a.content))
          ∙ b.whole;
      within = fits;
      aligned = omega (arith, b.aligned, even);
    }

  -- Calls of Append, one after the other; `none` if one of them panics.
  unfoldable pub append_all : List (Append Key) → SectorBuilder → Option SectorBuilder
  unfolding append_sector
  append_all [] sb = some sb
  append_all (a ∷ calls) sb = append_sector a.content a.key a.nonce sb >>= λ r. append_all calls r.0

  abbrev pub total : List (Append Key) → ℕ
  total [] = 0
  total (a ∷ calls) = length a.content + total calls

  abbrev pub AllAligned : List (Append Key) → Type 0
  AllAligned = All (λ (a : Append Key). length a.content % segment_size ≡ 0)

  append_all-AllHold :
      (stream : IsStream cipher) (done calls : List (Append Key)) (sb : SectorBuilder)
      → IsBuilder sb
      → AllHold sb.sector sb.sector_len done sb.slices
      → AllAligned calls
      → sb.sector_len + total calls ≤ sector_bytes
      → (sb' : SectorBuilder) × (append_all calls sb ≡ some sb')
        × IsBuilder sb'
        × (sb'.sector_len ≡ sb.sector_len + total calls)
        × AllHold sb'.sector sb'.sector_len (done ++ calls) sb'.slices
  unfolding append_all
  append_all-AllHold stream done [] sb b held even fits =
      (sb, refl, b, omega arith, rw (append-nil done) held)
  append_all-AllHold stream done (a ∷ calls) sb b held even fits =
      let room : sb.sector_len + length a.content ≤ sector_bytes = omega arith in
      let next = appended sb a in
      let kept =
        AllHold-place sb.sector (encrypted sb a) sb.sector_len next.sector_len done sb.slices
          (omega (arith, b.whole, b.within)) (omega arith) held in
      let here = appended-Holds stream sb a b even.0 room in
      let all =
        AllHold-append next.sector next.sector_len done sb.slices a (new_slice sb a) kept here in
      let (sb', ran, b', len, held') =
        append_all-AllHold stream (done ++ (a ∷ [])) calls next
          (appended-IsBuilder stream sb a b even.0 room) all even.1 (omega arith) in
      (
        sb',
        rw (append_sector-appended stream sb a even.0 room) ran,
        b',
        omega (arith, len),
        rw (append_assoc done (a ∷ []) calls) at held',
      )

  -- For a key stream that is its own inverse and keeps the length: after Reset, calls of Append
  -- with whole segments of data that together fit the sector do not panic, and give one slice
  -- each. After Finish the sector has its size, Remaining is 0, and each slice of the sector,
  -- decrypted with the key of its call, is the data of the call.
  pub finish-append_all :
      (stream : IsStream cipher) (random : ℕ → List ℕ) (calls : List (Append Key))
      (sb : SectorBuilder)
      → ((n : ℕ) → length (random n) ≡ n)
      → length sb.sector ≡ sector_bytes
      → AllAligned calls
      → total calls ≤ sector_bytes
      → (sb' : SectorBuilder) × (append_all calls (reset_builder sb) ≡ some sb')
        × (length (finish random sb').sector ≡ sector_bytes)
        × (remaining (finish random sb') ≡ 0)
        × AllHold (finish random sb').sector sector_bytes calls (finish random sb').slices
  unfolding reset_builder finish remaining
  finish-append_all stream random calls sb filled whole even fits =
      let fresh = reset_builder sb in
      let (sb', ran, b, len, held) =
        append_all-AllHold stream [] calls fresh
          (record { whole = whole; within = omega arith; aligned = omega arith }) tt even
          (omega arith) in
      let n = length sb'.sector - sb'.sector_len in
      let p = take n (random n) in
      (
        sb',
        ran,
        length-finish random sb' b filled,
        remaining-finish random sb' b filled,
        AllHold-place sb'.sector p sb'.sector_len sector_bytes calls sb'.slices
            (omega (arith, b.whole, b.within)) b.within held,
      )
