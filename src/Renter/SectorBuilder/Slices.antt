-- ===== src/Renter/SectorBuilder/Slices.antt =====
-- What the slices of a SectorBuilder (renter/upload.go) hold, and that bytes placed after them do
-- not change it.
use us.Prelude.{
  ℕ, ◌+◌, ◌-◌, ◌*◌, ◌%◌, ◌≤◌, ◌≡◌, refl, sym, ap, ◌∙◌, List, [], ◌∷◌, ◌++◌, arith, length, take,
  drop, length-append, length-take, length-drop, drop-take,
}
use us.RenterHost.Session.Framing.{take-append_length}
use us.Renter.Windows.{take-take_append, drop-take_append}
use us.Renter.Sections.{SectorSlice, segment_size}
use us.Renter.SectorBuilder.{KeyStream, SectorBuilder, sector_bytes, place}

-- A call of Append: the data, the key and the nonce.
pub record Append {κ} (Key : Type κ) : Type κ where
  pub content : List ℕ
  pub key : Key
  pub nonce : List ℕ

-- XORKeyStream twice is the identity, and it keeps the length.
pub record IsStream {κ} {Key : Type κ} (cipher : KeyStream Key) : Type κ where
  pub twice :
      (key : Key) (nonce : List ℕ) (start : ℕ) (msg : List ℕ)
      → cipher.xor_key_stream key nonce start (cipher.xor_key_stream key nonce start msg) ≡ msg
  pub keeps :
      (key : Key) (nonce : List ℕ) (start : ℕ) (msg : List ℕ)
      → length (cipher.xor_key_stream key nonce start msg) ≡ length msg

-- Bytes that end before the place are not changed.
window-place :
    (start n off : ℕ) (p sector : List ℕ)
    → start + n ≤ off
    → off ≤ length sector
    → take n (drop start (place off p sector)) ≡ take n (drop start sector)
window-place start n off p sector le fits =
    let rest = p ++ drop (off + length p) sector in
    let e : start + n - start ≡ n = omega arith in
    sym (ap (λ (i : ℕ). take i (drop start (place off p sector))) e)
    ∙ sym (drop-take start (start + n) (place off p sector) (omega arith))
    ∙ ap (drop start) (take-take_append (start + n) off sector rest le fits)
    ∙ drop-take start (start + n) sector (omega arith)
    ∙ ap (λ (i : ℕ). take i (drop start sector)) e

-- The bytes that are placed.
pub window-placed :
    (off : ℕ) (p sector : List ℕ)
    → off ≤ length sector
    → take (length p) (drop off (place off p sector)) ≡ p
window-placed off p sector fits =
    let rest = drop (off + length p) sector in
    ap (take (length p)) (drop-take_append off sector (p ++ rest) fits)
    ∙ take-append_length (length p) p rest refl

pub length-place :
    (off : ℕ) (p sector : List ℕ)
    → off + length p ≤ length sector
    → length (place off p sector) ≡ length sector
length-place off p sector fits = omega (
  arith,
  length-append (take off sector) (p ++ drop (off + length p) sector),
  length-append p (drop (off + length p) sector),
  length-take off sector,
  length-drop (off + length p) sector,
)

-- The builder is in use: its sector is whole, and a whole number of segments is filled.
pub record IsBuilder (sb : SectorBuilder) : Type 0 where
  pub whole : length sb.sector ≡ sector_bytes
  pub within : sb.sector_len ≤ sector_bytes
  pub aligned : sb.sector_len % segment_size ≡ 0

module _ {κ} {Key : Type κ} ⦃cipher : KeyStream Key⦄ where
  -- What a slice of a sector holds, decrypted.
  abbrev pub decrypt_slice : List ℕ → Key → SectorSlice → List ℕ
  decrypt_slice sector key s =
      cipher.xor_key_stream key s.nonce s.segment_index
        (take (s.num_segments * segment_size) (drop (s.segment_index * segment_size) sector))

  -- The slice holds the data of the call, in the first `len` bytes of the sector.
  pub record Holds (sector : List ℕ) (len : ℕ) (a : Append Key) (s : SectorSlice) : Type 0 where
    pub reads : decrypt_slice sector a.key s ≡ a.content
    pub ends : (s.segment_index + s.num_segments) * segment_size ≤ len

  abbrev pub AllHold : List ℕ → ℕ → List (Append Key) → List SectorSlice → Type 0
  AllHold sector len [] [] = Unit {0}
  AllHold sector len [] (s ∷ slices) = ⊥
  AllHold sector len (a ∷ calls) [] = ⊥
  AllHold sector len (a ∷ calls) (s ∷ slices) =
      Holds sector len a s × AllHold sector len calls slices

  -- Bytes placed after the first `len` change no slice.
  pub Holds-place :
      (sector p : List ℕ) (len len' : ℕ) (a : Append Key) (s : SectorSlice)
      → len ≤ length sector
      → len ≤ len'
      → Holds sector len a s
      → Holds (place len p sector) len' a s
  Holds-place sector p len len' a s fits grows h = record {
    reads =
        ap (cipher.xor_key_stream a.key s.nonce s.segment_index) (
          window-place (s.segment_index * segment_size) (s.num_segments * segment_size) len p sector
            (omega (arith, h.ends)) fits)
        ∙ h.reads;
    ends = omega (arith, h.ends);
  }

  pub AllHold-place :
      (sector p : List ℕ) (len len' : ℕ) (calls : List (Append Key)) (slices : List SectorSlice)
      → len ≤ length sector
      → len ≤ len'
      → AllHold sector len calls slices
      → AllHold (place len p sector) len' calls slices
  AllHold-place sector p len len' [] [] fits grows h = tt
  AllHold-place sector p len len' [] (s ∷ slices) fits grows h = h
  AllHold-place sector p len len' (a ∷ calls) [] fits grows h = h
  AllHold-place sector p len len' (a ∷ calls) (s ∷ slices) fits grows h = (
    Holds-place sector p len len' a s fits grows h.0,
    AllHold-place sector p len len' calls slices fits grows h.1,
  )

  pub AllHold-append :
      (sector : List ℕ) (len : ℕ) (calls : List (Append Key)) (slices : List SectorSlice)
      (a : Append Key) (s : SectorSlice)
      → AllHold sector len calls slices
      → Holds sector len a s
      → AllHold sector len (calls ++ (a ∷ [])) (slices ++ (s ∷ []))
  AllHold-append sector len [] [] a s h here = (here, tt)
  AllHold-append sector len [] (s' ∷ slices) a s h here = absurd h
  AllHold-append sector len (a' ∷ calls) [] a s h here = absurd h
  AllHold-append sector len (a' ∷ calls) (s' ∷ slices) a s h here =
      (h.0, AllHold-append sector len calls slices a s h.1 here)
