-- ===== src/Renter/SectorBuilder.antt =====
-- SectorBuilder of renter/upload.go, and how ShardUploader uses it. Finish returns a pointer to the
-- sector of the builder, which is the sector of the state.
pub mod Slices
pub mod Appends
pub mod Upload
use us.Prelude.{
  ℕ, zero, suc, Bool, true, false, ◌+◌, ◌-◌, ◌*◌, ◌/◌, ◌%◌, List, [], ◌∷◌, ◌++◌, Option, none, some,
  ltb, ◌==◌, if◌then◌else◌, length, take, drop, set, map, not, ◌>>=◌, replicate, leb,
}
use us.RenterHost.Rpc.Write.{RpcWriteAction}
use us.Renter.Sections.{SectorSlice, segment_size, uint32}

-- The XChaCha20 key stream of a key, a nonce and a start index, which is added to a message.
pub record KeyStream {κ} (Key : Type κ) : Type κ where
  pub xor_key_stream : Key → List ℕ → ℕ → List ℕ → List ℕ

abbrev pub sector_bytes : ℕ
sector_bytes = 4194304

pub record SectorBuilder : Type 0 where
  pub sector : List ℕ
  pub sector_len : ℕ
  pub slices : List SectorSlice

unfoldable pub reset_builder : SectorBuilder → SectorBuilder
reset_builder sb = record sb { sector_len = 0; slices = [] }

unfoldable pub slice_for_append : SectorBuilder → List ℕ
slice_for_append sb = drop sb.sector_len sb.sector

unfoldable pub builder_len : SectorBuilder → ℕ
builder_len sb = sb.sector_len

unfoldable pub remaining : SectorBuilder → ℕ
remaining sb = length sb.sector - sb.sector_len

-- The zero value of a hash.
abbrev pub unset_root : List ℕ
unset_root = replicate 32 0

-- The sector with bytes at an offset.
abbrev pub place : ℕ → List ℕ → List ℕ → List ℕ
place off p sector = take off sector ++ (p ++ drop (off + length p) sector)

-- `random` is what frand.Read gives.
unfoldable pub finish : (ℕ → List ℕ) → SectorBuilder → SectorBuilder
finish random sb =
    let n = length sb.sector - sb.sector_len in
    record sb {
      sector = place sb.sector_len (take n (random n)) sb.sector;
      sector_len = length sb.sector;
    }

unfoldable pub set_merkle_root : List ℕ → SectorBuilder → SectorBuilder
set_merkle_root root sb = record sb {
  slices = map (λ (s : SectorSlice). record s { merkle_root = root }) sb.slices;
}

module _ {κ} {Key : Type κ} ⦃cipher : KeyStream Key⦄ where
  -- Append: the builder, and the index of the new slice. `none` is a panic.
  unfoldable pub append_sector : List ℕ → Key → List ℕ → SectorBuilder → Option (SectorBuilder × ℕ)
  append_sector content key nonce sb =
      if not (length content % segment_size == 0)
      then none
      else if ltb sector_bytes (sb.sector_len + length content)
      then none
      else let index = sb.sector_len / segment_size in
        let slice : SectorSlice = record {
          merkle_root = unset_root;
          segment_index = uint32 index;
          num_segments = uint32 (length content / segment_size);
          nonce = nonce;
        } in
        some (
          record sb {
            sector = place sb.sector_len (cipher.xor_key_stream key nonce index content) sb.sector;
            slices = sb.slices ++ (slice ∷ []);
            sector_len = sb.sector_len + length content;
          },
          length sb.slices,
        )

-- `for len(shard) <= i { shard = append(shard, SectorSlice{}) }; shard[i] = ss`
abbrev pub no_slice : SectorSlice
no_slice = record {
  merkle_root = unset_root;
  segment_index = 0;
  num_segments = 0;
  nonce = replicate 24 0;
}

unfoldable pub put_slice : ℕ → SectorSlice → List SectorSlice → List SectorSlice
put_slice i ss shard = set (shard ++ replicate (suc i - length shard) no_slice) i ss

unfoldable pub put_slices : ℕ → List SectorSlice → List SectorSlice → List SectorSlice
unfolding put_slice
put_slices i [] shard = shard
put_slices i (ss ∷ slices) shard = put_slices (suc i) slices (put_slice i ss shard)

-- A ShardUploader: its builder, the shard that it writes to, and its session, known by the calls of
-- Session.Write so far.
pub record ShardUploader : Type 0 where
  pub builder : SectorBuilder
  pub shard : List SectorSlice
  pub calls : List (List RpcWriteAction)

-- The specifier "Append", in 16 bytes.
abbrev pub rpc_write_action_append : List ℕ
rpc_write_action_append =
    65 ∷ 112 ∷ 112 ∷ 101 ∷ 110 ∷ 100 ∷ 0 ∷ 0 ∷ 0 ∷ 0 ∷ 0 ∷ 0 ∷ 0 ∷ 0 ∷ 0 ∷ 0 ∷ []

pub data UploadError : Type 0 where
  data_exceeds_sector_size : UploadError
  write_error : UploadError

pub data Uploaded : Type 0 where
  uploaded : ShardUploader → SectorSlice → Uploaded
  upload_failed : UploadError → ShardUploader → Uploaded
  upload_panics : Uploaded

-- The argument of Session.Write: one action, which appends the sector.
unfoldable pub append_actions : List ℕ → List RpcWriteAction
append_actions sector =
    record { type = rpc_write_action_append; a = 0; b = 0; «data» = sector } ∷ []

-- Upload; `write` is what Session.Write answers to the last of its calls: whether it succeeds. The
-- sector is finished and sent in any case.
unfoldable pub upload :
    (ℕ → List ℕ) → (List (List RpcWriteAction) → Bool) → ℕ → ShardUploader → ShardUploader × Bool
unfolding finish put_slices append_actions
upload random write chunk_index u =
    let finished = finish random u.builder in
    let sent : ShardUploader = record u {
      builder = finished;
      calls = u.calls ++ (append_actions finished.sector ∷ []);
    } in
    if write sent.calls
    then (record sent { shard = put_slices chunk_index finished.slices u.shard }, true)
    else (sent, false)

unfoldable pub sole_slice : ShardUploader → List SectorSlice → Uploaded
sole_slice u [] = upload_panics
sole_slice u (s ∷ []) = uploaded u s
sole_slice u (s ∷ s' ∷ slices) = upload_panics

unfoldable pub upload_result : ShardUploader × Bool → Uploaded
unfolding sole_slice
upload_result (u, true) = sole_slice u u.builder.slices
upload_result (u, false) = upload_failed write_error u

unfoldable pub upload_appended :
    (ℕ → List ℕ)
    → (List (List RpcWriteAction) → Bool)
    → ℕ
    → ShardUploader
    → Option (SectorBuilder × ℕ)
    → Uploaded
unfolding upload upload_result
upload_appended random write chunk_index u none = upload_panics
upload_appended random write chunk_index u (some (sb, i)) =
    upload_result (upload random write chunk_index (record u { builder = sb }))

module _ {κ} {Key : Type κ} ⦃cipher : KeyStream Key⦄ where
  -- EncryptAndUpload, with the key of the uploader and the random nonce.
  unfoldable pub encrypt_and_upload :
      (ℕ → List ℕ)
      → (List (List RpcWriteAction) → Bool)
      → Key
      → List ℕ
      → List ℕ
      → ℕ
      → ShardUploader
      → Uploaded
  unfolding upload_appended append_sector reset_builder
  encrypt_and_upload random write key nonce content chunk_index u =
      if ltb sector_bytes (length content)
      then upload_failed data_exceeds_sector_size u
      else upload_appended random write chunk_index u
          (append_sector content key nonce (reset_builder u.builder))
