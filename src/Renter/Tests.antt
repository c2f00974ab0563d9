-- ===== src/Renter/Tests.antt =====
-- Runs of package renter on small inputs.
use us.Prelude.{
  ℕ, ◌≡◌, refl, Bool, ltb, true, false, List, [], ◌∷◌, ◌++◌, none, some, arith, drop, length,
  length-replicate, replicate,
}
use us.RenterHost.Rpc.Write.{RpcWriteAction}
use us.Renter.Redundancy.{
  Shard, capacity, common_size, have_capacity, check_shards, num_chunks, encode, Writer, Recovery,
  returned, recover,
}
use us.Renter.Redundancy.Recover.{IsBuffer}
use us.Renter.Redundancy.RoundTrip.{recover-encode}
use us.Renter.Redundancy.Terminates.{is_finished, recover-finished}
use us.Renter.SectorBuilder.{
  KeyStream, SectorBuilder, ShardUploader, sector_bytes, reset_builder, finish, remaining,
  encrypt_and_upload,
}
use us.Renter.SectorBuilder.Slices.{Append, IsStream, AllHold}
use us.Renter.SectorBuilder.Appends.{append_all, finish-append_all}
use us.Renter.SectorBuilder.Upload.{IsUploaded, encrypt_and_upload-IsUploaded}
use us.Renter.Sections.{
  SectorSlice, seek, section_from, collect, trim_last, trim, calc_from, calc_sections,
}
use us.Renter.Sections.Bytes.{slice_bytes}
use us.Renter.Sections.Cover.{Covers}
use us.Renter.Sections.Calc.{calc_sections-Covers}
use us.Renter.Sections.End.{calc_sections-end}

abbrev one : SectorSlice
one = record { merkle_root = 1 ∷ []; segment_index = 3; num_segments = 1; nonce = [] }

abbrev two : SectorSlice
two = record { merkle_root = 2 ∷ []; segment_index = 0; num_segments = 2; nonce = [] }

abbrev shard : List SectorSlice
shard = one ∷ two ∷ []

across :
    calc_sections shard 60 10
    ≡ some (
        record { merkle_root = 1 ∷ []; offset = 252; len = 4 }
        ∷ record { merkle_root = 2 ∷ []; offset = 0; len = 6 }
        ∷ [])
unfolding calc_sections calc_from seek trim collect section_from trim_last
across = refl

too_long : calc_sections shard 60 133 ≡ none
unfolding calc_sections calc_from seek trim collect section_from trim_last
too_long = refl

calc_sections-Covers_example : Covers 10 (drop 60 (slice_bytes shard)) (calc_sections shard 60 10)
calc_sections-Covers_example =
    calc_sections-Covers shard 60 10 (omega arith, (omega arith, tt)) (omega arith) (omega arith)

calc_sections-end_example : calc_sections shard 192 10 ≡ calc_sections shard 0 10
calc_sections-end_example = calc_sections-end one (two ∷ []) 10 (omega arith)

-- Three bytes of data over two shards, whose memory holds ones.
abbrev empty_shard : Shard
empty_shard = record { visible = []; spare = replicate 64 1 }

abbrev buffer : Writer (List ℕ)
buffer = record { write = λ w p. (w ++ p, false) }

buffer-IsBuffer : IsBuffer buffer (λ w. w)
buffer-IsBuffer = record { takes = λ w p. refl; appends = λ w p. refl }

abbrev shards : List Shard
shards = empty_shard ∷ empty_shard ∷ []

checked : check_shards shards 2 ≡ some 0
unfolding check_shards common_size have_capacity capacity
checked = refl

recover-encode_example :
    (out : List Shard) × (encode 2 (5 ∷ 6 ∷ 7 ∷ []) shards ≡ some out)
    × (st : Recovery (List ℕ)) × (recover buffer 2 2 (9 ∷ []) out 1 2 ≡ returned st)
    × (st.dst ≡ 9 ∷ 6 ∷ 7 ∷ [])
unfolding num_chunks capacity
recover-encode_example =
    recover-encode buffer (λ w. w) buffer-IsBuffer 2 0 2 (5 ∷ 6 ∷ 7 ∷ []) shards (9 ∷ []) 1 2
      (omega arith) (omega arith) checked (omega arith, (omega arith, tt)) (omega arith)
      (omega arith)

recover-finished_example : is_finished (recover buffer 2 2 [] shards 0 1) ≡ true
recover-finished_example = recover-finished buffer 2 1 [] shards 0 1 (omega arith) (omega arith)

-- A key stream that changes nothing.
instance abbrev plain_stream : KeyStream ℕ
plain_stream = record { xor_key_stream = λ key nonce start msg. msg }

plain_stream-IsStream : IsStream plain_stream
plain_stream-IsStream = record {
  twice = λ key nonce start msg. refl;
  keeps = λ key nonce start msg. refl;
}

ones : ℕ → List ℕ
ones n = replicate n 1

length-ones : (n : ℕ) → length (ones n) ≡ n
unfolding ones
length-ones n = length-replicate n 1

zeros : List ℕ
zeros = ones sector_bytes

abbrev builder : SectorBuilder
builder = record { sector = zeros; sector_len = 0; slices = [] }

whole : length builder.sector ≡ sector_bytes
unfolding zeros
whole = length-ones sector_bytes

abbrev segment : Append ℕ
segment = record { content = replicate 64 3; key = 1; nonce = [] }

finish-append_all_example :
    (sb' : SectorBuilder) × (append_all (segment ∷ segment ∷ []) (reset_builder builder) ≡ some sb')
    × (length (finish ones sb').sector ≡ sector_bytes)
    × (remaining (finish ones sb') ≡ 0)
    × AllHold
        (finish ones sb').sector
        sector_bytes
        (segment ∷ segment ∷ [])
        (finish ones sb').slices
finish-append_all_example =
    finish-append_all plain_stream-IsStream ones (segment ∷ segment ∷ []) builder length-ones whole
      (refl, (refl, tt)) (omega arith)

abbrev uploader : ShardUploader
uploader = record { builder = builder; shard = one ∷ []; calls = [] }

-- A session that accepts the first sector only.
abbrev session : List (List RpcWriteAction) → Bool
session calls = ltb (length calls) 2

encrypt_and_upload-IsUploaded_example :
    IsUploaded {Key = ℕ} session 1
      (replicate 64 3)
      2
      uploader
      (encrypt_and_upload {Key = ℕ} ones session 1 [] (replicate 64 3) 2 uploader)
encrypt_and_upload-IsUploaded_example =
    encrypt_and_upload-IsUploaded plain_stream-IsStream ones session 1 [] (replicate 64 3) 2
      uploader length-ones whole refl (omega arith)
