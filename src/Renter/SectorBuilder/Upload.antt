-- ===== src/Renter/SectorBuilder/Upload.antt =====
-- EncryptAndUpload of ShardUploader (renter/upload.go): what it stores, and the slice it writes.
use us.Prelude.{
  ℕ, zero, suc, ◌+◌, ◌-◌, ◌%◌, ◌<◌, ◌≤◌, ◌≡◌, ◌≢◌, refl, ◌∙◌, Bool, true, false, List, [], ◌∷◌,
  ◌++◌, some, Bool-cases, inl, inr, arith, ltb, ◌==◌, length, get_elem?, get_elem?-set_self,
  get_elem?-set_ne, length-append, length-replicate, replicate, ltb-eq_false, if◌then◌else◌, take,
}
use us.RenterHost.Rpc.Write.{RpcWriteAction}
use us.Renter.Sections.{SectorSlice, segment_size}
use us.Renter.SectorBuilder.{
  KeyStream, SectorBuilder, ShardUploader, sector_bytes, unset_root, no_slice, append_sector,
  finish, reset_builder, put_slice, put_slices, append_actions, rpc_write_action_append, upload,
  Uploaded, write_error, upload_result, sole_slice, upload_appended, encrypt_and_upload, uploaded,
  upload_panics, upload_failed,
}
use us.Renter.SectorBuilder.Slices.{Append, IsStream, Holds, decrypt_slice, IsBuilder, Holds-place}
use us.Renter.SectorBuilder.Appends.{
  append_sector-appended, appended, new_slice, appended-Holds, appended-IsBuilder, length-finish,
}

get_elem?-append_lt {ℓ} :
    {A : Type ℓ} (xs ys : List A) (i : ℕ) → i < length xs → get_elem? (xs ++ ys) i ≡ get_elem? xs i
get_elem?-append_lt [] ys i lt = absurd (omega arith)
get_elem?-append_lt (x ∷ xs) ys zero lt = refl
get_elem?-append_lt (x ∷ xs) ys (suc i) lt = get_elem?-append_lt xs ys i (omega arith)

put_slice-here :
    (i : ℕ) (ss : SectorSlice) (shard : List SectorSlice)
    → get_elem? (put_slice i ss shard) i ≡ some ss
unfolding put_slice
put_slice-here i ss shard =
    let more = replicate (suc i - length shard) no_slice in
    get_elem?-set_self (shard ++ more) i ss
      (omega (arith, length-append shard more, length-replicate (suc i - length shard) no_slice))

put_slice-others :
    (i j : ℕ) (ss : SectorSlice) (shard : List SectorSlice)
    → i ≢ j
    → j < length shard
    → get_elem? (put_slice i ss shard) j ≡ get_elem? shard j
unfolding put_slice
put_slice-others i j ss shard ne lt =
    let more = replicate (suc i - length shard) no_slice in
    get_elem?-set_ne (shard ++ more) ss ne ∙ get_elem?-append_lt shard more j lt

-- The slice is in the shard, and the other slices there are as they were.
pub record Stores (chunk_index : ℕ) (u u' : ShardUploader) (s : SectorSlice) : Type 0 where
  pub here : get_elem? u'.shard chunk_index ≡ some s
  pub others :
      (j : ℕ) → chunk_index ≢ j → j < length u.shard → get_elem? u'.shard j ≡ get_elem? u.shard j

-- A builder with one slice: its finished sector is sent, and the shard is written if the session
-- accepts.
upload_appended-sole :
    (random : ℕ → List ℕ) (write : List (List RpcWriteAction) → Bool) (chunk_index : ℕ)
    (u : ShardUploader) (sector : List ℕ) (len : ℕ) (s : SectorSlice) (i : ℕ)
    → (let sb : SectorBuilder = record { sector = sector; sector_len = len; slices = s ∷ [] } in
        let sent : ShardUploader = record u {
          builder = finish random sb;
          calls = u.calls ++ (append_actions (finish random sb).sector ∷ []);
        } in
        upload_appended random write chunk_index u (some (sb, i)) ≡ (
          if write sent.calls
          then uploaded (record sent { shard = put_slice chunk_index s u.shard }) s
          else upload_failed write_error sent))
unfolding upload_appended upload upload_result sole_slice put_slices finish
upload_appended-sole random write chunk_index u sector len s i =
    let sb : SectorBuilder = record { sector = sector; sector_len = len; slices = s ∷ [] } in
    let calls = u.calls ++ (append_actions (finish random sb).sector ∷ []) in
    elim (Bool-cases (write calls)) [ inl e ↦ rw e refl | inr e ↦ rw e refl ]

module _ {κ} {Key : Type κ} ⦃cipher : KeyStream Key⦄ where
  -- One more call of Session.Write, with one action: to append a whole sector, whose slice reads
  -- as the data.
  pub record Sends (key : Key) (content : List ℕ) (u u' : ShardUploader) (s : SectorSlice)
      : Type κ where
    pub sector : List ℕ
    pub whole : length sector ≡ sector_bytes
    pub reads : decrypt_slice sector key s ≡ content
    pub sent :
        u'.calls
        ≡ u.calls
          ++ ((record { type = rpc_write_action_append; a = 0; b = 0; «data» = sector } ∷ []) ∷ [])

  -- What EncryptAndUpload may return for a session.
  pub data IsUploaded (write : List (List RpcWriteAction) → Bool) (key : Key) (content : List ℕ)
      (chunk_index : ℕ) (u : ShardUploader) : Uploaded → Type κ where
    accepted :
        (u' : ShardUploader) (s : SectorSlice)
        → Sends key content u u' s
        → write u'.calls ≡ true
        → Stores chunk_index u u' s
        → s.merkle_root ≡ unset_root
        → IsUploaded write key content chunk_index u (uploaded u' s)
    rejected :
        (u' : ShardUploader) (s : SectorSlice)
        → Sends key content u u' s
        → write u'.calls ≡ false
        → u'.shard ≡ u.shard
        → IsUploaded write key content chunk_index u (upload_failed write_error u')

  finish-reads :
      (random : ℕ → List ℕ) (sb : SectorBuilder) (key : Key) (content nonce : List ℕ)
      (s : SectorSlice)
      → IsBuilder sb
      → Holds sb.sector sb.sector_len (record { content = content; key = key; nonce = nonce }) s
      → decrypt_slice (finish random sb).sector key s ≡ content
  unfolding finish
  finish-reads random sb key content nonce s b here =
      let n = length sb.sector - sb.sector_len in
      (Holds-place sb.sector (take n (random n)) sb.sector_len sector_bytes _ s
        (omega (arith, b.whole, b.within)) b.within here).reads

  sent-Sends :
      (random : ℕ → List ℕ) (u : ShardUploader) (key : Key) (content nonce : List ℕ)
      (s : SectorSlice) (u' : ShardUploader) (sb : SectorBuilder)
      → IsBuilder sb
      → ((n : ℕ) → length (random n) ≡ n)
      → Holds sb.sector sb.sector_len (record { content = content; key = key; nonce = nonce }) s
      → u'.calls ≡ u.calls ++ (append_actions (finish random sb).sector ∷ [])
      → Sends key content u u' s
  unfolding append_actions
  sent-Sends random u key content nonce s u' sb b filled here sent = record {
    sector = (finish random sb).sector;
    whole = length-finish random sb b filled;
    reads = finish-reads random sb key content nonce s b here;
    sent = sent;
  }

  -- For a key stream that is its own inverse and keeps the length, random bytes as many as are
  -- asked for, and whole segments of data that fit a sector, EncryptAndUpload calls Session.Write
  -- once more, with one action, which appends a whole sector, and the slice of this sector,
  -- decrypted, is the data. If the session accepts, it writes the slice, which it returns, into
  -- the shard at the chunk index and changes no other slice there; the Merkle root of the slice is
  -- left at its zero value. If not, it returns an error and leaves the shard as it is.
  pub encrypt_and_upload-IsUploaded :
      (stream : IsStream cipher) (random : ℕ → List ℕ) (write : List (List RpcWriteAction) → Bool)
      (key : Key) (nonce content : List ℕ) (chunk_index : ℕ) (u : ShardUploader)
      → ((n : ℕ) → length (random n) ≡ n)
      → length u.builder.sector ≡ sector_bytes
      → length content % segment_size ≡ 0
      → length content ≤ sector_bytes
      → IsUploaded write key content chunk_index u
          (encrypt_and_upload random write key nonce content chunk_index u)
  unfolding encrypt_and_upload reset_builder
  encrypt_and_upload-IsUploaded stream random write key nonce content chunk_index u filled whole
        even fits =
      let call : Append Key = record { content = content; key = key; nonce = nonce } in
      let fresh = reset_builder u.builder in
      let sb = appended fresh call in
      let s = new_slice fresh call in
      let b : IsBuilder fresh = record {
        whole = whole;
        within = omega arith;
        aligned = omega arith;
      } in
      let room : 0 + length content ≤ sector_bytes = omega arith in
      let small : ltb sector_bytes (length content) ≡ false =
        ltb-eq_false sector_bytes (length content) fits in
      let here = appended-Holds stream fresh call b even room in
      let b' = appended-IsBuilder stream fresh call b even room in
      let ran = append_sector-appended stream fresh call even room in
      let sent : ShardUploader = record u {
        builder = finish random sb;
        calls = u.calls ++ (append_actions (finish random sb).sector ∷ []);
      } in
      let stored : ShardUploader = record sent { shard = put_slice chunk_index s u.shard } in
      rw (small, ran, upload_appended-sole random write chunk_index u sb.sector sb.sector_len s 0)
        (elim (Bool-cases (write sent.calls)) [
          | inl e ↦ rw e (
              accepted stored s
                (sent-Sends random u key content nonce s stored sb b' filled here refl) e
                (record {
                  here = put_slice-here chunk_index s u.shard;
                  others = λ j ne lt. put_slice-others chunk_index j s u.shard ne lt;
                })
                refl)
          | inr e ↦ rw e (
              rejected sent s (sent-Sends random u key content nonce s sent sb b' filled here refl)
                e refl)
        ])

  -- For data within the size of a sector that is not a whole number of segments, EncryptAndUpload
  -- panics.
  pub encrypt_and_upload-misaligned :
      (random : ℕ → List ℕ) (write : List (List RpcWriteAction) → Bool) (key : Key)
      (nonce content : List ℕ) (chunk_index : ℕ) (u : ShardUploader)
      → length content ≤ sector_bytes
      → length content % segment_size ≢ 0
      → encrypt_and_upload random write key nonce content chunk_index u ≡ upload_panics
  unfolding encrypt_and_upload append_sector upload_appended
  encrypt_and_upload-misaligned random write key nonce content chunk_index u fits odd =
      let f : ltb sector_bytes (length content) ≡ false =
        ltb-eq_false sector_bytes (length content) fits in
      let e : (length content % segment_size == 0) ≡ false = ground arith in rw (f, e) refl
