-- ===== src/Renter/Redundancy/Recover.antt =====
-- simpleRedundancy.Recover (renter/reedsolomon.go) writes a window of the rows of the shards.
use mathlib.Core.List.{append-nil, append_assoc}
use us.Prelude.{
  ℕ, zero, suc, ◌+◌, ◌-◌, ◌*◌, ◌<◌, ◌≤◌, ◌≡◌, refl, sym, ap, ◌∙◌, inl, inr, Bool, true, false, List,
  [], ◌∷◌, ◌++◌, some, arith, ltb, leb, if◌then◌else◌, Bool-cases, length, take, drop,
  length-append, length-take, length-drop, leb-eq_true, le_of_ltb, le_of_leb, lt_of_leb, lt_of_ltb,
}
use us.RenterHost.Session.Pulls.{if-both}
use us.Renter.Sections.{segment_size}
use us.Renter.Windows.{
  take_all, take_none, window_past, window-append, take-append_more, drop-append_more,
}
use us.Renter.Redundancy.{
  Shard, capacity, Writer, Recovery, returned, segment_at, recover_segment, recover_shard,
  recover_round, recover_loop, written,
}
use us.Renter.Redundancy.Overlay.{seg, row, rows, HaveLength, length-row}

-- The visible segment is the one that Recover slices.
segment_at-seg :
    (off : ℕ) (s : Shard)
    → off + segment_size ≤ length s.visible
    → segment_at off s ≡ some (seg off s)
unfolding segment_at capacity
segment_at-seg off s le =
    let v = s.visible in
    let early : leb off (length v) ≡ true = leb-eq_true off (length v) (omega arith) in
    let room : leb (off + segment_size) (length v + length s.spare) ≡ true =
      leb-eq_true (off + segment_size) (length v + length s.spare) (omega arith) in
    let cut : take segment_size (drop off (v ++ s.spare)) ≡ take segment_size (drop off v) =
      ap (take segment_size) (drop-append_more off v s.spare)
      ∙ take-append_more segment_size (drop off v) (drop (off - length v) s.spare)
      ∙ ap (λ (q : List ℕ). take segment_size (drop off v) ++ q)
          (take_none (segment_size - length (drop off v)) (drop (off - length v) s.spare)
            (omega (arith, length-drop off v)))
      ∙ append-nil (take segment_size (drop off v)) in
    rw (early, room) (ap some cut)

-- A writer without errors, and the bytes that it holds.
pub record IsBuffer {ℓ} {W : Type ℓ} (writer : Writer W) (contents : W → List ℕ) : Type ℓ where
  pub takes : (w : W) (p : List ℕ) → (writer.write w p).1 ≡ false
  pub appends : (w : W) (p : List ℕ) → contents (writer.write w p).0 ≡ contents w ++ p

-- The bytes that Recover hands to the writer.
chosen :
    (skip rem : ℕ) (s : List ℕ)
    → (let s1 = if ltb 0 skip then drop skip s else s in
        if ltb rem (length s1) then take rem s1 else s1)
      ≡ take rem (drop skip s)
chosen skip rem s =
    let shorter : (q : List ℕ) → (if ltb rem (length q) then take rem q else q) ≡ take rem q =
      λ (q : List ℕ).
        if-both (λ (x : List ℕ). x ≡ take rem q) (ltb rem (length q)) _ _ (λ h. refl)
          (λ h. sym (take_all rem q (le_of_ltb rem (length q) h))) in
    let start : (if ltb 0 skip then drop skip s else s) ≡ drop skip s =
      if-both (λ (x : List ℕ). x ≡ drop skip s) (ltb 0 skip) _ _ (λ h. refl)
        (λ h. let e : skip ≡ 0 = omega (arith, le_of_ltb 0 skip h) in rw e) in
    shorter (if ltb 0 skip then drop skip s else s) ∙ ap (take rem) start

module _ {ℓ} {W : Type ℓ} (writer : Writer W) (contents : W → List ℕ)
    (buffer : IsBuffer writer contents) where
  -- Reading `q` has skipped and written what it should.
  record Reads (q : List ℕ) (st st' : Recovery W) : Type 0 where
    skipped : st'.skip ≡ st.skip - length q
    left : st'.rem ≡ st.rem - (length q - st.skip)
    wrote : contents st'.dst ≡ contents st.dst ++ take st.rem (drop st.skip q)

  Reads-then :
      (p q : List ℕ) (st mid : Recovery W) (w : List ℕ)
      → Reads p st mid
      → w ≡ contents mid.dst ++ take mid.rem (drop mid.skip q)
      → w ≡ contents st.dst ++ take st.rem (drop st.skip (p ++ q))
  Reads-then p q st mid w r e =
      e
      ∙ rw (r.wrote, r.skipped, r.left)
          (append_assoc (contents st.dst) (take st.rem (drop st.skip p))
            (take (st.rem - (length p - st.skip)) (drop (st.skip - length p) q)))
      ∙ ap (λ (x : List ℕ). contents st.dst ++ x) (sym (window-append st.rem st.skip p q))

  Reads-append :
      (p q : List ℕ) (st mid st' : Recovery W)
      → Reads p st mid
      → Reads q mid st'
      → Reads (p ++ q) st st'
  Reads-append p q st mid st' r r' = record {
    skipped = omega (arith, r.skipped, r'.skipped, length-append p q);
    left = omega (arith, r.skipped, r.left, r'.left, length-append p q);
    wrote = Reads-then p q st mid (contents st'.dst) r r'.wrote;
  }

  Reads-nil : (st : Recovery W) → Reads [] st st
  Reads-nil st = record {
    skipped = omega arith;
    left = omega arith;
    wrote = sym (
        ap (λ (q : List ℕ). contents st.dst ++ q) (window_past st.rem st.skip [] (omega arith))
        ∙ append-nil (contents st.dst));
  }

  written-Reads :
      (st : Recovery W) (q s : List ℕ)
      → q ≡ take st.rem (drop st.skip s)
      → st.skip < length s
      → (st' : Recovery W) × (written writer st q (writer.write st.dst q) ≡ returned st')
        × Reads s st st'
  unfolding written
  written-Reads st q s e lt =
      let out = writer.write st.dst q in
      let st' : Recovery W = record { skip = 0; rem = st.rem - length q; dst = out.0 } in
      let ran : written writer st q out ≡ returned st' =
        ap (λ (b : Bool). written writer st q (out.0, b)) (buffer.takes st.dst q) in
      (
        st',
        ran,
        record {
          skipped = omega arith;
          left = omega (
            arith,
            ap (length {A = ℕ}) e,
            length-take st.rem (drop st.skip s),
            length-drop st.skip s,
          );
          wrote = buffer.appends st.dst q ∙ ap (λ (x : List ℕ). contents st.dst ++ x) e;
        },
      )

  recover_segment-Reads :
      (st : Recovery W) (s : List ℕ)
      → (st' : Recovery W) × (recover_segment writer st s ≡ returned st') × Reads s st st'
  unfolding recover_segment
  recover_segment-Reads st s = elim (Bool-cases (leb (length s) st.skip)) [
    | inl e ↦
        let le = le_of_leb (length s) st.skip e in
        (
          record st { skip = st.skip - length s },
          rw e refl,
          record {
            skipped = refl;
            left = omega arith;
            wrote = sym (
                ap (λ (q : List ℕ). contents st.dst ++ q) (window_past st.rem st.skip s le)
                ∙ append-nil (contents st.dst));
          },
        )
    | inr e ↦
        let lt = lt_of_leb (length s) st.skip e in
        rw e (written-Reads st _ s (chosen st.skip st.rem s) lt)
  ]

  recover_round-Reads :
      (off n : ℕ) (shards : List Shard) (st : Recovery W)
      → HaveLength n shards
      → off + segment_size ≤ n
      → (st' : Recovery W) × (recover_round writer off shards st ≡ returned st')
        × Reads (row off shards) st st'
  unfolding recover_round recover_shard
  recover_round-Reads off n [] st same le = (st, refl, Reads-nil st)
  recover_round-Reads off n (s ∷ shards) st same le =
      let (mid, ran, r) = recover_segment-Reads st (seg off s) in
      let (st', more, r') = recover_round-Reads off n shards mid same.1 le in
      (
        st',
        rw (segment_at-seg off s (omega (arith, same.0)), ran) more,
        Reads-append (seg off s) (row off shards) st mid st' r r',
      )

  recover_loop-end :
      (fuel off : ℕ) (shards : List Shard) (st : Recovery W) (q : List ℕ)
      → ltb 0 st.rem ≡ false
      → (st' : Recovery W) × (recover_loop writer (suc fuel) off shards st ≡ returned st')
        × (contents st'.dst ≡ contents st.dst ++ take st.rem (drop st.skip q))
  unfolding recover_loop
  recover_loop-end fuel off shards st q e =
      let none_left : st.rem ≡ 0 = omega (arith, le_of_ltb 0 st.rem e) in
      (
        st,
        rw e refl,
        sym (
            ap (λ (x : List ℕ). contents st.dst ++ x) (take_none st.rem (drop st.skip q) none_left)
            ∙ append-nil (contents st.dst)),
      )

  -- Recover ends after at most as many rounds as there are rows, and one more.
  pub recover_loop-window :
      (j fuel off n : ℕ) (shards : List Shard) (st : Recovery W)
      → j < fuel
      → HaveLength n shards
      → off + j * segment_size ≤ n
      → (0 < st.rem → st.skip + st.rem ≤ j * (length shards * segment_size))
      → (st' : Recovery W) × (recover_loop writer fuel off shards st ≡ returned st')
        × (contents st'.dst ≡ contents st.dst ++ take st.rem (drop st.skip (rows off j shards)))
  unfolding recover_loop
  recover_loop-window j zero off n shards st lt same le fits = absurd (omega arith)
  recover_loop-window zero (suc fuel) off n shards st lt same le fits =
      let none_left : ltb 0 st.rem ≡ false = elim (Bool-cases (ltb 0 st.rem)) [
        | inl e ↦ absurd (omega (arith, fits (lt_of_ltb 0 st.rem e), lt_of_ltb 0 st.rem e))
        | inr e ↦ e
      ] in
      recover_loop-end fuel off shards st [] none_left
  recover_loop-window (suc j) (suc fuel) off n shards st lt same le fits =
      elim (Bool-cases (ltb 0 st.rem)) [
        | inl e ↦
            let pos = lt_of_ltb 0 st.rem e in
            let (mid, ran, r) = recover_round-Reads off n shards st same (omega arith) in
            let size = length-row off n shards same (omega arith) in
            let (st', more, wrote) =
              recover_loop-window j fuel (off + segment_size) n shards mid (omega arith) same
                (omega arith) (λ h. omega (arith, fits pos, r.skipped, r.left, size, h)) in
            (
              st',
              rw (e, ran) more,
              Reads-then (row off shards) (rows (off + segment_size) j shards) st mid
                  (contents st'.dst) r wrote,
            )
        | inr e ↦ recover_loop-end fuel off shards st (rows off (suc j) shards) e
      ]
