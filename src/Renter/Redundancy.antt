-- ===== src/Renter/Redundancy.antt =====
-- simpleRedundancy of renter/reedsolomon.go, the coder without parity shards, and checkShards. A
-- shard is a slice of its own memory. Negative lengths and offsets count as 0.
pub mod Overlay
pub mod Encode
pub mod Recover
pub mod Terminates
pub mod RoundTrip
use us.Prelude.{
  ℕ, zero, suc, ◌+◌, ◌-◌, ◌*◌, ◌/◌, ◌%◌, Bool, true, false, ◌&&◌, List, [], ◌∷◌, ◌++◌, Option, none,
  some, ltb, leb, ◌==◌, if◌then◌else◌, length, take, drop, ◌>>=◌,
}
use us.Renter.Sections.{segment_size}

-- A slice: its bytes, and those of the memory between its length and its capacity.
pub record Shard : Type 0 where
  pub visible : List ℕ
  pub spare : List ℕ

unfoldable pub capacity : Shard → ℕ
capacity s = length s.visible + length s.spare

-- `copy(dst, src)`: the bytes of `dst` afterwards.
unfoldable pub overlay : List ℕ → List ℕ → List ℕ
overlay [] dst = dst
overlay (x ∷ src) [] = []
overlay (x ∷ src) (y ∷ dst) = x ∷ overlay src dst

-- The loops of the function checkShards. `none` is a panic.
unfoldable pub common_size : ℕ → List Shard → Option ℕ
common_size size [] = some size
common_size size (s ∷ shards) =
    let n = length s.visible in
    let kept = common_size size shards in
    let found = common_size n shards in
    if n == 0 then kept else if size == 0 then found else if n == size then kept else none

unfoldable pub have_capacity : ℕ → List Shard → Bool
unfolding capacity
have_capacity size [] = true
have_capacity size (s ∷ shards) = leb size (capacity s) && have_capacity size shards

unfoldable pub check_shards : List Shard → ℕ → Option ℕ
unfolding common_size have_capacity
check_shards shards n =
    if length shards == n
    then (common_size 0 shards >>= λ size.
        if have_capacity size shards && (size % segment_size == 0) then some size else none)
    else none

-- `shards[i][:size]`
unfoldable pub reslice : ℕ → Shard → Option Shard
unfolding capacity
reslice size s =
    if ltb (capacity s) size
    then none
    else some (record {
      visible = take size (s.visible ++ s.spare);
      spare = drop size (s.visible ++ s.spare);
    })

unfoldable pub extend_shards : ℕ → List Shard → Option (List Shard)
unfolding reslice
extend_shards size [] = some []
extend_shards size (s ∷ shards) = do
  s' ← reslice size s
  rest ← extend_shards size shards
  some (s' ∷ rest)

-- `copy(shards[i][off:], p)`
unfoldable pub copy_at : ℕ → List ℕ → Shard → Option Shard
unfolding overlay
copy_at off p s =
    if leb off (length s.visible)
    then some (record s { visible = take off s.visible ++ overlay p (drop off s.visible) })
    else none

-- One round of Encode over the shards: the shards, and what is left of the buffer.
unfoldable pub encode_round : ℕ → List Shard → List ℕ → Option (List Shard × List ℕ)
unfolding copy_at
encode_round off [] buf = some ([], buf)
encode_round off (s ∷ shards) buf = do
  s' ← copy_at off (take segment_size buf) s
  rest ← encode_round off shards (drop segment_size buf)
  some (s' ∷ rest.0, rest.1)

-- `none` is a panic, or the end of the fuel.
unfoldable pub encode_loop : ℕ → ℕ → List Shard → List ℕ → Option (List Shard)
unfolding encode_round
encode_loop zero off shards buf = none
encode_loop (suc fuel) off shards buf =
    let rest = encode_round off shards buf >>= λ p. encode_loop fuel (off + segment_size) p.0 p.1 in
    if length buf == 0 then some shards else rest

unfoldable pub num_chunks : ℕ → ℕ → ℕ
num_chunks r n =
    let chunk_size = r * segment_size in
    if n % chunk_size == 0 then n / chunk_size else n / chunk_size + 1

-- simpleRedundancy.Encode. A division by zero panics.
unfoldable pub encode : ℕ → List ℕ → List Shard → Option (List Shard)
unfolding check_shards num_chunks extend_shards encode_loop
encode r content shards = check_shards shards r >>= λ _.
    if r == 0
    then none
    else let chunks = num_chunks r (length content) in
      extend_shards (chunks * segment_size) shards >>= λ extended.
      encode_loop (suc chunks) 0 extended content

pub data RecoverError : Type 0 where
  too_few_shards : RecoverError
  write_failed : RecoverError

pub data Outcome {ℓ} (A : Type ℓ) : Type ℓ where
  returned : A → Outcome A
  failed : RecoverError → Outcome A
  panicked : Outcome A
  unfinished : Outcome A

abbrev pub and_then {ℓ κ} : {A : Type ℓ} {B : Type κ} → Outcome A → (A → Outcome B) → Outcome B
and_then (returned a) f = f a
and_then (failed e) f = failed e
and_then panicked f = panicked
and_then unfinished f = unfinished

-- simpleRedundancy.checkShards, from the length of the shard before.
unfoldable pub check_each : Option ℕ → List Shard → Outcome (Unit {0})
check_each before [] = returned tt
check_each before (s ∷ shards) =
    let n = length s.visible in
    let rest = check_each (some n) shards in
    let next : Outcome (Unit {0}) = if n % segment_size == 0 then rest else panicked in
    if n == 0
    then failed too_few_shards
    else elim before [ none ↦ next | some m ↦ if n == m then next else panicked ]

unfoldable pub check_shards_of : ℕ → List Shard → Outcome (Unit {0})
unfolding check_each
check_shards_of r shards = if length shards == r then check_each none shards else panicked

unfoldable pub reconstruct : ℕ → List Shard → Outcome (Unit {0})
unfolding check_shards_of
reconstruct r shards = check_shards_of r shards

-- `shard[off:][:64]`, which may reach beyond the length of the shard.
unfoldable pub segment_at : ℕ → Shard → Option (List ℕ)
unfolding capacity
segment_at off s =
    if leb off (length s.visible) && leb (off + segment_size) (capacity s)
    then some (take segment_size (drop off (s.visible ++ s.spare)))
    else none

-- An io.Writer: what it becomes, and whether it returns an error. Without one it takes all bytes.
pub record Writer {ℓ} (W : Type ℓ) : Type ℓ where
  pub write : W → List ℕ → W × Bool

-- The variables of Recover.
pub record Recovery {ℓ} (W : Type ℓ) : Type ℓ where
  pub skip : ℕ
  pub rem : ℕ
  pub dst : W

module _ {ℓ} {W : Type ℓ} (writer : Writer W) where
  unfoldable pub written : Recovery W → List ℕ → W × Bool → Outcome (Recovery W)
  written st s (dst, true) = failed write_failed
  written st s (dst, false) = returned (record { skip = 0; rem = st.rem - length s; dst = dst })

  -- The body of the inner loop, for a segment.
  unfoldable pub recover_segment : Recovery W → List ℕ → Outcome (Recovery W)
  unfolding written
  recover_segment st s =
      if leb (length s) st.skip
      then returned (record st { skip = st.skip - length s })
      else let s1 = if ltb 0 st.skip then drop st.skip s else s in
        let s2 = if ltb st.rem (length s1) then take st.rem s1 else s1 in
        written st s2 (writer.write st.dst s2)

  unfoldable pub recover_shard : Recovery W → Option (List ℕ) → Outcome (Recovery W)
  unfolding recover_segment
  recover_shard st none = panicked
  recover_shard st (some s) = recover_segment st s

  unfoldable pub recover_round : ℕ → List Shard → Recovery W → Outcome (Recovery W)
  unfolding recover_shard segment_at
  recover_round off [] st = returned st
  recover_round off (s ∷ shards) st =
      and_then (recover_shard st (segment_at off s)) λ st'. recover_round off shards st'

  unfoldable pub recover_loop : ℕ → ℕ → List Shard → Recovery W → Outcome (Recovery W)
  unfolding recover_round
  recover_loop zero off shards st = unfinished
  recover_loop (suc fuel) off shards st =
      let rest =
        and_then (recover_round off shards st)
          λ st'. recover_loop fuel (off + segment_size) shards st' in
      if ltb 0 st.rem then rest else returned st

  -- simpleRedundancy.Recover, with fuel for the outer loop.
  unfoldable pub recover : ℕ → ℕ → W → List Shard → ℕ → ℕ → Outcome (Recovery W)
  unfolding check_shards_of recover_loop
  recover fuel r dst shards skip n =
      and_then (check_shards_of r shards)
        λ _. recover_loop fuel 0 shards (record { skip = skip; rem = n; dst = dst })
