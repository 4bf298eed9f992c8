-- ===== src/S3/Cache.antt =====
-- nbd/s3/cache.go: the read cache over a chunk map, a local file and an immutable remote object.
pub mod Coherence
pub mod Reads
pub mod WarmUp
pub mod Filled
use pond.Prelude.{
  ℕ, zero, suc, ◌+◌, ◌-◌, ◌*◌, ◌^◌, ◌<◌, ◌==◌, Bool, true, false, not, ◌&&◌, Option, none, some,
  List, [], ◌∷◌, ltb, leb, min, if◌then◌else◌,
}
use pond.S3.Chunk.{ChunkMap, chunk_size, offset, check, done, lost}

-- The bytes of the local file and of the remote object, by their offsets.
pub record Cache : Type 0 where
  pub chunk : ChunkMap
  pub local : ℕ → ℕ
  pub remote : ℕ → ℕ

-- What the network answers to one `fetch`: whether the queues let it in, whether the remote reader
-- opens, how many bytes it gives, and whether the copy ends with an error.
pub record Answer : Type 0 where
  pub acquired : Bool
  pub opened : Bool
  pub sent : ℕ
  pub failed : Bool
  pub now : ℕ

pub data Fetched : Type 0 where
  cached not_acquired not_opened copy_failed short_write : Fetched

-- `io.CopyBuffer(io.NewOffsetWriter(c.local, at), remote, ...)` of `n` bytes.
abbrev pub write_at : Cache → ℕ → ℕ → Cache
write_at c at n = record c {
  local = λ j. if leb at j && ltb j (at + n) then c.remote j else c.local j;
}

-- `fetch` from the request to the remote storage on.
unfoldable pub copy : Cache → ℕ → Answer → Fetched × Cache
copy c part a =
    let (at, size) = offset c.chunk part in
    let written = write_at c at a.sent in
    if not a.opened
    then (not_opened, c)
    else if a.failed
    then (copy_failed, written)
    else if not (a.sent == size)
    then (short_write, written)
    else (cached, record written { chunk = done c.chunk part a.now })

-- `fetch` with no other goroutine in between.
unfoldable pub fetch : Cache → ℕ → Answer → Fetched × Cache
fetch c part a =
    let (map, wait, present) = check c.chunk part in
    let waiting = record c { chunk = map } in
    if (offset c.chunk part).1 == 0
    then (cached, c)
    else if present
    then (cached, waiting)
    else if not a.acquired
    then (not_acquired, waiting)
    else copy waiting part a

-- The bytes at `from`, `from` + 1, ... of a file.
abbrev pub bytes_at : (ℕ → ℕ) → ℕ → ℕ → List ℕ
bytes_at file from zero = []
bytes_at file from (suc n) = file from ∷ bytes_at file (from + 1) n

-- The chunks that `ReadAt` schedules: from `part` on, while `remain` bytes are left. The fuel
-- `remain` is enough.
unfoldable pub schedule : ℕ → ℕ → ℕ → List ℕ
schedule zero part remain = []
schedule (suc fuel) part remain =
    let rest = schedule fuel (part + 1) (remain - chunk_size) in
    if ltb 0 remain then part ∷ rest else []

-- What `ReadAt` returns for a buffer of `len` bytes when the first chunk is ready: the local file
-- is as long as the object, and a read beyond its end is cut.
unfoldable pub read_at : Cache → ℕ → ℕ → List ℕ
read_at c len at = bytes_at c.local at (min (min len chunk_size) (c.chunk.size - at))

-- Goroutines that use one cache. `fetch` is a check and, later, a copy.
pub data Step (c : Cache) : Cache → Type 0 where
  step_check : (part : ℕ) → Step c (record c { chunk = (check c.chunk part).0 })
  step_copy : (part : ℕ) (a : Answer) → part < 2 ^ 40 → Step c (copy c part a).1
  step_lost : (part now : ℕ) → Step c (record c { chunk = lost c.chunk part now })

pub data Reach (c : Cache) : Cache → Type 0 where
  here : Reach c c
  next : {t u : Cache} → Reach c t → Step t u → Reach c u

abbrev pub retry_limit : ℕ
retry_limit = 5

-- Which chunk is next, and how often it has failed.
unfoldable pub next_part : Fetched → ℕ → ℕ → ℕ × ℕ
next_part cached part retry = (part + 1, 0)
next_part _ part retry = if ltb retry retry_limit then (part, retry + 1) else (part + 1, 0)

-- The background loop `bgFetchAll`, its waits for an idle cache left out. `answers` are those to its
-- calls of `fetch`, by the call's number and the chunk; `none`
-- means that the fuel ran out.
unfoldable pub fetch_all : ℕ → (ℕ → ℕ → Answer) → ℕ → Cache → ℕ → ℕ → Option Cache
fetch_all zero answers call c part retry = none
fetch_all (suc fuel) answers call c part retry =
    let (result, c') = fetch c part (answers call part) in
    let (part', retry') = next_part result part retry in
    let rest = fetch_all fuel answers (call + 1) c' part' retry' in
    if ltb (part * chunk_size) c.chunk.size then rest else some c
