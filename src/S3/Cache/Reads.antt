-- ===== src/S3/Cache/Reads.antt =====
-- What `ReadAt` returns, inside one chunk and across the border of two.
use pond.Prelude.{
  ℕ, zero, suc, ◌+◌, ◌-◌, ◌/◌, ◌%◌, ◌^◌, ◌≤◌, ◌<◌, ◌≡◌, refl, true, false, [], ◌∷◌, length, min,
  arith,
}
use pond.Prelude.BigInt.{test_bit, set_bit}
use pond.S3.Chunk.{chunk_size, done, offset}
use pond.S3.Persist.{empty_map}
use pond.S3.Offsets.{offset_lem}
use pond.S3.Cache.{Cache, Answer, copy, read_at, schedule, bytes_at}
use pond.S3.Cache.Coherence.{IsCoherent}

pub bytes_at-eq :
    (f g : ℕ → ℕ) (from n : ℕ)
    → ((j : ℕ) → from ≤ j → j < from + n → f j ≡ g j)
    → bytes_at f from n ≡ bytes_at g from n
bytes_at-eq f g from zero h = refl
bytes_at-eq f g from (suc n) h = rw (
  h from (omega arith) (omega arith),
  bytes_at-eq f g (from + 1) n (λ j lo hi. h j (omega arith) (omega arith)),
)

-- From a coherent cache a read that does not cross the border of a chunk, of a chunk that is
-- done, returns the object's bytes, cut at the object's end.
pub read_at-remote :
    (c : Cache) (len at : ℕ)
    → IsCoherent c
    → test_bit c.chunk.bitmap (at / chunk_size) ≡ true
    → at % chunk_size + min len chunk_size ≤ chunk_size
    → read_at c len at ≡ bytes_at c.remote at (min (min len chunk_size) (c.chunk.size - at))
unfolding read_at
read_at-remote c len at h ready inside = bytes_at-eq c.local c.remote at _ (λ j lo hi.
    let e : j / chunk_size ≡ at / chunk_size = omega arith in h.at j (omega arith) (rw e ready))

length-schedule_fuel :
    (fuel part remain : ℕ)
    → remain ≤ fuel
    → length (schedule fuel part remain) ≡ (remain + (chunk_size - 1)) / chunk_size
unfolding schedule
length-schedule_fuel zero part remain h = omega arith
length-schedule_fuel (suc fuel) part remain h =
    ground (arith, length-schedule_fuel fuel (part + 1) (remain - chunk_size))

-- `ReadAt` schedules as many chunks as the buffer alone would need at a chunk's beginning.
length-schedule :
    (part len : ℕ) → length (schedule len part len) ≡ (len + (chunk_size - 1)) / chunk_size
length-schedule part len = length-schedule_fuel len part len (omega arith)

-- A cache of nothing, over a local file that was allocated and not written.
abbrev pub cold : ℕ → (ℕ → ℕ) → Cache
cold size remote = record { chunk = empty_map size; local = λ j. 0; remote = remote }

-- The remote storage sends the whole chunk.
abbrev pub whole : ℕ → Answer
whole n = record { acquired = true; opened = true; sent = n; failed = false; now = 1 }

first_chunk :
    (size : ℕ) → chunk_size < size → size < 2 ^ 62 → offset (empty_map size) 0 ≡ (0, chunk_size)
first_chunk size h k = ground (arith, offset_lem (empty_map size) 0 k)

two_left : (size : ℕ) → chunk_size < size → min (min 2 chunk_size) (size - (chunk_size - 1)) ≡ 2
two_left size h = omega arith

-- A read of two bytes across the border of two chunks waits for the first chunk alone: with this
-- chunk done and the next one not, it returns a zero for the second byte, whatever the object
-- holds there. No fetch of the next chunk is scheduled.
pub read_at_crosses :
    (remote : ℕ → ℕ) (size : ℕ)
    → chunk_size < size
    → size < 2 ^ 62
    → (let c = (copy (cold size remote) 0 (whole chunk_size)).1 in
        (test_bit c.chunk.bitmap 0 ≡ true)
        × (schedule 2 0 2 ≡ 0 ∷ [])
        × (read_at c 2 (chunk_size - 1) ≡ remote (chunk_size - 1) ∷ 0 ∷ []))
unfolding copy read_at schedule done test_bit set_bit
read_at_crosses remote size h k = rw (first_chunk size h k) (refl, refl, rw (two_left size h) refl)
