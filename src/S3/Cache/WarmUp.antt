-- ===== src/S3/Cache/WarmUp.antt =====
-- The background loop `bgFetchAll` ends, and with a network that works every chunk is done.
use pond.Prelude.{
  ℕ, zero, suc, ◌+◌, ◌-◌, ◌*◌, ◌/◌, ◌^◌, ◌≤◌, ◌<◌, ◌≡◌, refl, ap, ◌∙◌, ◌==◌, ltb, true, false,
  Bool-cases, inl, inr, some, arith, if◌then◌else◌,
}
use pond.Prelude.BigInt.{test_bit}
use pond.S3.Chunk.{ChunkMap, chunk_size, offset, check}
use pond.S3.Offsets.{offset_lem}
use pond.S3.Cache.{Cache, Answer, Fetched, cached, copy, fetch, next_part, fetch_all, retry_limit}
use pond.S3.Cache.Coherence.{check_keeps, done_bitmap}

size-copy : (c : Cache) (part : ℕ) (a : Answer) → (copy c part a).1.chunk.size ≡ c.chunk.size
unfolding copy
size-copy c part a = ground (arith, done_bitmap c.chunk part a.now 0)

pub size-fetch : (c : Cache) (part : ℕ) (a : Answer) → (fetch c part a).1.chunk.size ≡ c.chunk.size
unfolding fetch
size-fetch c part a = ground (
  arith,
  check_keeps c.chunk part,
  size-copy (record c { chunk = (check c.chunk part).0 }) part a,
)

-- The number of chunks of an object.
abbrev pub chunk_count : ℕ → ℕ
chunk_count size = (size + (chunk_size - 1)) / chunk_size

-- A chunk before the last is left with less to do, whatever became of the call.
next_part_falls :
    (r : Fetched) (count part retry fuel : ℕ)
    → retry ≤ retry_limit
    → part < count
    → 6 * (count - part) + 6 ≤ suc fuel + retry
    → ((next_part r part retry).1 ≤ retry_limit)
      × (6 * (count - (next_part r part retry).0) + 6 ≤ fuel + (next_part r part retry).1)
unfolding next_part
next_part_falls cached count part retry fuel r h k = omega arith
next_part_falls _ count part retry fuel r h k = ground arith

-- From any chunk and any number of failures up to five, with fuel for six calls of `fetch` for
-- each chunk that is left, and six more, the loop ends, whatever the network answers.
pub fetch_all_total :
    (fuel : ℕ) (answers : ℕ → ℕ → Answer) (call : ℕ) (c : Cache) (part retry : ℕ)
    → retry ≤ retry_limit
    → 6 * (chunk_count c.chunk.size - part) + 6 ≤ fuel + retry
    → (c' : Cache) × (fetch_all fuel answers call c part retry ≡ some c')
unfolding fetch_all
fetch_all_total zero answers call c part retry r h = absurd (omega arith)
fetch_all_total (suc fuel) answers call c part retry r h =
    let got = fetch c part (answers call part) in
    let step = next_part got.0 part retry in
    elim (Bool-cases (ltb (part * chunk_size) c.chunk.size)) [
      | inr e ↦ (c, rw e refl)
      | inl e ↦
          let left : part < chunk_count c.chunk.size = ground arith in
          let falls = next_part_falls got.0 (chunk_count c.chunk.size) part retry fuel r left h in
          rw e (
            fetch_all_total fuel answers (call + 1) got.1 step.0 step.1 falls.0
              (rw (size-fetch c part (answers call part)) falls.1))
    ]

-- What `fetch` does with a network that sends the whole chunk: the chunk is done, and the others
-- are as before.
abbrev pub Sends : Cache → ℕ → Answer → Type 0
Sends c part a =
    (a.acquired ≡ true)
    × (a.opened ≡ true)
    × (a.failed ≡ false)
    × (a.sent ≡ (offset c.chunk part).1)

check_present :
    (m : ChunkMap) (part : ℕ) → 0 < (offset m part).1 → (check m part).2 ≡ test_bit m.bitmap part
unfolding check
check_present m part h = ground arith

pub offset-size : (m n : ChunkMap) (part : ℕ) → m.size ≡ n.size → offset m part ≡ offset n part
unfolding offset
offset-size m n part e = rw e

-- After this the chunk is done, and the others are as before.
abbrev Marks : Cache → ℕ → Fetched × Cache → ℕ → Type 0
Marks c part r j =
    (r.0 ≡ cached)
    × (test_bit r.1.chunk.bitmap j ≡ (if part == j then true else test_bit c.chunk.bitmap j))

copy-Marks :
    (c : Cache) (part : ℕ) (a : Answer) (j : ℕ) → Sends c part a → Marks c part (copy c part a) j
unfolding copy
copy-Marks c part a j s = ground (arith, done_bitmap c.chunk part a.now j)

fetch-Marks :
    (c : Cache) (part : ℕ) (a : Answer) (j : ℕ)
    → Sends c part a
    → 0 < (offset c.chunk part).1
    → Marks c part (fetch c part a) j
unfolding fetch
fetch-Marks c part a j s pos =
    let waiting : Cache = record c { chunk = (check c.chunk part).0 } in
    let same : offset waiting.chunk part ≡ offset c.chunk part =
      offset-size waiting.chunk c.chunk part (check_keeps c.chunk part).0 in
    elim (Bool-cases (test_bit c.chunk.bitmap part)) [
      | inl e ↦ elim (Bool-cases (part == j)) [
        | inl p ↦
            let q : part ≡ j = ground arith in
            ground (
              arith,
              check_present c.chunk part,
              check_keeps c.chunk part,
              ap (test_bit c.chunk.bitmap) q,
            )
        | inr p ↦ ground (arith, check_present c.chunk part, check_keeps c.chunk part)
      ]
      | inr e ↦ ground (
        arith,
        check_present c.chunk part,
        check_keeps c.chunk part,
        copy-Marks waiting part a j (rw same s),
      )
    ]

-- The chunks before `part` are done.
abbrev pub Before : ℕ → Cache → Type 0
Before part c = (j : ℕ) → j < part → test_bit c.chunk.bitmap j ≡ true

size_pos :
    (c : Cache) (part : ℕ)
    → c.chunk.size < 2 ^ 62
    → part * chunk_size < c.chunk.size
    → 0 < (offset c.chunk part).1
size_pos c part small h = ground (arith, offset_lem c.chunk part small)

-- Whatever chunk `fetch` is called for, the whole of it is sent.
abbrev pub SendsAll : ℕ → (ℕ → ℕ → Answer) → Type 0
SendsAll size answers =
    (call part : ℕ) (u : Cache) → u.chunk.size ≡ size → Sends u part (answers call part)

Before-fetch :
    (c : Cache) (part : ℕ) (a : Answer)
    → c.chunk.size < 2 ^ 62
    → part * chunk_size < c.chunk.size
    → Sends c part a
    → Before part c
    → Before (part + 1) (fetch c part a).1
Before-fetch c part a small more s before j lo =
    ground (arith, fetch-Marks c part a j s (size_pos c part small more), before j)

module _ (size : ℕ) (answers : ℕ → ℕ → Answer) (small : size < 2 ^ 62)
    (sends : SendsAll size answers) where
  pub fetch_all_fills :
      (fuel call : ℕ) (c c' : Cache) (part byte : ℕ)
      → c.chunk.size ≡ size
      → Before part c
      → fetch_all fuel answers call c part 0 ≡ some c'
      → byte < size
      → test_bit c'.chunk.bitmap (byte / chunk_size) ≡ true
  unfolding fetch_all next_part
  fetch_all_fills zero call c c' part byte e before h lo = cc
  fetch_all_fills (suc fuel) call c c' part byte e before h lo =
      let a = answers call part in
      elim (Bool-cases (ltb (part * chunk_size) c.chunk.size)) [
        | inr p ↦
            let q : c' ≡ c = ground (arith, h, p) in
            rw q (before (byte / chunk_size) (ground arith))
        | inl p ↦
            let more : part * chunk_size < c.chunk.size = ground arith in
            let small' : c.chunk.size < 2 ^ 62 = omega arith in
            let s : Sends c part a = sends call part c e in
            let marks = fetch-Marks c part a 0 s (size_pos c part small' more) in
            fetch_all_fills fuel (call + 1) (fetch c part a).1 c' (part + 1) byte
              (size-fetch c part a ∙ e) (Before-fetch c part a small' more s before)
              (ground (arith, h, p, marks.0)) lo
      ]
