-- ===== src/S3/Recovery.antt =====
-- What `openChunkMap` makes of a file that `Save` wrote, and what a failed `Save` leaves behind.
use pond.Prelude.{
  ℕ, ◌+◌, ◌*◌, ◌/◌, ◌^◌, ◌≤◌, ◌<◌, ◌≡◌, ◌≢◌, Bool, true, some, List, ok, length, arith,
}
use pond.Prelude.Bytes.{be64, of_be-be64}
use pond.Prelude.BigInt.{bit_len, to_bytes, of_bytes-to_bytes, length-to_bytes}
use pond.S3.Chunk.{ChunkMap, chunk_size}
use pond.S3.Persist.{SaveStep, save, export, open_chunk_map, empty_map, header_len}

length-export : (m : ChunkMap) → length (export m) ≡ header_len + length (to_bytes m.bitmap)
unfolding export be64
length-export m = omega arith

-- The bits of the map are those of the object's chunks, and its file is not too large.
pub record InRange (m : ChunkMap) : Type 0 where
  pub size : m.size < 2 ^ 64
  pub bits : bit_len m.bitmap ≤ m.size / chunk_size + 1
  pub few : bit_len m.bitmap ≤ 10 * 2 ^ 20

-- Opening the file that `Save` wrote, for an object of the same size, restores the bitmap, if
-- its bits are those of chunks of the object and at most 10 * 2 ^ 20.
pub open-export :
    (m : ChunkMap) (now : ℕ)
    → InRange m
    → open_chunk_map (export m) m.size now
      ≡ ok (record (empty_map m.size) { bitmap = m.bitmap; saved = now })
unfolding open_chunk_map export be64
open-export m now h = ground (
  arith,
  h.size,
  h.bits,
  h.few,
  length-to_bytes m.bitmap,
  of_bytes-to_bytes m.bitmap,
  of_be-be64 m.size,
)

-- With the file of an object of another size, below 2 ^ 64 bytes, the map is opened as empty.
pub open-export_ne :
    (m : ChunkMap) (size now : ℕ)
    → m.size < 2 ^ 64
    → size ≢ m.size
    → open_chunk_map (export m) size now ≡ ok (empty_map size)
unfolding open_chunk_map export be64
open-export_ne m size now h ne = ground (arith, of_be-be64 m.size)

-- A `Save` that reports an error names a step that failed, and leaves the map and its file alone.
pub save_failed :
    (fails : SaveStep → Bool) (now : ℕ) (m : ChunkMap) (file : List ℕ) (step : SaveStep)
    → (save fails now m file).0 ≡ some step
    → (fails step ≡ true) × ((save fails now m file).1 ≡ m) × ((save fails now m file).2 ≡ file)
unfolding save
save_failed fails now m file step h = ground arith
