-- ===== src/S3/Remote.antt =====
-- nbd/s3/remote.go: the range of bytes that `minioRemote.Reader` asks the storage for.
use pond.Prelude.{
  ℕ, ◌+◌, ◌-◌, ◌^◌, ◌≤◌, ◌<◌, ◌≡◌, not, ◌||◌, Option, none, some, if◌then◌else◌, arith,
}
use pond.Prelude.Words.{wrap64, slt, sub64}
use pond.S3.Chunk.{ChunkMap, offset}
use pond.S3.Offsets.{offset_lem}

-- The first and the last byte of the range; `none` is the reader of nothing.
unfoldable pub reader_range : ℕ → ℕ → ℕ → Option (ℕ × ℕ)
unfolding slt
reader_range size at len =
    let end = sub64 (wrap64 (at + len)) 1 in
    if slt size at || (not (slt 0 len) || slt at 0)
    then none
    else if slt size end
    then some (at, size)
    else some (at, end)

-- For a chunk that is not empty and whose offset does not wrap, of an object below 2 ^ 62 bytes,
-- the storage is asked for exactly the bytes of the chunk, all of which are in the object.
pub reader_range-offset :
    (m : ChunkMap) (c : ℕ)
    → m.size < 2 ^ 62
    → c < 2 ^ 40
    → 0 < (offset m c).1
    → (reader_range m.size (offset m c).0 (offset m c).1
        ≡ some ((offset m c).0, (offset m c).0 + (offset m c).1 - 1))
      × ((offset m c).0 + (offset m c).1 ≤ m.size)
unfolding reader_range
reader_range-offset m c h k pos =
    (ground (arith, offset_lem m c h k), ground (arith, offset_lem m c h k))
