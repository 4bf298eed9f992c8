-- ===== src/S3/Persist.antt =====
-- nbd/s3/chunk.go: the chunk map's file, written by `Save` and read by `openChunkMap`.
use pond.Prelude.{
  ℕ, ◌+◌, ◌-◌, ◌*◌, ◌/◌, ◌^◌, ◌==◌, Bool, false, not, ◌||◌, Option, none, List, [], ◌∷◌, ◌++◌, ltb,
  Outcome, ok, err, if◌then◌else◌, length, take, drop, bytes_equal,
}
use pond.Prelude.Bytes.{be64, of_be}
use pond.Prelude.BigInt.{to_bytes, of_bytes}
use pond.S3.Chunk.{ChunkMap, chunk_size}

-- "ChunkMapV02"
abbrev pub chunk_version : List ℕ
chunk_version = b'C' ∷ b'h' ∷ b'u' ∷ b'n' ∷ b'k' ∷ b'M' ∷ b'a' ∷ b'p' ∷ b'V' ∷ b'0' ∷ b'2' ∷ []

abbrev pub prefix_len : ℕ
prefix_len = 9

-- The length of `chunkMapExportHeader`.
abbrev pub header_len : ℕ
header_len = 32

abbrev pub safe_chunk_byte_ceiling : ℕ
safe_chunk_byte_ceiling = 10 * 2 ^ 20 / 8

-- A byte string in a [16]byte array.
abbrev pub version_field : List ℕ
version_field = chunk_version ++ (0 ∷ 0 ∷ 0 ∷ 0 ∷ 0 ∷ [])

unfoldable pub export : ChunkMap → List ℕ
export m = version_field ++ (be64 chunk_size ++ (be64 m.size ++ to_bytes m.bitmap))

-- The calls of the file system that `Save` makes, in order.
pub data SaveStep : Type 0 where
  create_temp write_header write_bitmap sync close rename : SaveStep

-- The steps before the rename work on a temporary file. `fails` tells which of them fail; the
-- result is the error, if any, with the map and the content of its file.
unfoldable pub save :
    (SaveStep → Bool) → ℕ → ChunkMap → List ℕ → Option SaveStep × ChunkMap × List ℕ
unfolding export
save fails now m file =
    if fails create_temp
    then (Option.some create_temp, m, file)
    else if fails write_header
    then (Option.some write_header, m, file)
    else if fails write_bitmap
    then (Option.some write_bitmap, m, file)
    else if fails sync
    then (Option.some sync, m, file)
    else if fails close
    then (Option.some close, m, file)
    else if fails rename
    then (Option.some rename, m, file)
    else (none, record m { saved = now }, export m)

pub data OpenError : Type 0 where
  bad_header invalid_version too_large : OpenError

-- A map for an object of `size` bytes with nothing cached.
abbrev pub empty_map : ℕ → ChunkMap
empty_map size = record {
  size = size;
  bitmap = 0;
  running = λ c. none;
  channels = 0;
  closed = λ ch. false;
  modified = 0;
  saved = 0;
}

unfoldable pub open_chunk_map : List ℕ → ℕ → ℕ → Outcome OpenError ChunkMap
open_chunk_map file size now =
    let version = take 16 file in
    let header_chunk_size = of_be (take 8 (drop 16 file)) 0 in
    let header_total_size = of_be (take 8 (drop 24 file)) 0 in
    let chunk_byte_count = length file - header_len in
    if ltb (length file) header_len
    then (if length file == 0 then ok (empty_map size) else err bad_header)
    else if not (bytes_equal (take prefix_len version) (take prefix_len chunk_version))
    then err invalid_version
    else if not (bytes_equal (take (length chunk_version) version) chunk_version)
    then ok (empty_map size)
    else if not (header_chunk_size == chunk_size) || not (header_total_size == size)
    then ok (empty_map size)
    else if ltb (size / chunk_size / 8 + 1) chunk_byte_count
        || ltb safe_chunk_byte_ceiling chunk_byte_count
    then err too_large
    else ok (record (empty_map size) { bitmap = of_bytes (drop header_len file); saved = now })
