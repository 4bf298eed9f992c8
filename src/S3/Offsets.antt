-- ===== src/S3/Offsets.antt =====
-- The chunks of an object cover it and do not overlap.
use pond.Prelude.{ℕ, ◌+◌, ◌-◌, ◌*◌, ◌/◌, ◌^◌, ◌≤◌, ◌<◌, ◌≡◌, ◌↔◌, min, leb, if◌then◌else◌, arith}
use pond.S3.Chunk.{ChunkMap, chunk_size, offset}

-- For an object below 2 ^ 62 bytes and a chunk whose offset does not wrap, chunk `c` begins at
-- c * chunk_size and ends at the next chunk or with the object. Behind the object it is empty.
pub offset_lem :
    (m : ChunkMap) (c : ℕ)
    → m.size < 2 ^ 62
    → c < 2 ^ 40
    → offset m c ≡ (
        if leb (chunk_size * c) m.size
        then (chunk_size * c, min chunk_size (m.size - chunk_size * c))
        else (0, 0))
unfolding offset
offset_lem m c h k = ground arith

-- For an object below 2 ^ 62 bytes every byte of it lies in the chunk of its number divided by
-- the chunk's size, and in no other whose offset does not wrap.
pub offset_covers :
    (m : ChunkMap) (c byte : ℕ)
    → m.size < 2 ^ 62
    → c < 2 ^ 40
    → byte < m.size
    → (((offset m c).0 ≤ byte) × (byte < (offset m c).0 + (offset m c).1)) ↔ (c ≡ byte / chunk_size)
offset_covers m c byte h k b =
    (λ p. ground (arith, offset_lem m c h k), λ e. ground (arith, offset_lem m c h k))
