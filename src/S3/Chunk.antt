-- ===== src/S3/Chunk.antt =====
-- nbd/s3/chunk.go: the chunk map, which records the chunks that are in the local cache.
use pond.Prelude.{
  ℕ, zero, suc, ◌+◌, ◌-◌, ◌*◌, ◌^◌, ◌==◌, Bool, true, false, ◌||◌, Option, none, some,
  if◌then◌else◌,
}
use pond.Prelude.Words.{wrap64, slt, sub64}
use pond.Prelude.BigInt.{test_bit, set_bit, bit_len}

abbrev pub chunk_size : ℕ
chunk_size = 8 * 2 ^ 20

-- Channels are numbered in the order of their creation. `now` is the clock's reading.
pub record ChunkMap : Type 0 where
  pub size : ℕ
  pub bitmap : ℕ
  pub running : ℕ → Option ℕ
  pub channels : ℕ
  pub closed : ℕ → Bool
  pub modified : ℕ
  pub saved : ℕ

-- The offset and the length of a chunk, in int64 arithmetic.
unfoldable pub offset : ChunkMap → ℕ → ℕ × ℕ
unfolding slt
offset m c =
    let at = wrap64 (chunk_size * c) in
    if slt m.size at || slt at 0
    then (0, 0)
    else if slt m.size (wrap64 (at + chunk_size))
    then (at, sub64 m.size at)
    else (at, chunk_size)

abbrev pub update {ℓ} : {A : Type ℓ} → (ℕ → A) → ℕ → A → ℕ → A
update f k v j = if k == j then v else f j

-- `ch, ok := m.running[c]`, then the close and the delete.
unfoldable pub finish : ChunkMap → ℕ → Option ℕ → ChunkMap
finish m c none = m
finish m c (some ch) = record m {
  running = update m.running c none;
  closed = update m.closed ch true;
}

unfoldable pub done : ChunkMap → ℕ → ℕ → ChunkMap
unfolding finish
done m c now =
    let marked = record m { bitmap = set_bit m.bitmap c true } in
    let woken = finish marked c (m.running c) in record woken { modified = now }

unfoldable pub lost : ChunkMap → ℕ → ℕ → ChunkMap
lost m c now = record m { bitmap = set_bit m.bitmap c false; modified = now }

-- What `Check` returns to wait for: the channel that is closed from the start, or one of the map.
pub data Wait : Type 0 where
  closed_channel : Wait
  channel : ℕ → Wait

unfoldable pub wait_for : ChunkMap → ℕ → Option ℕ → ChunkMap × Wait × Bool
wait_for m c (some ch) = (m, channel ch, false)
wait_for m c none = (
  record m { running = update m.running c (some m.channels); channels = m.channels + 1 },
  channel m.channels,
  false,
)

unfoldable pub check : ChunkMap → ℕ → ChunkMap × Wait × Bool
unfolding offset wait_for
check m c =
    if (offset m c).1 == 0
    then (m, closed_channel, true)
    else if test_bit m.bitmap c
    then (m, closed_channel, true)
    else wait_for m c (m.running c)

-- The loop of `After` from `next` on, with `rounds` bits left below the bitmap's length.
unfoldable pub after_loop : ℕ → ℕ → ℕ → Option ℕ
after_loop bitmap next zero = none
after_loop bitmap next (suc rounds) =
    let rest = after_loop bitmap (suc next) rounds in
    if test_bit bitmap next then some next else rest

-- The next available chunk; `none` is the result `0, false`.
unfoldable pub after : ChunkMap → ℕ → Option ℕ
unfolding after_loop
after m current = after_loop m.bitmap (suc current) (bit_len m.bitmap - suc current)
