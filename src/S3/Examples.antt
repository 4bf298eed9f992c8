-- ===== src/S3/Examples.antt =====
-- The theorems on nbd/s3 at concrete inputs.
use pond.Prelude.{
  ap, ℕ, ◌+◌, ◌-◌, ◌≤◌, ◌<◌, ◌≡◌, refl, Bool, true, false, none, some, [], ok, arith,
}
use pond.Prelude.BigInt.{test_bit, bit_len}
use pond.S3.Chunk.{ChunkMap, offset, check, done, lost, after, channel}
use pond.S3.Offsets.{offset_lem}
use pond.S3.Remote.{reader_range, reader_range-offset}
use pond.S3.Waiters.{
  IsSound, here, next, step_check, step_done, step_lost, Reach-IsSound, check-done_wakes,
}
use pond.S3.Persist.{SaveStep, sync, empty_map, export, save, open_chunk_map}
use pond.S3.Recovery.{InRange, open-export}

abbrev total : ℕ
total = 20000000

abbrev fresh_map : ChunkMap
fresh_map = empty_map total

fresh_map-IsSound : IsSound fresh_map
fresh_map-IsSound = record {
  made = λ c ch e. cc;
  is_open = λ c ch e. refl;
  pending = λ c ch e. cc;
  own = λ c d ch e f. cc;
  fresh = λ ch e. cc;
}

Reach-IsSound_example : IsSound (done (check fresh_map 1).0 1 5)
Reach-IsSound_example =
    Reach-IsSound fresh_map-IsSound (next (next here (step_check 1)) (step_done 1 5))

check_one : (check fresh_map 1).1 ≡ channel 0
unfolding check offset test_bit
check_one = refl

check-done_wakes_example : (done (lost (check fresh_map 1).0 1 5) 1 6).closed 0 ≡ true
check-done_wakes_example = check-done_wakes fresh_map 1 0 6 check_one (next here (step_lost 1 5))

abbrev two_chunks : ChunkMap
two_chunks = record fresh_map { bitmap = 6 }

after_two : (after two_chunks 1 ≡ some 2) × (after two_chunks 2 ≡ none)
unfolding after test_bit bit_len
after_two = (refl, refl)

two_chunks-InRange : InRange two_chunks
unfolding bit_len
two_chunks-InRange = omega arith

open-export_example :
    open_chunk_map (export two_chunks) total 9
    ≡ ok (record (empty_map total) { bitmap = 6; saved = 9 })
open-export_example = open-export two_chunks 9 two_chunks-InRange

abbrev sync_fails : SaveStep → Bool
sync_fails sync = true
sync_fails _ = false

save_sync : (save sync_fails 9 two_chunks []).0 ≡ some sync
unfolding save
save_sync = refl

second_pos : 0 < (offset fresh_map 1).1
second_pos = omega (arith, ap (λ r. r.1) (offset_lem fresh_map 1 (omega arith) (omega arith)))

reader_range-offset_example :
    (reader_range total (offset fresh_map 1).0 (offset fresh_map 1).1
      ≡ some ((offset fresh_map 1).0, (offset fresh_map 1).0 + (offset fresh_map 1).1 - 1))
    × ((offset fresh_map 1).0 + (offset fresh_map 1).1 ≤ total)
reader_range-offset_example = reader_range-offset fresh_map 1 (omega arith) (omega arith) second_pos
