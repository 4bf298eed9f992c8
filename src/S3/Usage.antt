-- ===== src/S3/Usage.antt =====
-- The theorems on the queue and the cache of nbd/s3 at concrete inputs.
use pond.Prelude.{
  ℕ, ◌+◌, ◌-◌, ◌*◌, ◌/◌, ◌≤◌, ◌≡◌, ◌≢◌, refl, sym, ap, true, false, some, [], ◌∷◌, min, arith,
}
use pond.Prelude.BigInt.{test_bit, test_bit-bit_len, bit_len}
use pond.S3.Chunk.{chunk_size, offset}
use pond.S3.Persist.{empty_map}
use pond.S3.Queue.{Queue, Reach, new_queue, here, next, send_normal, enter_normal, close}
use pond.S3.Queue.Tokens.{Reach-limit}
use pond.S3.Queue.Starvation.{abandoned_queue, queue_starves}
use pond.S3.Cache.{
  Cache, Answer, here, next, step_copy, copy, bytes_at, schedule, read_at, fetch_all,
}
use pond.S3.Cache.Coherence.{IsCoherent, Reach-IsCoherent}
use pond.S3.Cache.Reads.{cold, whole, read_at-remote, read_at_crosses}
use pond.S3.Cache.WarmUp.{chunk_count, SendsAll, offset-size}
use pond.S3.Cache.Filled.{warm_up}

abbrev one_waits : Queue
one_waits = record (new_queue 3) { normal = 1; entering_normal = 1 }

abbrev one_holds : Queue
one_holds = record (new_queue 3) { global = 1; normal = 1; holding = 1 }

Reach-limit_example :
    (one_holds.holding ≤ 3)
    × (one_holds.holding ≤ one_holds.global)
    × (one_holds.holding + one_holds.releasing + one_holds.draining
        ≤ one_holds.normal + one_holds.low)
Reach-limit_example =
    Reach-limit 3 {q = one_holds}
      (next (next here (send_normal (omega arith))) (enter_normal (omega arith) (omega arith)))

abbrev closed_queue : Queue
closed_queue = record (abandoned_queue 3 3 3) { closed = true }

queue_starves_example :
    Reach (new_queue 3) (abandoned_queue 3 3 3)
    × (closed_queue.entering_normal ≡ 0)
    × (closed_queue.entering_low ≡ 0)
    × (closed_queue.holding ≡ 0)
queue_starves_example = queue_starves 3 {u = closed_queue} (next here close)

test_bit_zero : (j : ℕ) → test_bit 0 j ≢ true
unfolding bit_len
test_bit_zero j e = let h = test_bit-bit_len j 0 e in omega (arith, h)

abbrev content : ℕ → ℕ
content j = j + 1

abbrev total : ℕ
total = 20000000

abbrev cold_cache : Cache
cold_cache = cold total content

cold-IsCoherent : IsCoherent cold_cache
cold-IsCoherent = record { small = omega arith; at = λ byte lo bit. absurd (test_bit_zero _ bit) }

Reach-IsCoherent_example : IsCoherent (copy cold_cache 1 (whole chunk_size)).1
Reach-IsCoherent_example =
    Reach-IsCoherent cold-IsCoherent (next here (step_copy 1 (whole chunk_size) (omega arith)))

abbrev warm_cache : Cache
warm_cache = record {
  chunk = record (empty_map total) { bitmap = 1 };
  local = content;
  remote = content;
}

warm-IsCoherent : IsCoherent warm_cache
warm-IsCoherent = record { small = omega arith; at = λ byte lo bit. refl }

bit_present : test_bit 1 (5 / chunk_size) ≡ true
unfolding test_bit
bit_present = refl

read_at-remote_example :
    read_at warm_cache 4 5 ≡ bytes_at content 5 (min (min 4 chunk_size) (total - 5))
read_at-remote_example = read_at-remote warm_cache 4 5 warm-IsCoherent bit_present (omega arith)

read_at_crosses_example :
    (let c = (copy (cold total content) 0 (whole chunk_size)).1 in
      (test_bit c.chunk.bitmap 0 ≡ true)
      × (schedule 2 0 2 ≡ 0 ∷ [])
      × (read_at c 2 (chunk_size - 1) ≡ content (chunk_size - 1) ∷ 0 ∷ []))
read_at_crosses_example = read_at_crosses content total (omega arith) (omega arith)

-- A network that never answers.
abbrev broken : ℕ → ℕ → Answer
broken call part = record { acquired = false; opened = false; sent = 0; failed = true; now = 0 }

abbrev working : ℕ → ℕ → Answer
working call part = whole (offset (empty_map total) part).1

working-SendsAll : SendsAll total working
working-SendsAll call part u e =
    (refl, refl, refl, ap (λ r. r.1) (offset-size (empty_map total) u.chunk part (sym e)))

warm_up_example :
    (c' : Cache) × (fetch_all (6 * chunk_count total + 6) working 0 cold_cache 0 0 ≡ some c')
    × (bytes_at c'.local 0 total ≡ bytes_at content 0 total)
warm_up_example = warm_up working cold_cache working-SendsAll cold-IsCoherent
