-- ===== src/S3/Queue/Starvation.antt =====
-- A token that a cancelled `Acquire` leaves behind is never taken back.
use pond.Prelude.{ℕ, zero, suc, ◌+◌, ◌≤◌, ◌<◌, ◌≡◌, arith}
use pond.S3.Queue.{
  Queue, new_queue, Step, Reach, here, next, close, send_normal, send_low, abandon_normal,
  abandon_low,
}
use pond.S3.Queue.Tokens.{IsSound, Reach-IsSound, size-Reach}

abandoned-Step : {q u : Queue} → Step q u → q.abandoned ≤ u.abandoned
abandoned-Step close = omega arith
abandoned-Step (abandon_normal p) = omega arith
abandoned-Step _ = omega arith

abandoned-Reach : {q u : Queue} → Reach q u → q.abandoned ≤ u.abandoned
abandoned-Reach here = omega arith
abandoned-Reach (next r s) = omega (arith, abandoned-Step s, abandoned-Reach r)

-- An idle queue behind `n` calls of `Acquire` and `k` of `AcquireLowPriority` that were cancelled
-- between the two selects.
abbrev pub abandoned_queue : ℕ → ℕ → ℕ → Queue
abandoned_queue size n k = record (new_queue size) { normal = n; low = k; abandoned = n + k }

abandon-normal :
    (size n k : ℕ)
    → n < size
    → Reach (new_queue size) (abandoned_queue size n k)
    → Reach (new_queue size) (abandoned_queue size (n + 1) k)
abandon-normal size n k p r =
    let e : n + 1 + k ≡ n + k + 1 = omega arith in
    rw e (next (next r (send_normal p)) (abandon_normal (omega arith)))

abandon-low :
    (size n k : ℕ)
    → k < size
    → Reach (new_queue size) (abandoned_queue size n k)
    → Reach (new_queue size) (abandoned_queue size n (k + 1))
abandon-low size n k p r =
    let e : n + (k + 1) ≡ n + k + 1 = omega arith in
    rw e (next (next r (send_low p)) (abandon_low (omega arith)))

all_normal : (size n : ℕ) → n ≤ size → Reach (new_queue size) (abandoned_queue size n 0)
all_normal size zero h = here
all_normal size (suc n) h =
    let e : suc n ≡ n + 1 = omega arith in
    rw e (abandon-normal size n 0 (omega arith) (all_normal size n (omega arith)))

all_low : (size k : ℕ) → k ≤ size → Reach (new_queue size) (abandoned_queue size size k)
all_low size zero h = all_normal size size (omega arith)
all_low size (suc k) h =
    let e : suc k ≡ k + 1 = omega arith in
    rw e (abandon-low size size k (omega arith) (all_low size k (omega arith)))

-- Whatever the size, cancelled calls alone can fill both classes while nobody holds the queue.
queue_fills : (size : ℕ) → Reach (new_queue size) (abandoned_queue size size size)
queue_fills size = all_low size size (omega arith)

-- Whatever the size, calls of `Acquire` and `AcquireLowPriority` that are cancelled between their
-- selects, and no others, take a new queue to a state in which tokens fill both classes; and however
-- the queue is used from there, nobody gets past the first select of either, and nobody holds it.
pub queue_starves :
    (size : ℕ) {u : Queue}
    → Reach (abandoned_queue size size size) u
    → Reach (new_queue size) (abandoned_queue size size size)
      × (u.entering_normal ≡ 0)
      × (u.entering_low ≡ 0)
      × (u.holding ≡ 0)
queue_starves size {u} r =
    let h : IsSound u = Reach-IsSound (omega arith) r in
    let e : u.size ≡ size = size-Reach r in
    (
      queue_fills size,
      omega (arith, abandoned-Reach r),
      omega (arith, abandoned-Reach r),
      omega (arith, abandoned-Reach r),
    )
