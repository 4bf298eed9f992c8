-- ===== src/S3/Queue/Tokens.antt =====
-- Every token in the queue's channels has its goroutine, and the limit on connections holds.
use pond.Prelude.{ℕ, ◌+◌, ◌≤◌, ◌≡◌, arith}
use pond.S3.Queue.{
  Queue, new_queue, Step, Reach, here, next, close, send_normal, send_low, enter_normal, enter_low,
  abandon_normal, abandon_low, receive_global, keep_global, release_normal, no_normal, drain_normal,
  drain_low, give_up,
}

pub record IsSound (q : Queue) : Type 0 where
  pub global : q.global ≡ q.holding + q.kept
  pub classes :
      q.normal + q.low
      ≡ q.entering_normal + q.entering_low + q.holding + q.kept + q.releasing + q.draining
        + q.abandoned + q.unreleased
  pub global_fits : q.global ≤ q.size
  pub normal_fits : q.normal ≤ q.size
  pub low_fits : q.low ≤ q.size

Step-IsSound : {q u : Queue} → Step q u → IsSound q → IsSound u
Step-IsSound close h = omega arith
Step-IsSound (send_normal p) h = omega arith
Step-IsSound (send_low p) h = omega arith
Step-IsSound (enter_normal p r) h = omega arith
Step-IsSound (enter_low p r) h = omega arith
Step-IsSound (abandon_normal p) h = omega arith
Step-IsSound (abandon_low p) h = omega arith
Step-IsSound (receive_global p r) h = omega arith
Step-IsSound (keep_global p r) h = omega arith
Step-IsSound (release_normal p r) h = omega arith
Step-IsSound (no_normal p r) h = omega arith
Step-IsSound (drain_normal p r) h = omega arith
Step-IsSound (drain_low p r) h = omega arith
Step-IsSound (give_up p r) h = omega arith

pub Reach-IsSound : {q u : Queue} → IsSound q → Reach q u → IsSound u
Reach-IsSound h here = h
Reach-IsSound h (next r s) = Step-IsSound s (Reach-IsSound h r)

size-Step : {q u : Queue} → Step q u → u.size ≡ q.size
size-Step close = omega arith
size-Step (send_normal p) = omega arith
size-Step _ = omega arith

pub size-Reach : {q u : Queue} → Reach q u → u.size ≡ q.size
size-Reach here = omega arith
size-Reach (next r s) = omega (arith, size-Step s, size-Reach r)

-- However goroutines interleave, at most `size` of them are between `Acquire` and `Release`, and
-- each of these finds the tokens that its `Release` takes: one in the global channel, and one in
-- those of the two classes together.
pub Reach-limit :
    (size : ℕ) {q : Queue}
    → Reach (new_queue size) q
    → (q.holding ≤ size)
      × (q.holding ≤ q.global)
      × (q.holding + q.releasing + q.draining ≤ q.normal + q.low)
Reach-limit size {q} r =
    let h : IsSound q = Reach-IsSound (omega arith) r in
    let e : q.size ≡ size = size-Reach r in omega arith
