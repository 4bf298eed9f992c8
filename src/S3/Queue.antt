-- ===== src/S3/Queue.antt =====
-- nbd/s3/queue.go: the two-level priority queue, as a step relation over any number of goroutines.
pub mod Tokens
pub mod Starvation
use pond.Prelude.{ℕ, ◌+◌, ◌-◌, ◌<◌, ◌≡◌, Bool, true, false}

-- The numbers of tokens in the three channels, and how many goroutines stand at which line:
-- between the two selects of `Acquire` (`entering_normal`) or `AcquireLowPriority`
-- (`entering_low`), behind them and before `Release` (`holding`), behind the first select of
-- `Release` (`releasing`), behind its second one (`draining`). The others have returned an error
-- and left a token behind: one of a class (`abandoned`), a class's after `Close` in `Release`
-- (`unreleased`), or a global one and a class's (`kept`).
pub record Queue : Type 0 where
  pub size : ℕ
  pub global : ℕ
  pub normal : ℕ
  pub low : ℕ
  pub closed : Bool
  pub entering_normal : ℕ
  pub entering_low : ℕ
  pub holding : ℕ
  pub releasing : ℕ
  pub draining : ℕ
  pub abandoned : ℕ
  pub unreleased : ℕ
  pub kept : ℕ

abbrev pub new_queue : ℕ → Queue
new_queue size = record {
  size = size;
  global = 0;
  normal = 0;
  low = 0;
  closed = false;
  entering_normal = 0;
  entering_low = 0;
  holding = 0;
  releasing = 0;
  draining = 0;
  abandoned = 0;
  unreleased = 0;
  kept = 0;
}

-- The goroutine's step is one select. A send waits for room in its channel, a receive for a token;
-- where a context is done, that case may be chosen though the other is ready too.
pub data Step (q : Queue) : Queue → Type 0 where
  close : Step q (record q { closed = true })
  send_normal :
      q.normal < q.size
      → Step q (record q { normal = q.normal + 1; entering_normal = q.entering_normal + 1 })
  send_low :
      q.low < q.size → Step q (record q { low = q.low + 1; entering_low = q.entering_low + 1 })
  enter_normal :
      0 < q.entering_normal
      → q.global < q.size
      → Step q (record q {
        global = q.global + 1;
        entering_normal = q.entering_normal - 1;
        holding = q.holding + 1;
      })
  enter_low :
      0 < q.entering_low
      → q.global < q.size
      → Step q (record q {
        global = q.global + 1;
        entering_low = q.entering_low - 1;
        holding = q.holding + 1;
      })
  abandon_normal :
      0 < q.entering_normal
      → Step q (record q { entering_normal = q.entering_normal - 1; abandoned = q.abandoned + 1 })
  abandon_low :
      0 < q.entering_low
      → Step q (record q { entering_low = q.entering_low - 1; abandoned = q.abandoned + 1 })
  receive_global :
      0 < q.holding
      → 0 < q.global
      → Step q
          (record q { global = q.global - 1; holding = q.holding - 1; releasing = q.releasing + 1 })
  keep_global :
      0 < q.holding
      → q.closed ≡ true
      → Step q (record q { holding = q.holding - 1; kept = q.kept + 1 })
  release_normal :
      0 < q.releasing
      → 0 < q.normal
      → Step q (record q { normal = q.normal - 1; releasing = q.releasing - 1 })
  no_normal :
      0 < q.releasing
      → q.normal ≡ 0
      → Step q (record q { releasing = q.releasing - 1; draining = q.draining + 1 })
  drain_normal :
      0 < q.draining
      → 0 < q.normal
      → Step q (record q { normal = q.normal - 1; draining = q.draining - 1 })
  drain_low :
      0 < q.draining → 0 < q.low → Step q (record q { low = q.low - 1; draining = q.draining - 1 })
  give_up :
      0 < q.draining
      → q.closed ≡ true
      → Step q (record q { draining = q.draining - 1; unreleased = q.unreleased + 1 })

pub data Reach (q : Queue) : Queue → Type 0 where
  here : Reach q q
  next : {t u : Queue} → Reach q t → Step t u → Reach q u
