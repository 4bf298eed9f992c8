-- ===== src/S3/Waiters.antt =====
-- Goroutines that wait for a chunk: whoever called `Check` is woken when the chunk is done.
use pond.Prelude.{ℕ, ◌<◌, ◌≡◌, ◌⊎◌, true, false, some, arith}
use pond.Prelude.BigInt.{test_bit, test_bit-set_bit}
use pond.S3.Chunk.{ChunkMap, done, lost, check, channel}

-- A chunk that somebody waits for is not done, and its channel is open and nobody else's.
pub record IsSound (m : ChunkMap) : Type 0 where
  pub made : (c ch : ℕ) → m.running c ≡ some ch → ch < m.channels
  pub is_open : (c ch : ℕ) → m.running c ≡ some ch → m.closed ch ≡ false
  pub pending : (c ch : ℕ) → m.running c ≡ some ch → test_bit m.bitmap c ≡ false
  pub own : (c d ch : ℕ) → m.running c ≡ some ch → m.running d ≡ some ch → c ≡ d
  pub fresh : (ch : ℕ) → m.closed ch ≡ true → ch < m.channels

-- The calls that goroutines make of one chunk map, in any order: each runs under its locks.
pub data Step (m : ChunkMap) : ChunkMap → Type 0 where
  step_done : (c now : ℕ) → Step m (done m c now)
  step_lost : (c now : ℕ) → Step m (lost m c now)
  step_check : (c : ℕ) → Step m (check m c).0

pub data Reach (m : ChunkMap) : ChunkMap → Type 0 where
  here : Reach m m
  next : {t u : ChunkMap} → Reach m t → Step t u → Reach m u

module _ (m : ChunkMap) (h : IsSound m) where
  lost-IsSound : (c now : ℕ) → IsSound (lost m c now)
  unfolding lost
  lost-IsSound c now = record {
    made = h.made;
    is_open = h.is_open;
    pending = λ d ch e. ground (arith, h.pending d ch e, test_bit-set_bit m.bitmap c false d);
    own = h.own;
    fresh = h.fresh;
  }

  done-IsSound : (c now : ℕ) → IsSound (done m c now)
  unfolding done
  done-IsSound c now = record {
    made = λ d ch e. ground (arith, h.made d ch);
    is_open = λ d ch e. ground (arith, h.is_open d ch, h.own c d ch);
    pending = λ d ch e. ground (arith, h.pending d ch, test_bit-set_bit m.bitmap c true d);
    own = λ d f ch e g. ground (arith, h.own d f ch);
    fresh = λ ch e. ground (arith, h.fresh ch, h.made c ch);
  }

  check-IsSound : (c : ℕ) → IsSound (check m c).0
  unfolding check
  check-IsSound c = record {
    made = λ d ch e. ground (arith, h.made d ch);
    is_open = λ d ch e. ground (arith, h.is_open d ch, h.fresh ch);
    pending = λ d ch e. ground (arith, h.pending d ch);
    own = λ d f ch e g. ground (arith, h.own d f ch, h.made d ch, h.made f ch);
    fresh = λ ch e. ground (arith, h.fresh ch);
  }

pub Step-IsSound : {m u : ChunkMap} → Step m u → IsSound m → IsSound u
Step-IsSound {m} (step_done c now) h = done-IsSound m h c now
Step-IsSound {m} (step_lost c now) h = lost-IsSound m h c now
Step-IsSound {m} (step_check c) h = check-IsSound m h c

-- Whatever `Done`, `Lost` and `Check` are called from a sound chunk map on, in any order, chunks
-- that are waited for are not done, and their channels are open and belong to one chunk each.
pub Reach-IsSound : {m u : ChunkMap} → IsSound m → Reach m u → IsSound u
Reach-IsSound h here = h
Reach-IsSound h (next r s) = Step-IsSound s (Reach-IsSound h r)

-- The channel `ch` stands for chunk `c`, or has been closed.
abbrev pub Covered : ℕ → ℕ → ChunkMap → Type 0
Covered c ch m = (m.running c ≡ some ch) ⊎ (m.closed ch ≡ true)

Step-Covered : {m u : ChunkMap} (c ch : ℕ) → Step m u → Covered c ch m → Covered c ch u
unfolding done lost check
Step-Covered c ch (step_done d now) h = ground arith
Step-Covered c ch (step_lost d now) h = h
Step-Covered c ch (step_check d) h = ground arith

Reach-Covered : {m u : ChunkMap} (c ch : ℕ) → Covered c ch m → Reach m u → Covered c ch u
Reach-Covered c ch h here = h
Reach-Covered c ch h (next r s) = Step-Covered c ch s (Reach-Covered c ch h r)

check-Covered : (m : ChunkMap) (c ch : ℕ) → (check m c).1 ≡ channel ch → Covered c ch (check m c).0
unfolding check
check-Covered m c ch h = ground arith

done-closes : (m : ChunkMap) (c ch now : ℕ) → Covered c ch m → (done m c now).closed ch ≡ true
unfolding done
done-closes m c ch now h = ground arith

-- No wake-up is lost: after `Check` gave out a channel for a chunk, and whatever calls followed,
-- `Done` on that chunk leaves the channel closed.
pub check-done_wakes :
    (m : ChunkMap) (c ch now : ℕ) {u : ChunkMap}
    → (check m c).1 ≡ channel ch
    → Reach (check m c).0 u
    → (done u c now).closed ch ≡ true
check-done_wakes m c ch now {u} h r =
    done-closes u c ch now (Reach-Covered c ch (check-Covered m c ch h) r)
