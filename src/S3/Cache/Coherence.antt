-- ===== src/S3/Cache/Coherence.antt =====
-- What the chunk map calls done is in the local file.
use pond.Prelude.{ℕ, ◌/◌, ◌^◌, ◌<◌, ◌≡◌, ◌==◌, true, false, arith, if◌then◌else◌}
use pond.Prelude.BigInt.{test_bit, test_bit-set_bit}
use pond.S3.Chunk.{ChunkMap, chunk_size, check, done, lost}
use pond.S3.Offsets.{offset_covers}
use pond.S3.Cache.{Cache, Answer, copy, Step, Reach, here, next, step_check, step_copy, step_lost}

-- Each byte of a chunk that is done is the object's.
pub record IsCoherent (c : Cache) : Type 0 where
  pub small : c.chunk.size < 2 ^ 62
  pub at :
      (byte : ℕ)
      → byte < c.chunk.size
      → test_bit c.chunk.bitmap (byte / chunk_size) ≡ true
      → c.local byte ≡ c.remote byte

pub check_keeps :
    (m : ChunkMap) (part : ℕ)
    → ((check m part).0.size ≡ m.size) × ((check m part).0.bitmap ≡ m.bitmap)
unfolding check
check_keeps m part = ground arith

pub done_bitmap :
    (m : ChunkMap) (part now j : ℕ)
    → (test_bit (done m part now).bitmap j ≡ (if part == j then true else test_bit m.bitmap j))
      × ((done m part now).size ≡ m.size)
unfolding done
done_bitmap m part now j = ground (arith, test_bit-set_bit m.bitmap part true j)

pub copy-IsCoherent :
    (c : Cache) (part : ℕ) (a : Answer)
    → part < 2 ^ 40
    → IsCoherent c
    → IsCoherent (copy c part a).1
unfolding copy
copy-IsCoherent c part a p h = record {
  small = ground (arith, h.small, done_bitmap c.chunk part a.now 0);
  at = λ byte lo bit. ground (
    arith,
    h.at byte,
    h.small,
    done_bitmap c.chunk part a.now (byte / chunk_size),
    (offset_covers c.chunk part byte h.small p
        (ground (arith, done_bitmap c.chunk part a.now 0))).1,
  );
}

pub check-IsCoherent :
    (c : Cache) (part : ℕ) → IsCoherent c → IsCoherent (record c { chunk = (check c.chunk part).0 })
check-IsCoherent c part h =
    let (e, f) = check_keeps c.chunk part in
    record { small = rw e h.small; at = λ byte lo bit. h.at byte (rw e at lo) (rw f at bit) }

lost-IsCoherent :
    (c : Cache) (part now : ℕ)
    → IsCoherent c
    → IsCoherent (record c { chunk = lost c.chunk part now })
unfolding lost
lost-IsCoherent c part now h = record {
  small = h.small;
  at = λ byte lo bit.
      ground (arith, h.at byte, test_bit-set_bit c.chunk.bitmap part false (byte / chunk_size));
}

Step-IsCoherent : {c u : Cache} → Step c u → IsCoherent c → IsCoherent u
Step-IsCoherent {c} (step_check part) h = check-IsCoherent c part h
Step-IsCoherent {c} (step_copy part a p) h = copy-IsCoherent c part a p h
Step-IsCoherent {c} (step_lost part now) h = lost-IsCoherent c part now h

-- From a coherent cache on, whatever checks, copies that fail or succeed, and losses goroutines
-- make, in any order, the bytes of the chunks that are done stay those of the object.
pub Reach-IsCoherent : {c u : Cache} → IsCoherent c → Reach c u → IsCoherent u
Reach-IsCoherent h here = h
Reach-IsCoherent h (next r s) = Step-IsCoherent s (Reach-IsCoherent h r)
