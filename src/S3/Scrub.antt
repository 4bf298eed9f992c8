-- ===== src/S3/Scrub.antt =====
-- The order in which `After` walks through the chunks that are available.
use pond.Prelude.{
  ℕ, zero, suc, ◌+◌, ◌≤◌, ◌<◌, ◌≡◌, ◌==◌, true, false, Bool-cases, inl, inr, Option, none, some,
  arith,
}
use pond.Prelude.BigInt.{test_bit, bit_len, test_bit-bit_len}
use pond.S3.Chunk.{ChunkMap, after, after_loop}

-- The first set bit from `from` on, or that there is none.
abbrev pub IsFirst : ℕ → ℕ → Option ℕ → Type 0
IsFirst bitmap from (some n) =
    (from ≤ n)
    × (test_bit bitmap n ≡ true)
    × ((j : ℕ) → from ≤ j → j < n → test_bit bitmap j ≡ false)
IsFirst bitmap from none = (j : ℕ) → from ≤ j → test_bit bitmap j ≡ false

IsFirst-skip :
    (b from : ℕ) (r : Option ℕ)
    → test_bit b from ≡ false
    → IsFirst b (suc from) r
    → IsFirst b from r
IsFirst-skip b from (some n) e h = (
  omega (arith, h.0),
  h.1,
  λ j lo hi. elim (Bool-cases (from == j)) [
    | inl p ↦ let q : from ≡ j = ground arith in rw (← q) e
    | inr p ↦ h.2 j (ground arith) hi
  ],
)
IsFirst-skip b from none e h = λ j lo. elim (Bool-cases (from == j)) [
  | inl p ↦ let q : from ≡ j = ground arith in rw (← q) e
  | inr p ↦ h j (ground arith)
]

after_loop-IsFirst :
    (b from rounds : ℕ) → bit_len b ≤ from + rounds → IsFirst b from (after_loop b from rounds)
unfolding after_loop
after_loop-IsFirst b from zero h = λ j lo. elim (Bool-cases (test_bit b j)) [
  | inl p ↦ absurd (omega (arith, test_bit-bit_len j b p))
  | inr p ↦ p
]
after_loop-IsFirst b from (suc rounds) h = elim (Bool-cases (test_bit b from)) [
  | inl p ↦ rw p (omega arith, p, λ j lo hi. absurd (omega arith))
  | inr p ↦ rw p (
      IsFirst-skip b from (after_loop b (suc from) rounds) p
        (after_loop-IsFirst b (suc from) rounds (omega arith)))
]

-- `After` returns the least chunk behind the given one that is available, and reports that there
-- is none only if no such chunk is available.
pub after-IsFirst : (m : ChunkMap) (current : ℕ) → IsFirst m.bitmap (suc current) (after m current)
unfolding after
after-IsFirst m current = after_loop-IsFirst m.bitmap (suc current) _ (omega arith)
