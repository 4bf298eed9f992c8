-- ===== src/Prelude/Words.antt =====
-- int64 as a bit pattern below 2 ^ 64: the comparison of signed numbers.
use Prim.Native.Nat.{ℕ, ◌+◌, ◌-◌, ◌%◌, ◌^◌, ◌<◌}
use mathlib.Core.Path.{◌≡◌}
use mathlib.Core.Bool.{Bool}
use native.Mathlib.Omega.{arith}
use pond.Prelude.Tests.{ltb}

abbrev pub wrap64 : ℕ → ℕ
wrap64 n = n % 2 ^ 64

-- a < b
unfoldable pub slt : ℕ → ℕ → Bool
slt a b = ltb (wrap64 (a + 2 ^ 63)) (wrap64 (b + 2 ^ 63))

-- a - b
abbrev pub sub64 : ℕ → ℕ → ℕ
sub64 a b = wrap64 (a + 2 ^ 64 - b)

pub slt-ltb : (a b : ℕ) → a < 2 ^ 63 → b < 2 ^ 63 → slt a b ≡ ltb a b
unfolding slt
slt-ltb a b p q = ground arith
