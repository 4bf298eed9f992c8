-- ===== src/Prelude/Bytes.antt =====
-- encoding/binary.BigEndian on the native numbers: `width` bytes, most significant first.
use Prim.Native.Nat.{ℕ, ◌+◌, ◌*◌, ◌/◌, ◌%◌, ◌^◌, ◌<◌}
use mathlib.Core.Path.{◌≡◌}
use mathlib.Core.List.{List, [], ◌∷◌, ◌++◌}
use native.Mathlib.Omega.{arith}

unfoldable pub be16 : ℕ → List ℕ
be16 n = (n / 256 % 256) ∷ (n % 256) ∷ []

unfoldable pub be32 : ℕ → List ℕ
unfolding be16
be32 n = be16 (n / 65536) ++ be16 n

unfoldable pub be64 : ℕ → List ℕ
unfolding be32
be64 n = be32 (n / 2 ^ 32) ++ be32 n

-- The number that a big-endian byte string denotes.
abbrev pub of_be : List ℕ → ℕ → ℕ
of_be [] acc = acc
of_be (b ∷ bs) acc = of_be bs (acc * 256 + b)

pub of_be-be16 : (n : ℕ) → n < 2 ^ 16 → of_be (be16 n) 0 ≡ n
unfolding be16
of_be-be16 n h = omega arith

pub of_be-be32 : (n : ℕ) → n < 2 ^ 32 → of_be (be32 n) 0 ≡ n
unfolding be32
of_be-be32 n h = omega arith

pub of_be-be64 : (n : ℕ) → n < 2 ^ 64 → of_be (be64 n) 0 ≡ n
unfolding be64
of_be-be64 n h = omega arith
