-- ===== src/Prelude/BigInt.antt =====
-- math/big.Int for numbers that are not negative: single bits, BitLen, Bytes and SetBytes.
use Prim.Native.Nat.{ℕ, zero, suc, ◌+◌, ◌*◌, ◌/◌, ◌%◌, ◌≤◌, ◌<◌}
use mathlib.Core.Path.{◌≡◌, refl, ap}
use mathlib.Core.Bool.{Bool, true}
use mathlib.Core.List.{List, [], ◌∷◌}
use native.Mathlib.Omega.{arith}
use pond.Prelude.Tests.{◌==◌, if◌then◌else◌}
use pond.Prelude.Lists.{length}
use pond.Prelude.Bytes.{of_be}

-- x.Bit(i) == 1
unfoldable pub test_bit : ℕ → ℕ → Bool
test_bit x zero = x % 2 == 1
test_bit x (suc i) = test_bit (x / 2) i

-- x.SetBit(x, i, v)
unfoldable pub set_bit : ℕ → ℕ → Bool → ℕ
set_bit x zero v = x / 2 * 2 + (if v then 1 else 0)
set_bit x (suc i) v = set_bit (x / 2) i v * 2 + x % 2

pub test_bit-set_bit :
    (x i : ℕ) (v : Bool) (j : ℕ) → test_bit (set_bit x i v) j ≡ (if i == j then v else test_bit x j)
unfolding test_bit set_bit
test_bit-set_bit x zero v zero = ground arith
test_bit-set_bit x zero v (suc j) =
    let e : (x / 2 * 2 + (if v then 1 else 0)) / 2 ≡ x / 2 = ground arith in ground (arith, e)
test_bit-set_bit x (suc i) v zero = ground arith
test_bit-set_bit x (suc i) v (suc j) =
    let e : (set_bit (x / 2) i v * 2 + x % 2) / 2 ≡ set_bit (x / 2) i v = omega arith in
    ground (arith, e, test_bit-set_bit (x / 2) i v j)

bit_len_loop : ℕ → ℕ → ℕ
bit_len_loop zero x = 0
bit_len_loop (suc fuel) x = let rest = bit_len_loop fuel (x / 2) in if x == 0 then 0 else suc rest

-- x.BitLen(): `x` halvings are enough.
unfoldable pub bit_len : ℕ → ℕ
unfolding bit_len_loop
bit_len x = bit_len_loop x x

bit_len_loop-fuel : (f g x : ℕ) → x ≤ f → x ≤ g → bit_len_loop f x ≡ bit_len_loop g x
unfolding bit_len_loop
bit_len_loop-fuel zero zero x p q = refl
bit_len_loop-fuel zero (suc g) x p q = ground arith
bit_len_loop-fuel (suc f) zero x p q = ground arith
bit_len_loop-fuel (suc f) (suc g) x p q = ground (arith, bit_len_loop-fuel f g (x / 2))

pub bit_len_lem : (x : ℕ) → bit_len x ≡ (if x == 0 then 0 else suc (bit_len (x / 2)))
unfolding bit_len
bit_len_lem zero = refl
bit_len_lem (suc x) = ground (arith, bit_len_loop-fuel x (suc x / 2) (suc x / 2))

-- A set bit is below the length.
pub test_bit-bit_len : (i x : ℕ) → test_bit x i ≡ true → i < bit_len x
unfolding test_bit
test_bit-bit_len zero x h = ground (arith, bit_len_lem x)
test_bit-bit_len (suc i) x h = ground (arith, bit_len_lem x, test_bit-bit_len i (x / 2))

-- The last bit below the length is set.
pub last_bit : (k x : ℕ) → bit_len x ≡ suc k → test_bit x k ≡ true
unfolding test_bit
last_bit zero x h = ground (arith, bit_len_lem x, bit_len_lem (x / 2))
last_bit (suc k) x h = ground (arith, bit_len_lem x, last_bit k (x / 2))

bytes_loop : ℕ → ℕ → List ℕ → List ℕ
bytes_loop zero x acc = acc
bytes_loop (suc fuel) x acc =
    let rest = bytes_loop fuel (x / 256) ((x % 256) ∷ acc) in if x == 0 then acc else rest

-- x.Bytes(): big-endian, with no leading zero byte.
unfoldable pub to_bytes : ℕ → List ℕ
unfolding bytes_loop
to_bytes x = bytes_loop x x []

-- x.SetBytes(b)
unfoldable pub of_bytes : List ℕ → ℕ
of_bytes b = of_be b 0

of_be-bytes_loop :
    (fuel x : ℕ) (acc : List ℕ) → x ≤ fuel → of_be (bytes_loop fuel x acc) 0 ≡ of_be acc x
unfolding bytes_loop
of_be-bytes_loop zero x acc h = let e : x ≡ 0 = omega arith in rw e
of_be-bytes_loop (suc fuel) x acc h =
    let e : x / 256 * 256 + x % 256 ≡ x = omega arith in
    ground (arith, e, of_be-bytes_loop fuel (x / 256) ((x % 256) ∷ acc))

pub of_bytes-to_bytes : (x : ℕ) → of_bytes (to_bytes x) ≡ x
unfolding of_bytes to_bytes
of_bytes-to_bytes x = of_be-bytes_loop x x [] (omega arith)

-- A byte is eight bits.
bytes_of_bits : (x : ℕ) → 0 < x → (bit_len x + 7) / 8 ≡ suc ((bit_len (x / 256) + 7) / 8)
bytes_of_bits x pos =
    let e : x / 2 / 2 / 2 / 2 / 2 / 2 / 2 / 2 ≡ x / 256 = omega arith in
    ground (
      arith,
      ap bit_len e,
      bit_len_lem x,
      bit_len_lem (x / 2),
      bit_len_lem (x / 2 / 2),
      bit_len_lem (x / 2 / 2 / 2),
      bit_len_lem (x / 2 / 2 / 2 / 2),
      bit_len_lem (x / 2 / 2 / 2 / 2 / 2),
      bit_len_lem (x / 2 / 2 / 2 / 2 / 2 / 2),
      bit_len_lem (x / 2 / 2 / 2 / 2 / 2 / 2 / 2),
      bit_len_lem (x / 256),
    )

length-bytes_loop :
    (fuel x : ℕ) (acc : List ℕ)
    → x ≤ fuel
    → length (bytes_loop fuel x acc) ≡ length acc + (bit_len x + 7) / 8
unfolding bytes_loop
length-bytes_loop zero x acc h = ground (arith, bit_len_lem x)
length-bytes_loop (suc fuel) x acc h =
    ground
      (arith, bit_len_lem x, bytes_of_bits x, length-bytes_loop fuel (x / 256) ((x % 256) ∷ acc))

pub length-to_bytes : (x : ℕ) → length (to_bytes x) ≡ (bit_len x + 7) / 8
unfolding to_bytes
length-to_bytes x = let e = length-bytes_loop x x [] (omega arith) in omega arith
