-- ===== src/Verity.antt =====
-- nbd/verity/verity.go: the leaf hashes of a dm-verity tree.
pub mod Block
pub mod Integrity
pub mod Layers
pub mod Ends
pub mod Bounds
mod Examples
use pond.Prelude.{
  ℕ, zero, suc, ◌+◌, ◌-◌, ◌*◌, ◌/◌, ◌%◌, ◌^◌, ◌==◌, Bool, true, false, not, ◌&&◌, ◌||◌, Option,
  none, some, List, [], ◌∷◌, ◌++◌, length, take, ltb, leb, min, if◌then◌else◌, Outcome, ok, err,
  panic, ◌>>=◌, ◌>>◌, bytes_equal, until_nul,
}
use pond.Prelude.Words.{wrap64, slt}

-- The fields that matter; `magic` has 8 bytes, `algorithm` 32 and `salt` 256.
pub record Superblock : Type 0 where
  pub magic : List ℕ
  pub version : ℕ
  pub type : ℕ
  pub algorithm : List ℕ
  pub data_block_size : ℕ
  pub hash_block_size : ℕ
  pub data_block_count : ℕ
  pub salt_size : ℕ
  pub salt : List ℕ

pub record Verity : Type 0 where
  pub superblock : Superblock
  pub superblock_offset : ℕ
  pub leaf_hash_offset : ℕ

-- An error of the code; the last one stands for a loop that does not end.
pub data VerityError : Type 0 where
  invalid_magic invalid_version unsupported_type unsupported_algorithm : VerityError
  salt_too_short empty_salt : VerityError
  reading_hash short_read reading_data hash_mismatch endless : VerityError

-- "verity\x00\x00"
abbrev pub verity_magic : List ℕ
verity_magic = b'v' ∷ b'e' ∷ b'r' ∷ b'i' ∷ b't' ∷ b'y' ∷ 0 ∷ 0 ∷ []

abbrev pub sha256_name : List ℕ
sha256_name = b's' ∷ b'h' ∷ b'a' ∷ b'2' ∷ b'5' ∷ b'6' ∷ []

abbrev pub hash_size : ℕ
hash_size = 32

abbrev all_zero : List ℕ → Bool
all_zero [] = true
all_zero (b ∷ bs) = b == 0 && all_zero bs

abbrev pub validate_algorithm : Option (List ℕ) → Superblock → Outcome VerityError (Unit {0})
validate_algorithm none sb = panic
validate_algorithm (some name) sb =
    if not (bytes_equal name sha256_name)
    then err unsupported_algorithm
    else if ltb sb.salt_size hash_size
    then err salt_too_short
    else if all_zero sb.salt
    then err empty_salt
    else ok tt

unfoldable pub validate : Superblock → Outcome VerityError (Unit {0})
validate sb =
    if not (bytes_equal sb.magic verity_magic)
    then err invalid_magic
    else if not (sb.version == 1)
    then err invalid_version
    else if not (sb.type == 1)
    then err unsupported_type
    else validate_algorithm (until_nul sb.algorithm) sb

-- The hash function that the superblock names, if it is known.
unfoldable pub hash : Superblock → Outcome VerityError (Unit {0})
hash sb = if bytes_equal (take 6 sb.algorithm) sha256_name then ok tt else panic

-- The loop of `findFirstLeafHash`, over the layers from the leaves up; `rest` gives the part of the
-- list that is not yet there.
unfoldable pub layers : ℕ → ℕ → ℕ → Outcome VerityError (List ℕ)
layers zero hashes_per_block blocks = if slt 1 blocks then err endless else ok []
layers (suc fuel) hashes_per_block blocks =
    let above = blocks / hashes_per_block + (if blocks % hashes_per_block == 0 then 0 else 1) in
    let rest = layers fuel hashes_per_block above in
    if not (slt 1 blocks)
    then ok []
    else if hashes_per_block == 0
    then panic
    else rest >>= (λ upper. ok (above ∷ upper))

-- The sum over all layers but the first.
abbrev pub sum_sizes : ℕ → List ℕ → ℕ
sum_sizes size [] = 0
sum_sizes size (n ∷ ns) = n * size + sum_sizes size ns

abbrev pub tail : List ℕ → List ℕ
tail [] = []
tail (n ∷ ns) = ns

-- 64 layers are enough where each is at most half of the one below.
abbrev pub layer_fuel : ℕ
layer_fuel = 64

unfoldable pub find_first_leaf_hash : Verity → Outcome VerityError Verity
unfolding layers
find_first_leaf_hash t =
    layers layer_fuel (t.superblock.hash_block_size / hash_size) t.superblock.data_block_count
    >>= (λ layer. ok (record t {
      leaf_hash_offset = wrap64 (
          t.superblock_offset
          + t.superblock.hash_block_size
          + sum_sizes t.superblock.hash_block_size (tail layer));
    }))

-- Where the leaf hashes are is looked for once.
unfoldable pub locate : Verity → Outcome VerityError Verity
unfolding find_first_leaf_hash
locate t = if slt t.leaf_hash_offset t.superblock_offset then find_first_leaf_hash t else ok t
