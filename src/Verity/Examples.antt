-- ===== src/Verity/Examples.antt =====
-- nbd/verity/verity.go at concrete inputs.
use pond.Prelude.{
  ℕ, zero, suc, ◌≡◌, refl, List, [], ◌∷◌, ◌++◌, sym, ap, false, arith, ok, panic, until_nul,
}
use pond.Prelude.Words.{slt}
use pond.Verity.{
  Superblock, Verity, verity_magic, sha256_name, hash, locate, layers, find_first_leaf_hash,
  validate,
}
use pond.Verity.Block.{Reader, salt_prefix, read_hash, copy_n, verify_block, verify_blocks, verify}
use pond.Verity.Integrity.{IsTruthful, IsIntact, span, length-span, verify-IsIntact}
use pond.Verity.Ends.{IsReaderAt, Ends, verify-Ends}
use pond.Verity.Bounds.{verify_panics}

abbrev same : ℕ → ℕ → List ℕ
same b zero = []
same b (suc n) = b ∷ same b n

-- One block of two bytes, with two hashes in a block of hashes.
abbrev small_superblock : ℕ → Superblock
small_superblock salt_size = record {
  magic = verity_magic;
  version = 1;
  type = 1;
  algorithm = sha256_name ++ same 0 26;
  data_block_size = 2;
  hash_block_size = 64;
  data_block_count = 1;
  salt_size = salt_size;
  salt = same 1 256;
}

abbrev small : Verity
small = record { superblock = small_superblock 32; superblock_offset = 4096; leaf_hash_offset = 0 }

abbrev found : Verity
found = record small { leaf_hash_offset = 4160 }

abbrev empty_disk : ℕ → ℕ
empty_disk at = 0

abbrev zero_digest : List ℕ → List ℕ
zero_digest bytes = same 0 32

abbrev reader : Reader
reader size at = record { bytes = span empty_disk at size; failed = false }

reader-IsTruthful : IsTruthful reader empty_disk
reader-IsTruthful = record {
  fits = λ size at. let e = length-span empty_disk at size in omega arith;
  tells = λ size at. ap (span empty_disk at) (sym (length-span empty_disk at size));
}

small-locate : locate small ≡ ok found
unfolding locate find_first_leaf_hash layers slt
small-locate = refl

small-verify : verify zero_digest reader small 0 2 ≡ ok tt
unfolding verify verify_blocks verify_block read_hash salt_prefix copy_n locate find_first_leaf_hash
    layers slt hash span
small-verify = refl

verify-IsIntact_example : IsIntact zero_digest empty_disk found 0
verify-IsIntact_example =
    verify-IsIntact zero_digest empty_disk reader small found 0 2 0 reader-IsTruthful small-locate
      small-verify (omega arith) (omega arith) (omega arith)

abbrev long : Verity
long = record {
  superblock = small_superblock 257;
  superblock_offset = 4096;
  leaf_hash_offset = 4160;
}

long-validate : validate long.superblock ≡ ok tt
unfolding validate until_nul
long-validate = refl

long-locate : locate long ≡ ok long
unfolding locate slt
long-locate = refl

verify_panics_example : verify zero_digest reader long 0 2 ≡ panic
verify_panics_example =
    verify_panics zero_digest reader long 0 2 long-validate long-locate (omega arith) (omega arith)
      (omega arith) (omega arith) refl (length-span empty_disk 4160 32)

reader-IsReaderAt : IsReaderAt reader
reader-IsReaderAt = record {
  fits = λ size at. let e = length-span empty_disk at size in omega arith;
  short = λ size at l. let e = length-span empty_disk at size in absurd (omega arith);
}

verify-Ends_example : Ends (verify zero_digest reader small 0 2)
verify-Ends_example =
    verify-Ends zero_digest reader reader-IsReaderAt small 0 2 (omega arith) (omega arith)
