-- ===== src/Verity/Block.antt =====
-- nbd/verity/verity.go: the verification of blocks, by the hash function and the reader.
use pond.Prelude.{
  ℕ, zero, suc, ◌+◌, ◌-◌, ◌*◌, ◌/◌, ◌^◌, ◌==◌, Bool, not, ◌||◌, List, [], ◌++◌, length, take, ltb,
  leb, min, if◌then◌else◌, Outcome, ok, err, panic, ◌>>=◌, ◌>>◌, bytes_equal,
}
use pond.Verity.{
  Superblock, Verity, VerityError, reading_hash, short_read, reading_data, hash_mismatch, endless,
  hash_size, hash, locate,
}

-- What `ReadAt` returns: the bytes, and whether there is an error.
pub record Answer : Type 0 where
  pub bytes : List ℕ
  pub failed : Bool

-- A reader, by the length of the buffer and the offset.
abbrev pub Reader : Type 0
Reader = ℕ → ℕ → Answer

-- The buffer of io.Copy.
abbrev pub copy_size : ℕ
copy_size = 32 * 2 ^ 10

-- io.CopyN out of an `offsetReader`: `left` bytes from `at` on, behind those that are there. A read
-- without an error gives one byte at least, so that a round for each byte is enough.
unfoldable pub copy_n : ℕ → Reader → ℕ → ℕ → List ℕ → Outcome VerityError (List ℕ)
copy_n zero r at left done = if left == 0 then ok done else err endless
copy_n (suc fuel) r at left done =
    let a = r (min left copy_size) at in
    let n = length a.bytes in
    let rest = copy_n fuel r (at + n) (left - n) (done ++ a.bytes) in
    if left == 0
    then ok done
    else if not a.failed
    then rest
    else if n == left
    then ok (done ++ a.bytes)
    else err reading_data

-- t.Salt[:int(t.SaltSize)]
unfoldable pub salt_prefix : Superblock → Outcome VerityError (List ℕ)
salt_prefix sb = if leb sb.salt_size (length sb.salt) then ok (take sb.salt_size sb.salt) else panic

unfoldable pub read_hash : Reader → Verity → ℕ → Outcome VerityError (List ℕ)
read_hash r t index =
    let a = r hash_size (t.leaf_hash_offset + index * hash_size) in
    if a.failed
    then err reading_hash
    else if not (length a.bytes == hash_size)
    then err short_read
    else ok a.bytes

abbrev pub compare_hashes : List ℕ → List ℕ → Outcome VerityError (Unit {0})
compare_hashes got want = if bytes_equal got want then ok tt else err hash_mismatch

module _ (digest : List ℕ → List ℕ) (r : Reader) (t : Verity) where
  unfoldable pub verify_block : ℕ → Outcome VerityError (Unit {0})
  unfolding salt_prefix read_hash copy_n
  verify_block index = do
    want ← read_hash r t index
    salt ← salt_prefix t.superblock
    bytes ←
        copy_n t.superblock.data_block_size r (index * t.superblock.data_block_size)
          t.superblock.data_block_size []
    compare_hashes (digest (salt ++ bytes)) want

  -- The loop of `Verify`; the size decreases with each round, if blocks are not empty.
  unfoldable pub verify_blocks : ℕ → ℕ → ℕ → Outcome VerityError (Unit {0})
  unfolding verify_block
  verify_blocks zero block size = if size == 0 then ok tt else err endless
  verify_blocks (suc fuel) block size =
      let rest = verify_blocks fuel (block + 1) (size - t.superblock.data_block_size) in
      if size == 0 || not (ltb block t.superblock.data_block_count)
      then ok tt
      else verify_block block >> rest

abbrev pub verify_from :
    (List ℕ → List ℕ) → Reader → ℕ → ℕ → Verity → Outcome VerityError (Unit {0})
verify_from digest r offset size t =
    if t.superblock.data_block_size == 0
    then panic
    else verify_blocks digest r t size (offset / t.superblock.data_block_size) size

unfoldable pub verify : (List ℕ → List ℕ) → Reader → Verity → ℕ → ℕ → Outcome VerityError (Unit {0})
unfolding verify_blocks
verify digest r t offset size = do
  hash t.superblock
  t' ← locate t
  verify_from digest r offset size t'
