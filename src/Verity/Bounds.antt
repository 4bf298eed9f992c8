-- ===== src/Verity/Bounds.antt =====
-- What `validate` of nbd/verity/verity.go does not check: the size of the salt.
use pond.Prelude.{
  ℕ, zero, suc, ◌+◌, ◌*◌, ◌/◌, ◌<◌, ◌≡◌, refl, sym, ◌∙◌, ap, ◌==◌, true, false, List, length, leb,
  ltb, until_nul, until_nul-take, bytes_equal, bytes_equal→≡, Option-cases, ok, panic, Bool-cases,
  inl, inr, arith, take,
}
use pond.Verity.{validate, sha256_name, Superblock, Verity, hash_size, hash, locate}
use pond.Verity.Block.{Reader, salt_prefix, read_hash, verify_block, verify_blocks, verify}

module _ (digest : List ℕ → List ℕ) (r : Reader) (t : Verity) where
  read_hash-full :
      (index : ℕ)
      → (r hash_size (t.leaf_hash_offset + index * hash_size)).failed ≡ false
      → length (r hash_size (t.leaf_hash_offset + index * hash_size)).bytes ≡ hash_size
      → read_hash r t index ≡ ok (r hash_size (t.leaf_hash_offset + index * hash_size)).bytes
  unfolding read_hash
  read_hash-full index f n =
      let e : (length (r hash_size (t.leaf_hash_offset + index * hash_size)).bytes == hash_size)
          ≡ true =
        ground arith in
      rw (f, e) refl

  first_panics :
      (fuel block size : ℕ)
      → ltb block t.superblock.data_block_count ≡ true
      → 0 < size
      → verify_block digest r t block ≡ panic
      → verify_blocks digest r t (suc fuel) block size ≡ panic
  unfolding verify_blocks
  first_panics fuel block size q some_bytes e =
      let n : (size == 0) ≡ false = ground arith in rw (n, q, e) refl

  -- A salt that is said to be longer than its field makes every verification of a block whose hash
  -- can be read panic.
  salt_panics :
      (index : ℕ)
      → length t.superblock.salt < t.superblock.salt_size
      → (r hash_size (t.leaf_hash_offset + index * hash_size)).failed ≡ false
      → length (r hash_size (t.leaf_hash_offset + index * hash_size)).bytes ≡ hash_size
      → verify_block digest r t index ≡ panic
  unfolding verify_block salt_prefix
  salt_panics index long f n =
      let e : leb t.superblock.salt_size (length t.superblock.salt) ≡ false = ground arith in
      rw (read_hash-full index f n, e) refl

-- A superblock that passes `validate` names a hash function that is known.
validate-hash : (sb : Superblock) → validate sb ≡ ok tt → hash sb ≡ ok tt
unfolding validate hash
validate-hash sb h = elim (Option-cases (until_nul sb.algorithm)) [
  | inl n ↦ ground (arith, h, n)
  | inr (name, k) ↦ elim (Bool-cases (bytes_equal name sha256_name)) [
    | inl e ↦
        let q : name ≡ sha256_name = bytes_equal→≡ name sha256_name e in
        let six : length name ≡ 6 = ap length q in
        let p : take 6 sb.algorithm ≡ sha256_name =
          ap (λ (n : ℕ). take n sb.algorithm) (sym six)
          ∙ (until_nul-take sb.algorithm name k ∙ q) in
        rw p refl
    | inr e ↦ ground (arith, h, k, e)
  ]
]

-- A superblock may pass `validate` and say that its salt is longer than the field of 256 bytes: then
-- `Verify` panics, if the leaf hashes have been located, the region is not empty and begins in a
-- block of the tree, and the hash of this block can be read.
pub verify_panics :
    (digest : List ℕ → List ℕ) (r : Reader) (t : Verity) (offset size : ℕ)
    → validate t.superblock ≡ ok tt
    → locate t ≡ ok t
    → length t.superblock.salt < t.superblock.salt_size
    → 0 < size
    → 0 < t.superblock.data_block_size
    → offset / t.superblock.data_block_size < t.superblock.data_block_count
    → (let at = t.leaf_hash_offset + offset / t.superblock.data_block_size * hash_size in
        (r hash_size at).failed ≡ false
        → length (r hash_size at).bytes ≡ hash_size
        → verify digest r t offset size ≡ panic)
unfolding verify
verify_panics digest r t offset (suc size) valid located long some_bytes positive inside readable
      full =
    let index = offset / t.superblock.data_block_size in
    let p : (t.superblock.data_block_size == 0) ≡ false = ground arith in
    let q : ltb index t.superblock.data_block_count ≡ true = ground arith in
    rw (validate-hash t.superblock valid, located, p)
      (first_panics digest r t size index (suc size) q some_bytes
        (salt_panics digest r t index long readable full))
verify_panics digest r t offset zero valid located long some_bytes positive inside readable full =
    absurd (omega arith)
