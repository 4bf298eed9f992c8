-- ===== src/Verity/Ends.antt =====
-- A verification by nbd/verity/verity.go ends.
use pond.Prelude.{
  ℕ, zero, suc, ◌+◌, ◌-◌, ◌*◌, ◌/◌, ◌≤◌, ◌<◌, ◌^◌, ◌≡◌, refl, ap, ◌==◌, true, not, ◌||◌, List, [],
  ◌++◌, length, ltb, min, Outcome, ok, err, panic, ◌>>=◌, Bool-cases, inl, inr, arith,
}
use pond.Prelude.Words.{slt}
use pond.Verity.{Superblock, Verity, VerityError, endless, hash_size, hash, locate}
use pond.Verity.Block.{
  Reader, copy_size, copy_n, salt_prefix, read_hash, compare_hashes, verify_block, verify_blocks,
  verify_from, verify,
}
use pond.Verity.Layers.{find_first_leaf_hash-IsLayers}

-- A value, an error of the code, or a panic.
abbrev pub Ends : {A : Type 0} → Outcome VerityError A → Type 0
Ends m = ¬ (m ≡ err endless)

bind-Ends :
    {A B : Type 0} (m : Outcome VerityError A) (f : A → Outcome VerityError B)
    → Ends m
    → ((a : A) → m ≡ ok a → Ends (f a))
    → Ends (m >>= f)
bind-Ends (ok a) f h k q = k a refl q
bind-Ends (err e) f h k q = let same : e ≡ endless = cc in h (ap err same)
bind-Ends panic f h k q = cc

-- io.ReaderAt: no more bytes than asked for, and an error with fewer.
pub record IsReaderAt (r : Reader) : Type 0 where
  pub fits : (size at : ℕ) → length (r size at).bytes ≤ size
  pub short : (size at : ℕ) → length (r size at).bytes < size → (r size at).failed ≡ true

copy_n-Ends :
    (r : Reader)
    → IsReaderAt r
    → (fuel at left : ℕ) (done : List ℕ) → left ≤ fuel
    → Ends (copy_n fuel r at left done)
unfolding copy_n
copy_n-Ends r q zero at left done l h = ground (arith, h)
copy_n-Ends r q (suc fuel) at left done l h =
    let a = r (min left copy_size) at in
    let n = length a.bytes in
    elim (Bool-cases (left == 0)) [
      | inl z ↦ ground (arith, h, z)
      | inr z ↦ elim (Bool-cases a.failed) [
        | inr f ↦
            let s = q.short (min left copy_size) at in
            let some_bytes : 0 < n = ground (arith, s, f, z) in
            copy_n-Ends r q fuel (at + n) (left - n) (done ++ a.bytes) (omega arith)
              (ground (arith, h, z, f))
        | inl f ↦ elim (Bool-cases (n == left)) [
          | inl e ↦ ground (arith, h, z, f, e)
          | inr e ↦ ground (arith, h, z, f, e)
        ]
      ]
    ]

module _ (digest : List ℕ → List ℕ) (r : Reader) (q : IsReaderAt r) where
  read_hash-Ends : (t : Verity) (index : ℕ) → Ends (read_hash r t index)
  unfolding read_hash
  read_hash-Ends t index h = ground (arith, h)

  salt_prefix-Ends : (sb : Superblock) → Ends (salt_prefix sb)
  unfolding salt_prefix
  salt_prefix-Ends sb h = ground (arith, h)

  compare_hashes-Ends : (got want : List ℕ) → Ends (compare_hashes got want)
  compare_hashes-Ends got want h = ground (arith, h)

  verify_block-Ends : (t : Verity) (index : ℕ) → Ends (verify_block digest r t index)
  unfolding verify_block
  verify_block-Ends t index = bind-Ends (read_hash r t index) _ (read_hash-Ends t index) (λ want e.
      bind-Ends (salt_prefix t.superblock) _ (salt_prefix-Ends t.superblock) (λ salt k.
        let size = t.superblock.data_block_size in
        bind-Ends (copy_n size r (index * size) size []) _
          (copy_n-Ends r q size (index * size) size [] (omega arith))
          (λ bytes j. compare_hashes-Ends (digest (salt ++ bytes)) want)))

  verify_blocks-Ends :
      (t : Verity)
      → 0 < t.superblock.data_block_size
      → (fuel block size : ℕ) → size ≤ fuel
      → Ends (verify_blocks digest r t fuel block size)
  unfolding verify_blocks
  verify_blocks-Ends t pos zero block size l = λ h. ground (arith, h)
  verify_blocks-Ends t pos (suc fuel) block size l =
      elim (Bool-cases (size == 0 || not (ltb block t.superblock.data_block_count))) [
        | inl e ↦ rw e (λ h. cc)
        | inr e ↦ rw e (
            bind-Ends (verify_block digest r t block) _ (verify_block-Ends t block) (λ u k.
              verify_blocks-Ends t pos fuel (block + 1) (size - t.superblock.data_block_size)
                (ground arith)))
      ]

  verify_from-Ends : (t : Verity) (offset size : ℕ) → Ends (verify_from digest r offset size t)
  verify_from-Ends t offset size = elim (Bool-cases (t.superblock.data_block_size == 0)) [
    | inl e ↦ rw e (λ h. cc)
    | inr e ↦ rw e (
        verify_blocks-Ends t (ground arith) size (offset / t.superblock.data_block_size) size
          (omega arith))
  ]

  locate-Ends :
      (t : Verity)
      → 2 * hash_size ≤ t.superblock.hash_block_size
      → t.superblock.data_block_count < 2 ^ 63
      → Ends (locate t)
  unfolding locate
  locate-Ends t two bounded = elim (Bool-cases (slt t.leaf_hash_offset t.superblock_offset)) [
    | inl e ↦ let (ms, is, k) = find_first_leaf_hash-IsLayers t two bounded in rw (e, k) (λ h. cc)
    | inr e ↦ rw e (λ h. cc)
  ]

  -- `Verify` ends, whatever the reader answers within the contract of io.ReaderAt: if a block of
  -- hashes has two of them or more, and there are less than 2 ^ 63 data blocks.
  pub verify-Ends :
      (t : Verity) (offset size : ℕ)
      → 2 * hash_size ≤ t.superblock.hash_block_size
      → t.superblock.data_block_count < 2 ^ 63
      → Ends (verify digest r t offset size)
  unfolding verify hash
  verify-Ends t offset size two bounded =
      bind-Ends (hash t.superblock) _ (λ h. ground (arith, h))
        (λ u e.
          bind-Ends (locate t) _ (locate-Ends t two bounded)
            (λ t' k. verify_from-Ends t' offset size))
