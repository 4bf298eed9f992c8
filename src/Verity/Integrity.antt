-- ===== src/Verity/Integrity.antt =====
-- What a verification by nbd/verity/verity.go says about the disk behind the reader.
use pond.Prelude.{
  ℕ, zero, suc, ◌+◌, ◌-◌, ◌*◌, ◌/◌, ◌≤◌, ◌<◌, ◌≡◌, refl, sym, subst, ◌∙◌, ap, ◌==◌, true, false,
  List, [], ◌∷◌, ◌++◌, append-nil, append_assoc, length, take, ltb, leb, min, ok, ◌>>◌, bytes_equal,
  bytes_equal→≡, Bool-cases, inl, inr, arith,
}
use pond.Access.Trust.{bind_ok}
use pond.Verity.{Verity, hash_size, hash, locate}
use pond.Verity.Block.{
  Reader, copy_size, copy_n, salt_prefix, read_hash, compare_hashes, verify_block, verify_blocks,
  verify_from, verify,
}

-- The bytes of a disk from an offset on.
unfoldable pub span : (ℕ → ℕ) → ℕ → ℕ → List ℕ
span disk at zero = []
span disk at (suc n) = disk at ∷ span disk (at + 1) n

pub length-span : (disk : ℕ → ℕ) (at n : ℕ) → length (span disk at n) ≡ n
unfolding span
length-span disk at zero = refl
length-span disk at (suc n) = ap suc (length-span disk (at + 1) n)

span-add :
    (disk : ℕ → ℕ) (at m n : ℕ) → span disk at m ++ span disk (at + m) n ≡ span disk at (m + n)
unfolding span
span-add disk at zero n =
    let e : at + 0 ≡ at = omega arith in let z : 0 + n ≡ n = omega arith in rw (e, z) refl
span-add disk at (suc m) n =
    let e : at + suc m ≡ at + 1 + m = omega arith in
    let z : suc m + n ≡ suc (m + n) = omega arith in
    rw (e, z) (ap (λ t. disk at ∷ t) (span-add disk (at + 1) m n))

span_nothing :
    (disk : ℕ → ℕ) (at left : ℕ) (done : List ℕ)
    → (left == 0) ≡ true
    → done ++ span disk at left ≡ done
unfolding span
span_nothing disk at zero done h = append-nil done
span_nothing disk at (suc n) done h = ground arith

module _ (r : Reader) (disk : ℕ → ℕ) where
  -- The reader may fail and be short, but what it gives are the disk's bytes, and not too many.
  pub record IsTruthful : Type 0 where
    pub fits : (size at : ℕ) → length (r size at).bytes ≤ size
    pub tells : (size at : ℕ) → (r size at).bytes ≡ span disk at (length (r size at).bytes)

  copy_n-span :
      IsTruthful
      → (fuel at left : ℕ) (done out : List ℕ) → copy_n fuel r at left done ≡ ok out
      → out ≡ done ++ span disk at left
  unfolding copy_n
  copy_n-span q zero at left done out h = elim (Bool-cases (left == 0)) [
    | inl z ↦
        let e : done ≡ out = ground (arith, h, z) in sym e ∙ sym (span_nothing disk at left done z)
    | inr z ↦ ground (arith, h, z)
  ]
  copy_n-span q (suc fuel) at left done out h =
      let a = r (min left copy_size) at in
      let n = length a.bytes in
      let l = q.fits (min left copy_size) at in
      let t = q.tells (min left copy_size) at in
      let all : n + (left - n) ≡ left = omega arith in
      elim (Bool-cases (left == 0)) [
        | inl z ↦
            let e : done ≡ out = ground (arith, h, z) in
            sym e ∙ sym (span_nothing disk at left done z)
        | inr z ↦ elim (Bool-cases a.failed) [
          | inr f ↦
              copy_n-span q fuel (at + n) (left - n) (done ++ a.bytes) out (ground (arith, h, z, f))
              ∙ (append_assoc done a.bytes (span disk (at + n) (left - n))
                  ∙ ap (λ x. done ++ x)
                      (ap (λ x. x ++ span disk (at + n) (left - n)) t
                        ∙ (span-add disk at n (left - n) ∙ ap (span disk at) all)))
          | inl f ↦ elim (Bool-cases (n == left)) [
            | inl e ↦
                let whole : done ++ a.bytes ≡ out = ground (arith, h, z, f, e) in
                let same : n ≡ left = ground arith in
                sym whole ∙ ap (λ x. done ++ x) (t ∙ ap (span disk at) same)
            | inr e ↦ ground (arith, h, z, f, e)
          ]
        ]
      ]

module _ (digest : List ℕ → List ℕ) (disk : ℕ → ℕ) (t : Verity) where
  -- The stored hash of a block is that of the salt and the block's bytes.
  abbrev pub IsIntact : ℕ → Type 0
  IsIntact block =
      digest (
        take t.superblock.salt_size t.superblock.salt
        ++ span disk (block * t.superblock.data_block_size) t.superblock.data_block_size)
      ≡ span disk (t.leaf_hash_offset + block * hash_size) hash_size

  read_hash-span :
      (r : Reader)
      → IsTruthful r disk
      → (index : ℕ) (want : List ℕ) → read_hash r t index ≡ ok want
      → want ≡ span disk (t.leaf_hash_offset + index * hash_size) hash_size
  unfolding read_hash
  read_hash-span r q index want h =
      let at = t.leaf_hash_offset + index * hash_size in
      let a = r hash_size at in
      elim (Bool-cases a.failed) [
        | inl f ↦ ground (arith, h, f)
        | inr f ↦ elim (Bool-cases (length a.bytes == hash_size)) [
          | inl e ↦
              let same : a.bytes ≡ want = ground (arith, h, f, e) in
              let n : length a.bytes ≡ hash_size = ground arith in
              sym same ∙ (q.tells hash_size at ∙ ap (span disk at) n)
          | inr e ↦ ground (arith, h, f, e)
        ]
      ]

  salt_prefix_lem :
      (salt : List ℕ)
      → salt_prefix t.superblock ≡ ok salt
      → take t.superblock.salt_size t.superblock.salt ≡ salt
  unfolding salt_prefix
  salt_prefix_lem salt h =
      elim (Bool-cases (leb t.superblock.salt_size (length t.superblock.salt))) [
        | inl e ↦ ground (arith, h, e)
        | inr e ↦ ground (arith, h, e)
      ]

  compare_hashes_lem : (got want : List ℕ) → compare_hashes got want ≡ ok tt → got ≡ want
  compare_hashes_lem got want h = elim (Bool-cases (bytes_equal got want)) [
    | inl e ↦ bytes_equal→≡ got want e
    | inr e ↦ ground (arith, h, e)
  ]

  verify_block-IsIntact :
      (r : Reader)
      → IsTruthful r disk
      → (index : ℕ) → verify_block digest r t index ≡ ok tt
      → IsIntact index
  unfolding verify_block
  verify_block-IsIntact r q index h =
      let (want, e, h1) = bind_ok (read_hash r t index) _ tt h in
      let (salt, k, h2) = bind_ok (salt_prefix t.superblock) _ tt h1 in
      let size = t.superblock.data_block_size in
      let (bytes, b, h3) = bind_ok (copy_n size r (index * size) size []) _ tt h2 in
      let c = copy_n-span r disk q size (index * size) size [] bytes b in
      ap digest (ap (λ x. x ++ span disk (index * size) size) (salt_prefix_lem salt k))
      ∙ (ap (λ x. digest (salt ++ x)) (sym c)
          ∙ (compare_hashes_lem (digest (salt ++ bytes)) want h3 ∙ read_hash-span r q index want e))

  verify_blocks-IsIntact :
      (r : Reader)
      → IsTruthful r disk
      → (fuel block size index : ℕ) → verify_blocks digest r t fuel block size ≡ ok tt
      → block ≤ index
      → (index - block) * t.superblock.data_block_size < size
      → index < t.superblock.data_block_count
      → IsIntact index
  unfolding verify_blocks
  verify_blocks-IsIntact r q zero block size index h l inside small = ground arith
  verify_blocks-IsIntact r q (suc fuel) block size index h l inside small =
      let step : ℕ = t.superblock.data_block_size in
      let some_left : (size == 0) ≡ false = ground arith in
      let in_tree : ltb block t.superblock.data_block_count ≡ true = ground arith in
      let h' : (verify_block digest r t block
            >> verify_blocks digest r t fuel (block + 1) (size - step))
          ≡ ok tt =
        ground (arith, h, some_left, in_tree) in
      let (u, e, k) = bind_ok (verify_block digest r t block) _ tt h' in
      elim (Bool-cases (block == index)) [
        | inl same ↦
            let p : block ≡ index = ground arith in
            subst IsIntact p (verify_block-IsIntact r q block e)
        | inr later ↦
            let one : index - block ≡ suc (index - (block + 1)) = ground arith in
            let inside' : suc (index - (block + 1)) * step < size =
              subst (λ (n : ℕ). n * step < size) one inside in
            verify_blocks-IsIntact r q fuel (block + 1) (size - step) index k (ground arith)
              (omega arith) small
      ]

-- Where the leaf hashes are.
abbrev pub Located : Verity → Verity → Type 0
Located t t' = locate t ≡ ok t'

-- If `Verify` returns no error, then every block in the region has the hash that the tree stores
-- for it: the blocks from the one of the offset on, one for each block size that is begun, up to the
-- number of blocks. The reader may fail and give fewer bytes than asked for, but gives the disk's
-- bytes; the leaf hashes lie where `findFirstLeafHash` puts them.
pub verify-IsIntact :
    (digest : List ℕ → List ℕ) (disk : ℕ → ℕ) (r : Reader) (t t' : Verity) (offset size index : ℕ)
    → IsTruthful r disk
    → Located t t'
    → verify digest r t offset size ≡ ok tt
    → offset / t'.superblock.data_block_size ≤ index
    → (index - offset / t'.superblock.data_block_size) * t'.superblock.data_block_size < size
    → index < t'.superblock.data_block_count
    → IsIntact digest disk t' index
unfolding verify
verify-IsIntact digest disk r t t' offset size index q located h l inside small =
    let (u, e, h1) = bind_ok (hash t.superblock) _ tt h in
    let (t1, e1, h2) = bind_ok (locate t) _ tt h1 in
    let same : t1 ≡ t' = cc in
    let h3 = subst (λ v. verify_from digest r offset size v ≡ ok tt) same h2 in
    let positive : (t'.superblock.data_block_size == 0) ≡ false = ground (arith, h3) in
    verify_blocks-IsIntact digest disk t' r q size (offset / t'.superblock.data_block_size) size
      index (ground (arith, h3, positive)) l inside small
