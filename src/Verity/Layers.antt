-- ===== src/Verity/Layers.antt =====
-- Where `findFirstLeafHash` of nbd/verity/verity.go puts the leaf hashes.
use native.Mathlib.Nat.{div-add-mod', mod-lt, mul-le-mul_left}
use pond.Prelude.{
  ℕ, zero, suc, ◌+◌, ◌-◌, ◌*◌, ◌/◌, ◌%◌, ◌^◌, ◌≤◌, ◌<◌, ◌≡◌, refl, ◌∙◌, ◌==◌, true, false, List, [],
  ◌∷◌, if◌then◌else◌, ok, Bool-cases, inl, inr, arith, ltb, leb, leb→le, subst,
}
use pond.Prelude.Words.{wrap64, slt, slt-ltb}
use pond.Verity.{Verity, hash_size, layers, sum_sizes, tail, layer_fuel, find_first_leaf_hash}

-- The sizes of the layers above `n` blocks, where a block has `h` hashes: each layer has as many
-- blocks as are needed for the hashes of the one below, and the last one is a single block.
abbrev pub IsLayers : ℕ → ℕ → List ℕ → Type 0
IsLayers h n [] = n ≤ 1
IsLayers h n (m ∷ ms) = (1 < n) × (n ≤ m * h) × (m * h < n + h) × IsLayers h m ms

-- The number of blocks of a layer, as the loop computes it.
abbrev above : ℕ → ℕ → ℕ
above n h = n / h + (if n % h == 0 then 0 else 1)

above_bounds : (n h : ℕ) → 0 < h → (n ≤ above n h * h) × (above n h * h < n + h)
above_bounds n h pos =
    let e = div-add-mod' n h in
    let l = mod-lt n pos in
    elim (Bool-cases (n % h == 0)) [
      | inl z ↦
          let r : n % h ≡ 0 = ground arith in
          let s : n / h + 0 ≡ n / h = omega arith in rw (z, s) (omega arith, omega arith)
      | inr z ↦
          let r : 0 < n % h = ground arith in
          let s : (n / h + 1) * h ≡ n / h * h + h = omega arith in
          rw (z, s) (omega arith, omega arith)
    ]

-- Half as many blocks at most.
above_half : (n h bound : ℕ) → 2 ≤ h → 1 < n → n ≤ 2 * bound → above n h ≤ bound
above_half n h bound two some_blocks small = elim (Bool-cases (leb (above n h) bound)) [
  | inl e ↦ leb→le (above n h) bound e
  | inr e ↦
      let k : ℕ = above n h - 1 in
      let one : above n h ≡ k + 1 = ground arith in
      let (low, high) = above_bounds n h (omega arith) in
      let high' : (k + 1) * h < n + h = subst (λ (m : ℕ). m * h < n + h) one high in
      let twice : k * 2 ≤ k * h = mul-le-mul_left k two in
      let big : bound < above n h = ground arith in absurd (omega arith)
]

-- The loop ends and builds the layers, where a block has two hashes or more.
pub layers-IsLayers :
    (fuel h n : ℕ)
    → 2 ≤ h
    → n ≤ 2 ^ fuel
    → n < 2 ^ 63
    → (ms : List ℕ) × (layers fuel h n ≡ ok ms) × IsLayers h n ms
unfolding layers
layers-IsLayers zero h n two small bounded =
    let e : slt 1 n ≡ false = slt-ltb 1 n (omega arith) bounded ∙ ground arith in
    ([], rw e refl, small)
layers-IsLayers (suc fuel) h n two small bounded = elim (Bool-cases (ltb 1 n)) [
  | inr f ↦
      let e : slt 1 n ≡ false = slt-ltb 1 n (omega arith) bounded ∙ f in
      ([], rw e refl, ground arith)
  | inl t ↦
      let e : slt 1 n ≡ true = slt-ltb 1 n (omega arith) bounded ∙ t in
      let some_blocks : 1 < n = ground arith in
      let (low, high) = above_bounds n h (omega arith) in
      let smaller : above n h ≤ 2 ^ fuel =
        above_half n h (2 ^ fuel) two some_blocks (omega arith) in
      let less : above n h ≤ n = above_half n h n two some_blocks (omega arith) in
      let (ms, k, is) = layers-IsLayers fuel h (above n h) two smaller (omega arith) in
      let z : (h == 0) ≡ false = ground arith in
      (above n h ∷ ms, rw (e, z, k) refl, (some_blocks, low, high, is))
]

-- `findFirstLeafHash` ends, and the leaf hashes are behind the superblock's block and as many blocks
-- as all layers have together but the lowest one, which holds the leaf hashes: if a block has two
-- hashes or more, and there are less than 2 ^ 63 data blocks.
pub find_first_leaf_hash-IsLayers :
    (t : Verity)
    → 2 * hash_size ≤ t.superblock.hash_block_size
    → t.superblock.data_block_count < 2 ^ 63
    → (ms : List ℕ) × IsLayers
        (t.superblock.hash_block_size / hash_size)
        t.superblock.data_block_count
        ms
      × (find_first_leaf_hash t
          ≡ ok (record t {
            leaf_hash_offset = wrap64 (
                t.superblock_offset
                + t.superblock.hash_block_size
                + sum_sizes t.superblock.hash_block_size (tail ms));
          }))
unfolding find_first_leaf_hash
find_first_leaf_hash-IsLayers t two bounded =
    let (ms, e, is) =
      layers-IsLayers layer_fuel (t.superblock.hash_block_size / hash_size)
        t.superblock.data_block_count (omega arith) (omega arith) bounded in
    (ms, is, rw e refl)
