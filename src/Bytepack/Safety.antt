-- ===== src/Bytepack/Safety.antt =====
-- What `Wrap` accepts can be unpacked: no slice of it is out of bounds.
use pond.Prelude.{
  ℕ, ◌+◌, ◌-◌, ◌≤◌, ◌≡◌, refl, sym, ◌⊎◌, ok, err, panic, Outcome, List, [], ◌∷◌, length, take, drop,
  take-append-drop, drop-add, drop_all, length-take, length-drop, Bool-cases, ◌==◌, ◌*◌, inl, inr,
  arith, min,
}
use pond.Bytepack.Utf8.{utf_max, runes}
use pond.Bytepack.Pack.{
  Bytepack, HeadError, header_size, offsets, check_total, decode_sizes, decode_count, decode_head,
  wrap,
}
use pond.Bytepack.Unpack.{unpack, unpack_from-cut, cut, sum}
use pond.Bytepack.Layout.{join, lengths}
use pond.Bytepack.RoundTrip.{length-offsets}
use pond.Bytepack.Headers.{last_end-offsets}

-- Sizes and offsets that fit the blob: each offset follows from the last, and the end is the
-- blob's end.
pub record Fits (blob size offset : List ℕ) : Type 0 where
  pub start : ℕ
  pub follow : offset ≡ offsets start size
  pub total : (size ≡ []) ⊎ (start + sum size ≡ length blob)

check_total-Fits :
    (e ss : List ℕ) (from : ℕ) (r : List ℕ × List ℕ)
    → check_total e ss (offsets from ss) ≡ ok r
    → Fits e r.0 r.1
unfolding check_total
check_total-Fits e [] from r h = cc
check_total-Fits e (s ∷ ss) from r h = record {
  start = from;
  follow = ground (arith, last_end-offsets s ss from);
  total = inr (ground (arith, last_end-offsets s ss from));
}

nothing-Fits : (e size offset : List ℕ) → size ≡ [] → offset ≡ [] → Fits e size offset
nothing-Fits e size offset p q = record { start = 0; follow = rw p q; total = inl p }

module _ (e size offset : List ℕ) where
  decode_sizes-Fits : (rs : List ℕ) → decode_sizes e rs ≡ ok (size, offset) → Fits e size offset
  unfolding decode_sizes
  decode_sizes-Fits [] h = cc
  decode_sizes-Fits (r0 ∷ rs) h =
      check_total-Fits e (take r0 rs) (header_size (r0 ∷ take r0 rs)) (size, offset) (ground arith)

  decode_count-Fits :
      (head : ℕ) (rs : List ℕ) → decode_count e head rs ≡ ok (size, offset) → Fits e size offset
  unfolding decode_count
  decode_count-Fits head [] h = cc
  decode_count-Fits head (r0 ∷ rs) h = elim (Bool-cases (r0 == 0)) [
    | inl p ↦ nothing-Fits e size offset (ground arith) (ground arith)
    | inr p ↦
        decode_sizes-Fits (runes (take (min (head + utf_max * r0) (length e)) e)) (ground arith)
  ]

  decode_head-Fits : decode_head e ≡ ok (size, offset) → Fits e size offset
  unfolding decode_head
  decode_head-Fits h = elim (Bool-cases (min utf_max (length e) == 0)) [
    | inl p ↦ nothing-Fits e size offset (ground arith) (ground arith)
    | inr p ↦
        decode_count-Fits (min utf_max (length e)) (runes (take (min utf_max (length e)) e))
          (ground arith)
  ]

-- The pieces of the blob behind the header, one behind the other, are the rest of the blob.
join-cut :
    (b : List ℕ) (from : ℕ) (ss : List ℕ)
    → from + sum ss ≡ length b
    → join (cut b from ss) ≡ drop from b
join-cut b from [] h = sym (drop_all from b (omega arith))
join-cut b from (s ∷ ss) h =
    rw (join-cut b (from + s) ss (omega arith), drop-add from s b)
      (take-append-drop s (drop from b))

lengths-cut :
    (b : List ℕ) (from : ℕ) (ss : List ℕ) → from + sum ss ≤ length b → lengths (cut b from ss) ≡ ss
lengths-cut b from [] h = refl
lengths-cut b from (s ∷ ss) h = ground (
  arith,
  length-take s (drop from b),
  length-drop from b,
  lengths-cut b (from + s) ss (omega arith),
)

-- A blob that `p` wraps, and the elements that `Unpack` must give.
pub record Unpacks (e : List ℕ) (p : Bytepack) (out : List (List ℕ)) : Type 0 where
  pub result : unpack p ≡ ok out
  pub sizes : lengths out ≡ p.size
  pub bytes : (out ≡ []) ⊎ (join out ≡ drop (length e - sum p.size) e)

-- There are elements for what `p` wraps.
abbrev pub Opens : List ℕ → List ℕ → List ℕ → Type 0
Opens e size offset =
    (out : List (List ℕ)) × Unpacks e (record { blob = e; size = size; offset = offset }) out

Opens-cut :
    (e size : List ℕ) (start : ℕ) → start + sum size ≡ length e → Opens e size (offsets start size)
unfolding unpack
Opens-cut e size start h = (
  cut e start size,
  record {
    result =
        rw (length-offsets start size) (unpack_from-cut size _ 0 start refl refl (omega arith));
    sizes = lengths-cut e start size (omega arith);
    bytes =
        let k : length e - sum size ≡ start = omega arith in inr (rw k (join-cut e start size h));
  },
)

Opens-nil : (e : List ℕ) → Opens e [] []
unfolding unpack
Opens-nil e = ([], record { result = refl; sizes = refl; bytes = inl refl })

Fits-Opens : (e size offset : List ℕ) → Fits e size offset → Opens e size offset
Fits-Opens e size offset fits = elim fits.total [
  | inl nil ↦ rw (fits.follow, nil) (Opens-nil e)
  | inr all ↦ rw fits.follow (Opens-cut e size fits.start all)
]

-- Any blob that `Wrap` accepts can be unpacked without a panic. The elements have the sizes of the
-- header, and one behind the other they are the end of the blob, unless there is no element.
pub wrap-Unpacks :
    (e : List ℕ) (p : Bytepack) → wrap e ≡ ok p → (out : List (List ℕ)) × Unpacks e p out
unfolding wrap
wrap-Unpacks e p h = go (decode_head e) refl
  where
    go :
        (d : Outcome HeadError (List ℕ × List ℕ))
        → decode_head e ≡ d
        → (out : List (List ℕ)) × Unpacks e p out
    go (ok (size, offset)) q =
        let k : p ≡ record { blob = e; size = size; offset = offset } = ground (arith, h, q) in
        rw k (Fits-Opens e size offset (decode_head-Fits e size offset q))
    go (err x) q = absurd (ground (arith, h, q))
    go panic q = absurd (ground (arith, h, q))
