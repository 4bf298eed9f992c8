-- ===== src/Bytepack/Unpack.antt =====
-- lib/bytepack/bytepack.go: the accessors of a wrapped blob.
use pond.Prelude.{
  ℕ, zero, suc, ◌+◌, ◌-◌, ◌≤◌, ◌≡◌, refl, ◌&&◌, ◌>>=◌, Outcome, ok, panic, none, some, List, [],
  ◌∷◌, leb, ap, if◌then◌else◌, length, take, drop, get_elem?, get_elem?-drop, arith,
}
use pond.Bytepack.Pack.{Bytepack, HeadError, offsets}

-- `b[from:to]`
unfoldable pub slice : List ℕ → ℕ → ℕ → Outcome HeadError (List ℕ)
slice b from to =
    if leb from to && leb to (length b) then ok (take (to - from) (drop from b)) else panic

unfoldable pub at : List ℕ → ℕ → Outcome HeadError ℕ
at xs i = elim (get_elem? xs i) [ none ↦ panic | some x ↦ ok x ]

-- The number of elements, `len(p.offset)`.
unfoldable pub size : Bytepack → ℕ
size p = length p.offset

unfoldable pub element : Bytepack → ℕ → Outcome HeadError (List ℕ)
unfolding at slice
element p i = do o ← at p.offset i; s ← at p.size i; slice p.blob o (o + s)

-- `n` rounds of the loop of `Unpack`, from index `i` on.
unfoldable pub unpack_from : Bytepack → ℕ → ℕ → Outcome HeadError (List (List ℕ))
unfolding element
unpack_from p i zero = ok []
unpack_from p i (suc n) = do x ← element p i; xs ← unpack_from p (suc i) n; ok (x ∷ xs)

unfoldable pub unpack : Bytepack → Outcome HeadError (List (List ℕ))
unfolding unpack_from size
unpack p = unpack_from p 0 (size p)

-- Consecutive pieces of `b` from `from` on, of the given sizes.
abbrev pub cut : List ℕ → ℕ → List ℕ → List (List ℕ)
cut b from [] = []
cut b from (s ∷ ss) = take s (drop from b) ∷ cut b (from + s) ss

abbrev pub sum : List ℕ → ℕ
sum [] = 0
sum (s ∷ ss) = s + sum ss

element-cut :
    (p : Bytepack) (i from s : ℕ) (ss os : List ℕ)
    → drop i p.size ≡ s ∷ ss
    → drop i p.offset ≡ from ∷ os
    → from + s ≤ length p.blob
    → element p i ≡ ok (take s (drop from p.blob))
unfolding element
element-cut p i from s ss os hs ho fits =
    let e = (get_elem?-drop p.size i s ss hs).0 in
    let d = (get_elem?-drop p.offset i from os ho).0 in
    let k : from + s - from ≡ s = omega arith in
    ground (arith, d, e, ap (λ (t : ℕ). take t (drop from p.blob)) k)

-- With offsets that follow from the sizes and fit the blob, the loop returns the pieces.
pub unpack_from-cut :
    (ss : List ℕ) (p : Bytepack) (i from : ℕ)
    → drop i p.size ≡ ss
    → drop i p.offset ≡ offsets from ss
    → from + sum ss ≤ length p.blob
    → unpack_from p i (length ss) ≡ ok (cut p.blob from ss)
unfolding unpack_from
unpack_from-cut [] p i from hs ho fits = refl
unpack_from-cut (s ∷ ss) p i from hs ho fits =
    rw (element-cut p i from s ss (offsets (from + s) ss) hs ho (omega arith)) (
      rw (
        unpack_from-cut ss p (suc i) (from + s) (get_elem?-drop p.size i s ss hs).1
          (get_elem?-drop p.offset i from (offsets (from + s) ss) ho).1 (omega arith)))
