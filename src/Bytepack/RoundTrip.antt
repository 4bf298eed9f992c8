-- ===== src/Bytepack/RoundTrip.antt =====
-- `Wrap` on what `Pack` writes, and the way back by `Unpack`.
use pond.Prelude.{
  ℕ, suc, ◌+◌, ◌<◌, ◌≡◌, refl, ◌∙◌, ap, sym, ◌==◌, ok, err, List, [], ◌∷◌, ◌++◌, if◌then◌else◌,
  length, length-append, drop, drop-add, drop-length_append, take-length_append, All, arith,
}
use pond.Bytepack.Utf8.{
  encode, size, runes, encode_all, IsScalar, carried, carried-IsScalar, encode-carried,
  carried-eq_of_IsScalar,
}
use pond.Bytepack.Pack.{Bytepack, size_mismatch, header_size, offsets, decode_head, wrap, pack}
use pond.Bytepack.Unpack.{unpack, unpack_from-cut, cut, sum}
use pond.Bytepack.Layout.{layout, lengths, join, length-lengths, pack-wrap}
use pond.Bytepack.Headers.{header_size-eq, wrap-blob}

abbrev pub carried_all : List ℕ → List ℕ
carried_all [] = []
carried_all (n ∷ ns) = carried n ∷ carried_all ns

encode_all-carried : (ns : List ℕ) → encode_all (carried_all ns) ≡ encode_all ns
encode_all-carried [] = refl
encode_all-carried (n ∷ ns) = rw (encode-carried n, encode_all-carried ns)

carried_all-IsScalar : (ns : List ℕ) → All IsScalar (carried_all ns)
carried_all-IsScalar [] = tt
carried_all-IsScalar (n ∷ ns) = (carried-IsScalar n, carried_all-IsScalar ns)

length-carried_all : (ns : List ℕ) → length (carried_all ns) ≡ length ns
length-carried_all [] = refl
length-carried_all (n ∷ ns) = ap suc (length-carried_all ns)

carried_all-eq : (ns : List ℕ) → All IsScalar ns → carried_all ns ≡ ns
carried_all-eq [] h = refl
carried_all-eq (n ∷ ns) (h, hs) = rw (carried-eq_of_IsScalar n h, carried_all-eq ns hs)

-- The blob that `pack` makes of its input.
abbrev pub packed : List (List ℕ) → Bytepack
packed input = record {
  blob = layout input;
  size = carried_all (lengths input);
  offset = offsets (header_size (length input ∷ lengths input)) (carried_all (lengths input));
}

-- Packing any non-empty sequence, of at most as many elements as a code point can count, succeeds
-- exactly if the sizes that UTF-8 carries add up to the elements' length. Any other input gives
-- the size mismatch, never a panic.
pub pack_lem :
    (input : List (List ℕ))
    → 0 < length input
    → IsScalar (length input)
    → pack input ≡ (
        if sum (carried_all (lengths input)) == length (join input)
        then ok (packed input)
        else err (
            size_mismatch
              (header_size (length input ∷ lengths input) + sum (carried_all (lengths input)))
              (length (layout input))))
pack_lem input pos count =
    pack-wrap input
    ∙ rw (header_size-eq (length input ∷ lengths input)) (
        rw (encode_all-carried (lengths input)) at (
          wrap-blob (length input) (carried_all (lengths input)) (join input)
            (count, carried_all-IsScalar (lengths input))
            (sym (length-carried_all (lengths input) ∙ length-lengths input)) pos))

cut-join :
    (input : List (List ℕ)) (b : List ℕ) (from : ℕ)
    → drop from b ≡ join input
    → cut b from (lengths input) ≡ input
cut-join [] b from h = refl
cut-join (x ∷ xs) b from h =
    rw (h, take-length_append x (join xs))
      (ap (λ t. x ∷ t)
        (cut-join xs b (from + length x)
          (drop-add from (length x) b ∙ rw (h, drop-length_append x (join xs)))))

pub sum-lengths : (input : List (List ℕ)) → sum (lengths input) ≡ length (join input)
sum-lengths [] = refl
sum-lengths (x ∷ xs) = omega (arith, sum-lengths xs, length-append x (join xs))

pub length-offsets : (from : ℕ) (ss : List ℕ) → length (offsets from ss) ≡ length ss
length-offsets from [] = refl
length-offsets from (s ∷ ss) = ap suc (length-offsets (from + s) ss)

-- `unpack` on a blob whose header is for the sizes of `input`.
unpack-join :
    (input : List (List ℕ)) (head : List ℕ)
    → unpack (record {
      blob = head ++ join input;
      size = lengths input;
      offset = offsets (length head) (lengths input);
    })
      ≡ ok input
unfolding unpack
unpack-join input head = rw (length-offsets (length head) (lengths input)) (
    unpack_from-cut (lengths input) _ 0 (length head) refl refl
      (omega (arith, length-append head (join input), sum-lengths input))
    ∙ ap ok
        (cut-join input (head ++ join input) (length head) (drop-length_append head (join input))))

unpack-join_eq :
    (input : List (List ℕ)) (head sizes : List ℕ) (start : ℕ)
    → sizes ≡ lengths input
    → start ≡ length head
    → unpack (record { blob = head ++ join input; size = sizes; offset = offsets start sizes })
      ≡ ok input
unpack-join_eq input head sizes start e k = rw (e, k) (unpack-join input head)

unpack-pack_nil : (p : Bytepack) × (pack [] ≡ ok p) × (unpack p ≡ ok [])
unfolding pack wrap size encode decode_head runes unpack
unpack-pack_nil = (record { blob = 0 ∷ []; size = []; offset = [] }, refl, refl)

-- Whatever sequence is packed, `Unpack` returns it, provided that its length and its elements'
-- lengths are code points that UTF-8 can carry.
pub unpack-pack :
    (input : List (List ℕ))
    → IsScalar (length input)
    → All IsScalar (lengths input)
    → (p : Bytepack) × (pack input ≡ ok p) × (unpack p ≡ ok input)
unpack-pack [] count sizes = unpack-pack_nil
unpack-pack (x ∷ xs) count sizes = (
  packed (x ∷ xs),
  ground (
    arith,
    pack_lem (x ∷ xs),
    sum-lengths (x ∷ xs),
    ap sum (carried_all-eq (lengths (x ∷ xs)) sizes),
  ),
  unpack-join_eq (x ∷ xs) (encode_all (length (x ∷ xs) ∷ lengths (x ∷ xs)))
      (carried_all (lengths (x ∷ xs))) (header_size (length (x ∷ xs) ∷ lengths (x ∷ xs)))
      (carried_all-eq (lengths (x ∷ xs)) sizes)
      (header_size-eq (length (x ∷ xs) ∷ lengths (x ∷ xs))),
)
