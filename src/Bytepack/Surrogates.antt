-- ===== src/Bytepack/Surrogates.antt =====
-- Sizes in the surrogate range, U+D800 to U+DFFF, which UTF-8 cannot carry: `Pack` fails on them.
use pond.Prelude.{
  ℕ, ◌+◌, ◌≤◌, ◌<◌, ◌≡◌, err, List, [], ◌∷◌, ◌++◌, length, length-append, All, arith,
}
use pond.Bytepack.Utf8.{IsScalar, carried}
use pond.Bytepack.Pack.{HeadError, size_mismatch, header_size, pack}
use pond.Bytepack.Unpack.{sum}
use pond.Bytepack.Layout.{layout, lengths}
use pond.Bytepack.RoundTrip.{carried_all, pack_lem, sum-lengths}

le-carried : (n : ℕ) → n < 0x110000 → n ≤ carried n
le-carried n h = ground arith

lt-carried : (n : ℕ) → 0xd800 ≤ n → n ≤ 0xdfff → n < carried n
lt-carried n lo hi = ground arith

sum-le-carried : (ns : List ℕ) → All (λ n. n < 0x110000) ns → sum ns ≤ sum (carried_all ns)
sum-le-carried [] h = omega arith
sum-le-carried (n ∷ ns) (h, hs) = omega (arith, le-carried n h, sum-le-carried ns hs)

sum-lt-carried :
    (front : List (List ℕ)) (x : List ℕ) (back : List (List ℕ))
    → All (λ n. n < 0x110000) (lengths (front ++ (x ∷ back)))
    → 0xd800 ≤ length x
    → length x ≤ 0xdfff
    → sum (lengths (front ++ (x ∷ back))) < sum (carried_all (lengths (front ++ (x ∷ back))))
sum-lt-carried [] x back (h, hs) lo hi =
    omega (arith, lt-carried (length x) lo hi, sum-le-carried (lengths back) hs)
sum-lt-carried (y ∷ ys) x back (h, hs) lo hi =
    omega (arith, le-carried (length y) h, sum-lt-carried ys x back hs lo hi)

-- One element of 55296 to 57343 bytes makes `Pack` fail, where no element has 1114112 bytes or
-- more and the number of elements can be carried.
pub pack_surrogate :
    (front : List (List ℕ)) (x : List ℕ) (back : List (List ℕ))
    → IsScalar (length (front ++ (x ∷ back)))
    → All (λ n. n < 0x110000) (lengths (front ++ (x ∷ back)))
    → 0xd800 ≤ length x
    → length x ≤ 0xdfff
    → (e : HeadError) × (pack (front ++ (x ∷ back)) ≡ err e)
pack_surrogate front x back count small lo hi =
    let input : List (List ℕ) = front ++ (x ∷ back) in
    (
      size_mismatch (header_size (length input ∷ lengths input) + sum (carried_all (lengths input)))
          (length (layout input)),
      ground (
        arith,
        pack_lem input,
        length-append front (x ∷ back),
        sum-lt-carried front x back small lo hi,
        sum-lengths input,
      ),
    )
