-- ===== src/Bytepack/Layout.antt =====
-- What `Pack` writes: the count, the sizes and the elements, each whole.
use pond.Prelude.{
  ℕ, suc, ok, ◌+◌, ◌-◌, ◌*◌, ◌≤◌, ◌≡◌, refl, ◌∙◌, ap, sym, List, [], ◌∷◌, ◌++◌, length,
  length-append, take_all, append-nil, append_assoc, arith,
}
use pond.Bytepack.Utf8.{utf_max, encode, size, encode_all, length-encode, length-encode_all-le}
use pond.Bytepack.Pack.{ceiling, put_sizes, put_elements, pack, wrap}

abbrev pub lengths : List (List ℕ) → List ℕ
lengths [] = []
lengths (x ∷ xs) = length x ∷ lengths xs

abbrev pub join : List (List ℕ) → List ℕ
join [] = []
join (x ∷ xs) = x ++ join xs

abbrev pub layout : List (List ℕ) → List ℕ
layout input = encode_all (length input ∷ lengths input) ++ join input

ceiling-join :
    (input : List (List ℕ)) → ceiling input ≡ utf_max + utf_max * length input + length (join input)
unfolding ceiling
ceiling-join [] = refl
ceiling-join (x ∷ xs) = omega (arith, ceiling-join xs, length-append x (join xs))

pub length-lengths : (input : List (List ℕ)) → length (lengths input) ≡ length input
length-lengths [] = refl
length-lengths (x ∷ xs) = ap suc (length-lengths xs)

put_sizes-encode_all :
    (input : List (List ℕ)) (ceil : ℕ) (out : List ℕ)
    → length out + utf_max * length input ≤ ceil
    → put_sizes ceil out input ≡ ok (out ++ encode_all (lengths input))
unfolding put_sizes size
put_sizes-encode_all [] ceil out fits = ap ok (sym (append-nil out))
put_sizes-encode_all (x ∷ xs) ceil out fits = ground (
  arith,
  length-encode (length x),
  length-append out (encode (length x)),
  append_assoc out (encode (length x)) (encode_all (lengths xs)),
  put_sizes-encode_all xs ceil (out ++ encode (length x)),
)

put_elements-join :
    (input : List (List ℕ)) (ceil : ℕ) (out : List ℕ)
    → length out + length (join input) ≤ ceil
    → put_elements ceil out input ≡ out ++ join input
unfolding put_elements
put_elements-join [] ceil out fits = sym (append-nil out)
put_elements-join (x ∷ xs) ceil out fits =
    let room : length x + length (join xs) ≤ ceil - length out =
      omega (arith, length-append x (join xs)) in
    rw (take_all (ceil - length out) x (omega arith)) (
      put_elements-join xs ceil (out ++ x)
        (omega (arith, length-append x (join xs), length-append out x))
      ∙ append_assoc out x (join xs))

-- The buffer is large enough: nothing panics and nothing is cut off.
pub pack-wrap : (input : List (List ℕ)) → pack input ≡ wrap (layout input)
unfolding pack size
pack-wrap input =
    let counted : List ℕ = encode (length input) in
    let sized : List ℕ = counted ++ encode_all (lengths input) in
    let room : ceiling input ≡ utf_max + utf_max * length input + length (join input) =
      ceiling-join input in
    ground (
      arith,
      length-encode (length input),
      length-append counted (encode_all (lengths input)),
      length-encode_all-le (lengths input),
      length-lengths input,
      put_sizes-encode_all input (ceiling input) counted,
      put_elements-join input (ceiling input) sized,
    )
