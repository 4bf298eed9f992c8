-- ===== src/Bytepack/Pack.antt =====
-- lib/bytepack/bytepack.go: the writer `Pack`, and `Wrap` with the parser of its header.
use pond.Prelude.{
  ℕ, ◌+◌, ◌-◌, ◌*◌, ◌==◌, ◌>>=◌, Outcome, ok, err, panic, Option, none, some, List, [], ◌∷◌, ◌++◌,
  ltb, leb, if◌then◌else◌, length, take, min,
}
use pond.Bytepack.Utf8.{utf_max, encode, size, runes}

pub data HeadError : Type 0 where
  too_short : HeadError
  -- the number of elements advertised, and of sizes provided
  missing_sizes : ℕ → ℕ → HeadError
  -- the size calculated from the header, and that of the blob
  size_mismatch : ℕ → ℕ → HeadError

pub record Bytepack : Type 0 where
  pub blob : List ℕ
  pub size : List ℕ
  pub offset : List ℕ

-- The header's length: the sum of `Uint(r[i]).Size()`.
abbrev pub header_size : List ℕ → ℕ
header_size [] = 0
header_size (r ∷ rs) = size r + header_size rs

-- offset[0] is the header's length, offset[i] is offset[i-1] + size[i-1].
abbrev pub offsets : ℕ → List ℕ → List ℕ
offsets at [] = []
offsets at (s ∷ ss) = at ∷ offsets (at + s) ss

-- offset[len(offset)-1] + size[len(size)-1]; `none` is the panic on an empty slice.
abbrev pub last_end : List ℕ → List ℕ → Option ℕ
last_end (o ∷ []) (s ∷ []) = some (o + s)
last_end (o ∷ os) (s ∷ ss) = last_end os ss
last_end os ss = none

unfoldable pub check_total : List ℕ → List ℕ → List ℕ → Outcome HeadError (List ℕ × List ℕ)
check_total encoded size offset = elim (last_end offset size) [
  | none ↦ panic
  | some got ↦
      if got == length encoded then ok (size, offset) else err (size_mismatch got (length encoded))
]

-- The second reading of the runes, `r`, with the sizes of all elements.
unfoldable pub decode_sizes : List ℕ → List ℕ → Outcome HeadError (List ℕ × List ℕ)
unfolding check_total
decode_sizes encoded [] = panic
decode_sizes encoded (r0 ∷ rs) =
    if ltb (length rs + 1) (r0 + 1)
    then err (missing_sizes r0 (length rs))
    else (let sizes = take r0 rs in
        check_total encoded sizes (offsets (header_size (r0 ∷ sizes)) sizes))

-- The first reading of the runes gives the number of elements.
unfoldable pub decode_count : List ℕ → ℕ → List ℕ → Outcome HeadError (List ℕ × List ℕ)
unfolding decode_sizes
decode_count encoded head [] = err too_short
decode_count encoded head (r0 ∷ _) =
    if r0 == 0
    then ok ([], [])
    else decode_sizes encoded (runes (take (min (head + utf_max * r0) (length encoded)) encoded))

unfoldable pub decode_head : List ℕ → Outcome HeadError (List ℕ × List ℕ)
unfolding decode_count
decode_head encoded =
    let head = min utf_max (length encoded) in
    if head == 0 then ok ([], []) else decode_count encoded head (runes (take head encoded))

unfoldable pub wrap : List ℕ → Outcome HeadError Bytepack
wrap encoded = do
  (size, offset) ← decode_head encoded
  ok (record { blob = encoded; size = size; offset = offset })

-- The size of the output buffer of `Pack`.
unfoldable pub ceiling : List (List ℕ) → ℕ
ceiling [] = utf_max
ceiling (elem ∷ rest) = ceiling rest + utf_max + length elem

-- `Uint(n).Encode(buf[cur:])` into a buffer of `ceil` bytes, of which `out` are written. It panics
-- where the encoding does not fit.
unfoldable pub put_uint : ℕ → List ℕ → ℕ → Outcome HeadError (List ℕ)
put_uint ceil out n = if leb (length out + size n) ceil then ok (out ++ encode n) else panic

-- `copy(buf[cur:], elem)` keeps what fits.
unfoldable pub put_bytes : ℕ → List ℕ → List ℕ → List ℕ
put_bytes ceil out elem = out ++ take (ceil - length out) elem

unfoldable pub put_sizes : ℕ → List ℕ → List (List ℕ) → Outcome HeadError (List ℕ)
unfolding put_uint
put_sizes ceil out [] = ok out
put_sizes ceil out (elem ∷ rest) = do
  out' ← put_uint ceil out (length elem)
  put_sizes ceil out' rest

unfoldable pub put_elements : ℕ → List ℕ → List (List ℕ) → List ℕ
unfolding put_bytes
put_elements ceil out [] = out
put_elements ceil out (elem ∷ rest) = put_elements ceil (put_bytes ceil out elem) rest

unfoldable pub pack : List (List ℕ) → Outcome HeadError Bytepack
unfolding ceiling put_sizes put_elements
pack input = do
  counted ← put_uint (ceiling input) [] (length input)
  sized ← put_sizes (ceiling input) counted input
  wrap (put_elements (ceiling input) sized input)
