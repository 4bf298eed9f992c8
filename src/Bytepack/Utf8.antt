-- ===== src/Bytepack/Utf8.antt =====
-- lib/bytepack/integer.go, and what it uses of unicode/utf8: EncodeRune and DecodeRune as arithmetic.
use pond.Prelude.{
  ℕ, zero, suc, ◌+◌, ◌*◌, ◌/◌, ◌%◌, ◌^◌, ◌≤◌, ◌<◌, ◌≡◌, ◌⊎◌, ◌==◌, Bool, ◌&&◌, List, [], ◌∷◌, ◌++◌,
  ltb, leb, if◌then◌else◌, length, length-append, take, All, append_assoc, append-nil, ap, refl,
  dec_lt, arith,
}

abbrev pub utf_max : ℕ
utf_max = 4

abbrev pub rune_error : ℕ
rune_error = 0xfffd

-- utf8.EncodeRune: surrogates are replaced by `rune_error`.
unfoldable pub encode_rune : ℕ → List ℕ
encode_rune r =
    if leb r 0x7f
    then r ∷ []
    else if leb r 0x7ff
    then (0xc0 + r / 64) ∷ (0x80 + r % 64) ∷ []
    else if leb 0xd800 r && leb r 0xdfff
    then 0xef ∷ 0xbf ∷ 0xbd ∷ []
    else if leb r 0xffff
    then (0xe0 + r / 4096) ∷ (0x80 + r / 64 % 64) ∷ (0x80 + r % 64) ∷ []
    else (0xf0 + r / 262144) ∷ (0x80 + r / 4096 % 64) ∷ (0x80 + r / 64 % 64) ∷ (0x80 + r % 64) ∷ []

-- A continuation byte in the range that the first byte allows.
unfoldable pub between : ℕ → ℕ → ℕ → Bool
between lo hi b = leb lo b && leb b hi

two_bytes : ℕ → List ℕ → ℕ × List ℕ
unfolding between
two_bytes b0 (b1 ∷ rest) =
    if between 0x80 0xbf b1 then (b0 % 32 * 64 + b1 % 64, rest) else (rune_error, b1 ∷ rest)
two_bytes b0 bs = (rune_error, bs)

three_bytes : ℕ → ℕ → ℕ → List ℕ → ℕ × List ℕ
unfolding between
three_bytes lo hi b0 (b1 ∷ b2 ∷ rest) =
    if between lo hi b1 && between 0x80 0xbf b2
    then (b0 % 16 * 4096 + b1 % 64 * 64 + b2 % 64, rest)
    else (rune_error, b1 ∷ b2 ∷ rest)
three_bytes lo hi b0 bs = (rune_error, bs)

four_bytes : ℕ → ℕ → ℕ → List ℕ → ℕ × List ℕ
unfolding between
four_bytes lo hi b0 (b1 ∷ b2 ∷ b3 ∷ rest) =
    if between lo hi b1 && between 0x80 0xbf b2 && between 0x80 0xbf b3
    then (b0 % 8 * 262144 + b1 % 64 * 4096 + b2 % 64 * 64 + b3 % 64, rest)
    else (rune_error, b1 ∷ b2 ∷ b3 ∷ rest)
four_bytes lo hi b0 bs = (rune_error, bs)

-- utf8.DecodeRune on a non-empty slice: the rune and what follows it. A malformed sequence takes
-- one byte and gives `rune_error`.
unfoldable pub decode_rune : ℕ → List ℕ → ℕ × List ℕ
unfolding two_bytes three_bytes four_bytes
decode_rune b0 bs =
    if leb b0 0x7f
    then (b0, bs)
    else if leb b0 0xc1
    then (rune_error, bs)
    else if leb b0 0xdf
    then two_bytes b0 bs
    else if leb b0 0xef
    then three_bytes (if leb b0 0xe0 then 0xa0 else 0x80) (if b0 == 0xed then 0x9f else 0xbf) b0 bs
    else if leb b0 0xf4
    then four_bytes (if leb b0 0xf0 then 0x90 else 0x80) (if leb 0xf4 b0 then 0x8f else 0xbf) b0 bs
    else (rune_error, bs)

runes_loop : ℕ → List ℕ → List ℕ
runes_loop fuel [] = []
runes_loop zero (b ∷ bs) = []
runes_loop (suc fuel) (b ∷ bs) = let (r, rest) = decode_rune b bs in r ∷ runes_loop fuel rest

-- bytes.Runes: every rune takes a byte at least, so the length is fuel enough.
unfoldable pub runes : List ℕ → List ℕ
unfolding runes_loop decode_rune
runes bs = runes_loop (length bs) bs

-- Uint(n).Encode: the conversion to int32 wraps, and what is no code point becomes `rune_error`.
unfoldable pub encode : ℕ → List ℕ
unfolding encode_rune
encode n =
    let r = n % 2 ^ 32 in
    encode_rune (if ltb r (2 ^ 31) then (if ltb 0x10ffff r then rune_error else r) else rune_error)

-- Uint(n).Size
unfoldable pub size : ℕ → ℕ
size n = length (encode n)

-- The code points that UTF-8 can carry.
abbrev pub IsScalar : ℕ → Type 0
IsScalar r = (r < 0x110000) × ((r < 0xd800) ⊎ (0xdfff < r))

-- The code point that `encode n` writes.
abbrev pub carried : ℕ → ℕ
carried n =
    let r = n % 2 ^ 32 in
    if leb r 0xd7ff then r else if leb 0xe000 r && leb r 0x10ffff then r else rune_error

pub carried-IsScalar : (n : ℕ) → IsScalar (carried n)
carried-IsScalar n = ground arith

pub carried-eq_of_IsScalar : (n : ℕ) → IsScalar n → carried n ≡ n
carried-eq_of_IsScalar n h = ground arith

pub encode-carried : (n : ℕ) → encode (carried n) ≡ encode n
unfolding encode
encode-carried n = ground arith

-- One byte at least and four at most, whatever the number.
pub length-encode : (n : ℕ) → (1 ≤ length (encode n)) × (length (encode n) ≤ utf_max)
unfolding encode
length-encode n = ground arith

-- What `decode_rune` must give on the encoding of `r` with `rest` behind it.
abbrev pub Decodes : ℕ → List ℕ → Type 0
Decodes r rest =
    (b : ℕ) × (bs : List ℕ) × (encode r ++ rest ≡ b ∷ bs) × (decode_rune b bs ≡ (r, rest))

ascii_Decodes : (r : ℕ) (rest : List ℕ) → r < 0x80 → Decodes r rest
unfolding encode decode_rune
ascii_Decodes r rest h = (r, rest, ground arith, ground arith)

two_bytes_Decodes : (r : ℕ) (rest : List ℕ) → 0x80 ≤ r → r < 0x800 → Decodes r rest
unfolding encode decode_rune
two_bytes_Decodes r rest lo hi = (0xc0 + r / 64, (0x80 + r % 64) ∷ rest, ground arith, ground arith)

three_bytes_Decodes :
    (r : ℕ) (rest : List ℕ) → 0x800 ≤ r → r < 0x10000 → IsScalar r → Decodes r rest
unfolding encode decode_rune
three_bytes_Decodes r rest lo hi h =
    (0xe0 + r / 4096, (0x80 + r / 64 % 64) ∷ (0x80 + r % 64) ∷ rest, ground arith, ground arith)

four_bytes_Decodes : (r : ℕ) (rest : List ℕ) → 0x10000 ≤ r → r < 0x110000 → Decodes r rest
unfolding encode decode_rune
four_bytes_Decodes r rest lo hi = (
  0xf0 + r / 262144,
  (0x80 + r / 4096 % 64) ∷ (0x80 + r / 64 % 64) ∷ (0x80 + r % 64) ∷ rest,
  ground arith,
  ground arith,
)

pub decode-encode : (r : ℕ) (rest : List ℕ) → IsScalar r → Decodes r rest
decode-encode r rest h = elim (dec_lt r 0x80) [
  | yes p ↦ ascii_Decodes r rest p
  | no p ↦ elim (dec_lt r 0x800) [
    | yes q ↦ two_bytes_Decodes r rest (omega arith) q
    | no q ↦ elim (dec_lt r 0x10000) [
      | yes s ↦ three_bytes_Decodes r rest (omega arith) s h
      | no s ↦ four_bytes_Decodes r rest (omega arith) h.0
    ]
  ]
]

-- The encodings of a list of numbers, one behind the other.
abbrev pub encode_all : List ℕ → List ℕ
encode_all [] = []
encode_all (n ∷ ns) = encode n ++ encode_all ns

runes_loop-encode :
    (fuel r : ℕ) (rest : List ℕ)
    → IsScalar r
    → runes_loop (suc fuel) (encode r ++ rest) ≡ r ∷ runes_loop fuel rest
unfolding runes_loop
runes_loop-encode fuel r rest h = let (b, bs, e, d) = decode-encode r rest h in rw (e, d)

runes_loop-encode_all :
    (ns : List ℕ) (fuel : ℕ) (rest : List ℕ)
    → All IsScalar ns
    → length ns ≤ fuel
    → take (length ns) (runes_loop fuel (encode_all ns ++ rest)) ≡ ns
runes_loop-encode_all [] fuel rest h k = refl
runes_loop-encode_all (n ∷ ns) zero rest h k = absurd (omega arith)
runes_loop-encode_all (n ∷ ns) (suc fuel) rest (hn, hs) k =
    rw
      (
        append_assoc (encode n) (encode_all ns) rest,
        runes_loop-encode fuel n (encode_all ns ++ rest) hn,
      )
      (ap (λ t. n ∷ t) (runes_loop-encode_all ns fuel rest hs (omega arith)))

pub length-encode_all : (ns : List ℕ) → length ns ≤ length (encode_all ns)
length-encode_all [] = omega arith
length-encode_all (n ∷ ns) =
    omega (arith, length-append (encode n) (encode_all ns), length-encode n, length-encode_all ns)

pub length-encode_all-le : (ns : List ℕ) → length (encode_all ns) ≤ utf_max * length ns
length-encode_all-le [] = omega arith
length-encode_all-le (n ∷ ns) =
    omega
      (arith, length-append (encode n) (encode_all ns), length-encode n, length-encode_all-le ns)

-- Reading runes off a prefix that holds encodings gives back the numbers, whatever follows.
pub runes-encode_all :
    (ns rest : List ℕ) → All IsScalar ns → take (length ns) (runes (encode_all ns ++ rest)) ≡ ns
unfolding runes
runes-encode_all ns rest h =
    runes_loop-encode_all ns _ rest h
      (omega (arith, length-append (encode_all ns) rest, length-encode_all ns))

pub runes-encode : (n : ℕ) (rest : List ℕ) → IsScalar n → take 1 (runes (encode n ++ rest)) ≡ n ∷ []
runes-encode n rest h = rw append-nil at (runes-encode_all (n ∷ []) rest (h, tt))
