-- ===== src/Bytepack/Headers.antt =====
-- `Wrap` on a header and what follows it.
use pond.Prelude.{
  ℕ, suc, ◌+◌, ◌*◌, ◌≤◌, ◌<◌, ◌≡◌, refl, ◌∙◌, ap, ◌==◌, ok, err, ◌>>=◌, List, [], ◌∷◌, ◌++◌, some,
  if◌then◌else◌, length, length-append, take, take-append, length-take, All, append_assoc, arith,
  min,
}
use pond.Bytepack.Utf8.{
  utf_max, encode, size, runes, encode_all, length-encode, IsScalar, runes-encode_all, runes-encode,
  length-encode_all-le,
}
use pond.Bytepack.Pack.{
  Bytepack, size_mismatch, header_size, offsets, last_end, check_total, decode_sizes, decode_count,
  decode_head, wrap,
}
use pond.Bytepack.Unpack.{sum}

pub header_size-eq : (ns : List ℕ) → header_size ns ≡ length (encode_all ns)
unfolding size
header_size-eq [] = refl
header_size-eq (n ∷ ns) = omega (arith, header_size-eq ns, length-append (encode n) (encode_all ns))

pub last_end-offsets :
    (s : ℕ) (ss : List ℕ) (from : ℕ)
    → last_end (offsets from (s ∷ ss)) (s ∷ ss) ≡ some (from + sum (s ∷ ss))
last_end-offsets s [] from = ap some (omega arith)
last_end-offsets s (t ∷ ss) from = last_end-offsets t ss (from + s) ∙ ap some (omega arith)

-- What a list looks like of which the first elements are known.
pub take_cons :
    (n : ℕ) (ns rs : List ℕ)
    → take (suc (length ns)) rs ≡ n ∷ ns
    → (rest : List ℕ) × (rs ≡ n ∷ rest) × (take (length ns) rest ≡ ns)
take_cons n ns [] e = cc
take_cons n ns (r ∷ rest) e = (rest, cc, cc)

-- `Wrap` of a header for the sizes `ls` with `body` behind it.
module _ (n : ℕ) (ls body : List ℕ) (scalars : All IsScalar (n ∷ ls)) (count : n ≡ length ls) where
  abbrev blob : List ℕ
  blob = encode_all (n ∷ ls) ++ body

  abbrev header : ℕ
  header = length (encode_all (n ∷ ls))

  pub decode_sizes-blob :
      (rs : List ℕ)
      → take (length (n ∷ ls)) rs ≡ n ∷ ls
      → decode_sizes blob rs ≡ check_total blob ls (offsets header ls)
  unfolding decode_sizes
  decode_sizes-blob rs e =
      let (rest, front, back) = take_cons n ls rs e in
      rw front (
        rw count (
          rw back (
            rw (← count) (
              ground (
                arith,
                ap (λ (t : List ℕ). length t) back,
                length-take (length ls) rest,
                header_size-eq (n ∷ ls),
              )))))

  pub decode_count-blob :
      (head : ℕ) (rs : List ℕ)
      → take 1 rs ≡ n ∷ []
      → 0 < n
      → head ≡ min utf_max (length blob)
      → decode_count blob head rs ≡ check_total blob ls (offsets header ls)
  unfolding decode_count
  decode_count-blob head rs e pos h =
      let (rest, front, _) = take_cons n [] rs e in
      let room : length (encode_all (n ∷ ls)) ≤ min (head + utf_max * n) (length blob) =
        omega (arith, length-encode_all-le (n ∷ ls), length-append (encode_all (n ∷ ls)) body) in
      let again : take (length (n ∷ ls))
            (runes (take (min (head + utf_max * n) (length blob)) blob))
          ≡ n ∷ ls =
        rw (take-append (min (head + utf_max * n) (length blob)) (encode_all (n ∷ ls)) body room)
          (runes-encode_all (n ∷ ls) _ scalars) in
      rw front (
        ground (
          arith,
          decode_sizes-blob (runes (take (min (head + utf_max * n) (length blob)) blob)) again,
        ))

  pub first_rune : (m : ℕ) → length (encode n) ≤ m → take 1 (runes (take m blob)) ≡ n ∷ []
  first_rune m fits =
      rw (append_assoc (encode n) (encode_all ls) body)
        (rw (take-append m (encode n) (encode_all ls ++ body) fits) (runes-encode n _ scalars.0))

  pub decode_head-blob : 0 < n → decode_head blob ≡ check_total blob ls (offsets header ls)
  unfolding decode_head
  decode_head-blob pos =
      let sized : length blob ≡ length (encode n) + length (encode_all ls) + length body = omega (
        arith,
        length-append (encode_all (n ∷ ls)) body,
        length-append (encode n) (encode_all ls),
      ) in
      let m : ℕ = min utf_max (length blob) in
      ground (
        arith,
        sized,
        length-encode n,
        decode_count-blob m (runes (take m blob)) (first_rune m (omega (arith, length-encode n)))
            pos refl,
      )

  -- The header is accepted exactly if the sizes in it add up to the body.
  pub wrap-blob :
      0 < n
      → wrap blob ≡ (
          if sum ls == length body
          then ok (record { blob = blob; size = ls; offset = offsets header ls })
          else err (size_mismatch (header + sum ls) (length blob)))
  unfolding wrap check_total
  wrap-blob pos = rw (decode_head-blob pos) (total ls count)
    where
      total :
          (ks : List ℕ)
          → n ≡ length ks
          → ◌>>=◌ {B = Bytepack}
              (check_total blob ks (offsets header ks))
              (λ r. ok (record { blob = blob; size = r.0; offset = r.1 }))
            ≡ (if sum ks == length body
                then ok (record { blob = blob; size = ks; offset = offsets header ks })
                else err (size_mismatch (header + sum ks) (length blob)))
      total [] e = absurd (omega arith)
      total (k ∷ ks) e =
          ground (arith, last_end-offsets k ks header, length-append (encode_all (n ∷ ls)) body)
