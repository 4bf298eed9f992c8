-- ===== src/Kmod/RoundTrip.antt =====
-- A .modinfo section and what initramfs/kmod/modinfo.go reads of it.
use pond.Prelude.{
  ℕ, ◌<◌, ◌≡◌, refl, ap, ◌∙◌, none, some, List, [], ◌∷◌, ◌++◌, map, ok, length, All, arith,
  IsFreeOf, join_by, split_on-join_by, split_on-head, cut_prefix, cut_prefix-append,
}
use pond.Kmod.{
  Modinfo, no_info, modinfo, alias_key, depends_key, name_key, vermagic_key, value_of, non_empty,
  read_row, read_rows, info,
}

-- The rows that a section is made of.
pub data Row : Type 0 where
  alias_row name_row foreign_row : List ℕ → Row
  depends_row : List ℕ → List (List ℕ) → Row
  vermagic_row : List ℕ → List ℕ → Row

abbrev pub line : Row → List ℕ
line (alias_row v) = alias_key ++ v
line (name_row v) = name_key ++ v
line (depends_row d ds) = depends_key ++ join_by b',' (d ∷ ds)
line (vermagic_row kernel flags) = vermagic_key ++ (kernel ++ (b' ' ∷ flags))
line (foreign_row l) = l

-- What a row tells.
abbrev pub tell : Modinfo → Row → Modinfo
tell m (alias_row v) = record m { aliases = m.aliases ++ (v ∷ []) }
tell m (name_row v) = record m { name = v }
tell m (depends_row d ds) = record m { depends = m.depends ++ (d ∷ ds) }
tell m (vermagic_row kernel flags) = record m { kernel = kernel }
tell m (foreign_row l) = m

abbrev pub tell_all : Modinfo → List Row → Modinfo
tell_all m [] = m
tell_all m (r ∷ rs) = tell_all (tell m r) rs

-- Values are not empty, and have no separator; a foreign row has none of the keys with a value.
abbrev pub IsRow : Row → Type 0
IsRow (alias_row v) = 0 < length v
IsRow (name_row v) = 0 < length v
IsRow (depends_row d ds) =
    0 < length (join_by b',' (d ∷ ds)) × IsFreeOf b',' d × All (IsFreeOf b',') ds
IsRow (vermagic_row kernel flags) = IsFreeOf b' ' kernel
IsRow (foreign_row l) =
    (value_of alias_key l ≡ none)
    × (value_of depends_key l ≡ none)
    × (value_of name_key l ≡ none)
    × (value_of vermagic_key l ≡ none)

non_empty-some : (v : List ℕ) → 0 < length v → non_empty (some v) ≡ some v
non_empty-some [] h = elim h [ ]
non_empty-some (b ∷ v) h = refl

value_of-append : (key v : List ℕ) → 0 < length v → value_of key (key ++ v) ≡ some v
value_of-append key v h = ap non_empty (cut_prefix-append key v) ∙ non_empty-some v h

length_behind : (xs : List ℕ) (b : ℕ) (ys : List ℕ) → 0 < length (xs ++ (b ∷ ys))
length_behind [] b ys = omega arith
length_behind (x ∷ xs) b ys = omega arith

read_row-tell : (m : Modinfo) (r : Row) → IsRow r → read_row m (line r) ≡ tell m r
unfolding read_row cut_prefix
read_row-tell m (alias_row v) h = rw (value_of-append alias_key v h) refl
read_row-tell m (name_row v) h = rw (value_of-append name_key v h) refl
read_row-tell m (depends_row d ds) (h, p, k) =
    rw (value_of-append depends_key (join_by b',' (d ∷ ds)) h, split_on-join_by b',' d ds p k) refl
read_row-tell m (vermagic_row kernel flags) h =
    rw
      (
        value_of-append vermagic_key (kernel ++ (b' ' ∷ flags)) (length_behind kernel b' ' flags),
        split_on-head b' ' kernel flags h,
      )
      refl
read_row-tell m (foreign_row l) (a, d, n, v) = rw (a, d, n, v) refl

read_rows-tell_all :
    (m : Modinfo) (rs : List Row) → All IsRow rs → read_rows m (map line rs) ≡ tell_all m rs
unfolding read_rows
read_rows-tell_all m [] h = refl
read_rows-tell_all m (r ∷ rs) (p, h) =
    ap (λ t. read_rows t (map line rs)) (read_row-tell m r p) ∙ read_rows-tell_all (tell m r) rs h

-- From a section of rows with zero bytes between them, in any order and with any rows of other
-- keys, `Info` reads what each row tells: all aliases and dependencies in their order, and the last
-- name and kernel; if values are not empty and rows have no zero byte, dependencies no comma, and
-- kernels no blank.
pub info-tell_all :
    (r : Row) (rs : List Row)
    → All IsRow (r ∷ rs)
    → IsFreeOf 0 (line r)
    → All (IsFreeOf 0) (map line rs)
    → info (modinfo (join_by 0 (map line (r ∷ rs)))) ≡ ok (tell_all no_info (r ∷ rs))
unfolding info
info-tell_all r rs h p k =
    rw (split_on-join_by 0 (line r) (map line rs) p k)
      (ap ok (read_rows-tell_all no_info (r ∷ rs) h))
