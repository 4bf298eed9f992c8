-- ===== src/Ldd/Socache/First.antt =====
-- initramfs/ldd/ldsocache.go: which path a library's name has.
use pond.Prelude.{
  ℕ, ◌+◌, ◌<◌, ◌≡◌, refl, sym, ap, ◌∙◌, ◌==◌, Bool, true, false, Option, none, some, List, [], ◌∷◌,
  length, drop, ltb, ok, if◌then◌else◌, bytes_equal, bytes_equal→≡, lookup, Bool-cases, inl, inr,
  arith, All,
}
use pond.Ldd.Paths.{clean_any}
use pond.Ldd.Socache.{
  CacheHeader, read_header, validate_header, ld_linux, split_nuls, base, is_entry, insert_first,
  max_token, add_path, scan, delete, counted, name_or_default, ldso_cache,
}

-- The paths that the tokens give, in their order.
abbrev pub entries : List (List ℕ) → List (List ℕ)
entries [] = []
entries (t ∷ ts) =
    let rest = entries ts in if is_entry (clean_any t) then clean_any t ∷ rest else rest

-- The first path whose last element is the name.
abbrev pub first_with : List ℕ → List (List ℕ) → Option (List ℕ)
first_with name [] = none
first_with name (p ∷ ps) = if bytes_equal name (base p) then some p else first_with name ps

abbrev or_else : Option (List ℕ) → Option (List ℕ) → Option (List ℕ)
or_else none q = q
or_else (some p) q = some p

or_else-none : (p : Option (List ℕ)) → or_else p none ≡ p
or_else-none none = refl
or_else-none (some p) = refl

lookup-insert_first :
    (name key path : List ℕ) (cache : List (List ℕ × List ℕ))
    → lookup name (insert_first key path cache)
      ≡ or_else (lookup name cache) (if bytes_equal name key then some path else none)
lookup-insert_first name key path [] = refl
lookup-insert_first name key path ((k, p) ∷ cache) = elim (Bool-cases (bytes_equal key k)) [
  | inl e ↦
      let same : key ≡ k = bytes_equal→≡ key k e in
      elim (Bool-cases (bytes_equal name k)) [
        | inl f ↦ rw (e, f) refl
        | inr f ↦
            let g : bytes_equal name key ≡ false = ap (bytes_equal name) same ∙ f in
            rw (e, f, g) (sym (or_else-none (lookup name cache)))
      ]
  | inr e ↦ rw e (elim (Bool-cases (bytes_equal name k)) [
    | inl f ↦ rw f refl
    | inr f ↦ rw f (lookup-insert_first name key path cache)
  ])
]

lookup-delete :
    (name key : List ℕ) (cache : List (List ℕ × List ℕ))
    → lookup name (delete key cache) ≡ (if bytes_equal name key then none else lookup name cache)
lookup-delete name key [] = elim (Bool-cases (bytes_equal name key)) [
  | inl e ↦ rw e refl
  | inr e ↦ rw e refl
]
lookup-delete name key ((k, p) ∷ cache) = elim (Bool-cases (bytes_equal key k)) [
  | inl e ↦
      let same : key ≡ k = bytes_equal→≡ key k e in
      rw (e, lookup-delete name key cache, ← same)
        (elim (Bool-cases (bytes_equal name key)) [ inl f ↦ rw f refl | inr f ↦ rw f refl ])
  | inr e ↦
      rw (e, lookup-delete name key cache)
        (elim (Bool-cases (bytes_equal name key)) [
          | inl f ↦
              let g : bytes_equal name k ≡ false =
                ap (λ x. bytes_equal x k) (bytes_equal→≡ name key f) ∙ e in
              rw (f, g) refl
          | inr f ↦ rw f refl
        ])
]

abbrev pub IsShort : List ℕ → Type 0
IsShort t = length t < max_token

or_else-or_else :
    (p : Option (List ℕ)) (b : Bool) (path : List ℕ) (q : Option (List ℕ))
    → or_else (or_else p (if b then some path else none)) q ≡ or_else p (if b then some path else q)
or_else-or_else none true path q = refl
or_else-or_else none false path q = refl
or_else-or_else (some p) b path q = refl

-- What a scan has told, to a map and a count before it.
abbrev Tells : List (List ℕ) → List (List ℕ × List ℕ) × ℕ → List (List ℕ × List ℕ) × ℕ → Type 0
Tells ps found found' =
    ((name : List ℕ) → lookup name found'.0 ≡ or_else (lookup name found.0) (first_with name ps))
    × (found'.1 ≡ found.1 + length ps)

add_path-Tells :
    (ps : List (List ℕ)) (path : List ℕ) (found found' : List (List ℕ × List ℕ) × ℕ)
    → Tells ps (add_path path found) found'
    → Tells (if is_entry path then path ∷ ps else ps) found found'
unfolding add_path
add_path-Tells ps path found found' (f, n) = elim (Bool-cases (is_entry path)) [
  | inl q ↦
      let g : add_path path found ≡ (insert_first (base path) path found.0, found.1 + 1) =
        rw q refl in
      let one : found'.1 ≡ found.1 + length (path ∷ ps) =
        omega (arith, n ∙ ap (λ c. c.1 + length ps) g) in
      rw q (
        (λ name.
            f name
            ∙ ap (λ c. or_else (lookup name c.0) (first_with name ps)) g
            ∙ ap (λ o. or_else o (first_with name ps))
                (lookup-insert_first name (base path) path found.0)
            ∙ or_else-or_else (lookup name found.0) (bytes_equal name (base path)) path
                (first_with name ps)),
        one,
      )
  | inr q ↦
      let g : add_path path found ≡ found = rw q refl in
      rw q (
        (λ name. f name ∙ ap (λ c. or_else (lookup name c.0) (first_with name ps)) g),
        n ∙ ap (λ c. c.1 + length ps) g,
      )
]

scan-Tells :
    (ts : List (List ℕ)) (found : List (List ℕ × List ℕ) × ℕ)
    → All IsShort ts
    → (found' : List (List ℕ × List ℕ) × ℕ) × (scan ts found ≡ ok found')
      × Tells (entries ts) found found'
unfolding scan
scan-Tells [] found h =
    (found, refl, ((λ name. sym (or_else-none (lookup name found.0))), omega arith))
scan-Tells (t ∷ ts) found (short, h) =
    let fits : ltb (length t) max_token ≡ true = ground arith in
    let (found', e, told) = scan-Tells ts (add_path (clean_any t) found) h in
    (found', rw fits e, add_path-Tells (entries ts) (clean_any t) found found' told)

-- The cache of a file with a valid header, no token of 65536 bytes or more, and as many entries as
-- the header says, is read: a name other than that of the loader has the first path that ends in
-- it, where there is one, and the loader's has none.
pub ldso_cache-first_with :
    (files : List ℕ → Option (List ℕ)) (filename bytes : List ℕ) (h : CacheHeader)
    → files (name_or_default filename) ≡ some bytes
    → read_header bytes ≡ ok h
    → validate_header h ≡ ok h
    → All IsShort (split_nuls (drop 48 bytes))
    → length (entries (split_nuls (drop 48 bytes))) ≡ h.count
    → (cache : List (List ℕ × List ℕ)) × (ldso_cache files filename ≡ ok cache)
      × ((name : List ℕ)
          → lookup name cache ≡ (
              if bytes_equal name ld_linux
              then none
              else first_with name (entries (split_nuls (drop 48 bytes)))))
unfolding ldso_cache counted
ldso_cache-first_with files filename bytes h file header valid short count =
    let (found, e, (f, n)) = scan-Tells (split_nuls (drop 48 bytes)) ([], 0) short in
    let same : (found.1 == h.count) ≡ true = ground (arith, n, count) in
    (
      delete ld_linux found.0,
      rw (file, header, valid, e, same) refl,
      (λ name.
          lookup-delete name ld_linux found.0
          ∙ ap (λ o. if bytes_equal name ld_linux then none else o) (f name)),
    )
