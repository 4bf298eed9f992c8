-- ===== src/Ldd/Socache/Examples.antt =====
-- A file of ld.so.cache with two libraries of one name.
use pond.Prelude.{
  ℕ, ◌≡◌, refl, Option, none, some, List, [], ◌∷◌, ◌++◌, drop, length, ok, if◌then◌else◌,
  bytes_equal, lookup, arith, split_on,
}
use pond.Repo.{clean, elements, keep, push}
use pond.Ldd.Paths.{clean_any}
use pond.Ldd.Socache.{
  CacheHeader, cache_magic, cache_version, ld_linux, read_header, validate_header, split_nuls,
  is_entry, ldso_cache,
}
use pond.Ldd.Socache.First.{entries, first_with, ldso_cache-first_with}

-- "/l/a", "/m/a" and a token that is no path.
abbrev strings : List ℕ
strings = b'/' ∷ b'l' ∷ b'/' ∷ b'a' ∷ 0 ∷ b'/' ∷ b'm' ∷ b'/' ∷ b'a' ∷ 0 ∷ b'b' ∷ []

abbrev header : CacheHeader
header = record { magic = cache_magic; version = cache_version; count = 2; table_size = 0 }

abbrev zeros : List ℕ
zeros = 0 ∷ 0 ∷ 0 ∷ 0 ∷ 0 ∷ 0 ∷ 0 ∷ 0 ∷ 0 ∷ []

abbrev bytes : List ℕ
bytes = cache_magic ++ (cache_version ++ (2 ∷ (zeros ++ (zeros ++ (zeros ++ strings)))))

abbrev files : List ℕ → Option (List ℕ)
files name = some bytes

bytes-read_header : read_header bytes ≡ ok header
unfolding read_header
bytes-read_header = refl

header-validate_header : validate_header header ≡ ok header
unfolding validate_header
header-validate_header = refl

two_entries : length (entries (split_nuls (drop 48 bytes))) ≡ 2
unfolding split_nuls is_entry clean_any clean elements keep push split_on
two_entries = refl

ldso_cache-first_with_example :
    (cache : List (List ℕ × List ℕ)) × (ldso_cache files [] ≡ ok cache)
    × ((name : List ℕ)
        → lookup name cache ≡ (
            if bytes_equal name ld_linux
            then none
            else first_with name (entries (split_nuls (drop 48 bytes)))))
unfolding split_nuls
ldso_cache-first_with_example =
    ldso_cache-first_with files [] bytes header refl bytes-read_header header-validate_header
      (omega arith, (omega arith, (omega arith, tt))) two_entries
