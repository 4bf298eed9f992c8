-- ===== src/Ldd/Socache.antt =====
-- initramfs/ldd/ldsocache.go: the libraries' paths from the file that glibc's tools create.
mod First
mod Examples
use pond.Prelude.{
  ℕ, ◌+◌, ◌*◌, ◌==◌, ◌&&◌, not, Bool, true, false, Option, none, some, List, [], ◌∷◌, ◌++◌, length,
  take, drop, ltb, leb, Outcome, ok, err, ◌>>=◌, if◌then◌else◌, bytes_equal, lookup, split_on,
}
use pond.Repo.{slash, dot}
use pond.Ldd.Paths.{clean_any}

-- The path of the file, for an empty name: "/etc/ld.so.cache".
abbrev default_path : List ℕ
default_path =
    slash ∷ b'e' ∷ b't' ∷ b'c' ∷ slash ∷ b'l' ∷ b'd' ∷ dot ∷ b's' ∷ b'o' ∷ dot ∷ b'c' ∷ b'a' ∷ b'c'
    ∷ b'h' ∷ b'e' ∷ []

-- "glibc-ld.so.cache", "1.1"
abbrev pub cache_magic : List ℕ
cache_magic =
    b'g' ∷ b'l' ∷ b'i' ∷ b'b' ∷ b'c' ∷ b'-' ∷ b'l' ∷ b'd' ∷ dot ∷ b's' ∷ b'o' ∷ dot ∷ b'c' ∷ b'a'
    ∷ b'c' ∷ b'h' ∷ b'e' ∷ []

abbrev pub cache_version : List ℕ
cache_version = b'1' ∷ dot ∷ b'1' ∷ []

-- "ld-linux-x86-64.so.2"
abbrev pub ld_linux : List ℕ
ld_linux =
    b'l' ∷ b'd' ∷ b'-' ∷ b'l' ∷ b'i' ∷ b'n' ∷ b'u' ∷ b'x' ∷ b'-' ∷ b'x' ∷ b'8' ∷ b'6' ∷ b'-' ∷ b'6'
    ∷ b'4' ∷ dot ∷ b's' ∷ b'o' ∷ dot ∷ b'2' ∷ []

pub data CacheError : Type 0 where
  not_opened : CacheError
  short_header : CacheError
  bad_magic : CacheError
  bad_version : CacheError
  token_too_long : CacheError
  count_mismatch : CacheError

-- The fields of the header that have a name.
pub record CacheHeader : Type 0 where
  pub magic : List ℕ
  pub version : List ℕ
  pub count : ℕ
  pub table_size : ℕ

-- Little-endian.
abbrev le : List ℕ → ℕ
le [] = 0
le (b ∷ bs) = b + 256 * le bs

-- binary.Read of a header of 48 bytes, 20 of them without a name.
unfoldable pub read_header : List ℕ → Outcome CacheError CacheHeader
read_header bytes =
    if ltb (length bytes) 48
    then err short_header
    else ok (record {
      magic = take 17 bytes;
      version = take 3 (drop 17 bytes);
      count = le (take 4 (drop 20 bytes));
      table_size = le (take 4 (drop 24 bytes));
    })

unfoldable pub validate_header : CacheHeader → Outcome CacheError CacheHeader
validate_header h =
    if not (bytes_equal h.magic cache_magic)
    then err bad_magic
    else if not (bytes_equal h.version cache_version)
    then err bad_version
    else ok h

abbrev to_first_token : ℕ → List (List ℕ) → List (List ℕ)
to_first_token b [] = (b ∷ []) ∷ []
to_first_token b (t ∷ ts) = (b ∷ t) ∷ ts

-- The tokens of a scanner with `splitNuls`: bytes behind the last NUL are one, if there are any.
unfoldable pub split_nuls : List ℕ → List (List ℕ)
split_nuls [] = []
split_nuls (b ∷ t) = let rest = split_nuls t in if b == 0 then [] ∷ rest else to_first_token b rest

abbrev last_element : List (List ℕ) → List ℕ → List ℕ
last_element [] best = best
last_element ([] ∷ es) best = last_element es best
last_element ((b ∷ e) ∷ es) best = last_element es (b ∷ e)

-- filepath.Base
unfoldable pub base : List ℕ → List ℕ
base [] = dot ∷ []
base (b ∷ p) = last_element (split_on slash (b ∷ p)) (slash ∷ [])

abbrev starts_at_root : List ℕ → Bool
starts_at_root [] = false
starts_at_root (b ∷ p) = b == slash

-- The entries that the loop does not pass over.
unfoldable pub is_entry : List ℕ → Bool
unfolding clean_any
is_entry path =
    (leb 3 (length path) && starts_at_root path) && leb 2 (length (split_on slash (clean_any path)))

-- A path that the map has no path for: the first one stays.
abbrev pub insert_first : List ℕ → List ℕ → List (List ℕ × List ℕ) → List (List ℕ × List ℕ)
insert_first key path [] = (key, path) ∷ []
insert_first key path ((k, p) ∷ cache) =
    if bytes_equal key k then (k, p) ∷ cache else (k, p) ∷ insert_first key path cache

-- bufio.MaxScanTokenSize
abbrev pub max_token : ℕ
max_token = 65536

-- The map and the count behind a path.
unfoldable pub add_path : List ℕ → List (List ℕ × List ℕ) × ℕ → List (List ℕ × List ℕ) × ℕ
unfolding is_entry base
add_path path (cache, count) =
    if is_entry path then (insert_first (base path) path cache, count + 1) else (cache, count)

unfoldable pub scan :
    List (List ℕ) → List (List ℕ × List ℕ) × ℕ → Outcome CacheError (List (List ℕ × List ℕ) × ℕ)
unfolding add_path clean_any
scan [] found = ok found
scan (t ∷ ts) found =
    let rest = scan ts (add_path (clean_any t) found) in
    if ltb (length t) max_token then rest else err token_too_long

-- delete(cache, key)
abbrev pub delete : List ℕ → List (List ℕ × List ℕ) → List (List ℕ × List ℕ)
delete key [] = []
delete key ((k, p) ∷ cache) =
    let rest = delete key cache in if bytes_equal key k then rest else (k, p) ∷ rest

unfoldable pub counted :
    CacheHeader → List (List ℕ × List ℕ) × ℕ → Outcome CacheError (List (List ℕ × List ℕ))
counted h (cache, count) =
    if count == h.count then ok (delete ld_linux cache) else err count_mismatch

abbrev pub name_or_default : List ℕ → List ℕ
name_or_default [] = default_path
name_or_default (b ∷ name) = b ∷ name

abbrev pub opened : Option (List ℕ) → Outcome CacheError (List ℕ)
opened none = err not_opened
opened (some bytes) = ok bytes

-- `ldsoCache`, over what the files hold.
unfoldable pub ldso_cache :
    (List ℕ → Option (List ℕ)) → List ℕ → Outcome CacheError (List (List ℕ × List ℕ))
unfolding read_header validate_header split_nuls scan counted
ldso_cache files filename = do
  bytes ← opened (files (name_or_default filename))
  header ← read_header bytes
  valid ← validate_header header
  found ← scan (split_nuls (drop 48 bytes)) ([], 0)
  counted valid found
