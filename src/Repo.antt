-- ===== src/Repo.antt =====
-- secrets/repo/search.go: the search for a secret in the paths that a user may read, and what it
-- uses of path/filepath.
pub mod Levels
mod Examples
use pond.Prelude.{
  ℕ, zero, suc, ◌+◌, ◌==◌, ◌&&◌, ◌||◌, Bool, true, false, not, Option, none, some, List, [], ◌∷◌,
  ◌++◌, ltb, length, if◌then◌else◌,
}

abbrev pub slash : ℕ
slash = b'/'

abbrev pub ext : List ℕ
ext = b'.' ∷ b'x' ∷ []

-- "secrets"
abbrev pub secrets_dir : List ℕ
secrets_dir = b's' ∷ b'e' ∷ b'c' ∷ b'r' ∷ b'e' ∷ b't' ∷ b's' ∷ []

-- The first element of a path, in front of those behind it.
abbrev pub add_byte : ℕ → List (List ℕ) → List (List ℕ)
add_byte b [] = (b ∷ []) ∷ []
add_byte b (e ∷ es) = (b ∷ e) ∷ es

-- The elements between the slashes.
unfoldable pub elements : List ℕ → List (List ℕ)
elements [] = [] ∷ []
elements (b ∷ p) = let rest = elements p in if b == slash then [] ∷ rest else add_byte b rest

abbrev pub parent : List (List ℕ) → List (List ℕ)
parent [] = []
parent (e ∷ es) = es

-- An element of a rooted path behind those that are kept, the last one first.
abbrev pub dot : ℕ
dot = b'.'

unfoldable pub push : List (List ℕ) → List ℕ → List (List ℕ)
push kept [] = kept
push kept (a ∷ []) = if a == dot then kept else (a ∷ []) ∷ kept
push kept (a ∷ b ∷ []) = if a == dot && b == dot then parent kept else (a ∷ b ∷ []) ∷ kept
push kept e = e ∷ kept

unfoldable pub keep : List (List ℕ) → List (List ℕ) → List (List ℕ)
unfolding push
keep kept [] = kept
keep kept (e ∷ es) = keep (push kept e) es

abbrev pub render : List (List ℕ) → List ℕ → List ℕ
render [] tail = tail
render (e ∷ es) tail = render es (slash ∷ (e ++ tail))

abbrev pub or_root : List ℕ → List ℕ
or_root [] = slash ∷ []
or_root (b ∷ p) = b ∷ p

-- filepath.Clean of a rooted path.
unfoldable pub clean : List ℕ → List ℕ
unfolding elements keep
clean p = or_root (render (keep [] (elements p)) [])

-- filepath.Join(root, secretsDir, dir, what), with a root that begins with a slash.
unfoldable pub secret_path : List ℕ → List ℕ → List ℕ → List ℕ
unfolding clean
secret_path root dir what =
    clean (root ++ (slash ∷ (secrets_dir ++ (slash ∷ (dir ++ (slash ∷ what))))))

abbrev pub split_at : ℕ → List ℕ × List ℕ → List ℕ × List ℕ
split_at b ([], file) = if b == slash then (b ∷ [], file) else ([], b ∷ file)
split_at b (d ∷ dir, file) = (b ∷ d ∷ dir, file)

-- filepath.Split: what is behind the last slash, and the rest, which ends in that slash.
unfoldable pub split : List ℕ → List ℕ × List ℕ
split [] = ([], [])
split (b ∷ p) = split_at b (split p)

-- What has been found, with its level.
abbrev pub Found : Type 0
Found = Option (List ℕ × ℕ)

abbrev pub better : ℕ → Found → Bool
better level none = true
better level (some (path, found_level)) = ltb level found_level

-- The inner loop: `stat` tells which files there are, `tail` is not empty when a round begins.
-- The result is also whether the outer loop is left.
unfoldable pub search_levels :
    ℕ → (List ℕ → Bool) → List ℕ → List ℕ → List ℕ → List ℕ → ℕ → Found → Option (Found × Bool)
search_levels zero stat root what dir tail level found = none
search_levels (suc fuel) stat root what dir tail level found =
    let path = secret_path root dir what in
    let found' = if stat path then some (path, level) else found in
    let next = split dir in
    let rest = search_levels fuel stat root what next.0 next.1 (level + 1) found' in
    if length tail == 0 || not (better level found)
    then some (found, false)
    else if stat path && level == 0
    then some (found', true)
    else rest

-- Three rounds for a path are enough.
abbrev pub level_fuel : ℕ
level_fuel = 3

-- "initial value", of which only matters that it is not empty.
abbrev pub initial_tail : List ℕ
initial_tail = b'i' ∷ []

abbrev pub go_on : Option (Found × Bool) → (Found → Option Found) → Option Found
go_on none k = none
go_on (some (found, true)) k = some found
go_on (some (found, false)) k = k found

-- The outer loop.
unfoldable pub search_dirs :
    (List ℕ → Bool) → List ℕ → List ℕ → List (List ℕ) → Found → Option Found
search_dirs stat root what [] found = some found
search_dirs stat root what (dir ∷ dirs) found =
    go_on (search_levels level_fuel stat root what (clean dir) initial_tail 0 found)
      (search_dirs stat root what dirs)

-- The file that `Search` loads, if any; `none` outside means that the fuel ran out.
unfoldable pub search : (List ℕ → Bool) → List ℕ → List ℕ → List (List ℕ) → Option Found
unfolding search_dirs
search stat root what dirs =
    if length what == 0 || length dirs == 0
    then some none
    else search_dirs stat root (what ++ ext) dirs none
