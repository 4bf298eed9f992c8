-- ===== src/Repo/Examples.antt =====
-- The search of secrets/repo at concrete inputs.
use pond.Prelude.{ℕ, ◌++◌, ◌≡◌, refl, Bool, some, none, List, [], ◌∷◌, bytes_equal}
use pond.Repo.{
  slash, ext, search, search_levels, search_dirs, secret_path, clean, elements, push, keep, split,
}

abbrev root : List ℕ
root = slash ∷ b'r' ∷ []

-- "/a/b/"
abbrev allowed : List ℕ
allowed = slash ∷ b'a' ∷ slash ∷ b'b' ∷ slash ∷ []

-- "k"
abbrev what : List ℕ
what = b'k' ∷ []

-- The only secret is "/k".
abbrev only_top : List ℕ → Bool
only_top p = bytes_equal p (secret_path root (slash ∷ []) (what ++ ext))

-- It is not found from "/a/b/", but from "/a/".
search-top :
    (search only_top root what (allowed ∷ []) ≡ some none)
    × (search only_top root what ((slash ∷ b'a' ∷ slash ∷ []) ∷ [])
        ≡ some (some (secret_path root (slash ∷ []) (what ++ ext), 1)))
unfolding search search_levels search_dirs secret_path clean elements push keep split
search-top = (refl, refl)

clean_allowed : clean allowed ≡ slash ∷ b'a' ∷ slash ∷ b'b' ∷ []
unfolding clean elements push keep
clean_allowed = refl
