-- ===== src/Repo/Levels.antt =====
-- How far up the search goes.
use pond.Prelude.{
  ℕ, ◌<◌, ◌≡◌, refl, ◌==◌, Bool, false, none, some, List, [], ◌∷◌, ◌++◌, All, length, arith,
  if◌then◌else◌,
}
use pond.Repo.{slash, ext, clean, secret_path, split, Found, search_levels, search}

-- A path element.
abbrev pub HasNoSlash : List ℕ → Type 0
HasNoSlash t = All (λ b. (b == slash) ≡ false) t

split-element : (t : List ℕ) → HasNoSlash t → split t ≡ ([], t)
unfolding split
split-element [] h = refl
split-element (b ∷ t) (p, h) = rw (split-element t h, p) refl

-- The parent keeps its slash.
split-append : (d t : List ℕ) → HasNoSlash t → split (d ++ (slash ∷ t)) ≡ (d ++ (slash ∷ []), t)
unfolding split
split-append [] t h = rw (split-element t h) refl
split-append (b ∷ []) t h = rw (split-append [] t h) refl
split-append (b ∷ c ∷ d) t h = rw (split-append (c ∷ d) t h) refl

-- What the search of one path gives: the file in the path itself, or the one beside its last element.
abbrev pub nearest : (List ℕ → Bool) → List ℕ → List ℕ → List ℕ → List ℕ → Found
nearest stat root what own above =
    if stat (secret_path root own what)
    then some (secret_path root own what, 0)
    else if stat (secret_path root above what)
    then some (secret_path root above what, 1)
    else none

-- With one allowed path other than the root the search looks into the path and into its parent,
-- and nowhere else: the parent ends in a slash, which Split finds again, so that the loop ends
-- there, whatever files there are further up.
pub search_parent :
    (stat : List ℕ → Bool) (root what dir d t : List ℕ)
    → 0 < length what
    → clean dir ≡ d ++ (slash ∷ t)
    → 0 < length t
    → HasNoSlash t
    → search stat root what (dir ∷ [])
      ≡ some (nearest stat root (what ++ ext) (d ++ (slash ∷ t)) (d ++ (slash ∷ [])))
unfolding search search_levels
search_parent stat root what dir d t some_name e some_tail h =
    rw e (ground (arith, split-append d t h, split-append d [] tt))
