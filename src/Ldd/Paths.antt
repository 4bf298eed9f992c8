-- ===== src/Ldd/Paths.antt =====
-- path/filepath for paths that need not be rooted, as initramfs/ldd uses it.
use pond.Prelude.{ℕ, ◌==◌, ◌&&◌, Bool, false, List, [], ◌∷◌, ◌++◌, if◌then◌else◌}
use pond.Repo.{slash, dot, elements, clean}

abbrev dots : List ℕ
dots = dot ∷ dot ∷ []

-- A step up, behind the elements that are kept, the last one first.
abbrev is_dots : List ℕ → Bool
is_dots (a ∷ b ∷ []) = a == dot && b == dot
is_dots [] = false
is_dots (a ∷ []) = false
is_dots (a ∷ b ∷ c ∷ e) = false

abbrev up : List (List ℕ) → List (List ℕ)
up [] = dots ∷ []
up (e ∷ es) = if is_dots e then dots ∷ e ∷ es else es

abbrev push_relative : List (List ℕ) → List ℕ → List (List ℕ)
push_relative kept [] = kept
push_relative kept (a ∷ []) = if a == dot then kept else (a ∷ []) ∷ kept
push_relative kept (a ∷ b ∷ []) = if a == dot && b == dot then up kept else (a ∷ b ∷ []) ∷ kept
push_relative kept (a ∷ b ∷ c ∷ e) = (a ∷ b ∷ c ∷ e) ∷ kept

abbrev keep_relative : List (List ℕ) → List (List ℕ) → List (List ℕ)
keep_relative kept [] = kept
keep_relative kept (e ∷ es) = keep_relative (push_relative kept e) es

abbrev render_relative : List (List ℕ) → List ℕ → List ℕ
render_relative [] tail = tail
render_relative (e ∷ []) tail = e ++ tail
render_relative (e ∷ f ∷ es) tail = render_relative (f ∷ es) (slash ∷ (e ++ tail))

abbrev or_dot : List ℕ → List ℕ
or_dot [] = dot ∷ []
or_dot (b ∷ p) = b ∷ p

-- filepath.Clean
unfoldable pub clean_any : List ℕ → List ℕ
unfolding elements clean
clean_any [] = dot ∷ []
clean_any (b ∷ p) =
    if b == slash
    then clean (b ∷ p)
    else or_dot (render_relative (keep_relative [] (elements (b ∷ p))) [])

-- filepath.Join of two elements.
unfoldable pub join : List ℕ → List ℕ → List ℕ
unfolding clean_any
join [] [] = []
join [] (b ∷ p) = clean_any (b ∷ p)
join (a ∷ dir) [] = clean_any (a ∷ dir)
join (a ∷ dir) (b ∷ p) = clean_any ((a ∷ dir) ++ (slash ∷ b ∷ p))
