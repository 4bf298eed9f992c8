-- ===== src/Prelude/Strings.antt =====
-- Go strings as byte lists: ==, and what the program uses of the packages strings and bytes.
use Prim.Native.Nat.{ℕ}
use mathlib.Core.Path.{◌≡◌, refl, ap}
use mathlib.Core.Logic.{inl, inr}
use mathlib.Core.Bool.{Bool, true, false, ◌&&◌, ◌||◌}
use mathlib.Core.Option.{Option, none, some}
use mathlib.Core.List.{List, [], ◌∷◌, ◌++◌}
use native.Mathlib.Omega.{arith}
use pond.Prelude.Tests.{Bool-cases, Option-cases, ◌==◌, if◌then◌else◌}
use pond.Prelude.Lists.{All, take, length}

abbrev pub bytes_equal : List ℕ → List ℕ → Bool
bytes_equal [] [] = true
bytes_equal (a ∷ xs) (b ∷ ys) = a == b && bytes_equal xs ys
bytes_equal xs ys = false

pub bytes_equal_refl : (xs : List ℕ) → bytes_equal xs xs ≡ true
bytes_equal_refl [] = refl
bytes_equal_refl (x ∷ xs) = ground (arith, bytes_equal_refl xs)

pub bytes_equal→≡ : (xs ys : List ℕ) → bytes_equal xs ys ≡ true → xs ≡ ys
bytes_equal→≡ [] [] h = refl
bytes_equal→≡ [] (y ∷ ys) h = cc
bytes_equal→≡ (x ∷ xs) [] h = cc
bytes_equal→≡ (x ∷ xs) (y ∷ ys) h = ground (arith, bytes_equal→≡ xs ys)

-- A key of a map[string]struct{}.
abbrev pub has : List ℕ → List (List ℕ) → Bool
has x [] = false
has x (y ∷ ys) = bytes_equal x y || has x ys

pub has_head : (x : List ℕ) (xs : List (List ℕ)) → has x (x ∷ xs) ≡ true
has_head x xs = rw (bytes_equal_refl x) refl

pub has-append_left :
    (x : List ℕ) (xs ys : List (List ℕ)) → has x xs ≡ true → has x (xs ++ ys) ≡ true
has-append_left x [] ys h = cc
has-append_left x (y ∷ xs) ys h = ground (arith, has-append_left x xs ys)

pub has-append_right :
    (x : List ℕ) (xs ys : List (List ℕ)) → has x ys ≡ true → has x (xs ++ ys) ≡ true
has-append_right x [] ys h = h
has-append_right x (y ∷ xs) ys h = ground (arith, has-append_right x xs ys h)

-- An entry of a map[string]V, the latest one first.
abbrev pub lookup {ℓ} : {V : Type ℓ} → List ℕ → List (List ℕ × V) → Option V
lookup x [] = none
lookup x ((y, v) ∷ entries) = if bytes_equal x y then some v else lookup x entries

-- strings.Split by a single byte.
abbrev pub to_first : ℕ → List (List ℕ) → List (List ℕ)
to_first b [] = (b ∷ []) ∷ []
to_first b (e ∷ es) = (b ∷ e) ∷ es

unfoldable pub split_on : ℕ → List ℕ → List (List ℕ)
split_on sep [] = [] ∷ []
split_on sep (b ∷ s) = let rest = split_on sep s in if b == sep then [] ∷ rest else to_first b rest

-- strings.Join by a single byte.
unfoldable pub join_by : ℕ → List (List ℕ) → List ℕ
join_by sep [] = []
join_by sep (s ∷ []) = s
join_by sep (s ∷ t ∷ ts) = s ++ (sep ∷ join_by sep (t ∷ ts))

-- strings.CutPrefix: what is behind the prefix, if it is there.
unfoldable pub cut_prefix : List ℕ → List ℕ → Option (List ℕ)
cut_prefix [] s = some s
cut_prefix (p ∷ ps) [] = none
cut_prefix (p ∷ ps) (b ∷ s) = if p == b then cut_prefix ps s else none

-- s[:bytes.IndexByte(s, 0)], which is out of bounds where there is no such byte.
abbrev prepend : ℕ → Option (List ℕ) → Option (List ℕ)
prepend b none = none
prepend b (some s) = some (b ∷ s)

unfoldable pub until_nul : List ℕ → Option (List ℕ)
until_nul [] = none
until_nul (b ∷ s) = let rest = until_nul s in if b == 0 then some [] else prepend b rest

pub until_nul-take : (s name : List ℕ) → until_nul s ≡ some name → take (length name) s ≡ name
unfolding until_nul
until_nul-take [] name h = cc
until_nul-take (b ∷ s) name h = elim (Bool-cases (b == 0)) [
  | inl e ↦ let q : [] ≡ name = ground (arith, h, e) in rw (← q) refl
  | inr e ↦ elim (Option-cases (until_nul s)) [
    | inl n ↦ ground (arith, h, e, n)
    | inr (t, k) ↦
        let q : b ∷ t ≡ name = ground (arith, h, e, k) in
        rw (← q) (ap (λ x. b ∷ x) (until_nul-take s t k))
  ]
]

-- A string without a byte.
abbrev pub IsFreeOf : ℕ → List ℕ → Type 0
IsFreeOf sep s = All (λ b. (b == sep) ≡ false) s

pub split_on-head :
    (sep : ℕ) (s t : List ℕ) → IsFreeOf sep s → split_on sep (s ++ (sep ∷ t)) ≡ s ∷ split_on sep t
unfolding split_on
split_on-head sep [] t h = let e : (sep == sep) ≡ true = ground arith in rw e refl
split_on-head sep (b ∷ s) t (p, h) = rw (split_on-head sep s t h, p) refl

pub split_on_single : (sep : ℕ) (s : List ℕ) → IsFreeOf sep s → split_on sep s ≡ s ∷ []
unfolding split_on
split_on_single sep [] h = refl
split_on_single sep (b ∷ s) (p, h) = rw (split_on_single sep s h, p) refl

pub split_on-join_by :
    (sep : ℕ) (s : List ℕ) (ts : List (List ℕ))
    → IsFreeOf sep s
    → All (IsFreeOf sep) ts
    → split_on sep (join_by sep (s ∷ ts)) ≡ s ∷ ts
unfolding join_by
split_on-join_by sep s [] h k = split_on_single sep s h
split_on-join_by sep s (t ∷ ts) h (p, k) =
    rw (split_on-head sep s (join_by sep (t ∷ ts)) h, split_on-join_by sep t ts p k) refl

pub cut_prefix-append : (p s : List ℕ) → cut_prefix p (p ++ s) ≡ some s
unfolding cut_prefix
cut_prefix-append [] s = refl
cut_prefix-append (b ∷ p) s =
    let e : (b == b) ≡ true = ground arith in rw (e, cut_prefix-append p s) refl
