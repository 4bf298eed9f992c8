-- ===== src/Ldd/Closure.antt =====
-- What a successful search of initramfs/ldd has found.
use pond.Prelude.{
  ℕ, ◌≡◌, ◌⊎◌, true, Option, none, some, List, [], ◌∷◌, All, inl, inr, has, has-append_right,
  lookup, until_nul,
}
use pond.Ldd.{Elf, Machine, Recursive}
use pond.Ldd.Walk.{LddError, visit, add_found}

-- Nothing is forgotten.
pub record Grows (s s' : Recursive) : Type 0 where
  pub visited : (x : List ℕ) → has x s.visited ≡ true → has x s'.visited ≡ true
  pub found : (x : List ℕ) → has x s.found ≡ true → has x s'.found ≡ true
  pub ldcache :
      (lib path : List ℕ) → lookup lib s.ldcache ≡ some path → lookup lib s'.ldcache ≡ some path

pub Grows-refl : (s : Recursive) → Grows s s
Grows-refl s = record { visited = λ x h. h; found = λ x h. h; ldcache = λ lib path h. h }

pub Grows-trans : (a b c : Recursive) → Grows a b → Grows b c → Grows a c
Grows-trans a b c g h = record {
  visited = λ x p. h.visited x (g.visited x p);
  found = λ x p. h.found x (g.found x p);
  ldcache = λ lib path p. h.ldcache lib path (g.ldcache lib path p);
}

pub Grows-visit : (path : List ℕ) (s : Recursive) → Grows s (visit path s)
Grows-visit path s = record {
  visited = λ x h. has-append_right x (path ∷ []) s.visited h;
  found = λ x h. h;
  ldcache = λ lib p h. h;
}

pub Grows-add_found : (path : List ℕ) (s : Recursive) → Grows s (add_found path s)
Grows-add_found path s = record {
  visited = λ x h. h;
  found = λ x h. has-append_right x (path ∷ []) s.found h;
  ldcache = λ lib p h. h;
}

-- A path that has been found and searched.
abbrev pub IsFollowed : Recursive → List ℕ → Type 0
IsFollowed s path = (has path s.found ≡ true) × (has path s.visited ≡ true)

abbrev pub IsResolved : Recursive → List ℕ → Type 0
IsResolved s lib = (path : List ℕ) × (lookup lib s.ldcache ≡ some path) × IsFollowed s path

module _ (w : Machine) where
  -- What a file needs has been found and searched, too: its interpreter, and each library in the
  -- place that its name stands for.
  pub record IsDone (s : Recursive) (path : List ℕ) : Type 0 where
    pub interp :
        (exe : Elf) (raw i : List ℕ)
        → w.open_elf path ≡ some exe
        → exe.interp ≡ some raw
        → until_nul raw ≡ some i
        → IsFollowed s i
    pub libraries :
        (exe : Elf) (libs : List (List ℕ))
        → w.open_elf path ≡ some exe
        → exe.libraries ≡ some libs
        → All (IsResolved s) libs

  pub IsFollowed-Grows :
      (s s' : Recursive) (path : List ℕ) → Grows s s' → IsFollowed s path → IsFollowed s' path
  IsFollowed-Grows s s' path g (f, v) = (g.found path f, g.visited path v)

  pub IsResolved-Grows :
      (s s' : Recursive) (libs : List (List ℕ))
      → Grows s s'
      → All (IsResolved s) libs
      → All (IsResolved s') libs
  IsResolved-Grows s s' [] g h = tt
  IsResolved-Grows s s' (lib ∷ libs) g ((path, c, f), h) =
      ((path, g.ldcache lib path c, IsFollowed-Grows s s' path g f), IsResolved-Grows s s' libs g h)

  pub IsDone-Grows :
      (s s' : Recursive) (path : List ℕ) → Grows s s' → IsDone s path → IsDone s' path
  IsDone-Grows s s' path g d = record {
    interp = λ exe raw i e k u. IsFollowed-Grows s s' i g (d.interp exe raw i e k u);
    libraries = λ exe libs e k. IsResolved-Grows s s' libs g (d.libraries exe libs e k);
  }

  -- What has been visited since then is done.
  abbrev pub NewDone : Recursive → Recursive → Type 0
  NewDone s s' = (p : List ℕ) → has p s'.visited ≡ true → (has p s.visited ≡ true) ⊎ IsDone s' p

  pub NewDone-trans : (a b c : Recursive) → Grows b c → NewDone a b → NewDone b c → NewDone a c
  NewDone-trans a b c g h k p v = elim (k p v) [
    | inr d ↦ inr d
    | inl u ↦ elim (h p u) [ inl x ↦ inl x | inr d ↦ inr (IsDone-Grows b c p g d) ]
  ]

  -- A search that is sound, and if it succeeds complete.
  pub record IsSound (path : List ℕ) (s : Recursive) (r : Option LddError × Recursive)
      : Type 0 where
    pub grows : Grows s r.1
    pub success : r.0 ≡ none → (has path r.1.visited ≡ true) × NewDone s r.1
