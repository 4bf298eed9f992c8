-- ===== src/Kmod/Consistency.antt =====
-- The paths on record are those of files that tell the module's name, and what a loop over
-- dependencies does to them and to the set of loaded modules.
use pond.Prelude.{
  ℕ, ◌≡◌, refl, sym, ◌∙◌, ap, subst, true, Option, none, some, List, [], ◌∷◌, Outcome, ok, err,
  panic, has, lookup, bytes_equal, bytes_equal→≡, All, Bool-cases, arith, inl, inr,
}
use pond.Access.Trust.{bind_ok}
use pond.Kmod.{Modinfo, InfoError}
use pond.Kmod.Load.{
  Machine, Kmod, LoadError, Run, refresh_file, refresh, refresh_paths, is_empty, collect, load_deps,
}

abbrev pub IsLoaded : Kmod → List ℕ → Type 0
IsLoaded s x = has x s.loaded ≡ true

-- No module is forgotten.
abbrev pub Grows : Kmod → Kmod → Type 0
Grows s s' = (x : List ℕ) → IsLoaded s x → IsLoaded s' x

module _ (w : Machine) where
  -- Each path that is on record is that of a file which tells the module's name.
  abbrev pub IsConsistent : Kmod → Type 0
  IsConsistent s =
      (x path : List ℕ)
      → lookup x s.modpath ≡ some path
      → (m : Modinfo) × (w.info_of path ≡ ok m) × (m.name ≡ x)

  refresh_file-IsConsistent :
      (path : List ℕ) (r : Outcome InfoError Modinfo) (s : Kmod)
      → w.info_of path ≡ r
      → IsConsistent s
      → IsConsistent (refresh_file r path s)
  unfolding refresh_file
  refresh_file-IsConsistent path (ok m) s e c = λ x p h. elim (Bool-cases (bytes_equal x m.name)) [
    | inl t ↦
        let q : path ≡ p = ground (arith, h) in
        (m, sym (ap w.info_of q) ∙ e, sym (bytes_equal→≡ x m.name t))
    | inr f ↦ c x p (ground (arith, h))
  ]
  refresh_file-IsConsistent path (err z) s e c = c
  refresh_file-IsConsistent path panic s e c = c

  pub refresh-IsConsistent :
      (paths : List (List ℕ)) (s : Kmod) → IsConsistent s → IsConsistent (refresh w paths s)
  unfolding refresh
  refresh-IsConsistent [] s c = c
  refresh-IsConsistent (path ∷ paths) s c =
      refresh-IsConsistent paths (refresh_file (w.info_of path) path s)
        (refresh_file-IsConsistent path (w.info_of path) s refl c)

  refresh_file-loaded :
      (path : List ℕ) (r : Outcome InfoError Modinfo) (s : Kmod)
      → (refresh_file r path s).loaded ≡ s.loaded
  unfolding refresh_file
  refresh_file-loaded path (ok m) s = refl
  refresh_file-loaded path (err e) s = refl
  refresh_file-loaded path panic s = refl

  refresh-loaded : (paths : List (List ℕ)) (s : Kmod) → (refresh w paths s).loaded ≡ s.loaded
  unfolding refresh
  refresh-loaded [] s = refl
  refresh-loaded (path ∷ paths) s =
      refresh-loaded paths (refresh_file (w.info_of path) path s)
      ∙ refresh_file-loaded path (w.info_of path) s

  pub refresh_paths-IsConsistent : (s : Kmod) → IsConsistent s → IsConsistent (refresh_paths w s)
  unfolding refresh_paths
  refresh_paths-IsConsistent s c = elim (Bool-cases (is_empty s.modpath)) [
    | inl t ↦ rw t (refresh-IsConsistent w.files s c)
    | inr f ↦ rw f c
  ]

  pub refresh_paths-loaded : (s : Kmod) → (refresh_paths w s).loaded ≡ s.loaded
  unfolding refresh_paths
  refresh_paths-loaded s = elim (Bool-cases (is_empty s.modpath)) [
    | inl t ↦ rw t (refresh-loaded w.files s)
    | inr f ↦ rw f refl
  ]

  -- What a call leaves behind.
  pub record IsSound (s : Kmod) (x : List ℕ) (r : Option LoadError × Kmod) : Type 0 where
    pub consistent : IsConsistent r.1
    pub grows : Grows s r.1
    pub loaded : r.0 ≡ none → IsLoaded r.1 x

  module _ (one : Kmod → List ℕ → Run)
      (one-IsSound : (s : Kmod) (x : List ℕ) (r : Option LoadError × Kmod)
        → IsConsistent s
        → one s x ≡ ok r
        → IsSound s x r) where
    abbrev DepsLoaded : List LoadError → Kmod → List (List ℕ) → Type 0
    DepsLoaded errs s deps = errs ≡ [] → All (IsLoaded s) deps

    collect-none :
        (e : Option LoadError) (es : List LoadError) → collect e es ≡ [] → (e ≡ none) × (es ≡ [])
    collect-none none es h = (refl, h)
    collect-none (some e) es h = cc

    pub load_deps_lem :
        (s : Kmod) (deps : List (List ℕ)) (r : List LoadError × Kmod)
        → IsConsistent s
        → load_deps one s deps ≡ ok r
        → IsConsistent r.1 × Grows s r.1 × DepsLoaded r.0 r.1 deps
    unfolding load_deps
    load_deps_lem s [] r c h = let q : r ≡ ([], s) = cc in rw q (c, (λ x t. t), λ e. tt)
    load_deps_lem s (d ∷ deps) r c h =
        let (first, e, h') = bind_ok (one s d) _ r h in
        let (rest, k, h'') = bind_ok (load_deps one first.1 deps) _ r h' in
        let sound = one-IsSound s d first c e in
        let (c', g, l) = load_deps_lem first.1 deps rest sound.consistent k in
        let q : (collect first.0 rest.0, rest.1) ≡ r = cc in
        subst (λ t. IsConsistent t.1 × Grows s t.1 × DepsLoaded t.0 t.1 (d ∷ deps)) q
          (
            c',
            (λ x t. g x (sound.grows x t)),
            λ z. let (p, n) = collect-none first.0 rest.0 z in (g d (sound.loaded p), l n),
          )
