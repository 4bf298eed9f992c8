-- ===== src/Kmod/Total.antt =====
-- `Load` ends where dependencies are not cyclic and the kernel is not busy for ever.
use pond.Prelude.{
  Returns, bind-Returns, ℕ, zero, suc, ◌≤◌, ◌<◌, ◌≡◌, refl, sym, false, Option, none, some, List,
  [], ◌∷◌, Outcome, ok, err, panic, has, lookup, All, Bool-cases, arith, inl, inr, subst,
}
use pond.Kmod.{Modinfo, InfoError}
use pond.Kmod.Consistency.{IsConsistent, IsSound, refresh_paths-IsConsistent}
use pond.Kmod.Loaded.{load-IsSound}
use pond.Kmod.Load.{
  Machine, Kmod, LoadError, Run, refresh_paths, is_busy, insert, load_deps, load_file, load_info,
  load_path, load_found, load,
}

-- The calls behind `j` more of a path.
abbrev pub again : ℕ → List ℕ → List (List ℕ) → List (List ℕ)
again zero path calls = calls
again (suc j) path calls = again j path (path ∷ calls)

module _ (w : Machine) (tries : ℕ) where
  -- The kernel answers one of `tries` calls in a row otherwise than with EBUSY.
  abbrev pub IsResponsive : Type 0
  IsResponsive =
      (calls : List (List ℕ)) (path : List ℕ)
      → (j : ℕ) × (j < tries) × (is_busy (w.finit_module (again j path calls) path) ≡ false)

insert-Returns :
    (w : Machine) (tries j : ℕ) (calls : List (List ℕ)) (path : List ℕ)
    → j < tries
    → is_busy (w.finit_module (again j path calls) path) ≡ false
    → Returns (insert tries w calls path)
unfolding insert
insert-Returns w zero j calls path l h = elim l [ ]
insert-Returns w (suc tries) zero calls path l h = rw h (_, refl)
insert-Returns w (suc tries) (suc j) calls path l h =
    elim (Bool-cases (is_busy (w.finit_module calls path))) [
      | inl t ↦ rw t (insert-Returns w tries j (path ∷ calls) path (omega arith) h)
      | inr f ↦ rw f (_, refl)
    ]

module _ (w : Machine) (tries : ℕ) (rank : List ℕ → ℕ) where
  -- A module ranks above those that it depends on.
  abbrev pub IsAcyclic : Type 0
  IsAcyclic =
      (path : List ℕ) (m : Modinfo)
      → w.info_of path ≡ ok m
      → All (λ d. rank d < rank m.name) m.depends

  -- Reading a file does not panic.
  abbrev pub IsReadable : Type 0
  IsReadable = (path : List ℕ) → ¬ (w.info_of path ≡ panic)

  load_deps-Returns :
      (one : Kmod → List ℕ → Run) (bound : ℕ)
      → ((s : Kmod) (x : List ℕ) → IsConsistent w s → rank x < bound → Returns (one s x))
      → ((s : Kmod) (x : List ℕ) (r : Option LoadError × Kmod)
          → IsConsistent w s
          → one s x ≡ ok r
          → IsSound w s x r)
      → (s : Kmod) (deps : List (List ℕ)) → IsConsistent w s
      → All (λ d. rank d < bound) deps
      → Returns (load_deps one s deps)
  unfolding load_deps
  load_deps-Returns one bound f sound s [] c h = (_, refl)
  load_deps-Returns one bound f sound s (d ∷ deps) c (p, h) =
      bind-Returns (one s d) _ (f s d c p) (λ first e.
        bind-Returns (load_deps one first.1 deps) _
          (load_deps-Returns one bound f sound first.1 deps (sound s d first c e).consistent h)
          (λ rest k. (_, refl)))

  load_file-Returns :
      (path : List ℕ) (m : Modinfo) (d : List LoadError × Kmod)
      → IsResponsive w tries
      → Returns (load_file tries w path m d)
  unfolding load_file
  load_file-Returns path m (errs, s) q = elim (Bool-cases (w.opens path)) [
    | inl t ↦
        let (j, l, h) = q s.calls path in
        rw t (
          bind-Returns (insert tries w s.calls path) _ (insert-Returns w tries j s.calls path l h)
            (λ a e. (_, refl)))
    | inr f ↦ rw f (_, refl)
  ]

  load_info-Returns :
      (depth : ℕ) (s : Kmod) (path : List ℕ) (m : Modinfo)
      → ((s : Kmod) (x : List ℕ)
          → IsConsistent w s
          → rank x < depth
          → Returns (load depth tries w s x))
      → IsResponsive w tries
      → IsConsistent w s
      → All (λ d. rank d < depth) m.depends
      → Returns (load_info (load depth tries w) tries w s path m)
  unfolding load_info
  load_info-Returns depth s path m f q c a = elim (Bool-cases (has m.name s.loaded)) [
    | inl t ↦ rw t (_, refl)
    | inr n ↦ rw n (
        bind-Returns (load_deps (load depth tries w) s m.depends) _
          (load_deps-Returns (load depth tries w) depth f
            (λ s x r c h. (load-IsSound w depth tries s x r c h).0) s m.depends c a)
          (λ d e. load_file-Returns path m d q))
  ]

  load_path-Returns :
      (depth : ℕ) (s : Kmod) (path : List ℕ) (i : Outcome InfoError Modinfo)
      → ((s : Kmod) (x : List ℕ)
          → IsConsistent w s
          → rank x < depth
          → Returns (load depth tries w s x))
      → IsResponsive w tries
      → IsConsistent w s
      → ¬ (i ≡ panic)
      → ((m : Modinfo) → i ≡ ok m → All (λ d. rank d < depth) m.depends)
      → Returns (load_path (load depth tries w) tries w s path i)
  load_path-Returns depth s path (ok m) f q c n a =
      load_info-Returns depth s path m f q c (a m refl)
  load_path-Returns depth s path (err e) f q c n a = (_, refl)
  load_path-Returns depth s path panic f q c n a = elim (n refl) [ ]

  All-below :
      (a b : ℕ) (xs : List (List ℕ)) → a ≤ b → All (λ d. rank d < a) xs → All (λ d. rank d < b) xs
  All-below a b [] l h = tt
  All-below a b (x ∷ xs) l (p, h) = (omega arith, All-below a b xs l h)

  load_found-Returns :
      (depth : ℕ) (s : Kmod) (x : List ℕ) (o : Option (List ℕ))
      → ((s : Kmod) (x : List ℕ)
          → IsConsistent w s
          → rank x < depth
          → Returns (load depth tries w s x))
      → IsAcyclic
      → IsReadable
      → IsResponsive w tries
      → IsConsistent w s
      → rank x < suc depth
      → lookup x s.modpath ≡ o
      → Returns (load_found (load depth tries w) tries w s o)
  load_found-Returns depth s x none f a n q c l h = (_, refl)
  load_found-Returns depth s x (some path) f a n q c l h =
      let (m, e, name) = c x path h in
      load_path-Returns depth s path (w.info_of path) f q c (n path) (λ m' e'.
        let same : m ≡ m' = cc in
        let low : rank m'.name ≤ depth =
          subst (λ t. rank t.name ≤ depth) same
            (subst (λ t. rank t ≤ depth) (sym name) (omega arith)) in
        All-below (rank m'.name) depth m'.depends low (a path m' e'))

  -- Where each module ranks above its dependencies, `Load` of a module returns, with as many calls
  -- inside each other as its rank and one: if reading a file does not panic, the kernel answers one
  -- of `tries` calls in a row otherwise than with EBUSY, and the recorded paths are those of files
  -- that tell the module's name.
  pub load-Returns :
      (depth : ℕ) (s : Kmod) (x : List ℕ)
      → IsAcyclic
      → IsReadable
      → IsResponsive w tries
      → IsConsistent w s
      → rank x < depth
      → Returns (load depth tries w s x)
  unfolding load
  load-Returns zero s x a n q c l = elim l [ ]
  load-Returns (suc depth) s x a n q c l = elim (Bool-cases (has x s.loaded)) [
    | inl t ↦ rw t (_, refl)
    | inr f ↦ rw f (
        load_found-Returns depth (refresh_paths w s) x (lookup x (refresh_paths w s).modpath)
          (λ s x c l. load-Returns depth s x a n q c l) a n q (refresh_paths-IsConsistent w s c) l
          refl)
  ]
