-- ===== src/Kmod/Loaded.antt =====
-- What a successful call of `Load` leaves in the set of loaded modules.
use pond.Prelude.{
  ℕ, zero, suc, ◌≡◌, refl, sym, ◌∙◌, ap, subst, true, false, Option, none, some, List, [], ◌∷◌,
  ◌++◌, ok, ◌>>=◌, has, lookup, append_assoc, has_head, has-append_left, has-append_right, All,
  Bool-cases, arith, inl, inr,
}
use pond.Access.Trust.{bind_ok}
use pond.Kmod.{Modinfo}
use pond.Kmod.Consistency.{
  IsLoaded, Grows, IsConsistent, IsSound, refresh_paths-IsConsistent, refresh_paths-loaded,
  load_deps_lem,
}
use pond.Kmod.Load.{
  Machine, Kmod, Errno, LoadError, Run, refresh_paths, insert, tolerated, mark, finish, load_deps,
  load_file, load_info, load_path, load_found, load, cannot_open, not_found,
}

module _ (w : Machine) where
  -- What `loadPath` leaves behind for the module of its file.
  record IsSettled (s : Kmod) (m : Modinfo) (r : Option LoadError × Kmod) : Type 0 where
    consistent : IsConsistent w r.1
    grows : Grows s r.1
    named : r.0 ≡ none → IsLoaded r.1 m.name
    deps : r.0 ≡ none → All (IsLoaded r.1) m.depends

  All-IsLoaded :
      (s s' : Kmod) (xs : List (List ℕ)) → Grows s s' → All (IsLoaded s) xs → All (IsLoaded s') xs
  All-IsLoaded s s' [] g h = tt
  All-IsLoaded s s' (x ∷ xs) g (p, h) = (g x p, All-IsLoaded s s' xs g h)

  mark-IsLoaded :
      (s : Kmod) (front xs loaded : List (List ℕ))
      → s.loaded ≡ (front ++ xs) ++ loaded
      → All (IsLoaded s) xs
  mark-IsLoaded s front [] loaded h = tt
  mark-IsLoaded s front (x ∷ xs) loaded h =
      let e : front ++ (x ∷ xs) ≡ (front ++ (x ∷ [])) ++ xs =
        sym (append_assoc front (x ∷ []) xs) in
      (
        subst (λ l. has x l ≡ true) (sym h)
            (has-append_left x (front ++ (x ∷ xs)) loaded
              (has-append_right x front (x ∷ xs) (has_head x xs))),
        mark-IsLoaded s (front ++ (x ∷ [])) xs loaded (h ∙ ap (λ l. l ++ loaded) e),
      )

  finish-IsSettled :
      (m : Modinfo) (errs : List LoadError) (s : Kmod) (a : Errno × List (List ℕ))
      → IsConsistent w s
      → (errs ≡ [] → All (IsLoaded s) m.depends)
      → IsSettled s m (finish m errs s a)
  unfolding finish
  finish-IsSettled m errs s (e, calls) c d = elim (Bool-cases (tolerated e)) [
    | inr f ↦ rw f record { consistent = c; grows = λ x t. t; named = λ z. cc; deps = λ z. cc }
    | inl t ↦ rw t (settled errs d)
  ]
    where
      settled :
          (errs : List LoadError)
          → (errs ≡ [] → All (IsLoaded s) m.depends)
          → IsSettled s m
              (none, record s { calls = calls; loaded = mark errs m.depends (m.name ∷ s.loaded) })
      settled [] d = record {
        consistent = c;
        grows = λ x t. has-append_right x (m.name ∷ []) s.loaded t;
        named = λ z. has_head m.name s.loaded;
        deps = λ z.
            All-IsLoaded s (record s { calls = calls; loaded = m.name ∷ s.loaded }) m.depends
              (λ x t. has-append_right x (m.name ∷ []) s.loaded t) (d refl);
      }
      settled (e ∷ es) d = record {
        consistent = c;
        grows = λ x t.
            has-append_right x m.depends (m.name ∷ s.loaded)
              (has-append_right x (m.name ∷ []) s.loaded t);
        named =
            λ z. has-append_right m.name m.depends (m.name ∷ s.loaded) (has_head m.name s.loaded);
        deps = λ z.
            mark-IsLoaded (record s { calls = calls; loaded = m.depends ++ (m.name ∷ s.loaded) }) []
              m.depends (m.name ∷ s.loaded) refl;
      }

  load_file-IsSettled :
      (tries : ℕ) (path : List ℕ) (m : Modinfo) (errs : List LoadError) (s : Kmod)
      (r : Option LoadError × Kmod)
      → IsConsistent w s
      → (errs ≡ [] → All (IsLoaded s) m.depends)
      → load_file tries w path m (errs, s) ≡ ok r
      → IsSettled s m r
  unfolding load_file
  load_file-IsSettled tries path m errs s r c d h = elim (Bool-cases (w.opens path)) [
    | inl t ↦
        let h' : (insert tries w s.calls path >>= (λ a. ok (finish m errs s a))) ≡ ok r =
          ground (arith, h, t) in
        let (a, e, k) = bind_ok (insert tries w s.calls path) _ r h' in
        let q : finish m errs s a ≡ r = cc in
        subst (λ t. IsSettled s m t) q (finish-IsSettled m errs s a c d)
    | inr f ↦
        let q : (some cannot_open, s) ≡ r = ground (arith, h, f) in
        subst (λ t. IsSettled s m t) q
          record { consistent = c; grows = λ x t. t; named = λ z. cc; deps = λ z. cc }
  ]

  module _ (one : Kmod → List ℕ → Run)
      (one-IsSound : (s : Kmod) (x : List ℕ) (r : Option LoadError × Kmod)
        → IsConsistent w s
        → one s x ≡ ok r
        → IsSound w s x r) where
    load_info-IsSettled :
        (tries : ℕ) (s : Kmod) (path : List ℕ) (m : Modinfo) (r : Option LoadError × Kmod)
        → IsConsistent w s
        → has m.name s.loaded ≡ false
        → load_info one tries w s path m ≡ ok r
        → IsSettled s m r
    unfolding load_info
    load_info-IsSettled tries s path m r c n h =
        let h' : (load_deps one s m.depends >>= load_file tries w path m) ≡ ok r =
          ground (arith, h, n) in
        let (d, e, k) = bind_ok (load_deps one s m.depends) _ r h' in
        let (c', g, l) = load_deps_lem w one one-IsSound s m.depends d c e in
        let x = load_file-IsSettled tries path m d.0 d.1 r c' l k in
        record {
          consistent = x.consistent;
          grows = λ y t. x.grows y (g y t);
          named = x.named;
          deps = x.deps;
        }

  -- A call that finds the module's file, and what it leaves behind.
  abbrev IsLoadOf : Kmod → List ℕ → Option LoadError × Kmod → Type 0
  IsLoadOf s x r =
      (path : List ℕ) (m : Modinfo)
      → has x s.loaded ≡ false
      → lookup x (refresh_paths w s).modpath ≡ some path
      → w.info_of path ≡ ok m
      → r.0 ≡ none
      → All (IsLoaded r.1) m.depends

  load_found-IsSound :
      (one : Kmod → List ℕ → Run)
      → ((s : Kmod) (x : List ℕ) (r : Option LoadError × Kmod)
          → IsConsistent w s
          → one s x ≡ ok r
          → IsSound w s x r)
      → (tries : ℕ) (s : Kmod) (x : List ℕ) (r : Option LoadError × Kmod) (o : Option (List ℕ))
      → IsConsistent w s
      → has x s.loaded ≡ false
      → lookup x s.modpath ≡ o
      → load_found one tries w s o ≡ ok r
      → IsSound w s x r
        × ((path : List ℕ) (m : Modinfo)
            → o ≡ some path
            → w.info_of path ≡ ok m
            → r.0 ≡ none
            → All (IsLoaded r.1) m.depends)
  load_found-IsSound one sound tries s x r none c n l h =
      let q : (some not_found, s) ≡ r = cc in
      subst
        (λ t.
          IsSound w s x t
          × ((path : List ℕ) (m : Modinfo)
              → none ≡ some path
              → w.info_of path ≡ ok m
              → t.0 ≡ none
              → All (IsLoaded t.1) m.depends))
        q (record { consistent = c; grows = λ y t. t; loaded = λ z. cc }, λ path m z. cc)
  load_found-IsSound one sound tries s x r (some path) c n l h =
      let (m, e, name) = c x path l in
      let h' : load_info one tries w s path m ≡ ok r =
        ap (load_path one tries w s path) (sym e) ∙ h in
      let settled =
        load_info-IsSettled one sound tries s path m r c
          (subst (λ t. has t s.loaded ≡ false) (sym name) n) h' in
      (
        record {
          consistent = settled.consistent;
          grows = settled.grows;
          loaded = λ z. subst (IsLoaded r.1) name (settled.named z);
        },
        λ p m' z e' z'.
            let q : m ≡ m' = cc in subst (λ t. All (IsLoaded r.1) t.depends) q (settled.deps z'),
      )

  pub load-IsSound :
      (depth tries : ℕ) (s : Kmod) (x : List ℕ) (r : Option LoadError × Kmod)
      → IsConsistent w s
      → load depth tries w s x ≡ ok r
      → IsSound w s x r × IsLoadOf s x r
  unfolding load
  load-IsSound zero tries s x r c h = cc
  load-IsSound (suc depth) tries s x r c h = elim (Bool-cases (has x s.loaded)) [
    | inl t ↦
        let q : (none, s) ≡ r = ground (arith, h, t) in
        subst (λ t. IsSound w s x t × IsLoadOf s x t) q
          (record { consistent = c; grows = λ y t. t; loaded = λ z. t }, λ path m n. cc)
    | inr f ↦
        let s' = refresh_paths w s in
        let h' : load_found (load depth tries w) tries w s' (lookup x s'.modpath) ≡ ok r =
          ground (arith, h, f) in
        let e = refresh_paths-loaded w s in
        let (sound, deps) =
          load_found-IsSound (load depth tries w)
            (λ a y q k j. (load-IsSound depth tries a y q k j).0) tries s' x r (lookup x s'.modpath)
            (refresh_paths-IsConsistent w s c) (ap (has x) e ∙ f) refl h' in
        (
          record {
            consistent = sound.consistent;
            grows = λ y t. sound.grows y (ap (has y) e ∙ t);
            loaded = sound.loaded;
          },
          λ path m n. deps path m,
        )
  ]

-- A call of `Load` that returns no error leaves the module in the set of loaded modules, and all
-- that were in it; and if it was not in it, all dependencies that the module's file names are in
-- it, too. This holds where the recorded paths are those of files that tell the module's name.
pub load-IsLoaded :
    (w : Machine) (depth tries : ℕ) (s s' : Kmod) (x : List ℕ)
    → IsConsistent w s
    → load depth tries w s x ≡ ok (none, s')
    → IsLoaded s' x
      × Grows s s'
      × ((path : List ℕ) (m : Modinfo)
          → has x s.loaded ≡ false
          → lookup x (refresh_paths w s).modpath ≡ some path
          → w.info_of path ≡ ok m
          → All (IsLoaded s') m.depends)
load-IsLoaded w depth tries s s' x c h =
    let (sound, deps) = load-IsSound w depth tries s x (none, s') c h in
    (sound.loaded refl, sound.grows, λ path m n l e. deps path m n l e refl)
