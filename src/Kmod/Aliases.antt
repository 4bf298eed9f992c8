-- ===== src/Kmod/Aliases.antt =====
-- What a successful call of `LoadAlias` leaves in the set of loaded modules.
use pond.Prelude.{
  ℕ, ◌≡◌, refl, true, Option, none, some, List, [], ◌∷◌, ok, ◌>>=◌, All, Bool-cases, arith, inl,
  inr, subst,
}
use pond.Access.Trust.{bind_ok}
use pond.Kmod.Consistency.{IsLoaded, Grows, IsConsistent, refresh-IsConsistent}
use pond.Kmod.Loaded.{load-IsSound}
use pond.Kmod.Load.{
  Machine, Kmod, LoadError, refresh_aliases, is_empty, load, load_matching, load_alias, stop_or,
  matches,
}

refresh_aliases-IsConsistent :
    (w : Machine) (s : Kmod) → IsConsistent w s → IsConsistent w (refresh_aliases w s)
unfolding refresh_aliases
refresh_aliases-IsConsistent w s c = elim (Bool-cases (is_empty s.modalias)) [
  | inl t ↦ rw t (refresh-IsConsistent w w.files s c)
  | inr f ↦ rw f c
]

module _ (w : Machine) (depth tries : ℕ) (alias : List ℕ) where
  -- An entry whose pattern matches stands for a loaded module.
  abbrev pub IsServed : Kmod → List ℕ × List ℕ → Type 0
  IsServed s entry = matches (w.glob entry.1 alias) ≡ true → IsLoaded s entry.0

  load_matching_lem :
      (entries : List (List ℕ × List ℕ)) (s s' : Kmod)
      → IsConsistent w s
      → load_matching depth tries w alias entries s ≡ ok (none, s')
      → Grows s s' × All (IsServed s') entries
  unfolding load_matching
  load_matching_lem [] s s' c h = let q : s ≡ s' = cc in (subst (Grows s) q (λ x t. t), tt)
  load_matching_lem ((name, pattern) ∷ entries) s s' c h =
      elim (Bool-cases (matches (w.glob pattern alias))) [
        | inr f ↦
            let (g, a) = load_matching_lem entries s s' c (ground (arith, h, f)) in
            (g, ((λ t. cc), a))
        | inl t ↦
            let h' : (load depth tries w s name
                  >>= (λ first. stop_or first (load_matching depth tries w alias entries)))
                ≡ ok (none, s') =
              ground (arith, h, t) in
            let (r, e, k) = bind_ok (load depth tries w s name) _ (none, s') h' in
            behind r.0 r.1 (load_matching_lem entries r.1 s') e k
      ]
    where
      behind :
          (e : Option LoadError) (s1 : Kmod)
          → (IsConsistent w s1
              → load_matching depth tries w alias entries s1 ≡ ok (none, s')
              → Grows s1 s' × All (IsServed s') entries)
          → load depth tries w s name ≡ ok (e, s1)
          → stop_or (e, s1) (load_matching depth tries w alias entries) ≡ ok (none, s')
          → Grows s s' × All (IsServed s') ((name, pattern) ∷ entries)
      behind (some z) s1 rest e k = cc
      behind none s1 rest e k =
          let sound = (load-IsSound w depth tries s name (none, s1) c e).0 in
          let (g, a) = rest sound.consistent k in
          ((λ x t. g x (sound.grows x t)), ((λ z. g name (sound.loaded refl)), a))

  -- `LoadAlias` without an error leaves every module of which a pattern matches the alias in the
  -- set of loaded modules, where the recorded paths are those of files that tell the module's name.
  pub load_alias-IsServed :
      (s s' : Kmod)
      → IsConsistent w s
      → load_alias depth tries w s alias ≡ ok (none, s')
      → All (IsServed s') (refresh_aliases w s).modalias
  unfolding load_alias
  load_alias-IsServed s s' c h =
      (load_matching_lem (refresh_aliases w s).modalias (refresh_aliases w s) s'
        (refresh_aliases-IsConsistent w s c) h).1
