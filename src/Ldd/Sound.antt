-- ===== src/Ldd/Sound.antt =====
-- Each call of the search of initramfs/ldd forgets nothing, and finds what a file needs.
use pond.Prelude.{
  ℕ, ◌≡◌, refl, sym, subst, ◌∙◌, ◌⊎◌, ap, true, Option, none, some, List, [], ◌∷◌, ok, All,
  Bool-cases, inl, inr, has, has_head, lookup, bytes_equal, bytes_equal→≡, bytes_equal_refl,
}
use pond.Access.Trust.{bind_ok}
use pond.Ldd.{Machine, Recursive, library, library_dirs, first_file, remember, cached_or}
use pond.Ldd.Walk.{
  LddError, unresolved, Run, stop_or, add_found, follow, follow_library, search_libraries,
}
use pond.Ldd.Closure.{
  Grows, Grows-refl, Grows-trans, Grows-add_found, IsFollowed, IsResolved, IsDone, IsFollowed-Grows,
  NewDone, NewDone-trans, IsSound,
}

-- What a look-up does: the path that it gives is the one in the cache behind it.
record IsLibrary (lib : List ℕ) (s : Recursive) (r : Option (List ℕ) × Recursive) : Type 0 where
  grows : Grows s r.1
  visited : r.1.visited ≡ s.visited
  cached : (path : List ℕ) → r.0 ≡ some path → lookup lib r.1.ldcache ≡ some path

remember-IsLibrary :
    (lib : List ℕ) (o : Option (List ℕ)) (s : Recursive)
    → lookup lib s.ldcache ≡ none
    → IsLibrary lib s (remember lib o s)
remember-IsLibrary lib none s h = record {
  grows = Grows-refl s;
  visited = refl;
  cached = λ path e. cc;
}
remember-IsLibrary lib (some path) s h = record {
  grows = record {
    visited = λ x p. p;
    found = λ x p. p;
    ldcache = λ l p e. elim (Bool-cases (bytes_equal l lib)) [
      | inl t ↦
          let q : l ≡ lib = bytes_equal→≡ l lib t in
          let e' : lookup lib s.ldcache ≡ some p = ap (λ x. lookup x s.ldcache) (sym q) ∙ e in cc
      | inr f ↦ rw f e
    ];
  };
  visited = refl;
  cached = λ p e. rw (bytes_equal_refl lib) e;
}

cached_or-IsLibrary :
    (lib : List ℕ) (c o : Option (List ℕ)) (s : Recursive)
    → lookup lib s.ldcache ≡ c
    → IsLibrary lib s (cached_or c (remember lib o s) s)
cached_or-IsLibrary lib none o s h = remember-IsLibrary lib o s h
cached_or-IsLibrary lib (some path) o s h = record {
  grows = Grows-refl s;
  visited = refl;
  cached = λ p e. h ∙ e;
}

library-IsLibrary :
    (w : Machine) (lib : List ℕ) (dirs : List (List ℕ)) (s : Recursive)
    → IsLibrary lib s (library w lib dirs s)
unfolding library
library-IsLibrary w lib dirs s =
    cached_or-IsLibrary lib (lookup lib s.ldcache) (first_file w lib (library_dirs w dirs)) s refl

module _ (w : Machine) (one : List ℕ → Recursive → Run)
    (one-IsSound : (path : List ℕ) (s : Recursive) (r : Option LddError × Recursive)
      → one path s ≡ ok r
      → IsSound w path s r) where
  -- The search stops with an error, or goes on from a state in which the path has been followed.
  pub data Followed (path : List ℕ) (s : Recursive) (k : Recursive → Run)
      (r : Option LddError × Recursive) : Type 0 where
    stopped : (e : LddError) → r.0 ≡ some e → Grows s r.1 → Followed path s k r
    goes_on :
        (s' : Recursive)
        → Grows s s'
        → NewDone w s s'
        → IsFollowed s' path
        → k s' ≡ ok r
        → Followed path s k r

  stop_or-Followed :
      (path : List ℕ) (s : Recursive) (k : Recursive → Run) (r : Option LddError × Recursive)
      (x : Option LddError) (s' : Recursive)
      → one path (add_found path s) ≡ ok (x, s')
      → stop_or (x, s') k ≡ ok r
      → Followed path s k r
  stop_or-Followed path s k r (some e) s' h h' =
      let q : (some e, s') ≡ r = cc in
      let g =
        Grows-trans s (add_found path s) s' (Grows-add_found path s)
          (one-IsSound path (add_found path s) (some e, s') h).grows in
      stopped e (sym (ap (λ t. t.0) q)) (subst (λ t. Grows s t.1) q g)
  stop_or-Followed path s k r none s' h h' =
      let sound = one-IsSound path (add_found path s) (none, s') h in
      let (v, d) = sound.success refl in
      goes_on s' (Grows-trans s (add_found path s) s' (Grows-add_found path s) sound.grows) d
        (sound.grows.found path (has_head path s.found), v) h'

  pub follow-Followed :
      (path : List ℕ) (s : Recursive) (k : Recursive → Run) (r : Option LddError × Recursive)
      → follow one path s k ≡ ok r
      → Followed path s k r
  follow-Followed path s k r h =
      let (x, e, h') = bind_ok (one path (add_found path s)) (λ x. stop_or x k) r h in
      stop_or-Followed path s k r x.0 x.1 e h'

  -- What the loop over the libraries leaves behind.
  pub record IsComplete (libs : List (List ℕ)) (s : Recursive) (r : Option LddError × Recursive)
      : Type 0 where
    pub grows : Grows s r.1
    pub success : r.0 ≡ none → NewDone w s r.1 × All (IsResolved r.1) libs

  library_step :
      (dirs : List (List ℕ)) (lib : List ℕ) (libs : List (List ℕ)) (s : Recursive)
      (r : Option LddError × Recursive) (o : Option (List ℕ)) (s' : Recursive)
      → ((s : Recursive) → search_libraries one w dirs libs s ≡ ok r → IsComplete libs s r)
      → IsLibrary lib s (o, s')
      → follow_library one (o, s') (search_libraries one w dirs libs) ≡ ok r
      → IsComplete (lib ∷ libs) s r
  library_step dirs lib libs s r none s' rest l h =
      let q : (some unresolved, s') ≡ r = cc in
      subst (IsComplete (lib ∷ libs) s) q record { grows = l.grows; success = λ z. cc }
  library_step dirs lib libs s r (some path) s' rest l h =
      elim (follow-Followed path s' (search_libraries one w dirs libs) r h) [
        | stopped e z g ↦ record { grows = Grows-trans s s' r.1 l.grows g; success = λ n. cc }
        | goes_on s2 g d f k ↦
            let c = rest s2 k in
            let all = Grows-trans s s2 r.1 (Grows-trans s s' s2 l.grows g) c.grows in
            record {
              grows = all;
              success = λ z.
                  let (d', a) = c.success z in
                  let d0 : NewDone w s s2 =
                    subst
                      (λ v.
                        (p : List ℕ) → has p s2.visited ≡ true → (has p v ≡ true) ⊎ IsDone w s2 p)
                      l.visited d in
                  (
                    NewDone-trans w s s2 r.1 c.grows d0 d',
                    (
                      (
                        path,
                        c.grows.ldcache lib path (g.ldcache lib path (l.cached path refl)),
                        IsFollowed-Grows w s2 r.1 path c.grows f,
                      ),
                      a,
                    ),
                  );
            }
      ]

  pub search_libraries-IsComplete :
      (dirs libs : List (List ℕ)) (s : Recursive) (r : Option LddError × Recursive)
      → search_libraries one w dirs libs s ≡ ok r
      → IsComplete libs s r
  unfolding search_libraries
  search_libraries-IsComplete dirs [] s r h =
      let q : (none, s) ≡ r = cc in
      subst (IsComplete [] s) q record { grows = Grows-refl s; success = λ z. ((λ p v. inl v), tt) }
  search_libraries-IsComplete dirs (lib ∷ libs) s r h =
      let x = library w lib dirs s in
      library_step dirs lib libs s r x.0 x.1 (λ s1 e. search_libraries-IsComplete dirs libs s1 r e)
        (library-IsLibrary w lib dirs s) h

pub library-visited :
    (w : Machine) (lib : List ℕ) (dirs : List (List ℕ)) (s : Recursive)
    → (library w lib dirs s).1.visited ≡ s.visited
library-visited w lib dirs s = (library-IsLibrary w lib dirs s).visited
