-- ===== src/Ldd/Found.antt =====
-- A search of initramfs/ldd that succeeds has found everything.
use pond.Prelude.{
  ℕ, zero, suc, ◌≡◌, refl, sym, subst, ◌∙◌, ap, true, Option, none, some, List, [], ok, All,
  Bool-cases, inl, inr, arith, has, has_head, bytes_equal, bytes_equal→≡, until_nul,
}
use pond.Ldd.{Elf, Machine, Recursive}
use pond.Ldd.Walk.{
  LddError, open_failed, runpath_failed, imports_failed, Run, visit, search_imports, follow_interp,
  search_interp, search_elf, search,
}
use pond.Ldd.Closure.{
  Grows, Grows-refl, Grows-trans, Grows-visit, IsFollowed, IsResolved, IsDone, IsFollowed-Grows,
  NewDone, NewDone-trans, IsSound,
}
use pond.Ldd.Sound.{stopped, goes_on, follow-Followed, search_libraries-IsComplete}

module _ (w : Machine) (one : List ℕ → Recursive → Run)
    (one-IsSound : (path : List ℕ) (s : Recursive) (r : Option LddError × Recursive)
      → one path s ≡ ok r
      → IsSound w path s r) where
  search_imports-IsComplete :
      (dirs libs : Option (List (List ℕ))) (s : Recursive) (r : Option LddError × Recursive)
      → search_imports one w dirs libs s ≡ ok r
      → Grows s r.1
        × (r.0 ≡ none
            → NewDone w s r.1 × ((ls : List (List ℕ)) → libs ≡ some ls → All (IsResolved r.1) ls))
  search_imports-IsComplete none libs s r h =
      let q : (some runpath_failed, s) ≡ r = cc in
      (subst (λ t. Grows s t.1) q (Grows-refl s), λ z. cc)
  search_imports-IsComplete (some dirs) none s r h =
      let q : (some imports_failed, s) ≡ r = cc in
      (subst (λ t. Grows s t.1) q (Grows-refl s), λ z. cc)
  search_imports-IsComplete (some dirs) (some libs) s r h =
      let c = search_libraries-IsComplete w one one-IsSound dirs libs s r h in
      (
        c.grows,
        λ z.
            let (d, a) = c.success z in
            (d, λ ls e. let q : libs ≡ ls = cc in subst (All (IsResolved r.1)) q a),
      )

  -- What the search of a file leaves behind.
  record IsSearched (exe : Elf) (s : Recursive) (r : Option LddError × Recursive) : Type 0 where
    grows : Grows s r.1
    new_done : r.0 ≡ none → NewDone w s r.1
    interp :
        r.0 ≡ none
        → (raw i : List ℕ) → exe.interp ≡ some raw
        → until_nul raw ≡ some i
        → IsFollowed r.1 i
    libraries :
        r.0 ≡ none → (libs : List (List ℕ)) → exe.libraries ≡ some libs → All (IsResolved r.1) libs

  follow_interp-IsSearched :
      (exe : Elf) (raw : List ℕ) (o : Option (List ℕ)) (s : Recursive)
      (r : Option LddError × Recursive)
      → exe.interp ≡ some raw
      → until_nul raw ≡ o
      → follow_interp one o s (search_imports one w exe.runpath exe.libraries) ≡ ok r
      → IsSearched exe s r
  follow_interp-IsSearched exe raw none s r e u h = cc
  follow_interp-IsSearched exe raw (some i) s r e u h =
      elim (follow-Followed w one one-IsSound i s (search_imports one w exe.runpath exe.libraries) r
        h) [
          | stopped x z g ↦ record {
            grows = g;
            new_done = λ n. cc;
            interp = λ n. cc;
            libraries = λ n. cc;
          }
          | goes_on s' g d f k ↦
              let (g', c) = search_imports-IsComplete exe.runpath exe.libraries s' r k in
              record {
                grows = Grows-trans s s' r.1 g g';
                new_done = λ z. NewDone-trans w s s' r.1 g' d (c z).0;
                interp = λ z raw' i' e' u'.
                    let q : i ≡ i' = cc in
                    subst (IsFollowed r.1) q (IsFollowed-Grows w s' r.1 i g' f);
                libraries = λ z. (c z).1;
              }
        ]

  search_interp-IsSearched :
      (exe : Elf) (o : Option (List ℕ)) (s : Recursive) (r : Option LddError × Recursive)
      → exe.interp ≡ o
      → search_interp one o s (search_imports one w exe.runpath exe.libraries) ≡ ok r
      → IsSearched exe s r
  search_interp-IsSearched exe none s r e h =
      let (g, c) = search_imports-IsComplete exe.runpath exe.libraries s r h in
      record {
        grows = g;
        new_done = λ z. (c z).0;
        interp = λ z raw i e'. cc;
        libraries = λ z. (c z).1;
      }
  search_interp-IsSearched exe (some raw) s r e h =
      follow_interp-IsSearched exe raw (until_nul raw) s r e refl h

  -- The file itself is done, and all that has been visited since.
  search_elf-IsSound :
      (path : List ℕ) (o : Option Elf) (s : Recursive) (r : Option LddError × Recursive)
      → w.open_elf path ≡ o
      → search_elf one w o (visit path s) ≡ ok r
      → IsSound w path s r
  unfolding search_elf
  search_elf-IsSound path none s r e h =
      let q : (some open_failed, visit path s) ≡ r = cc in
      subst (IsSound w path s) q record { grows = Grows-visit path s; success = λ z. cc }
  search_elf-IsSound path (some exe) s r e h =
      let x = search_interp-IsSearched exe exe.interp (visit path s) r refl h in
      record {
        grows = Grows-trans s (visit path s) r.1 (Grows-visit path s) x.grows;
        success = λ z. (
          x.grows.visited path (has_head path s.visited),
          λ p v. elim (x.new_done z p v) [
            | inr d ↦ inr d
            | inl u ↦ elim (Bool-cases (bytes_equal p path)) [
              | inr f ↦ inl (ground (arith, u, f))
              | inl t ↦
                  let q : path ≡ p = sym (bytes_equal→≡ p path t) in
                  inr (
                    subst (IsDone w r.1) q record {
                      interp = λ exe' raw i e' k.
                          let same : exe ≡ exe' = cc in
                          x.interp z raw i (ap (λ y. y.interp) same ∙ k);
                      libraries = λ exe' libs e' k.
                          let same : exe ≡ exe' = cc in
                          x.libraries z libs (ap (λ y. y.libraries) same ∙ k);
                    })
            ]
          ],
        );
      }

pub search-IsSound :
    (depth : ℕ) (w : Machine) (path : List ℕ) (s : Recursive) (r : Option LddError × Recursive)
    → search depth w path s ≡ ok r
    → IsSound w path s r
unfolding search
search-IsSound zero w path s r h = cc
search-IsSound (suc depth) w path s r h = elim (Bool-cases (has path s.visited)) [
  | inl t ↦
      let q : (none, s) ≡ r = ground (arith, h, t) in
      subst (IsSound w path s) q record { grows = Grows-refl s; success = λ z. (t, λ p v. inl v) }
  | inr f ↦
      search_elf-IsSound w (search depth w) (search-IsSound depth w) path (w.open_elf path) s r refl
        (ground (arith, h, f))
]

-- A search from nothing that returns no error has visited the program, and for every file that it
-- has visited it has found and visited its interpreter, and each of its libraries in the place that
-- the cache has for the library's name.
pub search-IsDone :
    (depth : ℕ) (w : Machine) (path : List ℕ) (s s' : Recursive)
    → s.visited ≡ []
    → search depth w path s ≡ ok (none, s')
    → (has path s'.visited ≡ true) × ((p : List ℕ) → has p s'.visited ≡ true → IsDone w s' p)
search-IsDone depth w path s s' e h =
    let (v, d) = (search-IsSound depth w path s (none, s') h).success refl in
    (
      v,
      λ p u. elim (d p u) [
        | inr done ↦ done
        | inl old ↦ let q : has p [] ≡ true = subst (λ l. has p l ≡ true) e old in cc
      ],
    )
