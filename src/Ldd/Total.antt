-- ===== src/Ldd/Total.antt =====
-- The search of initramfs/ldd ends, also where files need each other in a cycle.
use pond.Prelude.{
  ℕ, zero, suc, ◌+◌, ◌≤◌, ◌<◌, ◌≡◌, refl, sym, subst, ◌∙◌, ap, true, false, Option, none, some,
  List, [], ◌∷◌, if◌then◌else◌, Returns, bind-Returns, Bool-cases, inl, inr, arith, has,
  has-append_right, has_head, bytes_equal, bytes_equal→≡, until_nul,
}
use pond.Ldd.{Elf, Machine, Recursive, library}
use pond.Ldd.Walk.{
  LddError, Run, stop_or, visit, add_found, follow, follow_library, search_libraries,
  search_imports, search_interp, search_elf, search,
}
use pond.Ldd.Sound.{library-visited}
use pond.Ldd.Found.{search-IsSound}

-- How many of some paths have not been visited.
abbrev pub unvisited : List (List ℕ) → List (List ℕ) → ℕ
unvisited [] v = 0
unvisited (u ∷ us) v = (if has u v then 0 else 1) + unvisited us v

unvisited-le :
    (us v v' : List (List ℕ))
    → ((x : List ℕ) → has x v ≡ true → has x v' ≡ true)
    → unvisited us v' ≤ unvisited us v
unvisited-le [] v v' h = omega arith
unvisited-le (u ∷ us) v v' h = ground (arith, h u, unvisited-le us v v' h)

unvisited-lt :
    (us v : List (List ℕ)) (p : List ℕ)
    → has p us ≡ true
    → has p v ≡ false
    → unvisited us (p ∷ v) < unvisited us v
unvisited-lt [] v p h n = cc
unvisited-lt (u ∷ us) v p h n =
    let le = unvisited-le us v (p ∷ v) (λ x. has-append_right x (p ∷ []) v) in
    elim (Bool-cases (bytes_equal p u)) [
      | inl t ↦
          let q : p ≡ u = bytes_equal→≡ p u t in
          let here : has u (p ∷ v) ≡ true = ap (λ x. has x (p ∷ v)) (sym q) ∙ has_head p v in
          let n' : has u v ≡ false = ap (λ x. has x v) (sym q) ∙ n in ground (arith, here, n', le)
      | inr f ↦
          let rest : has p us ≡ true = ground (arith, h, f) in
          ground (arith, unvisited-lt us v p rest n, has-append_right u (p ∷ []) v)
    ]

module _ (w : Machine) (us : List (List ℕ)) where
  -- The paths of files that can be opened are among those of the list.
  abbrev pub IsCovered : Type 0
  IsCovered = (p : List ℕ) (exe : Elf) → w.open_elf p ≡ some exe → has p us ≡ true

  -- The section .interp ends in a zero byte.
  abbrev pub IsTerminated : Type 0
  IsTerminated =
      (p : List ℕ) (exe : Elf) (raw : List ℕ)
      → w.open_elf p ≡ some exe
      → exe.interp ≡ some raw
      → (i : List ℕ) × (until_nul raw ≡ some i)

  abbrev left : Recursive → ℕ
  left s = unvisited us s.visited

  module _ (depth : ℕ)
      (ih : (path : List ℕ) (s : Recursive)
        → left s < depth
        → Returns (search depth w path s)) where
    stop_or-Returns :
        (x : Option LddError) (s : Recursive) (k : Recursive → Run)
        → Returns (k s)
        → Returns (stop_or (x, s) k)
    stop_or-Returns none s k h = h
    stop_or-Returns (some e) s k h = (_, refl)

    follow-Returns :
        (path : List ℕ) (s : Recursive) (k : Recursive → Run)
        → left s < depth
        → ((s' : Recursive) → left s' < depth → Returns (k s'))
        → Returns (follow (search depth w) path s k)
    follow-Returns path s k l h =
        bind-Returns (search depth w path (add_found path s)) (λ r. stop_or r k)
          (ih path (add_found path s) l)
          (λ r e.
            let g = (search-IsSound depth w path (add_found path s) r e).grows in
            let le = unvisited-le us s.visited r.1.visited g.visited in
            stop_or-Returns r.0 r.1 k (h r.1 (omega arith)))

    follow_library-Returns :
        (o : Option (List ℕ)) (s : Recursive) (k : Recursive → Run)
        → left s < depth
        → ((s' : Recursive) → left s' < depth → Returns (k s'))
        → Returns (follow_library (search depth w) (o, s) k)
    follow_library-Returns none s k l h = (_, refl)
    follow_library-Returns (some path) s k l h = follow-Returns path s k l h

    search_libraries-Returns :
        (dirs libs : List (List ℕ)) (s : Recursive)
        → left s < depth
        → Returns (search_libraries (search depth w) w dirs libs s)
    unfolding search_libraries
    search_libraries-Returns dirs [] s l = (_, refl)
    search_libraries-Returns dirs (lib ∷ libs) s l =
        let x = library w lib dirs s in
        let same = library-visited w lib dirs s in
        follow_library-Returns x.0 x.1 (search_libraries (search depth w) w dirs libs)
          (subst (λ v. unvisited us v < depth) (sym same) l) (search_libraries-Returns dirs libs)

    search_imports-Returns :
        (dirs libs : Option (List (List ℕ))) (s : Recursive)
        → left s < depth
        → Returns (search_imports (search depth w) w dirs libs s)
    search_imports-Returns none libs s l = (_, refl)
    search_imports-Returns (some dirs) none s l = (_, refl)
    search_imports-Returns (some dirs) (some libs) s l = search_libraries-Returns dirs libs s l

    search_interp-Returns :
        (exe : Elf) (o : Option (List ℕ)) (s : Recursive)
        → ((raw : List ℕ) → o ≡ some raw → (i : List ℕ) × (until_nul raw ≡ some i))
        → left s < depth
        → Returns (
            search_interp
              (search depth w)
              o
              s
              (search_imports (search depth w) w exe.runpath exe.libraries))
    search_interp-Returns exe none s t l = search_imports-Returns exe.runpath exe.libraries s l
    search_interp-Returns exe (some raw) s t l =
        let (i, e) = t raw refl in
        rw e (
          follow-Returns i s (search_imports (search depth w) w exe.runpath exe.libraries) l
            (search_imports-Returns exe.runpath exe.libraries))

    search_elf-Returns :
        (path : List ℕ) (o : Option Elf) (s : Recursive)
        → IsTerminated
        → IsCovered
        → w.open_elf path ≡ o
        → has path s.visited ≡ false
        → left s < suc depth
        → Returns (search_elf (search depth w) w o (visit path s))
    unfolding search_elf
    search_elf-Returns path none s t c e n l = (_, refl)
    search_elf-Returns path (some exe) s t c e n l =
        let less = unvisited-lt us s.visited path (c path exe e) n in
        search_interp-Returns exe exe.interp (visit path s) (λ raw k. t path exe raw e k)
          (omega arith)

  -- `Search` returns, with as many calls inside each other as there are files that can be opened and
  -- have not been visited, and one: also where files need each other in a cycle. The section .interp
  -- of each file that can be opened has a zero byte at its end.
  pub search-Returns :
      (depth : ℕ) (path : List ℕ) (s : Recursive)
      → IsTerminated
      → IsCovered
      → unvisited us s.visited < depth
      → Returns (search depth w path s)
  unfolding search
  search-Returns zero path s t c l = elim l [ ]
  search-Returns (suc depth) path s t c l = elim (Bool-cases (has path s.visited)) [
    | inl v ↦ rw v (_, refl)
    | inr n ↦ rw n (
        search_elf-Returns depth (λ p s1 k. search-Returns depth p s1 t c k) path (w.open_elf path)
          s t c refl n l)
  ]
