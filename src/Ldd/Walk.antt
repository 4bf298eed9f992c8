-- ===== src/Ldd/Walk.antt =====
-- initramfs/ldd/ldd.go: the recursive search.
use pond.Prelude.{
  ℕ, zero, suc, Option, none, some, List, [], ◌∷◌, if◌then◌else◌, Outcome, ok, err, panic, ◌>>=◌,
  has, until_nul,
}
use pond.Ldd.{Elf, Machine, Recursive, library}

pub data LddError : Type 0 where
  open_failed runpath_failed imports_failed unresolved : LddError

-- A recursion that does not end.
pub data Endless : Type 0 where
  endless : Endless

-- An error or nil, and the state behind the call.
abbrev pub Run : Type 0
Run = Outcome Endless (Option LddError × Recursive)

abbrev pub stop_or : Option LddError × Recursive → (Recursive → Run) → Run
stop_or (none, s) k = k s
stop_or (some e, s) k = ok (some e, s)

abbrev pub visit : List ℕ → Recursive → Recursive
visit path s = record s { visited = path ∷ s.visited }

abbrev pub add_found : List ℕ → Recursive → Recursive
add_found path s = record s { found = path ∷ s.found }

-- A path that has been found is searched.
abbrev pub follow : (List ℕ → Recursive → Run) → List ℕ → Recursive → (Recursive → Run) → Run
follow one path s k = one path (add_found path s) >>= (λ r. stop_or r k)

abbrev pub follow_library :
    (List ℕ → Recursive → Run) → Option (List ℕ) × Recursive → (Recursive → Run) → Run
follow_library one (none, s) k = ok (some unresolved, s)
follow_library one (some path, s) k = follow one path s k

-- The loop over the imported libraries, by the function that searches one file.
unfoldable pub search_libraries :
    (List ℕ → Recursive → Run) → Machine → List (List ℕ) → List (List ℕ) → Recursive → Run
search_libraries one w dirs [] s = ok (none, s)
search_libraries one w dirs (lib ∷ libs) s =
    follow_library one (library w lib dirs s) (search_libraries one w dirs libs)

abbrev pub search_imports :
    (List ℕ → Recursive → Run)
    → Machine
    → Option (List (List ℕ))
    → Option (List (List ℕ))
    → Recursive
    → Run
search_imports one w none libs s = ok (some runpath_failed, s)
search_imports one w (some dirs) none s = ok (some imports_failed, s)
search_imports one w (some dirs) (some libs) s = search_libraries one w dirs libs s

-- `interpreter` panics on a section with no zero byte; an error of it is passed over.
abbrev pub follow_interp :
    (List ℕ → Recursive → Run) → Option (List ℕ) → Recursive → (Recursive → Run) → Run
follow_interp one none s k = panic
follow_interp one (some path) s k = follow one path s k

abbrev pub search_interp :
    (List ℕ → Recursive → Run) → Option (List ℕ) → Recursive → (Recursive → Run) → Run
search_interp one none s k = k s
search_interp one (some raw) s k = follow_interp one (until_nul raw) s k

unfoldable pub search_elf : (List ℕ → Recursive → Run) → Machine → Option Elf → Recursive → Run
unfolding search_libraries
search_elf one w none s = ok (some open_failed, s)
search_elf one w (some exe) s =
    search_interp one exe.interp s (search_imports one w exe.runpath exe.libraries)

-- `Search`, with `depth` calls inside each other.
unfoldable pub search : ℕ → Machine → List ℕ → Recursive → Run
unfolding search_elf
search zero w path s = err endless
search (suc depth) w path s =
    if has path s.visited
    then ok (none, s)
    else search_elf (search depth w) w (w.open_elf path) (visit path s)
