-- ===== src/Kmod/Load.antt =====
-- initramfs/kmod/modprobe.go: loading a module behind its dependencies.
use pond.Prelude.{
  ℕ, zero, suc, Bool, true, false, not, Option, none, some, List, [], ◌∷◌, ◌++◌, if◌then◌else◌,
  Outcome, ok, err, panic, ◌>>=◌, has, lookup,
}
use pond.Kmod.{Modinfo, InfoError}

-- What unix.FinitModule returns.
pub data Errno : Type 0 where
  success ebusy eexist enodev other : Errno

-- The machine: what the files tell, which of them `refresh` walks over, which open, whether a glob
-- matches (`none` for a malformed one), and what the kernel answers behind the calls so far.
pub record Machine : Type 0 where
  pub info_of : List ℕ → Outcome InfoError Modinfo
  pub files : List (List ℕ)
  pub opens : List ℕ → Bool
  pub glob : List ℕ → List ℕ → Option Bool
  pub finit_module : List (List ℕ) → List ℕ → Errno

-- The package's variables, and the calls of FinitModule, the latest one first.
pub record Kmod : Type 0 where
  pub modpath : List (List ℕ × List ℕ)
  pub modalias : List (List ℕ × List ℕ)
  pub loaded : List (List ℕ)
  pub calls : List (List ℕ)

pub data LoadError : Type 0 where
  not_found no_info_of cannot_open dependencies_failed finit_failed : LoadError

-- A loop or a recursion that does not end.
pub data Endless : Type 0 where
  endless : Endless

-- An error or nil, and the state behind the call.
abbrev pub Run : Type 0
Run = Outcome Endless (Option LoadError × Kmod)

abbrev pub alias_entries : List ℕ → List (List ℕ) → List (List ℕ × List ℕ)
alias_entries name [] = []
alias_entries name (a ∷ aliases) = (name, a) ∷ alias_entries name aliases

-- The callback of `refresh`.
unfoldable pub refresh_file : Outcome InfoError Modinfo → List ℕ → Kmod → Kmod
refresh_file (ok m) path s = record s {
  modpath = (m.name, path) ∷ s.modpath;
  modalias = s.modalias ++ alias_entries m.name m.aliases;
}
refresh_file (err e) path s = s
refresh_file panic path s = s

unfoldable pub refresh : Machine → List (List ℕ) → Kmod → Kmod
refresh w [] s = s
refresh w (path ∷ paths) s = refresh w paths (refresh_file (w.info_of path) path s)

abbrev pub is_empty {ℓ} : {A : Type ℓ} → List A → Bool
is_empty [] = true
is_empty (x ∷ xs) = false

unfoldable pub refresh_paths : Machine → Kmod → Kmod
refresh_paths w s = if is_empty s.modpath then refresh w w.files s else s

unfoldable pub refresh_aliases : Machine → Kmod → Kmod
refresh_aliases w s = if is_empty s.modalias then refresh w w.files s else s

abbrev pub is_busy : Errno → Bool
is_busy ebusy = true
is_busy e = false

-- The loop that repeats the call while the kernel is busy.
unfoldable pub insert :
    ℕ → Machine → List (List ℕ) → List ℕ → Outcome Endless (Errno × List (List ℕ))
insert zero w calls path = err endless
insert (suc tries) w calls path =
    let again = insert tries w (path ∷ calls) path in
    if is_busy (w.finit_module calls path)
    then again
    else ok (w.finit_module calls path, path ∷ calls)

-- The errors behind which the module counts as loaded.
abbrev pub tolerated : Errno → Bool
tolerated success = true
tolerated eexist = true
tolerated enodev = true
tolerated ebusy = false
tolerated other = false

abbrev pub mark : List LoadError → List (List ℕ) → List (List ℕ) → List (List ℕ)
mark [] depends loaded = loaded
mark (e ∷ errs) depends loaded = depends ++ loaded

-- `loadPath` behind the loop.
unfoldable pub finish :
    Modinfo → List LoadError → Kmod → Errno × List (List ℕ) → Option LoadError × Kmod
finish m errs s (e, calls) =
    if not (tolerated e)
    then (
      some (if is_empty errs then finit_failed else dependencies_failed),
      record s { calls = calls },
    )
    else (none, record s { calls = calls; loaded = mark errs m.depends (m.name ∷ s.loaded) })

abbrev pub collect : Option LoadError → List LoadError → List LoadError
collect none errs = errs
collect (some e) errs = e ∷ errs

-- The loop over the dependencies, by the function that loads one: the errors and the state.
unfoldable pub load_deps :
    (Kmod → List ℕ → Run) → Kmod → List (List ℕ) → Outcome Endless (List LoadError × Kmod)
load_deps load_one s [] = ok ([], s)
load_deps load_one s (dep ∷ deps) = do
  first ← load_one s dep
  rest ← load_deps load_one first.1 deps
  ok (collect first.0 rest.0, rest.1)

-- `loadPath` behind the loop over the dependencies.
unfoldable pub load_file : ℕ → Machine → List ℕ → Modinfo → List LoadError × Kmod → Run
unfolding insert finish
load_file tries w path m (errs, s) =
    if w.opens path
    then insert tries w s.calls path >>= (λ answer. ok (finish m errs s answer))
    else ok (some cannot_open, s)

unfoldable pub load_info : (Kmod → List ℕ → Run) → ℕ → Machine → Kmod → List ℕ → Modinfo → Run
unfolding load_deps load_file
load_info load_one tries w s path m =
    if has m.name s.loaded
    then ok (none, s)
    else load_deps load_one s m.depends >>= load_file tries w path m

abbrev pub load_path :
    (Kmod → List ℕ → Run) → ℕ → Machine → Kmod → List ℕ → Outcome InfoError Modinfo → Run
load_path load_one tries w s path (ok m) = load_info load_one tries w s path m
load_path load_one tries w s path (err e) = ok (some no_info_of, s)
load_path load_one tries w s path panic = panic

abbrev pub load_found : (Kmod → List ℕ → Run) → ℕ → Machine → Kmod → Option (List ℕ) → Run
load_found load_one tries w s none = ok (some not_found, s)
load_found load_one tries w s (some path) = load_path load_one tries w s path (w.info_of path)

-- `Load`, with `depth` calls inside each other, and `tries` calls of FinitModule for each module.
unfoldable pub load : ℕ → ℕ → Machine → Kmod → List ℕ → Run
unfolding load_info refresh_paths
load zero tries w s name = err endless
load (suc depth) tries w s name =
    if has name s.loaded
    then ok (none, s)
    else load_found (load depth tries w) tries w (refresh_paths w s)
        (lookup name (refresh_paths w s).modpath)

abbrev pub stop_or : Option LoadError × Kmod → (Kmod → Run) → Run
stop_or (none, s) k = k s
stop_or (some e, s) k = ok (some e, s)

abbrev pub matches : Option Bool → Bool
matches (some b) = b
matches none = false

unfoldable pub load_matching : ℕ → ℕ → Machine → List ℕ → List (List ℕ × List ℕ) → Kmod → Run
unfolding load
load_matching depth tries w alias [] s = ok (none, s)
load_matching depth tries w alias ((name, pattern) ∷ entries) s =
    if matches (w.glob pattern alias)
    then load depth tries w s name
      >>= (λ first. stop_or first (load_matching depth tries w alias entries))
    else load_matching depth tries w alias entries s

unfoldable pub load_alias : ℕ → ℕ → Machine → Kmod → List ℕ → Run
unfolding load_matching refresh_aliases
load_alias depth tries w s alias =
    load_matching depth tries w alias (refresh_aliases w s).modalias (refresh_aliases w s)
