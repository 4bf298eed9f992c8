-- ===== src/Kmod/Walk.antt =====
-- initramfs/kmod/modprobe.go: Walk over the files of a directory, and the callback of `refresh`.
use pond.Prelude.{
  ℕ, ◌==◌, ◌≡◌, refl, ap, ◌∙◌, Bool, false, not, ◌&&◌, ◌||◌, Option, none, some, List, [], ◌∷◌,
  ◌++◌, if◌then◌else◌, Outcome, ok, err, panic, bytes_equal, until_nul, Bool-cases, inl, inr, arith,
}
use pond.Prelude.BigInt.{test_bit}
use pond.Repo.{slash, dot, clean}
use pond.Kmod.Load.{Machine, Kmod, refresh_file, refresh, is_empty}

abbrev contains : ℕ → List ℕ → Bool
contains c [] = false
contains c (b ∷ s) = (b == c) || contains c s

-- filepath.Ext: from the last dot of the last element on.
unfoldable pub ext_of : List ℕ → List ℕ
ext_of [] = []
ext_of (b ∷ s) =
    let rest = ext_of s in
    if not (is_empty rest)
    then rest
    else if (b == dot) && not (contains slash s || contains dot s)
    then b ∷ s
    else []

abbrev pub ko_ext : List ℕ
ko_ext = dot ∷ b'k' ∷ b'o' ∷ []

abbrev pub modules_dir : List ℕ
modules_dir =
    slash ∷ b'l' ∷ b'i' ∷ b'b' ∷ slash ∷ b'm' ∷ b'o' ∷ b'd' ∷ b'u' ∷ b'l' ∷ b'e' ∷ b's' ∷ slash ∷ []

pub data WalkError : Type 0 where
  uname_failed : WalkError

abbrev or_panic : Option (List ℕ) → Outcome WalkError (List ℕ)
or_panic none = panic
or_panic (some release) = ok (modules_dir ++ release)

abbrev release_dir : Option (List ℕ) → Outcome WalkError (List ℕ)
release_dir none = err uname_failed
release_dir (some release) = or_panic (until_nul release)

-- The directory that is walked: that of the running kernel where none is given.
unfoldable pub walk_root : Option (List ℕ) → List ℕ → Outcome WalkError (List ℕ)
walk_root uname [] = release_dir uname
walk_root uname (b ∷ dir) = ok (b ∷ dir)

-- What fs.WalkDir finds: a path below the directory, and whether it comes with an error.
pub record Entry : Type 0 where
  pub path : List ℕ
  pub failed : Bool

-- Whether a file is a directory, and its mode.
pub record Stat : Type 0 where
  pub directory : Bool
  pub mode : ℕ

-- stat.Mode()&0b100100100 == 0
abbrev unreadable_mode : ℕ → Bool
unreadable_mode mode = not (test_bit mode 8 || test_bit mode 5 || test_bit mode 2)

module _ {E S : Type 0} (stat : List ℕ → Option Stat) (callback : List ℕ → S → Option E × S) where
  abbrev visit_file : List ℕ → Option Stat → S → Option E × S
  visit_file full none s = (none, s)
  visit_file full (some f) s =
      if f.directory
      then (none, s)
      else if unreadable_mode f.mode
      then (none, s)
      else callback full s

  -- The function that Walk gives to fs.WalkDir; `dir` is rooted.
  unfoldable pub visit : List ℕ → Entry → S → Option E × S
  unfolding ext_of
  visit dir entry s =
      let full = clean (dir ++ (slash ∷ entry.path)) in
      if entry.failed
      then (none, s)
      else if not (bytes_equal (ext_of entry.path) ko_ext)
      then (none, s)
      else visit_file full (stat full) s

  abbrev unless : Option E × S → (S → Option E × S) → Option E × S
  unless (none, s) k = k s
  unless (some e, s) k = (some e, s)

  -- fs.WalkDir stops at an error of the function.
  unfoldable pub walk : List ℕ → List Entry → S → Option E × S
  unfolding visit
  walk dir [] s = (none, s)
  walk dir (entry ∷ entries) s = unless (visit dir entry s) (walk dir entries)

-- A file of a kernel module that may be read.
abbrev is_module_file : List ℕ → Option Stat → Bool
is_module_file full none = false
is_module_file full (some f) = not f.directory && not (unreadable_mode f.mode)

abbrev pub is_module : (List ℕ → Option Stat) → List ℕ → Entry → Bool
is_module stat dir entry =
    let full = clean (dir ++ (slash ∷ entry.path)) in
    not entry.failed && (bytes_equal (ext_of entry.path) ko_ext && is_module_file full (stat full))

-- The full paths of the kernel modules in a directory.
abbrev pub module_files : (List ℕ → Option Stat) → List ℕ → List Entry → List (List ℕ)
module_files stat dir [] = []
module_files stat dir (entry ∷ entries) =
    let rest = module_files stat dir entries in
    if is_module stat dir entry then clean (dir ++ (slash ∷ entry.path)) ∷ rest else rest

module _ {E : Type 0} (w : Machine) (stat : List ℕ → Option Stat) (dir : List ℕ) where
  -- The callback of `refresh`, which never returns an error.
  abbrev pub refresh_callback : List ℕ → Kmod → Option E × Kmod
  refresh_callback path s = (none, refresh_file (w.info_of path) path s)

  visit_lem :
      (entry : Entry) (s : Kmod)
      → visit stat refresh_callback dir entry s ≡ (
          if is_module stat dir entry
          then refresh_callback (clean (dir ++ (slash ∷ entry.path))) s
          else (none, s))
  unfolding visit
  visit_lem entry s = ground arith

  -- Walk, with the callback of `refresh`, records what `refresh` records of the readable .ko files
  -- alone, in the order of the directory, and stops at none of the others.
  pub walk-refresh :
      (entries : List Entry) (s : Kmod)
      → walk stat refresh_callback dir entries s
        ≡ (none, refresh w (module_files stat dir entries) s)
  unfolding walk refresh
  walk-refresh [] s = refl
  walk-refresh (entry ∷ entries) s = elim (Bool-cases (is_module stat dir entry)) [
    | inl t ↦
        let path = clean (dir ++ (slash ∷ entry.path)) in
        let e : visit stat refresh_callback dir entry s ≡ refresh_callback path s =
          visit_lem entry s ∙ ap (λ b. if b then refresh_callback path s else (none, s)) t in
        rw (e, t) (walk-refresh entries (refresh_file (w.info_of path) path s))
    | inr f ↦
        let path = clean (dir ++ (slash ∷ entry.path)) in
        let e : visit stat refresh_callback dir entry s ≡ (none, s) =
          visit_lem entry s ∙ ap (λ b. if b then refresh_callback path s else (none, s)) f in
        rw (e, f) (walk-refresh entries s)
  ]
