-- ===== src/Ldd.antt =====
-- initramfs/ldd/ldd.go: the libraries that a program needs, and those that these need.
pub mod Paths
pub mod Socache
pub mod Walk
pub mod Sound
pub mod Found
pub mod Total
pub mod Closure
mod Examples
use pond.Prelude.{
  ℕ, ◌==◌, Bool, true, false, Option, none, some, List, [], ◌∷◌, ◌++◌, if◌then◌else◌, lookup, has,
}
use pond.Ldd.Paths.{join}

-- What debug/elf says of a file: the section .interp, DT_RUNPATH and the imported libraries, where
-- they can be read.
pub record Elf : Type 0 where
  pub interp : Option (List ℕ)
  pub runpath : Option (List (List ℕ))
  pub libraries : Option (List (List ℕ))

-- The machine: its files, which paths there are, and the name of its architecture.
pub record Machine : Type 0 where
  pub open_elf : List ℕ → Option Elf
  pub stat : List ℕ → Bool
  pub arch : List ℕ

-- The fields of `recursive`, and the cache of paths by the libraries' names.
pub record Recursive : Type 0 where
  pub visited : List (List ℕ)
  pub found : List (List ℕ)
  pub ldcache : List (List ℕ × List ℕ)

-- "/lib", "/usr/lib", "/lib64", "/usr/lib64"
abbrev lib_dir : List ℕ
lib_dir = b'/' ∷ b'l' ∷ b'i' ∷ b'b' ∷ []

abbrev usr_dir : List ℕ
usr_dir = b'/' ∷ b'u' ∷ b's' ∷ b'r' ∷ []

abbrev wide : List ℕ
wide = b'6' ∷ b'4' ∷ []

abbrev pub default_dirs : List (List ℕ)
default_dirs =
    lib_dir ∷ (usr_dir ++ lib_dir) ∷ (lib_dir ++ wide) ∷ (usr_dir ++ (lib_dir ++ wide)) ∷ []

-- "-linux-gnu"
abbrev pub gnu_suffix : List ℕ
gnu_suffix = b'-' ∷ b'l' ∷ b'i' ∷ b'n' ∷ b'u' ∷ b'x' ∷ b'-' ∷ b'g' ∷ b'n' ∷ b'u' ∷ []

abbrev pub gnu_dirs : List ℕ → List (List ℕ) → List (List ℕ)
gnu_dirs gnudir [] = []
gnu_dirs gnudir (dir ∷ dirs) = join dir gnudir ∷ gnu_dirs gnudir dirs

-- The directories in the order in which they are tried.
unfoldable pub library_dirs : Machine → List (List ℕ) → List (List ℕ)
library_dirs w dirs =
    (dirs ++ default_dirs) ++ gnu_dirs (w.arch ++ gnu_suffix) (dirs ++ default_dirs)

abbrev pub first_file : Machine → List ℕ → List (List ℕ) → Option (List ℕ)
first_file w lib [] = none
first_file w lib (dir ∷ dirs) =
    let rest = first_file w lib dirs in if w.stat (join dir lib) then some (join dir lib) else rest

abbrev pub remember : List ℕ → Option (List ℕ) → Recursive → Option (List ℕ) × Recursive
remember lib none s = (none, s)
remember lib (some path) s = (some path, record s { ldcache = (lib, path) ∷ s.ldcache })

abbrev pub cached_or :
    Option (List ℕ) → Option (List ℕ) × Recursive → Recursive → Option (List ℕ) × Recursive
cached_or none r s = r
cached_or (some path) r s = (some path, s)

-- `Library`; none for an error.
unfoldable pub library : Machine → List ℕ → List (List ℕ) → Recursive → Option (List ℕ) × Recursive
unfolding library_dirs
library w lib dirs s =
    cached_or (lookup lib s.ldcache) (remember lib (first_file w lib (library_dirs w dirs)) s) s
