-- ===== src/Ldd/Examples.antt =====
-- initramfs/ldd at concrete inputs: a program "/p" that needs the library "q", which needs itself.
use pond.Prelude.{
  ℕ, ◌≡◌, refl, ap, ◌∙◌, true, Option, none, some, List, [], ◌∷◌, ok, has, arith, Returns,
  bytes_equal, if◌then◌else◌, Bool-cases, inl, inr,
}
use pond.Repo.{clean, elements, keep, push}
use pond.Ldd.{Elf, Machine, Recursive, library, library_dirs}
use pond.Ldd.Paths.{clean_any, join}
use pond.Ldd.Walk.{search, search_elf, search_libraries}
use pond.Ldd.Closure.{IsDone}
use pond.Ldd.Found.{search-IsDone}
use pond.Ldd.Total.{IsCovered, IsTerminated, search-Returns}

abbrev program : List ℕ
program = b'/' ∷ b'p' ∷ []

abbrev lib_q : List ℕ
lib_q = b'q' ∷ []

-- "/lib/q"
abbrev path_q : List ℕ
path_q = b'/' ∷ b'l' ∷ b'i' ∷ b'b' ∷ b'/' ∷ b'q' ∷ []

abbrev needs_q : Elf
needs_q = record { interp = none; runpath = some []; libraries = some (lib_q ∷ []) }

abbrev file : List ℕ → Option Elf
file path =
    if bytes_equal path program
    then some needs_q
    else if bytes_equal path path_q
    then some needs_q
    else none

abbrev machine : Machine
machine = record { open_elf = file; stat = λ path. bytes_equal path path_q; arch = b'x' ∷ [] }

abbrev fresh : Recursive
fresh = record { visited = []; found = []; ldcache = [] }

abbrev searched : Recursive
searched = record {
  visited = path_q ∷ program ∷ [];
  found = path_q ∷ path_q ∷ [];
  ldcache = (lib_q, path_q) ∷ [];
}

program-search : search 3 machine program fresh ≡ ok (none, searched)
unfolding search search_elf search_libraries library library_dirs join clean_any clean elements keep
    push
program-search = refl

search-IsDone_example :
    (has program searched.visited ≡ true)
    × ((p : List ℕ) → has p searched.visited ≡ true → IsDone machine searched p)
search-IsDone_example = search-IsDone 3 machine program fresh searched refl program-search

abbrev files : List (List ℕ)
files = program ∷ path_q ∷ []

machine-IsCovered : IsCovered machine files
machine-IsCovered p exe h = elim (Bool-cases (bytes_equal p program)) [
  | inl t ↦ rw t refl
  | inr f ↦ elim (Bool-cases (bytes_equal p path_q)) [
    | inl t ↦ rw (f, t) refl
    | inr g ↦ ground (arith, h, f, g)
  ]
]

file_lem : (p : List ℕ) (exe : Elf) → file p ≡ some exe → needs_q ≡ exe
file_lem p exe h = elim (Bool-cases (bytes_equal p program)) [
  | inl t ↦ ground (arith, h, t)
  | inr f ↦ elim (Bool-cases (bytes_equal p path_q)) [
    | inl t ↦ ground (arith, h, f, t)
    | inr g ↦ ground (arith, h, f, g)
  ]
]

machine-IsTerminated : IsTerminated machine files
machine-IsTerminated p exe raw h e =
    let n : none ≡ some raw = ap (λ x. x.interp) (file_lem p exe h) ∙ e in cc

search-Returns_example : Returns (search 3 machine program fresh)
search-Returns_example =
    search-Returns machine files 3 program fresh machine-IsTerminated machine-IsCovered
      (omega arith)
