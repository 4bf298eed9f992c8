-- ===== src/Kmod/Examples.antt =====
-- initramfs/kmod at concrete inputs: a module "b" that depends on "a", in "/b.ko" and "/a.ko".
use pond.Prelude.{
  Returns, ℕ, ◌≡◌, refl, true, false, not, Option, none, some, List, [], ◌∷◌, map, Outcome, ok, err,
  All, arith, bytes_equal, if◌then◌else◌, inl, inr, Bool-cases, join_by, cut_prefix, lookup,
}
use pond.Prelude.BigInt.{test_bit}
use pond.Repo.{slash, dot, clean, elements, keep, push}
use pond.Kmod.{Modinfo, InfoError, modinfo, open_elf, info, no_info}
use pond.Kmod.Walk.{ext_of, Entry, Stat, module_files}
use pond.Kmod.Load.{
  Machine, Kmod, Errno, success, ebusy, insert, finish, load_deps, load_file, load_info, load,
  refresh_file, refresh, refresh_paths, refresh_aliases, load_matching, load_alias,
}
use pond.Kmod.Consistency.{IsLoaded, Grows, IsConsistent}
use pond.Kmod.Loaded.{load-IsLoaded}
use pond.Kmod.Total.{IsAcyclic, IsReadable, IsResponsive, load-Returns}
use pond.Kmod.RoundTrip.{
  Row, alias_row, name_row, depends_row, vermagic_row, foreign_row, line, tell_all, info-tell_all,
}

abbrev name_a : List ℕ
name_a = b'a' ∷ []

abbrev name_b : List ℕ
name_b = b'b' ∷ []

abbrev path_a : List ℕ
path_a = slash ∷ b'a' ∷ dot ∷ b'k' ∷ b'o' ∷ []

abbrev path_b : List ℕ
path_b = slash ∷ b'b' ∷ dot ∷ b'k' ∷ b'o' ∷ []

abbrev info_a : Modinfo
info_a = record { name = name_a; depends = []; aliases = (b'x' ∷ []) ∷ []; kernel = [] }

abbrev info_b : Modinfo
info_b = record { name = name_b; depends = name_a ∷ []; aliases = (b'y' ∷ []) ∷ []; kernel = [] }

abbrev file_info : List ℕ → Outcome InfoError Modinfo
file_info path =
    if bytes_equal path path_a
    then ok info_a
    else if bytes_equal path path_b
    then ok info_b
    else err open_elf

-- The kernel is busy at the first call.
abbrev busy_once : List (List ℕ) → List ℕ → Errno
busy_once [] path = ebusy
busy_once (c ∷ calls) path = success

abbrev machine : Machine
machine = record {
  info_of = file_info;
  files = path_a ∷ path_b ∷ [];
  opens = λ path. true;
  glob = λ pattern alias. some (bytes_equal pattern alias);
  finit_module = busy_once;
}

abbrev fresh : Kmod
fresh = record { modpath = []; modalias = []; loaded = []; calls = [] }

fresh-IsConsistent : IsConsistent machine fresh
fresh-IsConsistent x path h = cc

abbrev both : List (List ℕ × List ℕ)
both = (name_b, path_b) ∷ (name_a, path_a) ∷ []

abbrev aliases : List (List ℕ × List ℕ)
aliases = (name_a, b'x' ∷ []) ∷ (name_b, b'y' ∷ []) ∷ []

-- The dependency first, with one more call for it.
abbrev all_loaded : Kmod
all_loaded = record {
  modpath = both;
  modalias = aliases;
  loaded = name_b ∷ name_a ∷ [];
  calls = path_b ∷ path_a ∷ path_a ∷ [];
}

load_b : load 2 2 machine fresh name_b ≡ ok (none, all_loaded)
unfolding load load_info load_deps load_file insert finish refresh_paths refresh refresh_file
load_b = refl

load-IsLoaded_example :
    IsLoaded all_loaded name_b
    × Grows fresh all_loaded
    × ((path : List ℕ) (m : Modinfo)
        → false ≡ false
        → lookup name_b (refresh_paths machine fresh).modpath ≡ some path
        → machine.info_of path ≡ ok m
        → All (IsLoaded all_loaded) m.depends)
load-IsLoaded_example = load-IsLoaded machine 2 2 fresh all_loaded name_b fresh-IsConsistent load_b

alias_y : load_alias 2 2 machine fresh (b'y' ∷ []) ≡ ok (none, all_loaded)
unfolding load_alias load_matching refresh_aliases load load_info load_deps load_file insert finish
    refresh_paths refresh refresh_file
alias_y = refl

abbrev rank : List ℕ → ℕ
rank name = if bytes_equal name name_b then 1 else 0

machine-IsAcyclic : IsAcyclic machine 2 rank
machine-IsAcyclic path m h = elim (Bool-cases (bytes_equal path path_a)) [
  | inl t ↦ let q : info_a ≡ m = ground (arith, h, t) in rw (← q) tt
  | inr f ↦ elim (Bool-cases (bytes_equal path path_b)) [
    | inl t ↦ let q : info_b ≡ m = ground (arith, h, t, f) in rw (← q) (omega arith, tt)
    | inr g ↦ ground (arith, h, f, g)
  ]
]

machine-IsReadable : IsReadable machine 2 rank
machine-IsReadable path h = ground (arith, h)

machine-IsResponsive : IsResponsive machine 2
machine-IsResponsive [] path = (1, omega arith, refl)
machine-IsResponsive (c ∷ calls) path = (0, omega arith, refl)

load-Returns_example : Returns (load 2 2 machine fresh name_b)
load-Returns_example =
    load-Returns machine 2 rank 2 fresh name_b machine-IsAcyclic machine-IsReadable
      machine-IsResponsive fresh-IsConsistent (omega arith)

-- A row "depends=" with nothing in it is foreign.
abbrev rows : List Row
rows =
    name_row name_b
    ∷ vermagic_row (b'6' ∷ []) (b'S' ∷ [])
    ∷ alias_row (b'y' ∷ [])
    ∷ foreign_row []
    ∷ []

info-tell_all_example :
    info (modinfo (join_by 0 (map line (depends_row name_a ((b'c' ∷ []) ∷ []) ∷ rows))))
    ≡ ok (tell_all no_info (depends_row name_a ((b'c' ∷ []) ∷ []) ∷ rows))
unfolding join_by cut_prefix
info-tell_all_example =
    info-tell_all (depends_row name_a ((b'c' ∷ []) ∷ [])) rows
      (
        (omega arith, (refl, tt), ((refl, tt), tt)),
        (omega arith, ((refl, tt), (omega arith, ((refl, refl, refl, refl), tt)))),
      )
      (refl, (refl, (refl, (refl, (refl, (refl, (refl, (refl, (refl, (refl, (refl, tt)))))))))))
      (
        (refl, (refl, (refl, (refl, (refl, (refl, tt)))))),
        (
          (
            refl,
            (
              refl,
              (refl, (refl, (refl, (refl, (refl, (refl, (refl, (refl, (refl, (refl, tt)))))))))),
            ),
          ),
          ((refl, (refl, (refl, (refl, (refl, (refl, (refl, tt))))))), (tt, tt)),
        ),
      )

-- One entry for a module, one for a directory with such a name, and one for another file.
abbrev entries : List Entry
entries =
    record { path = b'd' ∷ dot ∷ b'k' ∷ b'o' ∷ []; failed = false }
    ∷ record { path = b'a' ∷ dot ∷ b'k' ∷ b'o' ∷ []; failed = false }
    ∷ record { path = b'a' ∷ dot ∷ b'k' ∷ []; failed = false }
    ∷ []

abbrev stat : List ℕ → Option Stat
stat path = some record { directory = not (bytes_equal path path_a); mode = 292 }

entries-module_files : module_files stat (slash ∷ []) entries ≡ path_a ∷ []
unfolding clean elements keep push ext_of test_bit
entries-module_files = refl
