-- ===== src/Kmod.antt =====
-- initramfs/kmod: modinfo.go, what is known of a kernel module's file, and the names of modprobe.go.
pub mod Walk
pub mod Load
pub mod RoundTrip
pub mod Consistency
pub mod Loaded
pub mod Aliases
pub mod Total
mod Examples
use pond.Prelude.{
  ℕ, ◌==◌, Bool, Option, none, some, List, [], ◌∷◌, ◌++◌, length, if◌then◌else◌, Outcome, ok, err,
  not, split_on, cut_prefix,
}

pub record Modinfo : Type 0 where
  pub name : List ℕ
  pub depends : List (List ℕ)
  pub aliases : List (List ℕ)
  pub kernel : List ℕ

abbrev pub no_info : Modinfo
no_info = record { name = []; depends = []; aliases = []; kernel = [] }

-- What debug/elf says of a file.
pub data Elf : Type 0 where
  not_elf no_section unreadable : Elf
  modinfo : List ℕ → Elf

pub data InfoError : Type 0 where
  open_elf section_not_found failed_to_read : InfoError

abbrev pub alias_key : List ℕ
alias_key = b'a' ∷ b'l' ∷ b'i' ∷ b'a' ∷ b's' ∷ b'=' ∷ []

abbrev pub depends_key : List ℕ
depends_key = b'd' ∷ b'e' ∷ b'p' ∷ b'e' ∷ b'n' ∷ b'd' ∷ b's' ∷ b'=' ∷ []

abbrev pub name_key : List ℕ
name_key = b'n' ∷ b'a' ∷ b'm' ∷ b'e' ∷ b'=' ∷ []

abbrev pub vermagic_key : List ℕ
vermagic_key = b'v' ∷ b'e' ∷ b'r' ∷ b'm' ∷ b'a' ∷ b'g' ∷ b'i' ∷ b'c' ∷ b'=' ∷ []

-- value, found = strings.CutPrefix(line, key), and `found && value != ""`.
abbrev pub non_empty : Option (List ℕ) → Option (List ℕ)
non_empty none = none
non_empty (some []) = none
non_empty (some (b ∷ value)) = some (b ∷ value)

abbrev pub value_of : List ℕ → List ℕ → Option (List ℕ)
value_of key line = non_empty (cut_prefix key line)

-- words[0]
abbrev pub first_word : List (List ℕ) → List ℕ
first_word [] = []
first_word (w ∷ ws) = w

abbrev pub or_else {ℓ} : {A B : Type ℓ} → Option A → (A → B) → B → B
or_else none f rest = rest
or_else (some a) f rest = f a

-- One round of the loop over the rows.
unfoldable pub read_row : Modinfo → List ℕ → Modinfo
read_row info line =
    or_else (value_of alias_key line)
      (λ value. record info { aliases = info.aliases ++ (value ∷ []) })
      (or_else (value_of depends_key line)
        (λ value. record info { depends = info.depends ++ split_on b',' value })
        (or_else (value_of name_key line) (λ value. record info { name = value })
          (or_else (value_of vermagic_key line)
            (λ value. record info { kernel = first_word (split_on b' ' value) }) info)))

unfoldable pub read_rows : Modinfo → List (List ℕ) → Modinfo
read_rows info [] = info
read_rows info (line ∷ rows) = read_rows (read_row info line) rows

unfoldable pub info : Elf → Outcome InfoError Modinfo
info not_elf = err open_elf
info no_section = err section_not_found
info unreadable = err failed_to_read
info (modinfo section) = ok (read_rows no_info (split_on 0 section))
