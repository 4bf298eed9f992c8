-- ===== src/Access/Certificate.antt =====
-- secrets/access/capabilities.go and cert.go: capabilities and the certificates that grant them.
use pond.Prelude.{
  ℕ, ◌==◌, Bool, true, false, not, List, [], ◌∷◌, Outcome, ok, err, panic, ◌>>◌, if◌then◌else◌,
  length,
}

-- The four strings that are capabilities, and any other one.
pub data Capability : Type 0 where
  manage_writers manage_readers read write : Capability
  other : List ℕ → Capability

-- `Required`: a missing key gives the empty string.
unfoldable pub required : Capability → Capability
required read = manage_readers
required write = manage_writers
required _ = other []

-- `caps`: a missing key gives 0.
unfoldable pub number : Capability → ℕ
number manage_readers = 1
number manage_writers = 2
number read = 3
number write = 4
number (other s) = 0

unfoldable pub is_admin : Capability → Bool
is_admin manage_writers = true
is_admin manage_readers = true
is_admin _ = false

unfoldable pub is_user : Capability → Bool
is_user read = true
is_user write = true
is_user _ = false

unfoldable pub is_valid : Capability → Bool
is_valid (other s) = false
is_valid _ = true

-- An ssh certificate that is signed. Keys are numbered. The critical options are a map: `options`
-- has its keys in the order in which the map is walked through.
pub record Certificate : Type 0 where
  pub key : ℕ
  pub signature_key : ℕ
  pub key_id : List ℕ
  pub valid_principals : List (List ℕ)
  pub valid_after : ℕ
  pub valid_before : ℕ
  pub options : List Capability

pub data CertError : Type 0 where
  self_delegation empty_key_id no_paths relative_path no_capabilities : CertError
  invalid_capability mixed_capabilities check_failed sign_failed : CertError

-- `Certificate.Admin` of a certificate that is there and has a signature.
unfoldable pub admin : List Capability → Bool
unfolding is_admin
admin [] = false
admin (c ∷ cs) = is_admin c

abbrev pub b_slash : ℕ
b_slash = b'/'

-- The first byte of each path; of an empty path there is none.
unfoldable pub check_paths : List (List ℕ) → Outcome CertError (Unit {0})
check_paths [] = ok tt
check_paths ([] ∷ ps) = panic
check_paths ((b ∷ p) ∷ ps) =
    let rest = check_paths ps in if b == b_slash then rest else err relative_path

-- The loop over the capabilities behind the first one, which says of what kind they are.
unfoldable pub check_kind : Bool → List Capability → Outcome CertError (Unit {0})
unfolding is_valid is_admin
check_kind kind [] = ok tt
check_kind kind (c ∷ cs) =
    let rest = check_kind kind cs in
    if not (is_valid c)
    then err invalid_capability
    else if kind
    then (if is_admin c then rest else err mixed_capabilities)
    else if is_admin c
    then err mixed_capabilities
    else rest

-- `ssh.CertChecker.CheckCert`, by the options that are supported, the principal and the
-- certificate.
abbrev pub Checker : Type 0
Checker = List Capability → List ℕ → Certificate → Bool

abbrev pub supported : Bool → List Capability
supported true = manage_readers ∷ manage_writers ∷ []
supported false = read ∷ write ∷ []

-- The principal is the first path, which is there behind the checks.
unfoldable pub check_signature :
    Checker → Certificate → List (List ℕ) → Outcome CertError (Unit {0})
unfolding admin
check_signature checker c [] = panic
check_signature checker c (p ∷ ps) =
    if checker (supported (admin c.options)) p c then ok tt else err check_failed

unfoldable pub validate : Checker → Certificate → Outcome CertError (Unit {0})
unfolding check_paths check_kind check_signature admin
validate checker c =
    if c.key == c.signature_key
    then err self_delegation
    else if length c.key_id == 0
    then err empty_key_id
    else if length c.valid_principals == 0
    then err no_paths
    else (do
      check_paths c.valid_principals
      (if length c.options == 0 then err no_capabilities else (do
        check_kind (admin c.options) c.options
        check_signature checker c c.valid_principals)))
