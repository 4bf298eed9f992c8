-- ===== src/Access/Acl.antt =====
-- secrets/access/acl.go and schema.sql: the table of who may do what, and how it is loaded.
use pond.Prelude.{
  ℕ, ◌+◌, ◌==◌, Bool, true, false, not, ◌&&◌, ◌||◌, Option, none, some, List, [], ◌∷◌, ◌++◌, ltb,
  leb, Outcome, ok, err, panic, ◌>>=◌, ◌>>◌, if◌then◌else◌,
}
use pond.Access.Certificate.{
  Capability, Certificate, CertError, Checker, number, required, admin, b_slash, validate,
}

-- A row of the table. Fingerprints of keys are the keys' numbers.
pub record Row : Type 0 where
  pub fingerprint : ℕ
  pub capability : ℕ
  pub path : List ℕ
  pub priority : ℕ
  pub valid_after : ℕ
  pub valid_before : ℕ

-- SQLite's GLOB, by the pattern and the text.
abbrev pub Glob : Type 0
Glob = List ℕ → List ℕ → Bool

pub data AclError : Type 0 where
  permission_denied not_signed_by_master : AclError

unfoldable pub ends_in_slash : ℕ → List ℕ → Bool
ends_in_slash b [] = b == b_slash
ends_in_slash b (c ∷ p) = ends_in_slash c p

-- A path with a slash at its end; the last byte of an empty path is out of bounds.
unfoldable pub with_slash : List ℕ → Outcome AclError (List ℕ)
unfolding ends_in_slash
with_slash [] = panic
with_slash (b ∷ p) = ok (if ends_in_slash b p then b ∷ p else b ∷ (p ++ (b_slash ∷ [])))

-- What the query of `Check` selects of the view ValidACL at the time `now`: `dir` has its slash.
unfoldable pub selects : Glob → ℕ → ℕ → ℕ → List ℕ → Row → Bool
selects glob now key capability dir r =
    (leb r.valid_after now && ltb now r.valid_before)
    && ((r.fingerprint == key)
        && ((r.capability == capability) && glob (dir ++ (b'*' ∷ [])) r.path))

-- Whether the query counts a row.
abbrev pub exists : (Row → Bool) → List Row → Bool
exists f [] = false
exists f (r ∷ rs) = f r || exists f rs

unfoldable pub count_rows : Glob → List Row → ℕ → ℕ → ℕ → List ℕ → Outcome AclError (Unit {0})
count_rows glob rows now key capability dir =
    if exists (selects glob now key capability dir) rows then ok tt else err permission_denied

unfoldable pub check : Glob → List Row → ℕ → ℕ → Capability → List ℕ → Outcome AclError (Unit {0})
unfolding with_slash count_rows number
check glob rows now key c dir = do
  dir' ← with_slash dir
  count_rows glob rows now key (number c) dir'

-- The inner loop of `Validate`.
unfoldable pub check_capabilities :
    Glob → List Row → ℕ → ℕ → List ℕ → List Capability → Outcome AclError (Unit {0})
unfolding required
check_capabilities glob rows now signer p [] = ok tt
check_capabilities glob rows now signer p (c ∷ cs) = do
  check glob rows now signer (required c) p
  check_capabilities glob rows now signer p cs

unfoldable pub check_signer :
    Glob → List Row → ℕ → ℕ → List Capability → List (List ℕ) → Outcome AclError (Unit {0})
check_signer glob rows now signer cs [] = ok tt
check_signer glob rows now signer cs (p ∷ ps) = do
  check_capabilities glob rows now signer p cs
  check_signer glob rows now signer cs ps

-- `ACL.Validate`.
unfoldable pub acl_validate : Glob → ℕ → List Row → ℕ → Certificate → Outcome AclError (Unit {0})
unfolding admin check_signer
acl_validate glob master rows now c =
    if admin c.options
    then (if master == c.signature_key then ok tt else err not_signed_by_master)
    else check_signer glob rows now c.signature_key c.options c.valid_principals

-- A certificate that fails is left out with a warning; a panic is one of the whole call.
abbrev pub admit :
    Outcome CertError (Unit {0})
    → Outcome AclError (Unit {0})
    → Certificate
    → Outcome AclError (List Certificate)
    → Outcome AclError (List Certificate)
admit (ok t) (ok u) c rest = do cs ← rest; ok (c ∷ cs)
admit (ok t) (err e) c rest = rest
admit (ok t) panic c rest = panic
admit (err e) r c rest = rest
admit panic r c rest = panic

-- The first loop of `loadCerts`, over what each path's file is parsed to.
unfoldable pub accept :
    Checker
    → Glob
    → ℕ
    → List Row
    → ℕ
    → List (Option Certificate)
    → Outcome AclError (List Certificate)
accept checker glob master rows now [] = ok []
accept checker glob master rows now (none ∷ files) = accept checker glob master rows now files
accept checker glob master rows now (some c ∷ files) =
    admit (validate checker c) (acl_validate glob master rows now c) c
      (accept checker glob master rows now files)

-- The rows of one path.
abbrev pub path_rows : Certificate → List ℕ → ℕ → List Capability → List Row
path_rows c dir priority [] = []
path_rows c dir priority (cap ∷ caps) =
    record {
      fingerprint = c.key;
      capability = number cap;
      path = dir;
      priority = priority;
      valid_after = c.valid_after;
      valid_before = c.valid_before;
    }
    ∷ path_rows c dir priority caps

unfoldable pub cert_rows : Certificate → ℕ → List (List ℕ) → Outcome AclError (List Row)
cert_rows c priority [] = ok []
cert_rows c priority (p ∷ ps) = do
  dir ← with_slash p
  rest ← cert_rows c (priority + 1) ps
  ok (path_rows c dir priority c.options ++ rest)

unfoldable pub inserts : List Certificate → Outcome AclError (List Row)
inserts [] = ok []
inserts (c ∷ cs) = do
  first ← cert_rows c 0 c.valid_principals
  rest ← inserts cs
  ok (first ++ rest)

-- Whether DELETE leaves a row: `admin` removes the numbers 1 and 2, otherwise 3 and 4.
unfoldable pub stays : Bool → Row → Bool
stays true r = not (r.capability == 1 || r.capability == 2)
stays false r = not (r.capability == 3 || r.capability == 4)

abbrev pub remove : Bool → List Row → List Row
remove kind [] = []
remove kind (r ∷ rs) = let rest = remove kind rs in if stays kind r then r ∷ rest else rest

-- `loadCerts` on a database that does not fail: the rows behind the transaction.
unfoldable pub load_certs :
    Checker
    → Glob
    → ℕ
    → ℕ
    → List (Option Certificate)
    → Bool
    → List Row
    → Outcome AclError (List Row)
load_certs checker glob master now files kind rows = do
  certs ← accept checker glob master rows now files
  added ← inserts certs
  ok (remove kind rows ++ added)

unfoldable pub load :
    Checker
    → Glob
    → ℕ
    → ℕ
    → List (Option Certificate)
    → List (Option Certificate)
    → List Row
    → Outcome AclError (List Row)
unfolding load_certs
load checker glob master now adminfiles userfiles rows = do
  rows' ← load_certs checker glob master now adminfiles true rows
  load_certs checker glob master now userfiles false rows'
