-- ===== src/Access/Total.antt =====
-- `Load` on files whose certificates have no empty path.
use pond.Prelude.{
  ℕ, ◌+◌, ◌<◌, ◌≡◌, ◌≢◌, refl, Bool, true, false, Option, none, some, List, [], ◌∷◌, ◌++◌, All,
  Outcome, ok, err, panic, arith, length,
}
use pond.Access.Certificate.{
  Capability, Certificate, CertError, Checker, admin, check_paths, check_kind, check_signature,
  validate,
}
use pond.Access.Acl.{
  Row, Glob, AclError, with_slash, count_rows, check, check_capabilities, check_signer,
  acl_validate, admit, accept, cert_rows, path_rows, inserts, remove, load_certs, load,
}

abbrev pub HasBytes : List ℕ → Type 0
HasBytes p = 0 < length p

-- A file that is no certificate, or one of a certificate without empty paths.
abbrev pub IsReadable : Option Certificate → Type 0
IsReadable none = Unit
IsReadable (some c) = All HasBytes c.valid_principals

with_slash_ok : (p : List ℕ) → HasBytes p → (dir : List ℕ) × (with_slash p ≡ ok dir)
unfolding with_slash
with_slash_ok [] h = absurd (omega arith)
with_slash_ok (b ∷ p) h = (_, refl)

check_paths-ne : (ps : List (List ℕ)) → All HasBytes ps → check_paths ps ≢ panic
unfolding check_paths
check_paths-ne [] h = λ e. cc
check_paths-ne ([] ∷ ps) (h, hs) = absurd (omega arith)
check_paths-ne ((b ∷ p) ∷ ps) (h, hs) = λ e. check_paths-ne ps hs (ground arith)

check_kind-ne : (kind : Bool) (cs : List Capability) → check_kind kind cs ≢ panic
unfolding check_kind
check_kind-ne kind [] = λ e. cc
check_kind-ne kind (c ∷ cs) = λ e. check_kind-ne kind cs (ground arith)

check_signature-ne :
    (checker : Checker) (c : Certificate) (ps : List (List ℕ))
    → length ps ≢ 0
    → check_signature checker c ps ≢ panic
unfolding check_signature
check_signature-ne checker c [] h = absurd (h refl)
check_signature-ne checker c (p ∷ ps) h = λ e. ground arith

validate-ne :
    (checker : Checker) (c : Certificate)
    → All HasBytes c.valid_principals
    → validate checker c ≢ panic
unfolding validate
validate-ne checker c h = λ e. ground (
  arith,
  e,
  check_paths-ne c.valid_principals h,
  check_kind-ne (admin c.options) c.options,
  check_signature-ne checker c c.valid_principals,
)

module _ (glob : Glob) (rows : List Row) (now signer : ℕ) where
  check_capabilities-ne :
      (p : List ℕ) (cs : List Capability)
      → HasBytes p
      → check_capabilities glob rows now signer p cs ≢ panic
  unfolding check_capabilities check count_rows
  check_capabilities-ne p [] h = λ e. cc
  check_capabilities-ne p (c ∷ cs) h =
      let (dir, q) = with_slash_ok p h in λ e. ground (arith, e, q, check_capabilities-ne p cs h)

  check_signer-ne :
      (cs : List Capability) (ps : List (List ℕ))
      → All HasBytes ps
      → check_signer glob rows now signer cs ps ≢ panic
  unfolding check_signer
  check_signer-ne cs [] h = λ e. cc
  check_signer-ne cs (p ∷ ps) (h, hs) =
      λ e. ground (arith, e, check_capabilities-ne p cs h, check_signer-ne cs ps hs)

acl_validate-ne :
    (glob : Glob) (master : ℕ) (rows : List Row) (now : ℕ) (c : Certificate)
    → All HasBytes c.valid_principals
    → acl_validate glob master rows now c ≢ panic
unfolding acl_validate
acl_validate-ne glob master rows now c h = λ e.
    ground (arith, e, check_signer-ne glob rows now c.signature_key c.options c.valid_principals h)

abbrev Safe : Certificate → Type 0
Safe c = All HasBytes c.valid_principals

admit_ok :
    (v : Outcome CertError (Unit {0})) (a : Outcome AclError (Unit {0})) (c : Certificate)
    (rest : Outcome AclError (List Certificate)) (cs : List Certificate)
    → v ≢ panic
    → a ≢ panic
    → Safe c
    → rest ≡ ok cs
    → All Safe cs
    → (ds : List Certificate) × (admit v a c rest ≡ ok ds) × All Safe ds
admit_ok (ok t) (ok u) c rest cs v a s e h = (c ∷ cs, rw e refl, (s, h))
admit_ok (ok t) (err x) c rest cs v a s e h = (cs, e, h)
admit_ok (ok t) panic c rest cs v a s e h = absurd (a refl)
admit_ok (err x) a c rest cs v n s e h = (cs, e, h)
admit_ok panic a c rest cs v n s e h = absurd (v refl)

cert_rows_ok :
    (c : Certificate) (priority : ℕ) (ps : List (List ℕ))
    → All HasBytes ps
    → (rs : List Row) × (cert_rows c priority ps ≡ ok rs)
unfolding cert_rows
cert_rows_ok c priority [] h = ([], refl)
cert_rows_ok c priority (p ∷ ps) (h, hs) =
    let (dir, q) = with_slash_ok p h in
    let (rest, e) = cert_rows_ok c (priority + 1) ps hs in
    (path_rows c dir priority c.options ++ rest, rw (q, e) refl)

inserts_ok : (cs : List Certificate) → All Safe cs → (rs : List Row) × (inserts cs ≡ ok rs)
unfolding inserts
inserts_ok [] h = ([], refl)
inserts_ok (c ∷ cs) (h, hs) =
    let (first, q) = cert_rows_ok c 0 c.valid_principals h in
    let (rest, e) = inserts_ok cs hs in (first ++ rest, rw (q, e) refl)

module _ (checker : Checker) (glob : Glob) (master : ℕ) (now : ℕ) where
  accept_ok :
      (rows : List Row) (files : List (Option Certificate))
      → All IsReadable files
      → (cs : List Certificate) × (accept checker glob master rows now files ≡ ok cs) × All Safe cs
  unfolding accept
  accept_ok rows [] h = ([], refl, tt)
  accept_ok rows (none ∷ files) (h, hs) = accept_ok rows files hs
  accept_ok rows (some c ∷ files) (h, hs) =
      let (cs, e, s) = accept_ok rows files hs in
      admit_ok (validate checker c) (acl_validate glob master rows now c) c
        (accept checker glob master rows now files) cs (validate-ne checker c h)
        (acl_validate-ne glob master rows now c h) h e s

  load_certs_ok :
      (files : List (Option Certificate)) (kind : Bool) (rows : List Row)
      → All IsReadable files
      → (out : List Row) × (load_certs checker glob master now files kind rows ≡ ok out)
  unfolding load_certs
  load_certs_ok files kind rows h =
      let (cs, e, s) = accept_ok rows files h in
      let (added, q) = inserts_ok cs s in (remove kind rows ++ added, rw e (rw q refl))

  -- `Load` succeeds, with a database that does not fail, whatever files it is given, if none is a certificate with an empty path.
  pub load_total :
      (adminfiles userfiles : List (Option Certificate)) (rows : List Row)
      → All IsReadable adminfiles
      → All IsReadable userfiles
      → (out : List Row) × (load checker glob master now adminfiles userfiles rows ≡ ok out)
  unfolding load
  load_total adminfiles userfiles rows h k =
      let (rows', e) = load_certs_ok adminfiles true rows h in
      let (out, q) = load_certs_ok userfiles false rows' k in (out, rw e q)

  -- `Load` panics where the first file of an administrator is a certificate with an empty first
  -- path, whose name is not empty and whose signer is another key: the loop over the paths looks
  -- at the first byte of each.
  pub load_panics :
      (adminfiles userfiles : List (Option Certificate)) (rows : List Row) (c : Certificate)
      (ps : List (List ℕ))
      → c.valid_principals ≡ [] ∷ ps
      → c.key ≢ c.signature_key
      → 0 < length c.key_id
      → load checker glob master now (some c ∷ adminfiles) userfiles rows ≡ panic
  unfolding load load_certs accept validate check_paths
  load_panics adminfiles userfiles rows c ps e ne named = ground (arith, e)
