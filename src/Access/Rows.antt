-- ===== src/Access/Rows.antt =====
-- The rows of a certificate of secrets/access that is accepted.
use pond.Prelude.{
  ℕ, ◌+◌, ◌≤◌, ◌≡◌, refl, true, false, List, [], ◌∷◌, ◌++◌, All, All-append, ok, arith,
}
use pond.Access.Certificate.{
  Capability, manage_writers, manage_readers, read, write, other, Certificate, Checker, number,
  required, is_admin, is_user, is_valid, validate,
}
use pond.Access.Validity.{IsOfKind}
use pond.Access.Acl.{
  Row, Glob, with_slash, selects, exists, count_rows, check, check_capabilities, check_signer,
  path_rows, cert_rows,
}
use pond.Access.Trust.{bind_ok, Listed, Listed-All, IsRowOf, IsRoot, IsGranted}

module _ (glob : Glob) (now : ℕ) (rows : List Row) where
  -- What the checks of a user's certificate say of one path and one capability.
  abbrev pub Allows : Certificate → List ℕ → Capability → Type 0
  Allows c dir cap =
      exists (selects glob now c.signature_key (number (required cap)) dir) rows ≡ true

  check_capabilities-Allows :
      (c : Certificate) (p dir : List ℕ) (caps : List Capability)
      → with_slash p ≡ ok dir
      → check_capabilities glob rows now c.signature_key p caps ≡ ok tt
      → All (Allows c dir) caps
  unfolding check_capabilities check count_rows
  check_capabilities-Allows c p dir [] e h = tt
  check_capabilities-Allows c p dir (cap ∷ caps) e h =
      (ground (arith, e), check_capabilities-Allows c p dir caps e (ground (arith, e)))

pub number_admin : (c : Capability) → is_admin c ≡ true → (1 ≤ number c) × (number c ≤ 2)
unfolding is_admin number
number_admin manage_writers h = omega arith
number_admin manage_readers h = omega arith
number_admin read h = cc
number_admin write h = cc
number_admin (other s) h = cc

valid_user : (c : Capability) → is_valid c ≡ true → is_admin c ≡ false → is_user c ≡ true
unfolding is_valid is_admin is_user
valid_user manage_writers h k = cc
valid_user manage_readers h k = cc
valid_user read h k = refl
valid_user write h k = refl
valid_user (other s) h k = cc

module _ (checker : Checker) (Given : Certificate → Type 0) (glob : Glob) (master : ℕ) (now : ℕ)
    (rows : List Row) (c : Certificate) (given : Given c) (valid : validate checker c ≡ ok tt) where
  abbrev Root : Row → Type 0
  Root r = IsRoot checker Given master r

  abbrev Granted : Row → Type 0
  Granted r = IsGranted checker Given glob now rows r

  -- A path of the certificate's, as the table has it.
  abbrev IsPlace : List ℕ → Type 0
  IsPlace dir = (p : List ℕ) × Listed p c.valid_principals × (with_slash p ≡ ok dir)

  path_row-IsRowOf :
      (dir : List ℕ) (priority : ℕ) (cap : Capability)
      → IsPlace dir
      → Listed cap c.options
      → IsRowOf c cap (record {
        fingerprint = c.key;
        capability = number cap;
        path = dir;
        priority = priority;
        valid_after = c.valid_after;
        valid_before = c.valid_before;
      })
  path_row-IsRowOf dir priority cap (p, l, e) o = record {
    owner = refl;
    option = o;
    counted = refl;
    path = p;
    principal = l;
    place = e;
    from = refl;
    until = refl;
  }

  abbrev IsOption : Capability → Type 0
  IsOption cap = Listed cap c.options

  path_rows-IsRoot :
      (dir : List ℕ) (priority : ℕ) (caps : List Capability)
      → c.signature_key ≡ master
      → IsPlace dir
      → All IsOption caps
      → All (IsOfKind true) caps
      → All Root (path_rows c dir priority caps)
  path_rows-IsRoot dir priority [] e l o h = tt
  path_rows-IsRoot dir priority (cap ∷ caps) e l (o, os) (k, h) = (
    record {
      cert = c;
      given = given;
      passed = valid;
      signed = e;
      kind = cap;
      row = path_row-IsRowOf dir priority cap l o;
      admin = k.1;
    },
    path_rows-IsRoot dir priority caps e l os h,
  )

  path_rows-IsGranted :
      (dir : List ℕ) (priority : ℕ) (caps : List Capability)
      → IsPlace dir
      → All IsOption caps
      → All (IsOfKind false) caps
      → All (Allows glob now rows c dir) caps
      → All Granted (path_rows c dir priority caps)
  path_rows-IsGranted dir priority [] l o h a = tt
  path_rows-IsGranted dir priority (cap ∷ caps) l (o, os) (k, h) (b, a) = (
    record {
      cert = c;
      given = given;
      passed = valid;
      kind = cap;
      row = path_row-IsRowOf dir priority cap l o;
      user = valid_user cap k.0 k.1;
      allowed = b;
    },
    path_rows-IsGranted dir priority caps l os h a,
  )

  own_options : All IsOption c.options
  own_options = Listed-All IsOption c.options (λ cap l. l)

  abbrev pub IsPrincipal : List ℕ → Type 0
  IsPrincipal p = Listed p c.valid_principals

  pub own_principals : All IsPrincipal c.valid_principals
  own_principals = Listed-All IsPrincipal c.valid_principals (λ p l. l)

  -- The rows of a certificate of the master's, path by path.
  pub cert_rows-IsRoot :
      (priority : ℕ) (ps : List (List ℕ)) (rs : List Row)
      → c.signature_key ≡ master
      → All IsPrincipal ps
      → All (IsOfKind true) c.options
      → cert_rows c priority ps ≡ ok rs
      → All Root rs
  unfolding cert_rows
  cert_rows-IsRoot priority [] [] e l k h = tt
  cert_rows-IsRoot priority [] (r ∷ rs) e l k h = cc
  cert_rows-IsRoot priority (p ∷ ps) rs e (l, ls) k h =
      let (dir, slash, h') = bind_ok (with_slash p) _ rs h in
      let (rest, later, last) = bind_ok (cert_rows c (priority + 1) ps) _ rs h' in
      let q : rs ≡ path_rows c dir priority c.options ++ rest = cc in
      rw q (
        All-append Root (path_rows c dir priority c.options) rest
          (path_rows-IsRoot dir priority c.options e (p, l, slash) own_options k)
          (cert_rows-IsRoot (priority + 1) ps rest e ls k later))

  -- The rows of a user's certificate.
  pub cert_rows-IsGranted :
      (priority : ℕ) (ps : List (List ℕ)) (rs : List Row)
      → All IsPrincipal ps
      → All (IsOfKind false) c.options
      → check_signer glob rows now c.signature_key c.options ps ≡ ok tt
      → cert_rows c priority ps ≡ ok rs
      → All Granted rs
  unfolding cert_rows check_signer
  cert_rows-IsGranted priority [] [] l k s h = tt
  cert_rows-IsGranted priority [] (r ∷ rs) l k s h = cc
  cert_rows-IsGranted priority (p ∷ ps) rs (l, ls) k s h =
      let (dir, slash, h') = bind_ok (with_slash p) _ rs h in
      let (rest, later, last) = bind_ok (cert_rows c (priority + 1) ps) _ rs h' in
      let (t, now_ok, s') =
        bind_ok (check_capabilities glob rows now c.signature_key p c.options) _ tt s in
      let q : rs ≡ path_rows c dir priority c.options ++ rest = cc in
      rw q (
        All-append Granted (path_rows c dir priority c.options) rest
          (path_rows-IsGranted dir priority c.options (p, l, slash) own_options k
            (check_capabilities-Allows glob now rows c p dir c.options slash
              (ground (arith, now_ok))))
          (cert_rows-IsGranted (priority + 1) ps rest ls k s' later))
