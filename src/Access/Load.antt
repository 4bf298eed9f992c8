-- ===== src/Access/Load.antt =====
-- What `Load` leaves in the table, whatever certificates it is given.
use pond.Prelude.{
  ℕ, ◌≤◌, ◌≡◌, ◌⊎◌, Bool, true, false, Option, some, List, [], ◌∷◌, ◌++◌, All, All-append,
  Bool-cases, inl, inr, ok, arith,
}
use pond.Access.Certificate.{
  Capability, manage_writers, manage_readers, read, write, other, Certificate, Checker, number,
  required, is_user, admin,
}
use pond.Access.Validity.{validate-IsValid}
use pond.Access.Acl.{
  Row, Glob, selects, exists, acl_validate, accept, cert_rows, inserts, stays, remove, load_certs,
  load,
}
use pond.Access.Trust.{bind_ok, Listed, IsRoot, IsGranted, IsTrusted, Accepted, accept-Accepted}
use pond.Access.Rows.{own_principals, cert_rows-IsRoot, cert_rows-IsGranted}

module _ {A : Type 0} (P Q : A → Type 0) where
  All-map : ((a : A) → P a → Q a) → (xs : List A) → All P xs → All Q xs
  All-map f [] h = tt
  All-map f (x ∷ xs) (p, h) = (f x p, All-map f xs h)

user_number : (c : Capability) → is_user c ≡ true → (3 ≤ number c) × (number c ≤ 4)
unfolding is_user number
user_number manage_writers h = cc
user_number manage_readers h = cc
user_number read h = omega arith
user_number write h = omega arith
user_number (other s) h = cc

number-required : (c : Capability) → number (required c) ≤ 2
unfolding required number
number-required manage_writers = omega arith
number-required manage_readers = omega arith
number-required read = omega arith
number-required write = omega arith
number-required (other s) = omega arith

-- A row of a capability that there is.
abbrev pub IsNumbered : Row → Type 0
IsNumbered r = (1 ≤ r.capability) × (r.capability ≤ 4)

module _ (P Q : Row → Type 0) (kind : Bool) where
  -- What becomes of the rows that are not deleted.
  remove-All :
      ((r : Row) → stays kind r ≡ true → P r → Q r)
      → (rs : List Row) → All P rs
      → All Q (remove kind rs)
  remove-All f [] h = tt
  remove-All f (r ∷ rs) (p, h) = elim (Bool-cases (stays kind r)) [
    | inl e ↦ rw e (f r e p, remove-All f rs h)
    | inr e ↦ rw e (remove-All f rs h)
  ]

selects_capability :
    (glob : Glob) (now key k : ℕ) (dir : List ℕ) (r : Row)
    → selects glob now key k dir r ≡ true
    → r.capability ≡ k
unfolding selects
selects_capability glob now key k dir r h = ground arith

low_stays : (r : Row) → r.capability ≤ 2 → stays false r ≡ true
unfolding stays
low_stays r h = ground arith

-- A row of an administrator is found behind the deletion of the users' rows too.
exists-remove :
    (f : Row → Bool) (k : ℕ) (rs more : List Row)
    → ((r : Row) → f r ≡ true → r.capability ≡ k)
    → k ≤ 2
    → exists f rs ≡ true
    → exists f (remove false rs ++ more) ≡ true
exists-remove f k [] more g low h = cc
exists-remove f k (r ∷ rs) more g low h = elim (Bool-cases (f r)) [
  | inl e ↦ ground (arith, e, g r e, low_stays r)
  | inr e ↦ ground (arith, e, exists-remove f k rs more g low, Bool-cases (stays false r))
]

-- A certificate that is read from one of the files.
abbrev pub IsLoaded : List (Option Certificate) → List (Option Certificate) → Certificate → Type 0
IsLoaded adminfiles userfiles c = Listed (some c) adminfiles ⊎ Listed (some c) userfiles

module _ (checker : Checker) (glob : Glob) (master : ℕ) (now : ℕ) where
  module _ (Given : Certificate → Type 0) where
    abbrev Root : Row → Type 0
    Root r = IsRoot checker Given master r

    abbrev Trusted : List Row → Row → Type 0
    Trusted rows r = IsTrusted checker Given glob master now rows r

    module _ (rows : List Row) where
      cert-IsTrusted :
          (c : Certificate) (rs : List Row)
          → Accepted checker Given glob master now rows c
          → cert_rows c 0 c.valid_principals ≡ ok rs
          → All (Trusted rows) rs
      unfolding acl_validate
      cert-IsTrusted c rs (given, valid, passed) h =
          let v = validate-IsValid checker c valid in
          let places = own_principals checker Given glob master now rows c given valid in
          elim (Bool-cases (admin c.options)) [
            | inl e ↦
                All-map Root (Trusted rows) (λ r p. inl p) rs
                  (cert_rows-IsRoot checker Given glob master now rows c given valid 0
                    c.valid_principals rs (ground arith) places (rw e at v.one_kind) h)
            | inr e ↦
                All-map (IsGranted checker Given glob now rows) (Trusted rows) (λ r p. inr p) rs
                  (cert_rows-IsGranted checker Given glob master now rows c given valid 0
                    c.valid_principals rs places (rw e at v.one_kind) (ground arith) h)
          ]

      inserts-IsTrusted :
          (cs : List Certificate) (rs : List Row)
          → All (Accepted checker Given glob master now rows) cs
          → inserts cs ≡ ok rs
          → All (Trusted rows) rs
      unfolding inserts
      inserts-IsTrusted [] [] a h = tt
      inserts-IsTrusted [] (r ∷ rs) a h = cc
      inserts-IsTrusted (c ∷ cs) rs (a, others) h =
          let (first, e, h') = bind_ok (cert_rows c 0 c.valid_principals) _ rs h in
          let (rest, e', h'') = bind_ok (inserts cs) _ rs h' in
          let q : rs ≡ first ++ rest = cc in
          rw q (
            All-append (Trusted rows) first rest (cert-IsTrusted c first a e)
              (inserts-IsTrusted cs rest others e'))

      -- The rows behind one call of `loadCerts`: those that stay, and others that are trusted.
      load_certs-IsTrusted :
          (files : List (Option Certificate)) (kind : Bool) (out : List Row)
          → ((c : Certificate) → Listed (some c) files → Given c)
          → load_certs checker glob master now files kind rows ≡ ok out
          → (added : List Row) × (out ≡ remove kind rows ++ added) × All (Trusted rows) added
      unfolding load_certs
      load_certs-IsTrusted files kind out given h =
          let (cs, e, h') = bind_ok (accept checker glob master rows now files) _ out h in
          let (added, e', h'') = bind_ok (inserts cs) _ out h' in
          (
            added,
            cc,
            inserts-IsTrusted cs added
                (accept-Accepted checker Given glob master now rows files cs given e) e',
          )

    -- The administrators' rows that stay when users are loaded are the master's.
    roots_stay :
        (rows added : List Row)
        → All IsNumbered rows
        → All (Trusted rows) added
        → All Root (remove false (remove true rows ++ added))
    unfolding stays
    roots_stay rows added h t =
        let Low = λ (r : Row). Root r ⊎ ((3 ≤ r.capability) × (r.capability ≤ 4)) in
        remove-All Low Root false
          (λ r e p. elim p [ inl root ↦ root | inr high ↦ absurd (ground arith) ])
          (remove true rows ++ added)
          (All-append Low (remove true rows) added
            (remove-All IsNumbered Low true (λ r e p. inr (ground arith, ground arith)) rows h)
            (All-map (Trusted rows) Low
              (λ r p. elim p [
                | inl root ↦ inl root
                | inr user ↦ inr (omega (arith, user_number user.kind user.user, user.row.counted))
              ])
              added t))

    IsGranted-remove :
        (rows more : List Row) (r : Row)
        → IsGranted checker Given glob now rows r
        → IsGranted checker Given glob now (remove false rows ++ more) r
    IsGranted-remove rows more r g = record {
      cert = g.cert;
      given = g.given;
      passed = g.passed;
      kind = g.kind;
      row = g.row;
      user = g.user;
      allowed =
          exists-remove (selects glob now g.cert.signature_key (number (required g.kind)) r.path)
            (number (required g.kind)) rows more
            (selects_capability glob now g.cert.signature_key (number (required g.kind)) r.path)
            (number-required g.kind) g.allowed;
    }

  -- Behind a `Load` that succeeds every row is one capability of a certificate for one of its
  -- paths, with its owner and its times. The certificate is read from one of the files of this
  -- call, and it passes `Validate`. Either the capability is an administrator's, and the
  -- certificate is signed by the master key; or it is a user's, and whoever signed the certificate
  -- has, in the same table and at the time of the call, an administrator's row that the check for
  -- managing this access to this path finds. There may have been any rows of the four capabilities
  -- before.
  pub load-IsTrusted :
      (adminfiles userfiles : List (Option Certificate)) (rows out : List Row)
      → All IsNumbered rows
      → load checker glob master now adminfiles userfiles rows ≡ ok out
      → All (IsTrusted checker (IsLoaded adminfiles userfiles) glob master now out) out
  unfolding load
  load-IsTrusted adminfiles userfiles rows out numbered h =
      let Given = IsLoaded adminfiles userfiles in
      let (rows', e, h') =
        bind_ok (load_certs checker glob master now adminfiles true rows) _ out h in
      let (added, q, t) = load_certs-IsTrusted Given rows adminfiles true rows' (λ c l. inl l) e in
      let (more, q', t') = load_certs-IsTrusted Given rows' userfiles false out (λ c l. inr l) h' in
      let roots : All (Root Given) (remove false rows') =
        rw q (roots_stay Given rows added numbered t) in
      rw q' (
        All-append (Trusted Given (remove false rows' ++ more)) (remove false rows') more
          (All-map (Root Given) (Trusted Given (remove false rows' ++ more)) (λ r p. inl p)
            (remove false rows') roots)
          (All-map (Trusted Given rows') (Trusted Given (remove false rows' ++ more))
            (λ r p. elim p [
              | inl root ↦ inl root
              | inr user ↦ inr (IsGranted-remove Given rows' more r user)
            ])
            more t'))
