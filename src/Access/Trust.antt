-- ===== src/Access/Trust.antt =====
-- The chain of trust behind the rows of the table.
use pond.Prelude.{
  ℕ, ◌≡◌, ◌⊎◌, refl, true, Option, none, some, List, [], ◌∷◌, All, Outcome, ok, err, panic, ◌>>=◌,
  inl, inr,
}
use pond.Access.Certificate.{
  Capability, Certificate, CertError, Checker, number, required, is_admin, is_user, validate,
}
use pond.Access.Acl.{Row, Glob, AclError, with_slash, selects, exists, acl_validate, admit, accept}

pub bind_ok :
    {E A B : Type 0} (m : Outcome E A) (f : A → Outcome E B) (b : B)
    → (m >>= f) ≡ ok b
    → (a : A) × (m ≡ ok a) × (f a ≡ ok b)
bind_ok (ok a) f b h = (a, refl, h)
bind_ok (err e) f b h = cc
bind_ok panic f b h = cc

-- One of the elements of a list.
abbrev pub Listed : {A : Type 0} → A → List A → Type 0
Listed a [] = ⊥
Listed a (x ∷ xs) = (x ≡ a) ⊎ Listed a xs

pub Listed-All :
    {A : Type 0} (P : A → Type 0) (xs : List A) → ((x : A) → Listed x xs → P x) → All P xs
Listed-All P [] f = tt
Listed-All P (x ∷ xs) f = (f x (inl refl), Listed-All P xs (λ y l. f y (inr l)))

admit-All :
    (P : Certificate → Type 0) (v : Outcome CertError (Unit {0})) (a : Outcome AclError (Unit {0}))
    (c : Certificate) (rest : Outcome AclError (List Certificate)) (cs : List Certificate)
    → (v ≡ ok tt → a ≡ ok tt → P c)
    → ((ds : List Certificate) → rest ≡ ok ds → All P ds)
    → admit v a c rest ≡ ok cs
    → All P cs
admit-All P (ok t) (ok u) c rest cs f g h =
    let (ds, e, k) = bind_ok rest (λ ds. ok (c ∷ ds)) cs h in
    let q : cs ≡ c ∷ ds = cc in rw q (f refl refl, g ds e)
admit-All P (ok t) (err e) c rest cs f g h = g cs h
admit-All P (ok t) panic c rest cs f g h = cc
admit-All P (err e) a c rest cs f g h = g cs h
admit-All P panic a c rest cs f g h = cc

-- A row that a certificate gives: one of its capabilities for one of its paths, with its times.
pub record IsRowOf (cert : Certificate) (kind : Capability) (r : Row) : Type 0 where
  pub owner : r.fingerprint ≡ cert.key
  pub option : Listed kind cert.options
  pub counted : r.capability ≡ number kind
  pub path : List ℕ
  pub principal : Listed path cert.valid_principals
  pub place : with_slash path ≡ ok r.path
  pub from : r.valid_after ≡ cert.valid_after
  pub until : r.valid_before ≡ cert.valid_before

-- A row of an administrator, whose certificate is one of those given, valid, and the master's.
pub record IsRoot (checker : Checker) (Given : Certificate → Type 0) (master : ℕ) (r : Row)
    : Type 0 where
  pub cert : Certificate
  pub given : Given cert
  pub passed : validate checker cert ≡ ok tt
  pub signed : cert.signature_key ≡ master
  pub kind : Capability
  pub row : IsRowOf cert kind r
  pub admin : is_admin kind ≡ true

-- A row of a user, whose certificate is one of those given, valid, and signed by somebody whom the
-- rows let manage this access to this path.
pub record IsGranted (checker : Checker) (Given : Certificate → Type 0) (glob : Glob) (now : ℕ)
    (rows : List Row) (r : Row) : Type 0 where
  pub cert : Certificate
  pub given : Given cert
  pub passed : validate checker cert ≡ ok tt
  pub kind : Capability
  pub row : IsRowOf cert kind r
  pub user : is_user kind ≡ true
  pub allowed :
      exists (selects glob now cert.signature_key (number (required kind)) r.path) rows ≡ true

abbrev pub IsTrusted : Checker → (Certificate → Type 0) → Glob → ℕ → ℕ → List Row → Row → Type 0
IsTrusted checker Given glob master now rows r =
    IsRoot checker Given master r ⊎ IsGranted checker Given glob now rows r

module _ (checker : Checker) (Given : Certificate → Type 0) (glob : Glob) (master : ℕ) (now : ℕ)
    (rows : List Row) where
  -- A certificate that `loadCerts` accepts with the rows that there are.
  abbrev pub Accepted : Certificate → Type 0
  Accepted c =
      Given c × (validate checker c ≡ ok tt) × (acl_validate glob master rows now c ≡ ok tt)

  pub accept-Accepted :
      (files : List (Option Certificate)) (cs : List Certificate)
      → ((c : Certificate) → Listed (some c) files → Given c)
      → accept checker glob master rows now files ≡ ok cs
      → All Accepted cs
  unfolding accept
  accept-Accepted [] [] g h = tt
  accept-Accepted [] (c ∷ cs) g h = cc
  accept-Accepted (none ∷ files) cs g h = accept-Accepted files cs (λ c l. g c (inr l)) h
  accept-Accepted (some c ∷ files) cs g h =
      admit-All Accepted (validate checker c) (acl_validate glob master rows now c) c
        (accept checker glob master rows now files) cs (λ v a. (g c (inl refl), v, a))
        (λ ds. accept-Accepted files ds (λ d l. g d (inr l))) h
