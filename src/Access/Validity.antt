-- ===== src/Access/Validity.antt =====
-- What a certificate that passes `Validate` is like.
use pond.Prelude.{ℕ, ◌<◌, ◌≡◌, ◌≢◌, refl, Bool, true, false, List, [], ◌∷◌, All, ok, length, arith}
use pond.Access.Certificate.{
  Capability, manage_writers, manage_readers, read, write, other, Certificate, Checker, is_admin,
  is_user, is_valid, admin, b_slash, check_paths, check_kind, validate,
}
use pond.Access.Delegate.{keys, new_certificate, sign, delegate, delegate_user, every}

-- A path that begins with a slash.
abbrev pub IsAbsolute : List ℕ → Type 0
IsAbsolute [] = ⊥
IsAbsolute (b ∷ p) = b ≡ b_slash

-- A valid capability of the given kind.
abbrev pub IsOfKind : Bool → Capability → Type 0
IsOfKind kind c = (is_valid c ≡ true) × (is_admin c ≡ kind)

check_paths-IsAbsolute : (ps : List (List ℕ)) → check_paths ps ≡ ok tt → All IsAbsolute ps
unfolding check_paths
check_paths-IsAbsolute [] h = tt
check_paths-IsAbsolute ([] ∷ ps) h = cc
check_paths-IsAbsolute ((b ∷ p) ∷ ps) h = (ground arith, check_paths-IsAbsolute ps (ground arith))

check_kind-IsOfKind :
    (kind : Bool) (cs : List Capability) → check_kind kind cs ≡ ok tt → All (IsOfKind kind) cs
unfolding check_kind
check_kind-IsOfKind kind [] h = tt
check_kind-IsOfKind kind (c ∷ cs) h =
    ((ground arith, ground arith), check_kind-IsOfKind kind cs (ground arith))

-- A certificate that passes: what its issuer, paths and capabilities are like.
pub record IsValid (c : Certificate) : Type 0 where
  pub delegated : c.key ≢ c.signature_key
  pub named : 0 < length c.key_id
  pub has_paths : 0 < length c.valid_principals
  pub absolute : All IsAbsolute c.valid_principals
  pub has_options : 0 < length c.options
  pub one_kind : All (IsOfKind (admin c.options)) c.options

-- A certificate that passes `Validate` is not signed by its own key, has a name, has paths, all of them absolute, and has capabilities, all of them known and of the kind that `Admin` reports from the first one: so it does not matter which one the map gives first.
pub validate-IsValid :
    (checker : Checker) (c : Certificate) → validate checker c ≡ ok tt → IsValid c
unfolding validate
validate-IsValid checker c h = record {
  delegated = ground arith;
  named = ground arith;
  has_paths = ground arith;
  absolute = check_paths-IsAbsolute c.valid_principals (ground arith);
  has_options = ground arith;
  one_kind = check_kind-IsOfKind (admin c.options) c.options (ground arith);
}

every-keys :
    (f : Capability → Bool) (cs : List Capability) → every f cs ≡ true → every f (keys cs) ≡ true
unfolding keys
every-keys f [] h = refl
every-keys f (c ∷ cs) h = ground (arith, every-keys f cs)

user_ne_admin : (c : Capability) → is_user c ≡ true → is_admin c ≡ false
unfolding is_user is_admin
user_ne_admin manage_writers h = cc
user_ne_admin manage_readers h = cc
user_ne_admin read h = refl
user_ne_admin write h = refl
user_ne_admin (other s) h = cc

admin-every_user : (cs : List Capability) → every is_user cs ≡ true → admin cs ≡ false
unfolding admin
admin-every_user [] h = refl
admin-every_user (c ∷ cs) h = user_ne_admin c (ground arith)

-- What `delegate` returns where it returns a certificate.
abbrev pub Delegated : ℕ → ℕ → List Capability → Certificate → Type 0
Delegated from to caps c =
    IsValid c × (c.signature_key ≡ from) × (c.key ≡ to) × (c.options ≡ keys caps)

delegate-Delegated :
    (checker : Checker) (from : ℕ) (signs : Bool) (now to : ℕ) (caps : List Capability)
    (paths : List (List ℕ)) (name : List ℕ) (lifetime : ℕ) (c : Certificate)
    → delegate checker from signs now to caps paths name lifetime ≡ ok c
    → Delegated from to caps c
unfolding delegate sign new_certificate
delegate-Delegated checker from signs now to caps paths name lifetime c h =
    (validate-IsValid checker c (ground arith), ground arith, ground arith, ground arith)

-- Where `DelegateUser` returns a certificate, it is valid, signed by the given key for the given recipient, and not an administrator's, whatever capabilities were asked for.
pub delegate_user-ne_admin :
    (checker : Checker) (from : ℕ) (signs : Bool) (now to : ℕ) (caps : List Capability)
    (paths : List (List ℕ)) (name : List ℕ) (lifetime : ℕ) (c : Certificate)
    → delegate_user checker from signs now to caps paths name lifetime ≡ ok c
    → IsValid c × (c.signature_key ≡ from) × (c.key ≡ to) × (admin c.options ≡ false)
unfolding delegate_user
delegate_user-ne_admin checker from signs now to caps paths name lifetime c h =
    let users : every is_user caps ≡ true = ground arith in
    let (valid, by, for, options) =
      delegate-Delegated checker from signs now to caps paths name lifetime c (ground arith) in
    (valid, by, for, rw options (admin-every_user (keys caps) (every-keys is_user caps users)))
