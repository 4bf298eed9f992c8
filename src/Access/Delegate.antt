-- ===== src/Access/Delegate.antt =====
-- secrets/access/cert.go and delegate.go: how a certificate is made.
use pond.Prelude.{
  ℕ, ◌+◌, ◌==◌, Bool, true, false, not, ◌&&◌, ◌||◌, List, [], ◌∷◌, Outcome, ok, err, ◌>>=◌, ◌>>◌,
  if◌then◌else◌, length,
}
use pond.Access.Certificate.{
  Capability, manage_writers, manage_readers, read, write, other, is_admin, is_user, Certificate,
  CertError, self_delegation, empty_key_id, no_paths, no_capabilities, mixed_capabilities,
  sign_failed, Checker, check_paths, validate,
}

abbrev pub equal : List ℕ → List ℕ → Bool
equal [] [] = true
equal (a ∷ xs) (b ∷ ys) = a == b && equal xs ys
equal xs ys = false

-- Whether two capabilities are the same string.
unfoldable pub same : Capability → Capability → Bool
same manage_writers manage_writers = true
same manage_readers manage_readers = true
same read read = true
same write write = true
same (other s) (other t) = equal s t
same c d = false

unfoldable pub has : Capability → List Capability → Bool
has c [] = false
has c (d ∷ ds) = same c d || has c ds

-- `capabilities[string(c)] = ""` for each capability: the keys of the map.
unfoldable pub keys : List Capability → List Capability
keys [] = []
keys (c ∷ cs) = let rest = keys cs in if has c rest then rest else c ∷ rest

-- A certificate that is not yet signed: `sign` sets the signer's key and the times.
unfoldable pub new_certificate :
    ℕ → List ℕ → List (List ℕ) → List Capability → Outcome CertError Certificate
unfolding check_paths keys
new_certificate recipient name paths caps =
    if length caps == 0
    then err no_capabilities
    else if length paths == 0
    then err no_paths
    else (do
      check_paths paths
      (if length name == 0
          then err empty_key_id
          else ok (record {
            key = recipient;
            signature_key = 0;
            key_id = name;
            valid_principals = paths;
            valid_after = 0;
            valid_before = 0;
            options = keys caps;
          })))

-- The private key of `authority` signs, or fails to.
unfoldable pub sign : Checker → ℕ → Bool → ℕ → ℕ → Certificate → Outcome CertError Certificate
sign checker authority signs now lifetime c =
    let signed = record c {
      signature_key = authority;
      valid_after = now;
      valid_before = now + lifetime;
    } in
    if c.key == authority
    then err self_delegation
    else if not signs
    then err sign_failed
    else (do validate checker signed; ok signed)

-- `DelegateUser` and `DelegateAdmin` differ in the test on capabilities.
unfoldable pub delegate :
    Checker
    → ℕ
    → Bool
    → ℕ
    → ℕ
    → List Capability
    → List (List ℕ)
    → List ℕ
    → ℕ
    → Outcome CertError Certificate
unfolding new_certificate sign
delegate checker from signs now to caps paths name lifetime = do
  cert ← new_certificate to name paths caps
  sign checker from signs now lifetime cert

abbrev pub every : (Capability → Bool) → List Capability → Bool
every f [] = true
every f (c ∷ cs) = f c && every f cs

unfoldable pub delegate_user :
    Checker
    → ℕ
    → Bool
    → ℕ
    → ℕ
    → List Capability
    → List (List ℕ)
    → List ℕ
    → ℕ
    → Outcome CertError Certificate
unfolding is_user
delegate_user checker from signs now to caps paths name lifetime =
    if every is_user caps
    then delegate checker from signs now to caps paths name lifetime
    else err mixed_capabilities

unfoldable pub delegate_admin :
    Checker
    → ℕ
    → Bool
    → ℕ
    → ℕ
    → List Capability
    → List (List ℕ)
    → List ℕ
    → ℕ
    → Outcome CertError Certificate
unfolding is_admin
delegate_admin checker from signs now to caps paths name lifetime =
    if every is_admin caps
    then delegate checker from signs now to caps paths name lifetime
    else err mixed_capabilities
