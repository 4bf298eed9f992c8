-- ===== src/Access/Examples.antt =====
-- The theorems on secrets/access at concrete inputs.
use pond.Prelude.{
  ◌≡◌, ◌==◌, ◌&&◌, refl, true, false, none, some, List, [], ◌∷◌, All, ok, panic, arith,
}
use pond.Access.Certificate.{
  manage_readers, read, Certificate, Checker, admin, b_slash, required, number, is_user, is_admin,
  is_valid, check_paths, check_kind, check_signature, validate,
}
use pond.Access.Delegate.{keys, has, new_certificate, sign, delegate, delegate_user}
use pond.Access.Validity.{IsValid, delegate_user-ne_admin}
use pond.Access.Acl.{
  Row, Glob, ends_in_slash, with_slash, selects, count_rows, check, check_capabilities,
  check_signer, acl_validate, accept, cert_rows, inserts, stays, load_certs, load,
}
use pond.Access.Trust.{IsTrusted}
use pond.Access.Load.{IsLoaded, load-IsTrusted}
use pond.Access.Total.{load_total, load_panics}

-- A pattern whose only special character is the star at its end.
abbrev prefix_glob : Glob
prefix_glob [] text = false
prefix_glob (b ∷ []) text = b == b'*'
prefix_glob (b ∷ c ∷ pattern') [] = false
prefix_glob (b ∷ c ∷ pattern') (d ∷ text) = b == d && prefix_glob (c ∷ pattern') text

abbrev trusting : Checker
trusting options principal c = true

abbrev manager : Certificate
manager = record {
  key = 1;
  signature_key = 0;
  key_id = b'm' ∷ [];
  valid_principals = (b_slash ∷ []) ∷ [];
  valid_after = 10;
  valid_before = 20;
  options = manage_readers ∷ [];
}

abbrev reader : Certificate
reader = record {
  key = 2;
  signature_key = 1;
  key_id = b'r' ∷ [];
  valid_principals = (b_slash ∷ []) ∷ [];
  valid_after = 10;
  valid_before = 20;
  options = read ∷ [];
}

manager_passes : validate trusting manager ≡ ok tt
unfolding validate check_paths check_kind check_signature is_admin is_valid
manager_passes = refl

delegates :
    delegate_user trusting 1 true 10 2 (read ∷ []) ((b_slash ∷ []) ∷ []) (b'r' ∷ []) 10 ≡ ok reader
unfolding delegate_user delegate new_certificate sign validate check_paths check_kind
    check_signature is_user is_admin is_valid keys has
delegates = refl

delegate_user-ne_admin_example :
    IsValid reader × (reader.signature_key ≡ 1) × (reader.key ≡ 2) × (admin reader.options ≡ false)
delegate_user-ne_admin_example =
    delegate_user-ne_admin trusting 1 true 10 2 (read ∷ []) ((b_slash ∷ []) ∷ []) (b'r' ∷ []) 10
      reader delegates

-- The rows of the manager and the reader, for the path of both.
abbrev root_rows : List Row
root_rows =
    record {
      fingerprint = 1;
      capability = 1;
      path = b_slash ∷ [];
      priority = 0;
      valid_after = 10;
      valid_before = 20;
    }
    ∷ record {
      fingerprint = 2;
      capability = 3;
      path = b_slash ∷ [];
      priority = 0;
      valid_after = 10;
      valid_before = 20;
    }
    ∷ []

loads :
    load trusting prefix_glob 0 15 (some manager ∷ []) (none ∷ some reader ∷ []) [] ≡ ok root_rows
unfolding load load_certs accept validate check_paths check_kind check_signature is_admin is_valid
    acl_validate check_signer check_capabilities check count_rows selects with_slash ends_in_slash
    cert_rows inserts stays required number admin
loads = refl

load-IsTrusted_example :
    All
      (IsTrusted trusting
        (IsLoaded (some manager ∷ []) (none ∷ some reader ∷ []))
        prefix_glob
        0
        15
        root_rows)
      root_rows
load-IsTrusted_example =
    load-IsTrusted trusting prefix_glob 0 15 (some manager ∷ []) (none ∷ some reader ∷ []) []
      root_rows tt loads

load_total_example :
    (out : List Row) × (load trusting prefix_glob 0 15
        (some manager ∷ [])
        (none ∷ some reader ∷ [])
        []
      ≡ ok out)
load_total_example =
    load_total trusting prefix_glob 0 15 (some manager ∷ []) (none ∷ some reader ∷ []) []
      ((omega arith, tt), tt) (tt, ((omega arith, tt), tt))

abbrev nowhere : Certificate
nowhere = record manager { valid_principals = [] ∷ [] }

load_panics_example : load trusting prefix_glob 0 15 (some nowhere ∷ []) [] [] ≡ panic
load_panics_example =
    load_panics trusting prefix_glob 0 15 [] [] [] nowhere [] refl (omega arith) (omega arith)
