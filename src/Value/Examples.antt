-- ===== src/Value/Examples.antt =====
-- Signatures of secret values at concrete inputs.
use pond.Prelude.{ℕ, ◌≡◌, ◌++◌, ◌&&◌, refl, true, some, none, List, [], ◌∷◌, ok}
use pond.Value.{Value, Ssh, same, bytes_to_sign, digits, sig_format, sign, verify}
use pond.Value.Signature.{sign-verify}

-- Keys whose signatures are their numbers.
abbrev toy : Ssh
toy = record {
  key_algo_rsa = 1 ∷ [];
  key_algo_rsa_sha512 = 2 ∷ [];
  key_type = λ key. [];
  signs = λ key bytes. some ([], key ∷ []);
  verifies = λ key format bytes blob. same format [] && same blob (key ∷ []);
}

abbrev unsigned : Value
unsigned = record {
  path = (b'/' ∷ b'a' ∷ []) ∷ [];
  created = 100;
  expires = 2000;
  signer = none;
  blob = 7 ∷ 8 ∷ [];
  signature = [];
}

abbrev eight : List ℕ
eight = 5 ∷ 5 ∷ 5 ∷ 5 ∷ 5 ∷ 5 ∷ 5 ∷ 5 ∷ []

abbrev nonce : List ℕ
nonce = eight ++ eight ++ eight ++ eight ++ eight ++ eight ++ eight ++ eight

abbrev signed : Value
signed = record unsigned { signer = some 3; signature = nonce ++ (3 ∷ []) }

signs-unsigned : sign toy nonce 3 unsigned ≡ ok signed
unfolding sign bytes_to_sign sig_format digits
signs-unsigned = refl

sign-verify_example : verify toy signed ≡ ok tt
sign-verify_example = sign-verify toy nonce 3 unsigned signed refl verifies signs-unsigned
  where
    verifies :
        (bytes format blob : List ℕ)
        → toy.signs 3 bytes ≡ some (format, blob)
        → (same format [] && same blob (3 ∷ [])) ≡ true
    verifies bytes format blob e =
        let p : format ≡ [] = cc in let q : blob ≡ 3 ∷ [] = cc in rw (p, q) refl
