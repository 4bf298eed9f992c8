-- ===== src/Value/Signature.antt =====
-- What a signature of a secret value says.
use pond.Prelude.{
  ℕ, ◌≡◌, refl, subst, ltb, ◌==◌, true, false, some, List, [], ◌∷◌, ◌++◌, length, length-append,
  take, drop, take-length_append, drop-length_append, ok, arith, inl, inr, Option-cases,
}
use pond.Value.{
  Value, Ssh, attach, sig_nonce_bytes, newline, same, lines, bytes_to_sign, sig_format, sign,
  verify,
}

lines-append :
    (ps : List (List ℕ)) (p blob : List ℕ)
    → lines (ps ++ (p ∷ [])) blob ≡ lines ps (p ++ (newline ∷ blob))
lines-append [] p blob = refl
lines-append (q ∷ ps) p blob = rw (lines-append ps p blob) refl

bytes_to_sign-moves :
    (random nonce : List ℕ) (v : Value) (ps : List (List ℕ)) (p blob : List ℕ)
    → bytes_to_sign random nonce (record v { path = ps ++ (p ∷ []); blob = blob })
      ≡ bytes_to_sign random nonce (record v { path = ps; blob = p ++ (newline ∷ blob) })
unfolding bytes_to_sign
bytes_to_sign-moves random nonce v ps p blob = rw (lines-append ps p blob) refl

-- A signature does not tell the last path from the beginning of the encrypted bytes: a value with one more path is verified exactly if the value is that has this path, behind the others and with a line break, in front of its encrypted bytes.
pub verify_moves :
    (ssh : Ssh) (v : Value) (ps : List (List ℕ)) (p blob : List ℕ)
    → verify ssh (record v { path = ps ++ (p ∷ []); blob = blob })
      ≡ verify ssh (record v { path = ps; blob = p ++ (newline ∷ blob) })
unfolding verify
verify_moves ssh v ps p blob = elim (Option-cases v.signer) [
  | inl e ↦ rw e refl
  | inr (key, e) ↦
      rw (e, bytes_to_sign-moves [] (take sig_nonce_bytes v.signature) v ps p blob) refl
]

same_refl : (xs : List ℕ) → same xs xs ≡ true
same_refl [] = refl
same_refl (x ∷ xs) = ground (arith, same_refl xs)

take-at : (n : ℕ) (xs ys : List ℕ) → length xs ≡ n → take n (xs ++ ys) ≡ xs
take-at n xs ys e = rw (← e) (take-length_append xs ys)

drop-at : (n : ℕ) (xs ys : List ℕ) → length xs ≡ n → drop n (xs ++ ys) ≡ ys
drop-at n xs ys e = rw (← e) (drop-length_append xs ys)

-- What `sign` hands to the signer begins with the nonce, and is what `verify` rebuilds from it.
module _ (random : List ℕ) (v : Value) (full : length random ≡ sig_nonce_bytes) where
  take-bytes_to_sign : take sig_nonce_bytes (bytes_to_sign random [] v) ≡ random
  unfolding bytes_to_sign
  take-bytes_to_sign = take-at sig_nonce_bytes random _ full

  bytes_to_sign-again :
      (key : ℕ) (signature : List ℕ)
      → bytes_to_sign [] random (record v { signer = some key; signature = signature })
        ≡ bytes_to_sign random [] v
  unfolding bytes_to_sign
  bytes_to_sign-again key signature = rw full refl

  verify-signed :
      (ssh : Ssh) (key : ℕ) (signature blob : List ℕ)
      → (length signature == 0) ≡ false
      → ltb (length signature) sig_nonce_bytes ≡ false
      → take sig_nonce_bytes signature ≡ random
      → drop sig_nonce_bytes signature ≡ blob
      → ssh.verifies key (sig_format ssh (ssh.key_type key)) (bytes_to_sign random [] v) blob ≡ true
      → verify ssh (record v { signer = some key; signature = signature }) ≡ ok tt
  unfolding verify
  verify-signed ssh key signature blob present long nonce rest good =
      rw (present, long, nonce, rest, bytes_to_sign-again key signature, good) refl

same→≡ : (xs ys : List ℕ) → same xs ys ≡ true → xs ≡ ys
same→≡ [] [] h = refl
same→≡ [] (y ∷ ys) h = cc
same→≡ (x ∷ xs) [] h = cc
same→≡ (x ∷ xs) (y ∷ ys) h =
    let head : x ≡ y = ground (arith, h) in
    let tail : xs ≡ ys = same→≡ xs ys (ground (arith, h)) in cc

length_signed :
    (random blob : List ℕ)
    → length random ≡ sig_nonce_bytes
    → ((length (random ++ blob) == 0) ≡ false)
      × (ltb (length (random ++ blob)) sig_nonce_bytes ≡ false)
length_signed random blob full = (
  ground (arith, full, length-append random blob),
  ground (arith, full, length-append random blob),
)

-- What a signer returns is attached if it has the format of the key.
attach-ok :
    (ssh : Ssh) (key : ℕ) (data' : List ℕ) (v v' : Value) (format blob : List ℕ)
    → attach ssh key data' v (some (format, blob)) ≡ ok v'
    → (format ≡ sig_format ssh (ssh.key_type key))
      × (v' ≡ record v { signer = some key; signature = take sig_nonce_bytes data' ++ blob })
attach-ok ssh key data' v v' format blob h =
    let good : same format (sig_format ssh (ssh.key_type key)) ≡ true = ground (arith, h) in
    (same→≡ format (sig_format ssh (ssh.key_type key)) good, ground (arith, h))

-- A value that `Sign` has signed passes `Verify`, if the key verifies what its signer signs, as a
-- signature of the format that the signer has given it, and the nonce has 64 bytes.
pub sign-verify :
    (ssh : Ssh) (random : List ℕ) (key : ℕ) (v v' : Value)
    → length random ≡ sig_nonce_bytes
    → ((bytes format blob : List ℕ)
        → ssh.signs key bytes ≡ some (format, blob)
        → ssh.verifies key format bytes blob ≡ true)
    → sign ssh random key v ≡ ok v'
    → verify ssh v' ≡ ok tt
unfolding sign
sign-verify ssh random key v v' full correct h =
    elim (Option-cases (ssh.signs key (bytes_to_sign random [] v))) [
      | inl e ↦ absurd (ground (arith, e, h))
      | inr ((format, blob), e) ↦
          let data' = bytes_to_sign random [] v in
          let h' : attach ssh key data' v (some (format, blob)) ≡ ok v' = rw e at h in
          let (f, q') = attach-ok ssh key data' v v' format blob h' in
          let q : v' ≡ record v { signer = some key; signature = random ++ blob } =
            rw (take-bytes_to_sign random v full) at q' in
          rw q (
            verify-signed random v full ssh key (random ++ blob) blob
              (length_signed random blob full).0 (length_signed random blob full).1
              (take-at sig_nonce_bytes random blob full) (drop-at sig_nonce_bytes random blob full)
              (subst (λ g. ssh.verifies key g data' blob ≡ true) f (correct data' format blob e)))
    ]
