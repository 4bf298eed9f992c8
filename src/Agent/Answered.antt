-- ===== src/Agent/Answered.antt =====
-- Sign of secrets/agent/agent.go: where a signature comes from.
use pond.Prelude.{
  ℕ, ◌≡◌, refl, Bool, not, ◌&&◌, List, Option, none, some, ok, err, panic, Bool-cases, inl, inr,
}
use pond.Agent.{PublicKey, Outside, not_signed, Session, Result}
use pond.Agent.Connection.{counted, sign_with, sign_once, connect, check, again, sign}
use pond.Agent.Atomic.{Holds, next-Holds, or_err-Holds, Uses, Checked, connect-Holds, check-Holds}

-- At some moment, an agent has answered the bytes with the signature.
abbrev pub IsAnswer : Outside → PublicKey → ℕ → List ℕ → List ℕ → Type 0
IsAnswer w k fl bytes sig = (a now : ℕ) × (w.sign_with_flags now a k bytes fl ≡ some sig)

module _ (w : Outside) (k : PublicKey) (fl : ℕ) (bytes : List ℕ) where
  abbrev pub Answered : List ℕ → Session → Type 0
  Answered sig s = Uses k fl s × IsAnswer w k fl bytes sig

  sign_with-IsAnswer :
      (s : Session) (a : Option ℕ) (key : Option PublicKey)
      → Uses k fl s
      → s.conn.key ≡ key
      → Holds Answered (sign_with w bytes s a key)
  sign_with-IsAnswer s none key h e = tt
  sign_with-IsAnswer s (some a) none h e = tt
  sign_with-IsAnswer s (some a) (some key) (g, fs) e =
      let same : key ≡ k = cc in
      or_err-Holds Answered not_signed (w.sign_with_flags s.asked a key bytes s.conn.flags)
        (counted s)
        (λ sig q.
          let by_k : w.sign_with_flags s.asked a k bytes fl ≡ some sig = cc in
          ((g, fs), (a, s.asked, by_k)))

  sign_once-IsAnswer : (s : Session) → Uses k fl s → Holds Answered (sign_once w bytes s)
  unfolding sign_once
  sign_once-IsAnswer s h = sign_with-IsAnswer s s.conn.agent s.conn.key h refl

  sign_with-Uses :
      (s : Session) (a : Option ℕ) (key : Option PublicKey)
      → Uses k fl s
      → Uses k fl (sign_with w bytes s a key).1
  sign_with-Uses s none key h = h
  sign_with-Uses s (some a) none h = h
  sign_with-Uses s (some a) (some key) h = h

  again-IsAnswer :
      (r : Result (List ℕ)) → Uses k fl r.1 → Holds Answered r → Holds Answered (again w bytes r)
  unfolding again
  again-IsAnswer (ok sig, s) u h = h
  again-IsAnswer (err e, s) u h =
      next-Holds (Checked w k fl) Answered (check w (connect w s)) _
        (check-Holds w k fl (connect w s) (connect-Holds w k fl s u))
        (λ x s1 (g, signed). sign_once-IsAnswer s1 g)
  again-IsAnswer (panic, s) u h = h

-- `Sign` with a key set does not panic, whether the first signature succeeds or the connection is
-- made and checked again. A signature that it returns is the answer of an agent to the very bytes,
-- with the key and the flags of the connection, and these stay.
pub sign-IsAnswer :
    (w : Outside) (k : PublicKey) (random : Bool) (bytes : List ℕ) (s : Session)
    → s.conn.key ≡ some k
    → Holds (Answered w k s.conn.flags bytes) (sign w random bytes s)
unfolding sign sign_once
sign-IsAnswer w k random bytes s e = elim (Bool-cases (s.conn.randomized && not random)) [
  | inl q ↦ rw q tt
  | inr q ↦ rw q (
      again-IsAnswer w k s.conn.flags bytes (sign_once w bytes s)
        (sign_with-Uses w k s.conn.flags bytes s s.conn.agent s.conn.key (e, refl))
        (sign_once-IsAnswer w k s.conn.flags bytes s (e, refl)))
]
