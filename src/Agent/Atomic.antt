-- ===== src/Agent/Atomic.antt =====
-- SetIdentity of secrets/agent/agent.go: all of a new identity, or the old one.
use pond.Prelude.{
  if◌then◌else◌, ℕ, ◌≡◌, refl, List, length, ◌==◌, Option, none, some, ok, err, panic, bytes_equal,
  Bool-cases, inl, inr,
}
use pond.Agent.{
  Algorithm, key_algo_rsa, cert_algo_rsa, other_algo, is_rsa, rsa_sha512, PublicKey, Outside,
  AgentError, not_random, not_signed, Session, Result, tick,
}
use pond.Agent.Connection.{
  next, or_err, sign_with, sign_once, close_at, close, connect, dialled, verdict, any_key, diagnose,
  failed_first, compared, check, selected, restored, set_identity,
}

-- No panic, and what is said of a value and of the session behind it.
abbrev pub Holds : {A : Type 0} → (A → Session → Type 0) → Result A → Type 0
Holds P (ok a, s) = P a s
Holds P (err e, s) = Unit {0}
Holds P (panic, s) = ⊥

pub next-Holds :
    {A B : Type 0} (P : A → Session → Type 0) (Q : B → Session → Type 0) (r : Result A)
    (f : A → Session → Result B)
    → Holds P r
    → ((a : A) (s : Session) → P a s → Holds Q (f a s))
    → Holds Q (next r f)
next-Holds P Q (ok a, s) f h k = k a s h
next-Holds P Q (err e, s) f h k = h
next-Holds P Q (panic, s) f h k = h

-- The key and the flags with which the session signs.
abbrev pub Uses : PublicKey → ℕ → Session → Type 0
Uses k fl s = (s.conn.key ≡ some k) × (s.conn.flags ≡ fl)

-- The agent of the session has signed with the key and the flags.
abbrev pub HasSigned : Outside → PublicKey → ℕ → Session → Type 0
HasSigned w k fl s =
    (a now : ℕ) × (msg sig : List ℕ) × (s.conn.agent ≡ some a)
    × (w.sign_with_flags now a k msg fl ≡ some sig)

abbrev pub IsReady : PublicKey → ℕ → Session → Type 0
IsReady k fl s = Uses k fl s × ((a : ℕ) × (s.conn.agent ≡ some a))

close_at-Holds :
    (w : Outside) (k : PublicKey) (fl : ℕ) (s : Session) (c : Option ℕ)
    → Uses k fl s
    → Holds (λ u. Uses k fl) (close_at w s c)
close_at-Holds w k fl s none h = h
close_at-Holds w k fl s (some c) h = elim (Bool-cases (w.close_socket s.asked c)) [
  | inl e ↦ rw e h
  | inr e ↦ rw e tt
]

close-Holds :
    (w : Outside) (k : PublicKey) (fl : ℕ) (s : Session)
    → Uses k fl s
    → Holds (λ u. Uses k fl) (close w s)
unfolding close
close-Holds w k fl s h = close_at-Holds w k fl s s.conn.socket h

dialled-Holds :
    (k : PublicKey) (fl : ℕ) (s : Session) (c : Option ℕ)
    → Uses k fl s
    → Holds (λ u. IsReady k fl) (dialled s c)
dialled-Holds k fl s none h = tt
dialled-Holds k fl s (some c) h = (h, (c, refl))

pub connect-Holds :
    (w : Outside) (k : PublicKey) (fl : ℕ) (s : Session)
    → Uses k fl s
    → Holds (λ u. IsReady k fl) (connect w s)
unfolding connect
connect-Holds w k fl s h =
    next-Holds _ (λ u. IsReady k fl) (close w s) _ (close-Holds w k fl s h)
      (λ u s1 h1. elim (Bool-cases (length w.ssh_auth_sock == 0)) [
        | inl e ↦ rw e tt
        | inr e ↦ rw e (dialled-Holds k fl (tick s1) (w.dial s1.asked w.ssh_auth_sock) h1)
      ])

pub or_err-Holds :
    {A : Type 0} (P : A → Session → Type 0) (e : AgentError) (o : Option A) (s : Session)
    → ((a : A) → o ≡ some a → P a s)
    → Holds P (or_err e o, s)
or_err-Holds P e none s f = tt
or_err-Holds P e (some a) s f = f a refl

module _ (w : Outside) (k : PublicKey) (fl : ℕ) where
  -- What holds behind a signature.
  abbrev Signed : List ℕ → Session → Type 0
  Signed sig s = Uses k fl s × HasSigned w k fl s

  sign_with-Holds :
      (msg : List ℕ) (s : Session) (a : Option ℕ) (key : Option PublicKey)
      → IsReady k fl s
      → s.conn.agent ≡ a
      → s.conn.key ≡ key
      → Holds Signed (sign_with w msg s a key)
  sign_with-Holds msg s none key h e f = tt
  sign_with-Holds msg s (some a) none h e f = tt
  sign_with-Holds msg s (some a) (some key) ((g, fs), h) e f =
      let same : key ≡ k = cc in
      or_err-Holds Signed not_signed _ _ (λ sig q.
        let by_k : w.sign_with_flags s.asked a k msg fl ≡ some sig = cc in
        ((g, fs), (a, s.asked, msg, sig, e, by_k)))

  sign_once-Holds : (msg : List ℕ) (s : Session) → IsReady k fl s → Holds Signed (sign_once w msg s)
  unfolding sign_once
  sign_once-Holds msg s h = sign_with-Holds msg s s.conn.agent s.conn.key h refl refl

  -- The errors of a check, where nothing is said of a value.
  abbrev Fails : Result (Unit {0}) → Type 0
  Fails r = Holds (λ u s. ⊥) r

  verdict-Fails :
      (e : AgentError) (keys : Option (List PublicKey)) (key : Option PublicKey) (s : Session)
      → key ≡ some k
      → Fails (verdict e keys key, s)
  verdict-Fails e none key s h = tt
  verdict-Fails e (some keys) none s h = cc
  verdict-Fails e (some keys) (some key) s h = elim (Bool-cases (any_key key keys)) [
    | inl q ↦ rw q tt
    | inr q ↦ rw q tt
  ]

  diagnose-Fails :
      (e : AgentError) (s : Session) (a : Option ℕ)
      → s.conn.key ≡ some k
      → (b : ℕ) → a ≡ some b
      → Fails (diagnose w e s a)
  unfolding diagnose
  diagnose-Fails e s none h b q = cc
  diagnose-Fails e s (some a) h b q = verdict-Fails e (w.signers s.asked a) s.conn.key (tick s) h

  Fails-Holds : (P : Unit {0} → Session → Type 0) (r : Result (Unit {0})) → Fails r → Holds P r
  Fails-Holds P (ok u, s) h = absurd h
  Fails-Holds P (err e, s) h = h
  Fails-Holds P (panic, s) h = h

  -- A session that is ready, before and behind a signature that failed.
  failed_first-Holds :
      (P : Unit {0} → Session → Type 0) (r : Result (List ℕ))
      (f : List ℕ → Session → Result (Unit {0}))
      → IsReady k fl r.1
      → Holds Signed r
      → ((sig : List ℕ) (s : Session) → Signed sig s → Holds P (f sig s))
      → Holds P (failed_first w r f)
  failed_first-Holds P (ok sig, s) f h g q = q sig s g
  failed_first-Holds P (err e, s) f ((key, fs), (b, h)) g q =
      Fails-Holds P _ (diagnose-Fails e s s.conn.agent key b h)
  failed_first-Holds P (panic, s) f h g q = g

  sign_with-IsReady :
      (msg : List ℕ) (s : Session) (a : Option ℕ) (key : Option PublicKey)
      → IsReady k fl s
      → IsReady k fl (sign_with w msg s a key).1
  sign_with-IsReady msg s none key h = h
  sign_with-IsReady msg s (some a) none h = h
  sign_with-IsReady msg s (some a) (some key) h = h

  sign_once-IsReady :
      (msg : List ℕ) (s : Session) → IsReady k fl s → IsReady k fl (sign_once w msg s).1
  unfolding sign_once
  sign_once-IsReady msg s h = sign_with-IsReady msg s s.conn.agent s.conn.key h

  compared-Holds :
      (sig1 sig2 : List ℕ) (s : Session)
      → Signed sig2 s
      → Holds (λ u. Signed sig2) (compared sig1 sig2 s)
  compared-Holds sig1 sig2 s h = elim (Bool-cases (bytes_equal sig1 sig2)) [
    | inl e ↦ rw e h
    | inr e ↦ rw e h
  ]

  -- What SetIdentity has found out of the session that it leaves.
  abbrev pub Checked : Unit {0} → Session → Type 0
  Checked u s = Uses k fl s × HasSigned w k fl s

  pub check-Holds :
      (r : Result (Unit {0})) → Holds (λ u. IsReady k fl) r → Holds Checked (check w r)
  unfolding check
  check-Holds r h =
      next-Holds (λ u. IsReady k fl) Checked r _ h
        (λ u s g.
          next-Holds (λ m. IsReady k fl) Checked (or_err not_random (w.rand_read s.asked), tick s) _
            (or_err-Holds (λ m. IsReady k fl) not_random (w.rand_read s.asked) (tick s) (λ m q. g))
            (λ msg s1 g1.
              failed_first-Holds Checked (sign_once w msg s1) _ (sign_once-IsReady msg s1 g1)
                (sign_once-Holds msg s1 g1)
                (λ sig1 s2 (uses, (a, now, m, sig, e, q)).
                  next-Holds Signed Checked (sign_once w msg s2) _
                    (sign_once-Holds msg s2 (uses, (a, e)))
                    (λ sig2 s3 g3. compared-Holds sig1 sig2 s3 g3))))

-- The flags of a key behind those of the key before: SHA-512 for the two types of RSA.
abbrev pub flags_behind : Algorithm → ℕ → ℕ
flags_behind key_algo_rsa before = 4
flags_behind cert_algo_rsa before = 4
flags_behind other_algo before = before

selected_flags :
    (a : Algorithm) (before : ℕ) → (if is_rsa a then rsa_sha512 else before) ≡ flags_behind a before
selected_flags key_algo_rsa before = refl
selected_flags cert_algo_rsa before = refl
selected_flags other_algo before = refl

-- The new identity, which the agent has signed with, or the one before.
abbrev pub IsAtomic : Outside → PublicKey → Session → Result (Unit {0}) → Type 0
IsAtomic w k s (ok u, s') = Checked w k (flags_behind k.algorithm s.conn.flags) u s'
IsAtomic w k s (err e, s') = (s'.conn.key ≡ s.conn.key) × (s'.conn.flags ≡ s.conn.flags)
IsAtomic w k s (panic, s') = ⊥

restored-IsAtomic :
    (w : Outside) (k : PublicKey) (s : Session) (r : Result (Unit {0}))
    → Holds (Checked w k (flags_behind k.algorithm s.conn.flags)) r
    → IsAtomic w k s (restored s r)
restored-IsAtomic w k s (ok u, s') h = h
restored-IsAtomic w k s (err e, s') h = (refl, refl)
restored-IsAtomic w k s (panic, s') h = h

-- `SetIdentity` of a key does not panic. With an error, the key and the flags are the ones before.
-- With none, the key is the new one, its flags are 4, for SHA-512, if its type is one of the two of
-- RSA, and the ones before for any other type, and the agent of the connection has made a signature
-- with this key and these flags.
pub set_identity-IsAtomic :
    (w : Outside) (k : PublicKey) (s : Session) → IsAtomic w k s (set_identity w (some k) s)
unfolding set_identity
set_identity-IsAtomic w k s =
    let fl = flags_behind k.algorithm s.conn.flags in
    restored-IsAtomic w k s _ (
      check-Holds w k fl _
        (connect-Holds w k fl (selected k s) (refl, selected_flags k.algorithm s.conn.flags)))
