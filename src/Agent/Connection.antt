-- ===== src/Agent/Connection.antt =====
-- The methods of Conn in secrets/agent/agent.go, each the whole of what its lock protects.
use pond.Prelude.{
  ℕ, ◌+◌, ◌%◌, ◌^◌, Bool, true, false, not, List, [], ◌∷◌, length, ◌==◌, Option, none, some,
  Outcome, ok, err, panic, if◌then◌else◌, bytes_equal, ◌&&◌,
}
use pond.Agent.{
  PublicKey, Outside, AgentError, not_closed, not_set, not_dialled, not_random, not_initialized,
  not_signed, not_available, new_conn, Session, Result, tick, rsa_sha512, is_rsa,
}

abbrev pub next : {A B : Type 0} → Result A → (A → Session → Result B) → Result B
next (ok a, s) f = f a s
next (err e, s) f = (err e, s)
next (panic, s) f = (panic, s)

abbrev pub or_err : {A : Type 0} → AgentError → Option A → Outcome AgentError A
or_err e none = err e
or_err e (some a) = ok a

-- atomic.AddUint32(&c.count, 1)
abbrev pub counted : Session → Session
counted s = record {
  conn = record s.conn { count = (s.conn.count + 1) % 2 ^ 32 };
  asked = s.asked + 1;
}

abbrev pub sign_with : Outside → List ℕ → Session → Option ℕ → Option PublicKey → Result (List ℕ)
sign_with w data_in s none k = (err not_initialized, s)
sign_with w data_in s (some a) none = (err not_initialized, s)
sign_with w data_in s (some a) (some k) =
    (or_err not_signed (w.sign_with_flags s.asked a k data_in s.conn.flags), counted s)

-- The method `sign`, without a second attempt.
unfoldable pub sign_once : Outside → List ℕ → Session → Result (List ℕ)
sign_once w data_in s = sign_with w data_in s s.conn.agent s.conn.key

abbrev pub close_at : Outside → Session → Option ℕ → Result (Unit {0})
close_at w s none = (ok tt, s)
close_at w s (some c) = (if w.close_socket s.asked c then ok tt else err not_closed, tick s)

-- `Close`
unfoldable pub close : Outside → Session → Result (Unit {0})
close w s = close_at w s s.conn.socket

abbrev pub dialled : Session → Option ℕ → Result (Unit {0})
dialled s none = (err not_dialled, s)
dialled s (some c) = (ok tt, record s { conn = record s.conn { socket = some c; agent = some c } })

unfoldable pub connect : Outside → Session → Result (Unit {0})
unfolding close
connect w s = next (close w s) (λ u s'.
    if length w.ssh_auth_sock == 0
    then (err not_set, s')
    else dialled (tick s') (w.dial s'.asked w.ssh_auth_sock))

abbrev pub any_key : PublicKey → List PublicKey → Bool
any_key k [] = false
any_key k (x ∷ xs) = if bytes_equal x.marshalled k.marshalled then true else any_key k xs

-- The marshalling of a key that is nil panics, in the comparison as in the fingerprint.
abbrev pub verdict :
    AgentError → Option (List PublicKey) → Option PublicKey → Outcome AgentError (Unit {0})
verdict e none k = err e
verdict e (some keys) none = panic
verdict e (some keys) (some k) = if any_key k keys then err e else err (not_available k)

-- What `check` does about a signature that failed.
unfoldable pub diagnose : Outside → AgentError → Session → Option ℕ → Result (Unit {0})
diagnose w e s none = (panic, s)
diagnose w e s (some a) = (verdict e (w.signers s.asked a) s.conn.key, tick s)

abbrev pub failed_first :
    Outside → Result (List ℕ) → (List ℕ → Session → Result (Unit {0})) → Result (Unit {0})
failed_first w (ok sig, s) f = f sig s
failed_first w (err e, s) f = diagnose w e s s.conn.agent
failed_first w (panic, s) f = (panic, s)

abbrev pub compared : List ℕ → List ℕ → Session → Result (Unit {0})
compared sig1 sig2 s = (
  ok tt,
  if bytes_equal sig1 sig2 then s else record s { conn = record s.conn { randomized = true } },
)

-- `check`, behind the result of `connect`.
unfoldable pub check : Outside → Result (Unit {0}) → Result (Unit {0})
unfolding sign_once diagnose
check w r = next r (λ u s.
    next (or_err not_random (w.rand_read s.asked), tick s)
      (λ msg s1.
        failed_first w (sign_once w msg s1)
          (λ sig1 s2. next (sign_once w msg s2) (λ sig2 s3. compared sig1 sig2 s3))))

-- The key and its flags, as SetIdentity tries them.
abbrev pub selected : PublicKey → Session → Session
selected k s = record s {
  conn = record s.conn {
    key = some k;
    flags = if is_rsa k.algorithm then rsa_sha512 else s.conn.flags;
  };
}

abbrev pub restored : Session → Result (Unit {0}) → Result (Unit {0})
restored old (ok u, s) = (ok u, s)
restored old (err e, s) =
    (err e, record s { conn = record s.conn { key = old.conn.key; flags = old.conn.flags } })
restored old (panic, s) = (panic, s)

-- `SetIdentity`
unfoldable pub set_identity : Outside → Option PublicKey → Session → Result (Unit {0})
unfolding connect check
set_identity w none s = (ok tt, record s { conn = record s.conn { key = none; flags = 0 } })
set_identity w (some k) s = restored s (check w (connect w (selected k s)))

unfoldable pub new_from : Outside → Option PublicKey → Session → Result (Unit {0})
unfolding connect set_identity
new_from w none s = connect w s
new_from w (some k) s = set_identity w (some k) s

-- `New`, which returns no connection with an error.
unfoldable pub new : Outside → Option PublicKey → ℕ → Result (Unit {0})
unfolding new_from
new w k asked = new_from w k (record { conn = new_conn; asked = asked })

unfoldable pub again : Outside → List ℕ → Result (List ℕ) → Result (List ℕ)
unfolding connect check sign_once
again w data_in (ok sig, s) = (ok sig, s)
again w data_in (err e, s) = next (check w (connect w s)) (λ u s1. sign_once w data_in s1)
again w data_in (panic, s) = (panic, s)

-- `Sign`, with what the reader of randomness answers to a request for one byte.
unfoldable pub sign : Outside → Bool → List ℕ → Session → Result (List ℕ)
unfolding sign_once again
sign w random data_in s =
    if s.conn.randomized && not random
    then (err not_random, s)
    else again w data_in (sign_once w data_in s)

abbrev listed : Option (List PublicKey) → List PublicKey
listed none = []
listed (some keys) = keys

abbrev list_at : Outside → Session → Option ℕ → Result (List PublicKey)
list_at w s none = (panic, s)
list_at w s (some a) = (ok (listed (w.signers s.asked a)), tick s)

-- `ListKeys`, where a failure to list is no key.
unfoldable pub list_keys : Outside → Session → Result (List PublicKey)
list_keys w s = list_at w s s.conn.agent
