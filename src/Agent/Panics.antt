-- ===== src/Agent/Panics.antt =====
-- Sign of secrets/agent/agent.go without an identity.
use pond.Prelude.{ℕ, ◌+◌, ◌≡◌, Bool, true, false, List, length, ◌==◌, none, some, ok, panic, arith}
use pond.Agent.{PublicKey, Outside}
use pond.Agent.Connection.{sign_once, close, connect, diagnose, check, again, sign, new_from, new}

-- `New` of no key succeeds, where SSH_AUTH_SOCK is set and can be dialled, and `Sign` on this
-- connection then panics: if the socket can be closed and dialled again, there is randomness, and
-- the agent lists its keys, whichever they are.
pub sign_panics :
    (w : Outside) (random : Bool) (bytes : List ℕ) (n c d : ℕ) (msg : List ℕ)
    (keys : List PublicKey)
    → (length w.ssh_auth_sock == 0) ≡ false
    → w.dial n w.ssh_auth_sock ≡ some c
    → w.close_socket (n + 1) c ≡ true
    → w.dial (n + 2) w.ssh_auth_sock ≡ some d
    → w.rand_read (n + 3) ≡ some msg
    → w.signers (n + 4) d ≡ some keys
    → ((new w none n).0 ≡ ok tt) × ((sign w random bytes (new w none n).1).0 ≡ panic)
unfolding new new_from sign again sign_once connect close check diagnose
sign_panics w random bytes n c d msg keys env first closed second rand list =
    ground (arith, env, first, closed, second, rand, list)
