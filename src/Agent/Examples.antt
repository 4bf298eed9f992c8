-- ===== src/Agent/Examples.antt =====
-- Connections to an agent that knows one RSA key.
use pond.Prelude.{◌≡◌, refl, true, [], ◌∷◌, none, some, panic, ok}
use pond.Agent.{PublicKey, Outside, Session, new_conn, key_algo_rsa}
use pond.Agent.Connection.{set_identity, sign, new}
use pond.Agent.Atomic.{Holds, IsAtomic, set_identity-IsAtomic}
use pond.Agent.Answered.{Answered, sign-IsAnswer}
use pond.Agent.Panics.{sign_panics}

abbrev rsa_key : PublicKey
rsa_key = record { algorithm = key_algo_rsa; marshalled = 7 ∷ [] }

abbrev unset : Session
unset = record { conn = new_conn; asked = 0 }

abbrev machine : Outside
machine = record {
  ssh_auth_sock = 47 ∷ [];
  dial = λ now path. some now;
  close_socket = λ now c. true;
  rand_read = λ now. some (now ∷ []);
  sign_with_flags = λ now a k bytes flags. some (flags ∷ bytes);
  signers = λ now a. some (rsa_key ∷ []);
}

set_identity-IsAtomic_example :
    IsAtomic machine rsa_key unset (set_identity machine (some rsa_key) unset)
set_identity-IsAtomic_example = set_identity-IsAtomic machine rsa_key unset

abbrev ready : Session
ready = record unset { conn = record new_conn { key = some rsa_key; flags = 4 } }

sign-IsAnswer_example :
    Holds (Answered machine rsa_key 4 (1 ∷ 2 ∷ [])) (sign machine true (1 ∷ 2 ∷ []) ready)
sign-IsAnswer_example = sign-IsAnswer machine rsa_key true (1 ∷ 2 ∷ []) ready refl

sign_panics_example :
    ((new machine none 0).0 ≡ ok tt) × ((sign machine true [] (new machine none 0).1).0 ≡ panic)
sign_panics_example =
    sign_panics machine true [] 0 0 2 (3 ∷ []) (rsa_key ∷ []) refl refl refl refl refl refl
