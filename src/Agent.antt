-- ===== src/Agent.antt =====
-- secrets/agent/agent.go: a connection to ssh-agent for a key, over an agent that answers freely.
mod Connection
mod Atomic
mod Answered
mod Panics
mod Examples
use pond.Prelude.{ℕ, ◌+◌, ◌%◌, ◌^◌, Bool, true, false, List, [], ◌∷◌, Option, none, some, Outcome}

-- The key types that SetIdentity tells apart.
pub data Algorithm : Type 0 where
  key_algo_rsa : Algorithm
  cert_algo_rsa : Algorithm
  other_algo : Algorithm

pub record PublicKey : Type 0 where
  pub algorithm : Algorithm
  pub marshalled : List ℕ

-- What the connection asks of its surroundings, by the number of the questions asked before. A
-- socket is a number, and the client of ssh-agent over it is the same number.
pub record Outside : Type 0 where
  pub ssh_auth_sock : List ℕ
  pub dial : ℕ → List ℕ → Option ℕ
  pub close_socket : ℕ → ℕ → Bool
  pub rand_read : ℕ → Option (List ℕ)
  pub sign_with_flags : ℕ → ℕ → PublicKey → List ℕ → ℕ → Option (List ℕ)
  pub signers : ℕ → ℕ → Option (List PublicKey)

pub data AgentError : Type 0 where
  not_closed : AgentError
  not_set : AgentError
  not_dialled : AgentError
  not_random : AgentError
  not_initialized : AgentError
  not_signed : AgentError
  not_available : PublicKey → AgentError

pub record Conn : Type 0 where
  pub key : Option PublicKey
  pub socket : Option ℕ
  pub agent : Option ℕ
  pub flags : ℕ
  pub count : ℕ
  pub randomized : Bool

-- new(Conn)
abbrev pub new_conn : Conn
new_conn = record {
  key = none;
  socket = none;
  agent = none;
  flags = 0;
  count = 0;
  randomized = false;
}

-- A connection, and the number of questions asked so far.
pub record Session : Type 0 where
  pub conn : Conn
  pub asked : ℕ

-- What a method returns, with the session that it leaves.
abbrev pub Result : Type 0 → Type 0
Result A = Outcome AgentError A × Session

abbrev pub tick : Session → Session
tick s = record s { asked = s.asked + 1 }

-- agent.SignatureFlagRsaSha512
abbrev pub rsa_sha512 : ℕ
rsa_sha512 = 4

abbrev pub is_rsa : Algorithm → Bool
is_rsa key_algo_rsa = true
is_rsa cert_algo_rsa = true
is_rsa other_algo = false
