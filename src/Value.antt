-- ===== src/Value.antt =====
-- secrets/value/value.go: how a secret value is signed and verified.
pub mod Signature
mod Examples
use pond.Prelude.{
  ℕ, zero, suc, ◌+◌, ◌/◌, ◌%◌, ◌==◌, ◌&&◌, Bool, true, false, not, Option, none, some, List, [],
  ◌∷◌, ◌++◌, ltb, length, take, drop, Outcome, ok, err, panic, ◌>>=◌, if◌then◌else◌,
}

-- Keys are numbered. Times are seconds since 1970.
pub record Value : Type 0 where
  pub path : List (List ℕ)
  pub created : ℕ
  pub expires : ℕ
  pub signer : Option ℕ
  pub blob : List ℕ
  pub signature : List ℕ

abbrev pub sig_nonce_bytes : ℕ
sig_nonce_bytes = 64

abbrev pub newline : ℕ
newline = 10

-- "pond/secrets: Encrypted secret value"
abbrev pub sig_header : List ℕ
sig_header =
    b'p' ∷ b'o' ∷ b'n' ∷ b'd' ∷ b'/' ∷ b's' ∷ b'e' ∷ b'c' ∷ b'r' ∷ b'e' ∷ b't' ∷ b's' ∷ b':' ∷ 32
    ∷ b'E' ∷ b'n' ∷ b'c' ∷ b'r' ∷ b'y' ∷ b'p' ∷ b't' ∷ b'e' ∷ b'd' ∷ 32 ∷ b's' ∷ b'e' ∷ b'c' ∷ b'r'
    ∷ b'e' ∷ b't' ∷ 32 ∷ b'v' ∷ b'a' ∷ b'l' ∷ b'u' ∷ b'e' ∷ []

-- What the code uses of golang.org/x/crypto/ssh: the type of a key, what a signer returns (the
-- signature's format and its bytes, or an error), and whether a key verifies a signature of a
-- format.
pub record Ssh : Type 0 where
  pub key_algo_rsa : List ℕ
  pub key_algo_rsa_sha512 : List ℕ
  pub key_type : ℕ → List ℕ
  pub signs : ℕ → List ℕ → Option (List ℕ × List ℕ)
  pub verifies : ℕ → List ℕ → List ℕ → List ℕ → Bool

pub data ValueError : Type 0 where
  not_signed sign_failed unsupported_format verify_failed : ValueError

abbrev pub same : List ℕ → List ℕ → Bool
same [] [] = true
same (a ∷ xs) (b ∷ ys) = a == b && same xs ys
same xs ys = false

-- A number in decimal, with as much fuel as the number.
unfoldable pub digits : ℕ → ℕ → List ℕ → List ℕ
digits zero n tail = tail
digits (suc fuel) n tail =
    let more = digits fuel (n / 10) ((48 + n % 10) ∷ tail) in
    if ltb n 10 then (48 + n) ∷ tail else more

abbrev pub decimal : ℕ → List ℕ
decimal n = digits (n + 1) n []

abbrev pub lines : List (List ℕ) → List ℕ → List ℕ
lines [] tail = tail
lines (l ∷ ls) tail = l ++ (newline ∷ lines ls tail)

-- `random` is what crypto/rand gives.
unfoldable pub bytes_to_sign : List ℕ → List ℕ → Value → List ℕ
unfolding digits
bytes_to_sign random nonce v =
    (if length nonce == sig_nonce_bytes then nonce else random)
    ++ lines (sig_header ∷ decimal v.created ∷ decimal v.expires ∷ v.path) v.blob

-- The format of signatures of keys of a type.
unfoldable pub sig_format : Ssh → List ℕ → List ℕ
sig_format ssh key_type =
    if same key_type ssh.key_algo_rsa then ssh.key_algo_rsa_sha512 else key_type

abbrev pub attach : Ssh → ℕ → List ℕ → Value → Option (List ℕ × List ℕ) → Outcome ValueError Value
attach ssh key data' v none = err sign_failed
attach ssh key data' v (some (format, blob)) =
    if not (same format (sig_format ssh (ssh.key_type key)))
    then err unsupported_format
    else ok (record v { signer = some key; signature = take sig_nonce_bytes data' ++ blob })

unfoldable pub sign : Ssh → List ℕ → ℕ → Value → Outcome ValueError Value
unfolding bytes_to_sign sig_format
sign ssh random key v =
    let data' = bytes_to_sign random [] v in attach ssh key data' v (ssh.signs key data')

-- The slice for the nonce panics where the signature is shorter.
abbrev pub verify_by : Ssh → Value → Option ℕ → Outcome ValueError (Unit {0})
verify_by ssh v none = err not_signed
verify_by ssh v (some key) =
    if length v.signature == 0
    then err not_signed
    else if ltb (length v.signature) sig_nonce_bytes
    then panic
    else if ssh.verifies key (sig_format ssh (ssh.key_type key))
        (bytes_to_sign [] (take sig_nonce_bytes v.signature) v) (drop sig_nonce_bytes v.signature)
    then ok tt
    else err verify_failed

unfoldable pub verify : Ssh → Value → Outcome ValueError (Unit {0})
unfolding bytes_to_sign sig_format
verify ssh v = verify_by ssh v v.signer
