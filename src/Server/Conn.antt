-- ===== src/Server/Conn.antt =====
-- The client's connection, and the functions that may fail on it.
use pond.Prelude.{ℕ, suc, ◌-◌, List, [], ◌++◌, leb, length, take, drop, if◌then◌else◌, min, ◌==◌}

-- What the client has sent and the server not yet read, behind which the connection ends; what the
-- server has sent; how many more bytes the client takes before writing fails; and one less than
-- the number of bytes that a single `Read` gives at most.
pub record Conn : Type 0 where
  pub incoming : List ℕ
  pub outgoing : List ℕ
  pub room : ℕ
  pub segment : ℕ

pub data Error : Type 0 where
  eof unexpected_eof write_failed buffer_full : Error
  unexpected_padding unexpected_flags : Error
  client_terminated bad_magic shutdown : Error
  payload_too_large payload_too_small no_exports not_available : Error
  not_fixed_newstyle client_aborted : Error

-- A value, an error, a panic, or no result: the fuel of a loop ran out.
pub data Result (A : Type 0) : Type 0 where
  ok : A → Result A
  err : Error → Result A
  panic : Result A
  stuck : Result A

abbrev pub Io : Type 0 → Type 0
Io A = Conn → Result A × Conn

abbrev pub pure : {A : Type 0} → A → Io A
pure a c = (ok a, c)

abbrev pub fail : {A : Type 0} → Error → Io A
fail e c = (err e, c)

abbrev pub crash : {A : Type 0} → Io A
crash c = (panic, c)

abbrev pub hang : {A : Type 0} → Io A
hang c = (stuck, c)

abbrev pub continue : {A B : Type 0} → Result A → (A → Io B) → Io B
continue (ok a) f c = f a c
continue (err e) f c = (err e, c)
continue panic f c = (panic, c)
continue stuck f c = (stuck, c)

infixl 5 ◌>>=◌ ◌>>◌
abbrev pub ◌>>=◌ : {A B : Type 0} → Io A → (A → Io B) → Io B
◌>>=◌ m f c = let (r, c') = m c in continue r f c'

abbrev pub ◌>>◌ : {A B : Type 0} → Io A → Io B → Io B
m >> k = m >>= λ _. k

-- `_ = f(...)`: an error is dropped.
abbrev pub forget : {A B : Type 0} → Result A → Io B → Io B
forget (ok a) k c = k c
forget (err e) k c = k c
forget panic k c = (panic, c)
forget stuck k c = (stuck, c)

abbrev pub ignoring : {A B : Type 0} → Io A → Io B → Io B
ignoring m k c = let (r, c') = m c in forget r k c'

-- io.ReadFull, as `binary.Read` calls it.
unfoldable pub receive : ℕ → Io (List ℕ)
receive n c =
    if leb n (length c.incoming)
    then (ok (take n c.incoming), record c { incoming = drop n c.incoming })
    else (err (if length c.incoming == 0 then eof else unexpected_eof), record c { incoming = [] })

-- One `Write`: of a client that goes away it sends what the client still takes.
unfoldable pub send : List ℕ → Io (Unit {0})
send bytes c =
    if leb (length bytes) c.room
    then (ok tt, record c { outgoing = c.outgoing ++ bytes; room = c.room - length bytes })
    else (err write_failed, record c { outgoing = c.outgoing ++ take c.room bytes; room = 0 })

-- One `Read` into a buffer of `n` bytes: how many bytes it gives; none at the connection's end.
unfoldable pub read : ℕ → Conn → ℕ × Conn
read n c =
    let got = min (min n (suc c.segment)) (length c.incoming) in
    (got, record c { incoming = drop got c.incoming })
