-- ===== src/Server/Handshake.antt =====
-- nbd/server/proto_negotiate.go: the handshake phase.
use pond.Prelude.{
  ℕ, ◌+◌, ◌-◌, ◌*◌, ◌≤◌, ◌≡◌, ◌==◌, not, List, ◌∷◌, ◌++◌, take, drop, if◌then◌else◌, arith,
}
use pond.Prelude.Bytes.{be16, be64, of_be}
use pond.Server.Const.{nbdmagic, ihaveopt, nbd_flag_fixed_newstyle}
use pond.Server.Conn.{
  Conn, Io, ok, err, pure, fail, unexpected_padding, unexpected_flags, send, receive, ◌>>=◌, ◌>>◌,
}

abbrev pub hello : List ℕ
hello = be64 nbdmagic ++ (be64 ihaveopt ++ be16 nbd_flag_fixed_newstyle)

unfoldable pub handshake : Io (Unit {0})
unfolding send receive
handshake = do
  send hello
  reply ← receive 4
  (if not (of_be (take 2 reply) 0 == 0)
      then fail unexpected_padding
      else if not (of_be (drop 2 reply) 0 == nbd_flag_fixed_newstyle)
      then fail unexpected_flags
      else pure tt)

-- A client that takes the greeting and answers with four bytes or more passes exactly if its
-- padding is zero and its flags are those of fixed newstyle alone. Either way the server has sent
-- the 18 bytes of the greeting and read four.
pub handshake_lem :
    (a b x y : ℕ) (rest : List ℕ) (c : Conn)
    → 18 ≤ c.room
    → handshake (record c { incoming = a ∷ b ∷ x ∷ y ∷ rest }) ≡ (
      (if a * 256 + b == 0
          then (if x * 256 + y == 1 then ok tt else err unexpected_flags)
          else err unexpected_padding),
      record c { incoming = rest; outgoing = c.outgoing ++ hello; room = c.room - 18 },
    )
unfolding handshake be64 be16
handshake_lem a b x y rest c h = ground arith
