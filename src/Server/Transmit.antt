-- ===== src/Server/Transmit.antt =====
-- nbd/server/proto_transmit.go: the transmission phase.
pub mod Framing
pub mod Reply
pub mod Data
use pond.Prelude.{
  ℕ, zero, suc, ◌+◌, ◌-◌, ◌*◌, ◌==◌, ◌&&◌, ◌||◌, Bool, true, false, not, Option, none, some, List,
  [], ◌∷◌, ◌++◌, ltb, length, take, if◌then◌else◌,
}
use pond.Prelude.Bytes.{be16, be32, be64, of_be}
use pond.Prelude.Words.{wrap64, slt, sub64}
use pond.Server.Const.{nbd_simple_reply_magic, nbd_eio, buffer_size}
use pond.Server.Conn.{Conn, Io, Result, ok, err, pure, hang, send, ◌>>=◌, ◌>>◌}

-- What `ReadAt` of the backend returns: the bytes that it put into the buffer, and whether it
-- returned an error.
pub record Answer : Type 0 where
  pub bytes : List ℕ
  pub failed : Bool

-- The backend by the number of the call, the length of the buffer, and the offset.
abbrev pub Backend : Type 0
Backend = ℕ → ℕ → ℕ → Answer

abbrev pub reply_header : ℕ → ℕ → List ℕ
reply_header error cookie = be32 nbd_simple_reply_magic ++ (be32 error ++ be64 cookie)

abbrev pub send_error : ℕ → ℕ → Io (Unit {0})
send_error cookie error = send (reply_header error cookie)

abbrev pub bogus_data : List ℕ
bogus_data =
    0xee ∷ 0xe0 ∷ 0xe1 ∷ 0xe2 ∷ 0xe3 ∷ 0xe4 ∷ 0xe5 ∷ 0xe6 ∷ 0xe7 ∷ 0xe8 ∷ 0xe9 ∷ 0xea ∷ 0xeb ∷ 0xec
    ∷ 0xed ∷ 0xee ∷ []

-- `for n < len(buf) { n += copy(buf[n:], bogusData[:]) }` for `n` bytes; every round copies one at
-- least, so `n` rounds are enough.
unfoldable pub bogus : ℕ → ℕ → List ℕ
bogus zero n = []
bogus (suc fuel) n =
    let rest = bogus fuel (n - 16) in if n == 0 then [] else take n bogus_data ++ rest

abbrev pub io_errors_threshold : ℕ
io_errors_threshold = 30

-- `ioErrors` behind the reset and behind (2).
unfoldable pub count_errors : Answer → Bool → ℕ → ℕ
count_errors a in_transaction io_errors =
    if not a.failed
    then 0
    else if in_transaction && length a.bytes == 0
    then io_errors + 1
    else io_errors

-- `buf[:n]` behind (2): the backend's bytes, or bogus ones after too many errors.
unfoldable pub payload : Answer → Bool → ℕ → ℕ → List ℕ
payload a in_transaction errors size =
    if a.failed && in_transaction && length a.bytes == 0 && ltb io_errors_threshold errors
    then bogus size size
    else a.bytes

-- The length of the buffer, cut to what is still to be read.
unfoldable pub buffer_len : ℕ → ℕ → ℕ → ℕ
unfolding slt
buffer_len cur end size = if slt (sub64 end cur) size then sub64 end cur else size

-- The handler of NBD_CMD_READ: the loop over `cur`. A failure of the connection ends it with the
-- error that cancels the transmission.
unfoldable pub read_loop : ℕ → Backend → ℕ → ℕ → ℕ → ℕ → ℕ → Bool → ℕ → Io (Unit {0})
read_loop zero backend call cookie cur end size in_transaction io_errors = hang
read_loop (suc fuel) backend call cookie cur end size in_transaction io_errors =
    let size' = buffer_len cur end size in
    let a = backend call size' cur in
    let errors = count_errors a in_transaction io_errors in
    let data' = payload a in_transaction errors size' in
    let begin = not in_transaction && not (length data' == 0) in
    let rest =
      read_loop fuel backend (call + 1) cookie (wrap64 (cur + length data')) end size'
        (in_transaction || begin) errors in
    if not (slt cur end)
    then pure tt
    else if a.failed && not in_transaction && length a.bytes == 0
    then send_error cookie nbd_eio
    else (do (if begin then send (reply_header 0 cookie) else pure tt); send data'; rest)

-- The fuel is enough for 32 rounds for each byte.
unfoldable pub read_command : Backend → ℕ → ℕ → ℕ → Io (Unit {0})
read_command backend cookie offset len =
    read_loop (32 * len + 32) backend 0 cookie offset (wrap64 (offset + len)) buffer_size false 0
