-- ===== src/Server/Dispatch.antt =====
-- nbd/server/proto_transmit.go: `transmission`, with its goroutines as interleaved steps over one
-- state: the one that receives commands, the loop that dispatches them, and one for each READ. Here
-- are the requests and the goroutine of a READ between two of its uses of the connection.
pub mod System
pub mod Data
pub mod Threads
pub mod Framing
pub mod Rounds
pub mod Invariant
pub mod Sending
pub mod Runs
pub mod Replies
pub mod Race
pub mod Cut
pub mod Sources
mod Examples
use pond.Prelude.{
  ℕ, ◌+◌, ◌==◌, ◌&&◌, ◌||◌, Bool, true, false, not, Option, none, some, List, [], ◌∷◌, length, take,
  drop, if◌then◌else◌,
}
use pond.Prelude.Bytes.{of_be}
use pond.Prelude.Words.{wrap64, slt}
use pond.Server.Const.{
  nbd_request_magic, nbd_cmd_read, nbd_cmd_write, nbd_cmd_disc, nbd_eio, nbd_einval, nbd_enotsup,
  buffer_size,
}
use pond.Server.Conn.{Conn, Result, ok, err, panic, stuck, receive, send}
use pond.Server.Discard.{discard}
use pond.Server.Transmit.{Answer, reply_header, send_error, count_errors, payload, buffer_len}

pub record Request : Type 0 where
  pub magic : ℕ
  pub flag : ℕ
  pub type : ℕ
  pub cookie : ℕ
  pub offset : ℕ
  pub len : ℕ

-- The size of a `requestHeader`.
abbrev pub request_size : ℕ
request_size = 28

-- `binary.Read` of a header.
unfoldable pub parse : List ℕ → Request
parse b = record {
  magic = of_be (take 4 b) 0;
  flag = of_be (take 2 (drop 4 b)) 0;
  type = of_be (take 2 (drop 6 b)) 0;
  cookie = of_be (take 8 (drop 8 b)) 0;
  offset = of_be (take 8 (drop 16 b)) 0;
  len = of_be (take 4 (drop 24 b)) 0;
}

-- The variables of the goroutine of NBD_CMD_READ; `size` is the length of its buffer.
pub record Reading : Type 0 where
  pub cmd : Request
  pub cur : ℕ
  pub end : ℕ
  pub size : ℕ
  pub in_transaction : Bool
  pub io_errors : ℕ

-- Where it is: before a round, before it begins the transaction, before it sends data, before it
-- tests the error of that, before it sends an error, or at its end.
pub data Thread : Type 0 where
  rounds checks : Reading → Thread
  begins sends : Reading → List ℕ → Thread
  refuses : ℕ → Thread
  ended : Thread

abbrev pub start : Request → Reading
start cmd = record {
  cmd = cmd;
  cur = cmd.offset;
  end = wrap64 (cmd.offset + cmd.len);
  size = buffer_size;
  in_transaction = false;
  io_errors = 0;
}

abbrev pub round_size : Reading → ℕ
round_size r = buffer_len r.cur r.end r.size

abbrev pub round_bytes : Answer → Reading → List ℕ
round_bytes a r =
    payload a r.in_transaction (count_errors a r.in_transaction r.io_errors) (round_size r)

abbrev pub advance : Answer → Reading → Reading
advance a r = record r {
  size = round_size r;
  io_errors = count_errors a r.in_transaction r.io_errors;
  cur = wrap64 (r.cur + length (round_bytes a r));
}

-- A round, with the backend's answer, up to what it sends.
unfoldable pub round : Answer → Reading → Thread
round a r =
    if not (slt r.cur r.end)
    then ended
    else if a.failed && not r.in_transaction && length a.bytes == 0
    then refuses r.cmd.cookie
    else if not r.in_transaction && not (length (round_bytes a r) == 0)
    then begins (advance a r) (round_bytes a r)
    else sends (advance a r) (round_bytes a r)
