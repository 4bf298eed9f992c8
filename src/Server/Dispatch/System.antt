-- ===== src/Server/Dispatch/System.antt =====
-- nbd/server/proto_transmit.go: the state that the goroutines of `transmission` share, and their steps.
use pond.Prelude.{ℕ, ◌+◌, ◌==◌, Bool, true, false, not, Option, none, some, List, if◌then◌else◌}
use pond.Server.Const.{
  nbd_request_magic, nbd_cmd_read, nbd_cmd_write, nbd_cmd_disc, nbd_eio, nbd_einval, nbd_enotsup,
}
use pond.Server.Conn.{Conn, Result, ok, err, panic, stuck, receive, send}
use pond.Server.Discard.{discard}
use pond.Server.Transmit.{Answer, reply_header, send_error}
use pond.Server.Dispatch.{
  Request, request_size, parse, Reading, Thread, rounds, checks, begins, sends, refuses, ended,
  start, round,
}

-- The goroutine that receives: before a header, or with one for the dispatching loop.
pub data Receiver : Type 0 where
  receives gone : Receiver
  offers : Request → Receiver

pub data DispatchError : Type 0 where
  cancelled_context invalid_magic not_discarded not_rejected : DispatchError

-- The dispatching loop: before a command, before it discards a payload, before it tests the error
-- of that, before it sends an error, before it tests the error of that, or behind its return, with an
-- error or without.
pub data Main : Type 0 where
  waits : Main
  discards : ℕ → ℕ → Main
  checks_discard : ℕ → Main
  answers : ℕ → ℕ → Main
  checks_answer : Main
  returned : Option DispatchError → Main

-- The lock's holder, if it is a thread that sends; the other holders lock it for one step. Behind
-- the first `count` threads all are at their end. `failed` says whether `err` is an error: the loop
-- and all the threads assign to this one variable and test it, in steps of their own.
pub record System : Type 0 where
  pub conn : Conn
  pub holder : Option ℕ
  pub threads : ℕ → Thread
  pub count : ℕ
  pub receiver : Receiver
  pub main : Main
  pub failed : Bool
  pub cancelled : Bool

abbrev pub set_thread : ℕ → Thread → (ℕ → Thread) → ℕ → Thread
set_thread i t f j = if i == j then t else f j

abbrev pub after_receive : System → Result (List ℕ) × Conn → System
after_receive s (ok bytes, c) = record s { conn = c; receiver = offers (parse bytes) }
after_receive s (err e, c) = record s { conn = c; receiver = gone; cancelled = true }
after_receive s (panic, c) = record s { conn = c; receiver = gone; cancelled = true }
after_receive s (stuck, c) = record s { conn = c; receiver = gone; cancelled = true }

abbrev pub leave : Option DispatchError → System → System
leave e s = record s { main = returned e; cancelled = true }

-- A command that the loop has taken.
unfoldable pub take_command : Request → System → System
take_command cmd s =
    if not (cmd.magic == nbd_request_magic)
    then leave (some invalid_magic) s
    else if not (cmd.flag == 0)
    then record s { main = answers cmd.cookie nbd_einval }
    else if cmd.type == nbd_cmd_read
    then record s {
      threads = set_thread s.count (rounds (start cmd)) s.threads;
      count = s.count + 1;
    }
    else if cmd.type == nbd_cmd_disc
    then leave none s
    else if cmd.type == nbd_cmd_write
    then record s { main = discards cmd.len cmd.cookie }
    else record s { main = answers cmd.cookie nbd_enotsup }

-- Whether `err != nil` behind a call.
abbrev pub is_error : {A : Type 0} → Result A → Bool
is_error (ok a) = false
is_error (err e) = true
is_error panic = true
is_error stuck = true

abbrev pub after_answer : System → Result (Unit {0}) × Conn → System
after_answer s (r, c) = record s { conn = c; failed = is_error r; main = checks_answer }

abbrev pub after_discard : System → ℕ → Result (Unit {0}) × Conn → System
after_discard s cookie (r, c) = record s {
  conn = c;
  failed = is_error r;
  main = checks_discard cookie;
}

abbrev pub after_check_answer : System → System
after_check_answer s = if s.failed then leave (some not_rejected) s else record s { main = waits }

abbrev pub after_check_discard : ℕ → System → System
after_check_discard cookie s =
    if s.failed
    then leave (some not_discarded) s
    else record s { main = answers cookie nbd_enotsup }

abbrev pub is_free : Option ℕ → Bool
is_free none = true
is_free (some i) = false

-- The deferred unlock.
abbrev pub unlock : Reading → Option ℕ → Option ℕ
unlock r holder = if r.in_transaction then none else holder

abbrev pub release : Thread → Reading → Option ℕ → Option ℕ
release ended r holder = unlock r holder
release (rounds r') r holder = holder
release (checks r') r holder = holder
release (begins r' bytes) r holder = holder
release (sends r' bytes) r holder = holder
release (refuses cookie) r holder = holder

abbrev pub after_round : ℕ → Reading → Thread → System → System
after_round i r t s = record s { threads = set_thread i t s.threads; holder = release t r s.holder }

-- The header of the reply, behind which the lock is kept.
abbrev pub after_begin : ℕ → Reading → List ℕ → System → Result (Unit {0}) × Conn → System
after_begin i r bytes s (ok t, c) = record s {
  conn = c;
  holder = some i;
  threads = set_thread i (sends (record r { in_transaction = true }) bytes) s.threads;
}
after_begin i r bytes s (e, c) = record s {
  conn = c;
  threads = set_thread i ended s.threads;
  cancelled = true;
}

abbrev pub after_data : ℕ → Reading → System → Result (Unit {0}) × Conn → System
after_data i r s (r', c) = record s {
  conn = c;
  failed = is_error r';
  threads = set_thread i (checks r) s.threads;
}

-- The test of `err`, which another goroutine may have assigned since.
abbrev pub after_check : ℕ → Reading → System → System
after_check i r s =
    if s.failed
    then record s {
      holder = unlock r s.holder;
      threads = set_thread i ended s.threads;
      cancelled = true;
    }
    else record s { threads = set_thread i (rounds r) s.threads }

abbrev pub after_refusal : ℕ → System → Result (Unit {0}) × Conn → System
after_refusal i s (ok t, c) = record s { conn = c; threads = set_thread i ended s.threads }
after_refusal i s (r', c) = record s {
  conn = c;
  threads = set_thread i ended s.threads;
  cancelled = true;
}

-- A step of thread `i`, with what the backend answers if it is asked; none where it has to wait.
unfoldable pub thread_step : ℕ → Answer → Thread → System → Option System
unfolding round
thread_step i a (rounds r) s = some (after_round i r (round a r) s)
thread_step i a (begins r bytes) s =
    if is_free s.holder
    then some (after_begin i r bytes s (send (reply_header 0 r.cmd.cookie) s.conn))
    else none
thread_step i a (sends r bytes) s = some (after_data i r s (send bytes s.conn))
thread_step i a (checks r) s = some (after_check i r s)
thread_step i a (refuses cookie) s =
    if is_free s.holder then some (after_refusal i s (send_error cookie nbd_eio s.conn)) else none
thread_step i a ended s = none

-- Who goes on.
pub data Choice : Type 0 where
  receiver_goes_on receiver_stops main_goes_on main_stops : Choice
  thread_goes_on : ℕ → Answer → Choice

unfoldable pub receiver_step : Receiver → System → Option System
receiver_step receives s = some (after_receive s (receive request_size s.conn))
receiver_step (offers cmd) s = none
receiver_step gone s = none

abbrev pub hand_over : Receiver → System → Option System
hand_over (offers cmd) s = some (take_command cmd (record s { receiver = receives }))
hand_over receives s = none
hand_over gone s = none

unfoldable pub main_step : Main → System → Option System
unfolding take_command
main_step waits s = hand_over s.receiver s
main_step (discards n cookie) s = some (after_discard s cookie (discard n s.conn))
main_step (answers cookie error) s =
    if is_free s.holder then some (after_answer s (send_error cookie error s.conn)) else none
main_step (checks_discard cookie) s = some (after_check_discard cookie s)
main_step checks_answer s = some (after_check_answer s)
main_step (returned e) s = none

abbrev pub receiver_stop : Receiver → System → Option System
receiver_stop (offers cmd) s = if s.cancelled then some (record s { receiver = gone }) else none
receiver_stop receives s = none
receiver_stop gone s = none

abbrev pub main_stop : Main → System → Option System
main_stop waits s = if s.cancelled then some (leave (some cancelled_context) s) else none
main_stop (discards n cookie) s = none
main_stop (checks_discard cookie) s = none
main_stop (answers cookie error) s = none
main_stop checks_answer s = none
main_stop (returned e) s = none

unfoldable pub step : Choice → System → Option System
unfolding receiver_step main_step thread_step
step receiver_goes_on s = receiver_step s.receiver s
step receiver_stops s = receiver_stop s.receiver s
step main_goes_on s = main_step s.main s
step main_stops s = main_stop s.main s
step (thread_goes_on i a) s = thread_step i a (s.threads i) s

-- The begin of a transmission.
abbrev pub initial : Conn → System
initial c = record {
  conn = c;
  holder = none;
  threads = λ j. ended;
  count = 0;
  receiver = receives;
  main = waits;
  failed = false;
  cancelled = false;
}
