-- ===== src/Server/Dispatch/Race.antt =====
-- The payload of a command that nbd/server does not support, and who reads it.
use pond.Prelude.{
  ℕ, ◌+◌, ◌-◌, ◌≤◌, ◌≡◌, refl, ◌∙◌, ap, ◌==◌, true, false, some, List, ◌++◌, length, take, drop,
  arith, length-drop,
}
use pond.Server.Const.{nbd_request_magic, nbd_cmd_read, nbd_cmd_write, nbd_cmd_disc, nbd_enotsup}
use pond.Server.Conn.{Conn}
use pond.Server.Transmit.{reply_header}
use pond.Server.Transmit.Framing.{send-fits}
use pond.Server.Transmit.Reply.{length-reply_header}
use pond.Server.Dispatch.{Request, request_size, parse}
use pond.Server.Dispatch.Runs.{Reach, go, IsFair}
use pond.Server.Dispatch.Sources.{receive-fits, discard-fits}
use pond.Server.Dispatch.System.{
  System, receiver_goes_on, main_goes_on, offers, receives, waits, discards, checks_discard,
  answers, checks_answer, returned, invalid_magic, is_free, after_receive, after_discard,
  after_answer, hand_over, step, receiver_step, main_step, take_command,
}

-- A request to write.
pub record IsWrite (cmd : Request) : Type 0 where
  pub valid : (cmd.magic == nbd_request_magic) ≡ true
  pub plain : (cmd.flag == 0) ≡ true
  pub write : (cmd.type == nbd_cmd_write) ≡ true

take_command-IsWrite :
    (cmd : Request) (s : System)
    → IsWrite cmd
    → take_command cmd s ≡ record s { main = discards cmd.len cmd.cookie }
unfolding take_command
take_command-IsWrite cmd s w =
    let read : (cmd.type == nbd_cmd_read) ≡ false = ground (arith, w.write) in
    let disc : (cmd.type == nbd_cmd_disc) ≡ false = ground (arith, w.write) in
    rw (w.valid, w.plain, read, disc, w.write) refl

module _ (start : Conn) (s : System) (cmd : Request) (w : IsWrite cmd)
    (offered : s.receiver ≡ offers cmd) (waiting : s.main ≡ waits)
    (free : is_free s.holder ≡ true) where
  abbrev taken : System
  taken = record s { receiver = receives; main = discards cmd.len cmd.cookie }

  take_step : step main_goes_on s ≡ some taken
  unfolding step main_step
  take_step =
      ap (λ m. main_step m s) waiting
      ∙ (ap (λ r. hand_over r s) offered
          ∙ ap some (take_command-IsWrite cmd (record s { receiver = receives }) w))

  module _ (payload : request_size + cmd.len ≤ length s.conn.incoming)
      (room : 16 ≤ s.conn.room) where
    abbrev bogus_request : Request
    bogus_request = parse (take request_size s.conn.incoming)

    abbrev behind_header : Conn
    behind_header = record s.conn { incoming = drop request_size s.conn.incoming }

    abbrev received : System
    received = record s {
      conn = behind_header;
      receiver = offers bogus_request;
      main = discards cmd.len cmd.cookie;
    }

    receive_step : step receiver_goes_on taken ≡ some received
    unfolding step receiver_step
    receive_step =
        ap (λ x. some (after_receive taken x)) (receive-fits request_size s.conn (omega arith))

    abbrev behind_payload : Conn
    behind_payload = record s.conn { incoming = drop cmd.len (drop request_size s.conn.incoming) }

    abbrev discarded : System
    discarded = record s {
      conn = behind_payload;
      receiver = offers bogus_request;
      main = checks_discard cmd.cookie;
      failed = false;
    }

    discard_step : step main_goes_on received ≡ some discarded
    unfolding step main_step
    discard_step =
        ap (λ x. some (after_discard received cmd.cookie x))
          (discard-fits cmd.len behind_header
            (let l = length-drop request_size s.conn.incoming in omega arith))

    abbrev checked : System
    checked = record discarded { main = answers cmd.cookie nbd_enotsup }

    check_step : step main_goes_on discarded ≡ some checked
    unfolding step main_step
    check_step = refl

    abbrev refusal : List ℕ
    refusal = reply_header nbd_enotsup cmd.cookie

    abbrev behind_answer : Conn
    behind_answer = record behind_payload {
      outgoing = s.conn.outgoing ++ refusal;
      room = s.conn.room - length refusal;
    }

    abbrev answered : System
    answered = record discarded { conn = behind_answer; main = checks_answer }

    answer_step : step main_goes_on checked ≡ some answered
    unfolding step main_step
    answer_step =
        let fits : length refusal ≤ s.conn.room =
          omega (arith, length-reply_header nbd_enotsup cmd.cookie) in
        rw free (ap (λ x. some (after_answer checked x)) (send-fits refusal behind_payload fits))

    abbrev resumed : System
    resumed = record answered { main = waits }

    resumed-step : step main_goes_on answered ≡ some resumed
    unfolding step main_step
    resumed-step = refl

    abbrev left : System
    left = record s {
      conn = behind_answer;
      receiver = receives;
      main = returned (some invalid_magic);
      failed = false;
      cancelled = true;
    }

    leave_step :
        (bogus_request.magic == nbd_request_magic) ≡ false → step main_goes_on resumed ≡ some left
    unfolding step main_step take_command
    leave_step e = rw e refl

    -- Where the client has sent a request to write, with its payload and 28 bytes or more behind it,
    -- and the payload does not begin with the magic number of a request, the transmission can end
    -- with the error of an invalid magic number: the goroutine that receives takes the begin of the
    -- payload for the next request, before the loop discards as many bytes as the payload has. The
    -- lock is free, the client takes the refusal, and the state is one of a transmission.
    pub write_races :
        (bogus_request.magic == nbd_request_magic) ≡ false
        → Reach IsFair start s
        → (s' : System) × Reach IsFair start s' × (s'.main ≡ returned (some invalid_magic))
    write_races e r = (
      left,
      go main_goes_on
          (go main_goes_on
            (go main_goes_on
              (go main_goes_on
                (go main_goes_on
                  (go receiver_goes_on (go main_goes_on r tt take_step) tt receive_step) tt
                  discard_step)
                tt check_step)
              tt answer_step)
            tt resumed-step)
          tt (leave_step e),
      refl,
    )
