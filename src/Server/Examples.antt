-- ===== src/Server/Examples.antt =====
-- The theorems on nbd/server at concrete inputs.
use pond.Prelude.{
  suc, ℕ, ◌+◌, ◌-◌, ◌*◌, ◌≡◌, ◌≢◌, refl, Bool, true, false, Option, none, some, List, [], ◌∷◌, ◌++◌,
  ltb, length, take, drop, length-take, length-drop, ◌==◌, if◌then◌else◌, arith,
}
use pond.Server.Const.{nbd_opt_go, nbd_rep_info, nbd_rep_ack}
use pond.Server.Conn.{Conn, ok, panic, stuck}
use pond.Server.Handshake.{hello}
use pond.Server.Negotiate.{negotiate, export_info, reply_header}
use pond.Server.Negotiate.Consumption.{negotiate-ne-stuck}
use pond.Server.Negotiate.Requests.{request, length-payload}
use pond.Server.Negotiate.Outcomes.{negotiate_panics}
use pond.Server.Session.{sent, refusals, open_session, open_session_go}
use pond.Server.Transmit
use pond.Server.Transmit.{Answer, Backend, read_command}
use pond.Server.Transmit.Framing.{IsReaderAt, Replies}
use pond.Server.Transmit.Reply.{read_command_answered}
use pond.Server.Transmit.Data.{Serves, read_command_data}

-- A client that sends these bytes, one at a time.
abbrev client : List ℕ → Conn
client bytes = record { incoming = bytes; outgoing = []; room = 1000; segment = 0 }

-- One export, named "a".
abbrev exports : List ℕ → Option ℕ
exports name = if length name == 1 then some 42 else none

abbrev no_stale : ℕ → List ℕ
no_stale round = []

abbrev never : ℕ → Bool
never round = false

negotiate-ne-stuck_example :
    (negotiate 1 (some exports) never no_stale 0 (client (1 ∷ 2 ∷ []))).0 ≢ stuck
negotiate-ne-stuck_example =
    negotiate-ne-stuck (some exports) 1 never no_stale 0 (client (1 ∷ 2 ∷ [])) (omega arith)

abbrev name : List ℕ
name = b'a' ∷ []

abbrev no_info : List ℕ
no_info = 0 ∷ 0 ∷ []

-- A name of 65533 bytes is announced.
negotiate_panics_example :
    (negotiate 1 (some exports) never no_stale 0 (client (request 65533 [] no_info ++ []))).0
    ≡ panic
negotiate_panics_example =
    let sized = length-payload 65533 [] no_info in
    negotiate_panics exports no_stale never 0 0 65533 [] no_info [] (client [])
      (omega (arith, sized)) (omega (arith, sized)) (omega arith) (omega arith) refl

-- A backend over a file that fails nowhere.
abbrev file_backend : List ℕ → Backend
file_backend disk call size at =
    let bytes = take size (drop at disk) in
    record { bytes = bytes; failed = ltb (length bytes) size }

file_backend-IsReaderAt : (disk : List ℕ) → IsReaderAt (file_backend disk)
file_backend-IsReaderAt disk = record {
  fits = λ call size at. omega (arith, length-take size (drop at disk));
  short = λ call size at h. ground (arith, h);
}

file_backend-Serves : (disk : List ℕ) → Serves disk (file_backend disk)
file_backend-Serves disk = record {
  reader = file_backend-IsReaderAt disk;
  moves = λ call size at pos h. omega (arith, length-take size (drop at disk), length-drop at disk);
  holds = λ call size at pos h.
      let all : length (take size (drop at disk)) ≡ size =
        omega (arith, length-take size (drop at disk), length-drop at disk) in
      rw all refl;
}

abbrev failing : Backend
failing call size at = record { bytes = []; failed = true }

-- The disk has two bytes, of which the client asks for one, and for one behind the disk.
abbrev disk : List ℕ
disk = 11 ∷ 22 ∷ []

read_command_answered_example :
    (data' : List ℕ) × (length data' ≡ 2)
    × Replies
        (read_command (file_backend disk) 77 1 2)
        (client [])
        (Transmit.reply_header 0 77 ++ data')
read_command_answered_example =
    read_command_answered (file_backend disk) 77 1 2 (client []) (file_backend-IsReaderAt disk)
      (omega arith) (omega arith) (omega arith) (omega arith)

read_command_data_example :
    Replies
      (read_command (file_backend disk) 77 1 1)
      (client [])
      (Transmit.reply_header 0 77 ++ take 1 (drop 1 disk))
read_command_data_example =
    read_command_data (file_backend disk) 77 disk (file_backend-Serves disk) 1 1 (client [])
      (omega arith) (omega arith) (omega arith) (omega arith)

abbrev unknown_option : List (ℕ × List ℕ)
unknown_option = (99, 1 ∷ 2 ∷ 3 ∷ []) ∷ []

open_session_go_example :
    open_session
      (1 + suc 2)
      (some exports)
      never
      no_stale
      (client (0 ∷ 0 ∷ 0 ∷ 1 ∷ sent unknown_option (request 1 name no_info ++ (5 ∷ []))))
    ≡ (
      ok 42,
      record (client (5 ∷ [])) {
        outgoing =
            ((([] ++ hello) ++ refusals unknown_option)
              ++ (reply_header nbd_opt_go nbd_rep_info 12 ++ export_info))
            ++ reply_header nbd_opt_go nbd_rep_ack 0;
        room = 1000 - 18 - 20 * 1 - 52;
      },
    )
open_session_go_example =
    let sized = length-payload 1 name no_info in
    open_session_go exports no_stale never (λ r. refl) unknown_option 2 1 name no_info (5 ∷ [])
      (client []) 42
      ((omega arith, omega arith, omega arith, omega arith, omega arith, omega arith), tt) refl
      (omega (arith, sized)) (omega (arith, sized)) (omega arith) refl
