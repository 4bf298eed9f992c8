-- ===== src/Server/Negotiate.antt =====
-- nbd/server/proto_negotiate.go: the negotiation phase.
pub mod Consumption
pub mod Fields
pub mod Requests
pub mod Outcomes
pub mod Skips
use pond.Prelude.{
  ℕ, zero, suc, ◌+◌, ◌^◌, ◌==◌, ◌||◌, Bool, true, false, not, Option, none, some, List, [], ◌∷◌,
  ◌++◌, ltb, length, take, drop, if◌then◌else◌,
}
use pond.Prelude.Bytes.{be16, be32, be64, of_be}
use pond.Server.Const.{
  ihaveopt, nbd_flag_has_flags, nbd_flag_read_only, nbd_flag_can_multi_conn, nbd_flag_send_cache,
  nbd_opt_export_name, nbd_opt_abort, nbd_opt_info, nbd_opt_go, nbd_rep_ack, nbd_rep_info,
  nbd_rep_err_unsup, nbd_rep_err_policy, nbd_rep_err_unknown, nbd_rep_err_shutdown,
  nbd_rep_err_too_big, nbd_info_export, buffer_size,
}
use pond.Server.Conn.{
  Conn, Io, Result, ok, err, panic, stuck, pure, fail, crash, hang, ignoring, receive, send, ◌>>=◌,
  ◌>>◌, Error, eof, client_terminated, bad_magic, shutdown, payload_too_large, payload_too_small,
  no_exports, not_available, not_fixed_newstyle, client_aborted,
}
use pond.Server.Discard.{discard, write_bytes}

-- "requested export is not available\x00"
abbrev pub unavailable_text : List ℕ
unavailable_text =
    b'r' ∷ b'e' ∷ b'q' ∷ b'u' ∷ b'e' ∷ b's' ∷ b't' ∷ b'e' ∷ b'd' ∷ 32 ∷ b'e' ∷ b'x' ∷ b'p' ∷ b'o'
    ∷ b'r' ∷ b't' ∷ 32 ∷ b'i' ∷ b's' ∷ 32 ∷ b'n' ∷ b'o' ∷ b't' ∷ 32 ∷ b'a' ∷ b'v' ∷ b'a' ∷ b'i'
    ∷ b'l' ∷ b'a' ∷ b'b' ∷ b'l' ∷ b'e' ∷ 0 ∷ []

-- "this server requires fixed newstyle negotiation\x00"
abbrev pub fixed_text : List ℕ
fixed_text =
    b't' ∷ b'h' ∷ b'i' ∷ b's' ∷ 32 ∷ b's' ∷ b'e' ∷ b'r' ∷ b'v' ∷ b'e' ∷ b'r' ∷ 32 ∷ b'r' ∷ b'e'
    ∷ b'q' ∷ b'u' ∷ b'i' ∷ b'r' ∷ b'e' ∷ b's' ∷ 32 ∷ b'f' ∷ b'i' ∷ b'x' ∷ b'e' ∷ b'd' ∷ 32 ∷ b'n'
    ∷ b'e' ∷ b'w' ∷ b's' ∷ b't' ∷ b'y' ∷ b'l' ∷ b'e' ∷ 32 ∷ b'n' ∷ b'e' ∷ b'g' ∷ b'o' ∷ b't' ∷ b'i'
    ∷ b'a' ∷ b't' ∷ b'i' ∷ b'o' ∷ b'n' ∷ 0 ∷ []

-- NBD_INFO_EXPORT: its type, the bogus size of one exabyte, and the flags.
abbrev pub export_info : List ℕ
export_info =
    be16 nbd_info_export
    ++ (be64 (2 ^ 60)
        ++ be16 (
            nbd_flag_has_flags + nbd_flag_read_only + nbd_flag_can_multi_conn
            + nbd_flag_send_cache))

abbrev pub reply_header : ℕ → ℕ → ℕ → List ℕ
reply_header type reply size = be64 0x3e889045565a9 ++ (be32 type ++ (be32 reply ++ be32 size))

abbrev pub send_reply : ℕ → ℕ → Result (List ℕ) → Io (Unit {0})
send_reply type reply (ok d) = do send (reply_header type reply (length d)); send d
send_reply type reply (err e) = fail e
send_reply type reply panic = crash
send_reply type reply stuck = hang

-- The closure `reply`: the payload is serialized into a pooled buffer.
unfoldable pub reply : ℕ → ℕ → List ℕ → Io (Unit {0})
reply type r payload = send_reply type r (write_bytes buffer_size [] payload)

abbrev pub found : {B : Type 0} → Option B → Io B
found none = fail not_available
found (some b) = pure b

-- The name is a slice of the pooled buffer, which may reach behind the payload, but not behind the
-- buffer's capacity. The length of the name in the payload is not compared with the payload's.
unfoldable pub find_export : {B : Type 0} → Option (List ℕ → Option B) → List ℕ → ℕ → Io B
find_export none bytes name_len = fail no_exports
find_export (some export) bytes name_len =
    if ltb buffer_size (4 + name_len) then crash else found (export (take name_len (drop 4 bytes)))

-- `stale` is what the pooled buffer holds before its use.
unfoldable pub negotiate_backend : {B : Type 0} → Option (List ℕ → Option B) → List ℕ → ℕ → Io B
negotiate_backend export stale size =
    if ltb buffer_size size
    then ignoring (discard size) (fail payload_too_large)
    else if ltb size (4 + 2)
    then ignoring (discard size) (fail payload_too_small)
    else do buf ← receive size; find_export export (buf ++ drop size stale) (of_be (take 4 buf) 0)

-- The end of NBD_OPT_GO and NBD_OPT_INFO: the replies to the client, and the backend for the first.
unfoldable pub announce : {B : Type 0} → ℕ → B → Io (Option B)
announce type backend = do
  reply type nbd_rep_info export_info
  reply type nbd_rep_ack []
  pure (if type == nbd_opt_go then some backend else none)

abbrev pub or_unavailable : {B : Type 0} → ℕ → Result B → (B → Io (Option B)) → Io (Option B)
or_unavailable type (ok b) k = k b
or_unavailable type (err e) k = do reply type nbd_rep_err_unknown unavailable_text; fail e
or_unavailable type panic k = crash
or_unavailable type stuck k = hang

-- One option of the client; `none` means that the loop goes on.
unfoldable pub serve_option :
    {B : Type 0} → Option (List ℕ → Option B) → List ℕ → ℕ → ℕ → Io (Option B)
serve_option export stale type size =
    if type == nbd_opt_go || type == nbd_opt_info
    then (if ltb buffer_size size
        then (do discard size; reply type nbd_rep_err_too_big []; pure none)
        else λ c.
            let (backend, c') = negotiate_backend export stale size c in
            or_unavailable type backend (announce type) c')
    else if type == nbd_opt_export_name
    then ignoring (reply type nbd_rep_err_policy fixed_text) (fail not_fixed_newstyle)
    else if type == nbd_opt_abort
    then ignoring (reply type nbd_rep_ack []) (fail client_aborted)
    else (do discard size; reply type nbd_rep_err_unsup []; pure none)

-- The end of the connection between two options is a client that went away.
abbrev pub terminated : Result (List ℕ) → Io (List ℕ)
terminated (ok head) = pure head
terminated (err eof) = fail client_terminated
terminated (err e) = fail e
terminated panic = crash
terminated stuck = hang

unfoldable pub receive_option : Io (List ℕ)
receive_option c = let (head, c') = receive 16 c in terminated head c'

-- One round of the loop. `cancelled` tells whether the context is done.
unfoldable pub negotiate_round :
    {B : Type 0} → Option (List ℕ → Option B) → List ℕ → Bool → Io (Option B)
negotiate_round export stale cancelled = do
  head ← receive_option
  let type = of_be (take 4 (drop 8 head)) 0
  let size = of_be (drop 12 head) 0
  (if not (of_be (take 8 head) 0 == ihaveopt)
      then fail bad_magic
      else if cancelled
      then ignoring (reply type nbd_rep_err_shutdown []) (fail shutdown)
      else serve_option export stale type size)

-- The loop; the environment tells for every round whether the context is done, and what the pooled
-- buffer holds.
unfoldable pub negotiate :
    {B : Type 0} → ℕ → Option (List ℕ → Option B) → (ℕ → Bool) → (ℕ → List ℕ) → ℕ → Io B
negotiate zero export cancelled stale round = hang
negotiate (suc fuel) export cancelled stale round = do
  chosen ← negotiate_round export (stale round) (cancelled round)
  elim chosen [
    | none ↦ negotiate fuel export cancelled stale (round + 1)
    | some backend ↦ pure backend
  ]
