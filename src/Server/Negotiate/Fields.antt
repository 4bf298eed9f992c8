-- ===== src/Server/Negotiate/Fields.antt =====
-- The parts of a negotiation: an option, the payload of NBD_OPT_GO, and the replies.
use pond.Prelude.{
  ℕ, ◌+◌, ◌-◌, ◌^◌, ◌≤◌, ◌<◌, ◌≡◌, refl, false, ◌==◌, Option, none, some, List, [], ◌++◌, length,
  length-append, drop, take, take-length_append, drop-length_append, arith, if◌then◌else◌,
  append_assoc, append-nil,
}
use pond.Prelude.Bytes.{be16, be32, be64, of_be, of_be-be32}
use pond.Server.Const.{ihaveopt, nbd_opt_go, nbd_rep_info, nbd_rep_ack, buffer_size}
use pond.Server.Conn.{Conn, ok, receive, send}
use pond.Server.Discard.{write_bytes}
use pond.Server.Negotiate.{
  found, find_export, negotiate_backend, reply, reply_header, announce, serve_option,
  receive_option, negotiate_round, export_info,
}

abbrev pub option_header : ℕ → ℕ → List ℕ
option_header type size = be64 ihaveopt ++ (be32 type ++ be32 size)

pub receive_lem :
    (bytes rest : List ℕ) (c : Conn)
    → receive (length bytes) (record c { incoming = bytes ++ rest })
      ≡ (ok bytes, record c { incoming = rest })
unfolding receive
receive_lem bytes rest c =
    ground (
      arith,
      length-append bytes rest,
      take-length_append bytes rest,
      drop-length_append bytes rest,
    )

module _ {B : Type 0} (export : Option (List ℕ → Option B)) where
  -- A round whose option is well formed serves it.
  pub round_serves :
      (stale : List ℕ) (type size : ℕ) (rest : List ℕ) (c : Conn)
      → type < 2 ^ 32
      → size < 2 ^ 32
      → negotiate_round export stale false (record c { incoming = option_header type size ++ rest })
        ≡ serve_option export stale type size (record c { incoming = rest })
  unfolding negotiate_round receive_option receive be64
  round_serves stale type size rest c h k = ground (arith, of_be-be32 type h, of_be-be32 size k)

-- The payload of NBD_OPT_GO: the name's length, the name, and information requests.
module _ {B : Type 0} (f : List ℕ → Option B) (stale : List ℕ) where
  -- The payload is read, and the name is looked up, unless the name's length sends the slice
  -- behind the buffer.
  pub negotiate_backend-receive :
      (payload rest : List ℕ) (c : Conn)
      → 6 ≤ length payload
      → length payload ≤ buffer_size
      → negotiate_backend (some f) stale (length payload) (record c { incoming = payload ++ rest })
        ≡ find_export
            (some f)
            (payload ++ drop (length payload) stale)
            (of_be (take 4 payload) 0)
            (record c { incoming = rest })
  unfolding negotiate_backend
  negotiate_backend-receive payload rest c lo hi = ground (arith, receive_lem payload rest c)

  pub find_export-name :
      (n : ℕ) (name info more : List ℕ) (c : Conn)
      → n ≡ length name
      → n + 4 ≤ buffer_size
      → find_export (some f) ((be32 n ++ (name ++ info)) ++ more) n c ≡ found (f name) c
  unfolding find_export be32
  find_export-name n name info more c e h =
      let front : take n ((name ++ info) ++ more) ≡ name =
        rw (e, append_assoc name info more) (take-length_append name (info ++ more)) in
      ground (arith, front)

pub reply-fits :
    (type r : ℕ) (d : List ℕ) (c : Conn)
    → length d ≤ 64
    → 20 + length d ≤ c.room
    → reply type r d c ≡ (
      ok tt,
      record c {
        outgoing = (c.outgoing ++ reply_header type r (length d)) ++ d;
        room = c.room - (20 + length d);
      },
    )
unfolding reply write_bytes send be64
reply-fits type r d c h k = ground arith

pub length_info : length export_info ≡ 12
unfolding be64 be16
length_info = refl

pub announce-fits :
    {B : Type 0} (type : ℕ) (b : B) (c : Conn)
    → 52 ≤ c.room
    → announce type b c ≡ (
      ok (if type == nbd_opt_go then some b else none),
      record c {
        outgoing =
            (c.outgoing ++ (reply_header type nbd_rep_info 12 ++ export_info))
            ++ reply_header type nbd_rep_ack 0;
        room = c.room - 52;
      },
    )
unfolding announce
announce-fits type b c h =
    let h1 : List ℕ = reply_header type nbd_rep_info (length export_info) in
    let c' : Conn = record c {
      outgoing = (c.outgoing ++ h1) ++ export_info;
      room = c.room - (20 + length export_info);
    } in
    let sent =
      append-nil (((c.outgoing ++ h1) ++ export_info) ++ reply_header type nbd_rep_ack 0) in
    ground (
      arith,
      length_info,
      reply-fits type nbd_rep_info export_info c,
      reply-fits type nbd_rep_ack [] c',
      append_assoc c.outgoing h1 export_info,
      sent,
    )
