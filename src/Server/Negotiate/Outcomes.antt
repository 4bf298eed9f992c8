-- ===== src/Server/Negotiate/Outcomes.antt =====
-- What becomes of a client that asks for an export.
use pond.Prelude.{
  ℕ, suc, ◌+◌, ◌-◌, ◌^◌, ◌≤◌, ◌<◌, ◌≡◌, Bool, false, Option, none, some, List, ◌++◌, length, arith,
}
use pond.Server.Const.{nbd_opt_go, nbd_rep_info, nbd_rep_ack, nbd_rep_err_unknown, buffer_size}
use pond.Server.Conn.{Conn, ok, err, panic, not_available}
use pond.Server.Negotiate.{reply_header, negotiate, export_info, unavailable_text}
use pond.Server.Negotiate.Fields.{announce-fits}
use pond.Server.Negotiate.Requests.{payload, request, round_chosen, round_missing, round_crash}

module _ {B : Type 0} (f : List ℕ → Option B) (stale : ℕ → List ℕ) (cancelled : ℕ → Bool) where
  -- A client that asks by NBD_OPT_GO for an export that there is, with a payload of 6 to 65536
  -- bytes that tells the name's length, gets its description and the acknowledgement, 52 bytes
  -- in all, and the backend is served, if the context is not done and the client takes the
  -- replies. What follows the request is not read.
  pub negotiate_go :
      (fuel round n : ℕ) (name info rest : List ℕ) (c : Conn) (b : B)
      → n ≡ length name
      → 6 ≤ length (payload n name info)
      → length (payload n name info) ≤ buffer_size
      → cancelled round ≡ false
      → 52 ≤ c.room
      → f name ≡ some b
      → negotiate
          (suc fuel)
          (some f)
          cancelled
          stale
          round
          (record c { incoming = request n name info ++ rest })
        ≡ (
          ok b,
          record c {
            incoming = rest;
            outgoing =
                (c.outgoing ++ (reply_header nbd_opt_go nbd_rep_info 12 ++ export_info))
                ++ reply_header nbd_opt_go nbd_rep_ack 0;
            room = c.room - 52;
          },
        )
  unfolding negotiate
  negotiate_go fuel round n name info rest c b e lo hi live room here = rw live (
      ground (
        arith,
        round_chosen f (stale round) n name info rest c b e lo hi here,
        announce-fits nbd_opt_go b (record c { incoming = rest }) room,
      ))

  -- A client that asks in the same way for an export that there is not gets NBD_REP_ERR_UNKNOWN
  -- with its text, and the negotiation fails.
  pub negotiate_missing :
      (fuel round n : ℕ) (name info rest : List ℕ) (c : Conn)
      → n ≡ length name
      → 6 ≤ length (payload n name info)
      → length (payload n name info) ≤ buffer_size
      → cancelled round ≡ false
      → 54 ≤ c.room
      → f name ≡ none
      → negotiate
          (suc fuel)
          (some f)
          cancelled
          stale
          round
          (record c { incoming = request n name info ++ rest })
        ≡ (
          err not_available,
          record c {
            incoming = rest;
            outgoing =
                (c.outgoing ++ reply_header nbd_opt_go nbd_rep_err_unknown 34) ++ unavailable_text;
            room = c.room - 54;
          },
        )
  unfolding negotiate
  negotiate_missing fuel round n name info rest c e lo hi live room here =
      rw live (ground (arith, round_missing f (stale round) n name info rest c e lo hi room here))

  -- A client can make the server panic, if the context is not done: by NBD_OPT_GO with a payload
  -- of 6 to 65536 bytes, whose first four announce a name longer than the buffer can hold behind
  -- them.
  pub negotiate_panics :
      (fuel round n : ℕ) (name info rest : List ℕ) (c : Conn)
      → 6 ≤ length (payload n name info)
      → length (payload n name info) ≤ buffer_size
      → buffer_size < 4 + n
      → n < 2 ^ 32
      → cancelled round ≡ false
      → (negotiate
          (suc fuel)
          (some f)
          cancelled
          stale
          round
          (record c { incoming = request n name info ++ rest })).0
        ≡ panic
  unfolding negotiate
  negotiate_panics fuel round n name info rest c lo hi long h live =
      rw live (ground (arith, round_crash f (stale round) n name info rest c lo hi long h))
