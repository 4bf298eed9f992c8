-- ===== src/Server/Negotiate/Skips.antt =====
-- An option that the server does not support.
use pond.Prelude.{
  ℕ, suc, ◌+◌, ◌-◌, ◌^◌, ◌≤◌, ◌<◌, ◌≡◌, ◌≢◌, refl, Bool, false, Option, none, List, [], ◌++◌,
  length, length-append, drop-length_append, append-nil, arith,
}
use pond.Server.Const.{
  nbd_opt_export_name, nbd_opt_abort, nbd_opt_info, nbd_opt_go, nbd_rep_err_unsup,
}
use pond.Server.Conn.{Conn, ok}
use pond.Server.Discard.{discard, discard_lem}
use pond.Server.Negotiate.{reply_header, serve_option, negotiate}
use pond.Server.Negotiate.Fields.{option_header, round_serves, reply-fits}

discard_all :
    (payload rest : List ℕ) (c : Conn)
    → discard (length payload) (record c { incoming = payload ++ rest })
      ≡ (ok tt, record c { incoming = rest })
discard_all payload rest c = ground (
  arith,
  discard_lem (length payload) (record c { incoming = payload ++ rest }),
  length-append payload rest,
  drop-length_append payload rest,
)

module _ {B : Type 0} (export : Option (List ℕ → Option B)) where
  serve_option-skips :
      (stale : List ℕ) (type : ℕ) (payload rest : List ℕ) (c : Conn)
      → type ≢ nbd_opt_export_name
      → type ≢ nbd_opt_abort
      → type ≢ nbd_opt_info
      → type ≢ nbd_opt_go
      → 20 ≤ c.room
      → serve_option export stale type (length payload) (record c { incoming = payload ++ rest })
        ≡ (
          ok none,
          record c {
            incoming = rest;
            outgoing = c.outgoing ++ reply_header type nbd_rep_err_unsup 0;
            room = c.room - 20;
          },
        )
  unfolding serve_option
  serve_option-skips stale type payload rest c a b d e room = ground (
    arith,
    discard_all payload rest c,
    reply-fits type nbd_rep_err_unsup [] (record c { incoming = rest }),
    append-nil (c.outgoing ++ reply_header type nbd_rep_err_unsup 0),
  )

  -- An option that the server does not know is answered by NBD_REP_ERR_UNSUP, its payload is
  -- skipped, whatever the payload is, and the negotiation goes on with what the client sends
  -- behind it, if the context is not done and the client takes the reply.
  pub negotiate_skips :
      (fuel : ℕ) (cancelled : ℕ → Bool) (stale : ℕ → List ℕ) (round type : ℕ)
      (payload rest : List ℕ) (c : Conn)
      → type < 2 ^ 32
      → length payload < 2 ^ 32
      → type ≢ nbd_opt_export_name
      → type ≢ nbd_opt_abort
      → type ≢ nbd_opt_info
      → type ≢ nbd_opt_go
      → cancelled round ≡ false
      → 20 ≤ c.room
      → negotiate
          (suc fuel)
          export
          cancelled
          stale
          round
          (record c { incoming = option_header type (length payload) ++ (payload ++ rest) })
        ≡ negotiate fuel export cancelled stale (round + 1) (record c {
          incoming = rest;
          outgoing = c.outgoing ++ reply_header type nbd_rep_err_unsup 0;
          room = c.room - 20;
        })
  unfolding negotiate
  negotiate_skips fuel cancelled stale round type payload rest c small fits a b d e live room =
      rw
        (
          live,
          round_serves export (stale round) type (length payload) (payload ++ rest) c small fits,
          serve_option-skips (stale round) type payload rest c a b d e room,
        )
        refl
