-- ===== src/Server/Session.antt =====
-- nbd/server/server.go: how `serveNBD` opens a session, before the transmission.
use pond.Prelude.{
  ℕ, zero, suc, ◌+◌, ◌-◌, ◌*◌, ◌^◌, ◌≤◌, ◌<◌, ◌≡◌, ◌≢◌, refl, ◌∙◌, Bool, false, Option, some, List,
  [], ◌∷◌, ◌++◌, All, length, append_assoc, append-nil, arith,
}
use pond.Server.Const.{
  nbd_opt_export_name, nbd_opt_abort, nbd_opt_info, nbd_opt_go, nbd_rep_info, nbd_rep_ack,
  nbd_rep_err_unsup, buffer_size,
}
use pond.Server.Conn.{Conn, Io, ok, ◌>>◌}
use pond.Server.Handshake.{hello, handshake, handshake_lem}
use pond.Server.Negotiate.{reply_header, export_info, negotiate}
use pond.Server.Negotiate.Fields.{option_header}
use pond.Server.Negotiate.Requests.{payload, request}
use pond.Server.Negotiate.Outcomes.{negotiate_go}
use pond.Server.Negotiate.Skips.{negotiate_skips}

-- `serveNBD` up to the call of `transmission`.
unfoldable pub open_session :
    {B : Type 0} → ℕ → Option (List ℕ → Option B) → (ℕ → Bool) → (ℕ → List ℕ) → Io B
open_session fuel export cancelled stale = handshake >> negotiate fuel export cancelled stale 0

-- An option that the server does not know, with a payload.
abbrev pub IsUnsupported : ℕ × List ℕ → Type 0
IsUnsupported (type, body) =
    (type < 2 ^ 32)
    × (length body < 2 ^ 32)
    × (type ≢ nbd_opt_export_name)
    × (type ≢ nbd_opt_abort)
    × (type ≢ nbd_opt_info)
    × (type ≢ nbd_opt_go)

-- The options on the wire, with `rest` behind them.
abbrev pub sent : List (ℕ × List ℕ) → List ℕ → List ℕ
sent [] rest = rest
sent ((type, body) ∷ os) rest = option_header type (length body) ++ (body ++ sent os rest)

-- The answers to them.
abbrev pub refusals : List (ℕ × List ℕ) → List ℕ
refusals [] = []
refusals ((type, body) ∷ os) = reply_header type nbd_rep_err_unsup 0 ++ refusals os

module _ {B : Type 0} (f : List ℕ → Option B) (stale : ℕ → List ℕ) (cancelled : ℕ → Bool)
    (live : (r : ℕ) → cancelled r ≡ false) where
  skip_options :
      (os : List (ℕ × List ℕ)) (fuel k round : ℕ) (rest : List ℕ) (c : Conn)
      → fuel ≡ length os + k
      → All IsUnsupported os
      → 20 * length os ≤ c.room
      → negotiate fuel (some f) cancelled stale round (record c { incoming = sent os rest })
        ≡ negotiate k (some f) cancelled stale (round + length os) (record c {
          incoming = rest;
          outgoing = c.outgoing ++ refusals os;
          room = c.room - 20 * length os;
        })
  skip_options [] fuel k round rest c e h room =
      let q : fuel ≡ k = omega arith in
      let r : round + 0 ≡ round = omega arith in
      let left : c.room - 0 ≡ c.room = omega arith in rw (q, r, append-nil c.outgoing, left) refl
  skip_options (o ∷ os) zero k round rest c e h room = absurd (omega arith)
  skip_options ((type, body) ∷ os) (suc fuel) k round rest c e ((small, fits, a, b, d, g), h) room =
      let c' = record c {
        outgoing = c.outgoing ++ reply_header type nbd_rep_err_unsup 0;
        room = c.room - 20;
      } in
      let r : round + 1 + length os ≡ round + suc (length os) = omega arith in
      let left : c.room - 20 - 20 * length os ≡ c.room - 20 * suc (length os) = omega arith in
      negotiate_skips (some f) fuel cancelled stale round type body (sent os rest) c small fits a b
        d g (live round) (omega arith)
      ∙ rw
          (
            ← r,
            ← left,
            ← append_assoc c.outgoing (reply_header type nbd_rep_err_unsup 0) (refusals os),
          )
          (skip_options os fuel k (round + 1) rest c' (omega arith) h (omega arith))

  -- A client of the fixed newstyle that sends any options that the server does not know, with
  -- any payloads, and then asks for an export that there is, gets the greeting, a refusal for
  -- each of these options in their order, the description of the export and the acknowledgement,
  -- and nothing else, if the context is not done and the client takes the replies; the backend
  -- is served, and what the client sends next is not yet read.
  pub open_session_go :
      (os : List (ℕ × List ℕ)) (k n : ℕ) (name info rest : List ℕ) (c : Conn) (b : B)
      → All IsUnsupported os
      → n ≡ length name
      → 6 ≤ length (payload n name info)
      → length (payload n name info) ≤ buffer_size
      → 18 + 20 * length os + 52 ≤ c.room
      → f name ≡ some b
      → open_session
          (length os + suc k)
          (some f)
          cancelled
          stale
          (record c { incoming = 0 ∷ 0 ∷ 0 ∷ 1 ∷ sent os (request n name info ++ rest) })
        ≡ (
          ok b,
          record c {
            incoming = rest;
            outgoing =
                (((c.outgoing ++ hello) ++ refusals os)
                  ++ (reply_header nbd_opt_go nbd_rep_info 12 ++ export_info))
                ++ reply_header nbd_opt_go nbd_rep_ack 0;
            room = c.room - 18 - 20 * length os - 52;
          },
        )
  unfolding open_session
  open_session_go os k n name info rest c b h e lo hi room here =
      let c' = record c { outgoing = c.outgoing ++ hello; room = c.room - 18 } in
      let c'' = record c' {
        outgoing = c'.outgoing ++ refusals os;
        room = c'.room - 20 * length os;
      } in
      rw (handshake_lem 0 0 0 1 (sent os (request n name info ++ rest)) c (omega arith)) (
        skip_options os (length os + suc k) (suc k) 0 (request n name info ++ rest) c' refl h
          (omega arith)
        ∙ negotiate_go f stale cancelled k (0 + length os) n name info rest c'' b e lo hi
            (live (0 + length os)) (omega arith) here)
