-- ===== src/Server/Dispatch/Replies.antt =====
-- The replies of nbd/server's transmission, whatever the order in which its goroutines go on.
use pond.Prelude.{
  ℕ, ◌∙◌, ap, drop, ◌<◌, ◌≡◌, refl, sym, subst, ◌⊎◌, Option, none, some, List, [], Bool-cases, inl,
  inr, arith,
}
use pond.Server.Const.{nbd_eio}
use pond.Server.Conn.{Conn, ok, receive, send}
use pond.Server.Discard.{discard}
use pond.Server.Transmit.{Answer, reply_header, send_error}
use pond.Server.Dispatch.{
  Request, parse, Thread, rounds, checks, begins, sends, refuses, ended, round, request_size,
}
use pond.Server.Dispatch.System.{
  cancelled_context, System, Receiver, receives, gone, offers, Main, waits, discards, answers,
  checks_discard, checks_answer, after_check_discard, after_check_answer, after_check, returned,
  leave, is_free, take_command, after_receive, after_discard, after_answer, after_round,
  after_begin, after_data, after_refusal, thread_step, Choice, receiver_goes_on, receiver_stops,
  main_goes_on, main_stops, thread_goes_on, receiver_step, main_step, hand_over, receiver_stop,
  main_stop, step,
}
use pond.Server.Dispatch.Data.{World}
use pond.Server.Dispatch.Threads.{Holds}
use pond.Server.Dispatch.Framing.{IsReplies, no_reply, IsBegun, Output}
use pond.Server.Dispatch.Rounds.{receive-conn, discard-conn, send-Sent}
use pond.Server.Dispatch.Invariant.{
  Inv, IsError, IsOffer, after_check_discard-Inv, after_check_answer-Inv, after_receive-Inv,
  after_discard-Inv, take_command-Inv, after_answer-Inv, after_round-Inv,
}
use pond.Server.Dispatch.Sending.{
  after_begin-Inv, after_data-Inv, after_check-Inv, after_refusal-Inv,
}
use pond.Server.Dispatch.Sources.{IsRest, receive-IsSent, discard-fits, step-IsRest}
use pond.Server.Dispatch.Runs.{WholePayload, HonestThread, IsHonest, Reach, begin, go, world}

by_some : (w : World) (x s' : System) → some x ≡ some s' → Inv w x → Inv w s'
by_some w x s' e h = let q : x ≡ s' = cc in subst (Inv w) q h

module _ (w : World) (s s' : System) (inv : Inv w s) where
  receiver_step-Inv :
      ((b : List ℕ) → (receive request_size s.conn).0 ≡ ok b → w.Asked (parse b))
      → (r : Receiver) → receiver_step r s ≡ some s'
      → Inv w s'
  unfolding receiver_step
  receiver_step-Inv sent receives e =
      let x = receive request_size s.conn in
      by_some w (after_receive s x) s' e
        (after_receive-Inv w s inv x.0 x.1 (receive-conn request_size s.conn) sent)
  receiver_step-Inv sent (offers cmd) e = cc
  receiver_step-Inv sent gone e = cc

  receiver_stop-Inv : (r : Receiver) → receiver_stop r s ≡ some s' → Inv w s'
  receiver_stop-Inv (offers cmd) e = elim (Bool-cases s.cancelled) [
    | inl t ↦ by_some w (record s { receiver = gone }) s' (ground (arith, e, t)) (inv.0, tt, inv.2)
    | inr f ↦ ground (arith, e, f)
  ]
  receiver_stop-Inv receives e = cc
  receiver_stop-Inv gone e = cc

  hand_over-Inv : (r : Receiver) → IsOffer w r → hand_over r s ≡ some s' → Inv w s'
  hand_over-Inv (offers cmd) asked e =
      by_some w (take_command cmd (record s { receiver = receives })) s' e
        (take_command-Inv w s inv cmd asked)
  hand_over-Inv receives asked e = cc
  hand_over-Inv gone asked e = cc

  main_step-Inv :
      (m : Main) → s.main ≡ m → WholePayload m s.conn → main_step m s ≡ some s' → Inv w s'
  unfolding main_step
  main_step-Inv waits m f e = hand_over-Inv s.receiver inv.1 e
  main_step-Inv (discards n cookie) m f e =
      let x = discard n s.conn in
      let done : discard n s.conn ≡ (ok tt, record s.conn { incoming = drop n s.conn.incoming }) =
        discard-fits n s.conn f in
      by_some w (after_discard s cookie (ok tt, x.1)) s'
        (ap (λ y. some (after_discard s cookie (y.0, x.1))) (sym done) ∙ e)
        (after_discard-Inv w s inv cookie x.1 (subst (IsError w) m inv.0) (discard-conn n s.conn))
  main_step-Inv (checks_discard cookie) m f e =
      by_some w (after_check_discard cookie s) s' e
        (after_check_discard-Inv w s inv cookie (subst (IsError w) m inv.0))
  main_step-Inv checks_answer m f e =
      by_some w (after_check_answer s) s' e (after_check_answer-Inv w s inv)
  main_step-Inv (answers cookie error) m f e = elim (Bool-cases (is_free s.holder)) [
    | inl t ↦
        let x = send_error cookie error s.conn in
        by_some w (after_answer s x) s' (ground (arith, e, t)) (
          after_answer-Inv w s inv cookie error x.0 x.1 t (subst (IsError w) m inv.0).0
            (subst (IsError w) m inv.0).1 (send-Sent (reply_header error cookie) s.conn))
    | inr z ↦ ground (arith, e, z)
  ]
  main_step-Inv (returned r) m f e = cc

  main_stop-Inv : (m : Main) → main_stop m s ≡ some s' → Inv w s'
  main_stop-Inv waits e = elim (Bool-cases s.cancelled) [
    | inl t ↦
        by_some w (leave (some cancelled_context) s) s' (ground (arith, e, t)) (tt, inv.1, inv.2)
    | inr f ↦ ground (arith, e, f)
  ]
  main_stop-Inv (discards n cookie) e = cc
  main_stop-Inv (checks_discard cookie) e = cc
  main_stop-Inv checks_answer e = cc
  main_stop-Inv (answers cookie error) e = cc
  main_stop-Inv (returned r) e = cc

  thread_step-Inv :
      (i : ℕ) (a : Answer) (t : Thread)
      → s.threads i ≡ t
      → HonestThread w a t
      → thread_step i a t s ≡ some s'
      → Inv w s'
  unfolding thread_step
  thread_step-Inv i a (rounds r) q fair e =
      by_some w (after_round i r (round a r) s) s' e (after_round-Inv w s inv i a r q fair)
  thread_step-Inv i a (begins r bytes) q fair e = elim (Bool-cases (is_free s.holder)) [
    | inl t ↦
        let x = send (reply_header 0 r.cmd.cookie) s.conn in
        by_some w (after_begin i r bytes s x) s' (ground (arith, e, t)) (
          after_begin-Inv w s inv i r bytes x.0 x.1 q t
            (send-Sent (reply_header 0 r.cmd.cookie) s.conn))
    | inr f ↦ ground (arith, e, f)
  ]
  thread_step-Inv i a (sends r bytes) q fair e =
      let x = send bytes s.conn in
      by_some w (after_data i r s x) s' e
        (after_data-Inv w s inv i r bytes x.0 x.1 q (send-Sent bytes s.conn))
  thread_step-Inv i a (refuses cookie) q fair e = elim (Bool-cases (is_free s.holder)) [
    | inl t ↦
        let x = send_error cookie nbd_eio s.conn in
        by_some w (after_refusal i s x) s' (ground (arith, e, t)) (
          after_refusal-Inv w s inv i cookie x.0 x.1 q t
            (send-Sent (reply_header nbd_eio cookie) s.conn))
    | inr f ↦ ground (arith, e, f)
  ]
  thread_step-Inv i a (checks r) q fair e =
      by_some w (after_check i r s) s' e (after_check-Inv w s inv i r q)
  thread_step-Inv i a ended q fair e = cc

step-Inv :
    (w : World) (choice : Choice) (s s' : System)
    → ((b : List ℕ) → (receive request_size s.conn).0 ≡ ok b → w.Asked (parse b))
    → Inv w s
    → IsHonest w choice s
    → step choice s ≡ some s'
    → Inv w s'
unfolding step
step-Inv w receiver_goes_on s s' sent inv fair e = receiver_step-Inv w s s' inv sent s.receiver e
step-Inv w receiver_stops s s' sent inv fair e = receiver_stop-Inv w s s' inv s.receiver e
step-Inv w main_goes_on s s' sent inv fair e = main_step-Inv w s s' inv s.main refl fair e
step-Inv w main_stops s s' sent inv fair e = main_stop-Inv w s s' inv s.main e
step-Inv w (thread_goes_on i a) s s' sent inv fair e =
    thread_step-Inv w s s' inv i a (s.threads i) refl fair e

Reach-Inv :
    (c : Conn) (disk : ℕ → ℕ)
    → c.outgoing ≡ []
    → {s : System} → Reach (IsHonest (world c disk)) c s
    → Inv (world c disk) s × IsRest c s.conn
Reach-Inv c disk e begin = (
  (
    tt,
    tt,
    λ p. (
      record {
        others = λ j. tt;
        late = λ j l. refl;
        output = subst (IsReplies (world c disk)) (sym e) no_reply;
      },
      refl,
    ),
  ),
  (0, refl),
)
Reach-Inv c disk e (go choice {s} {s'} r fair q) =
    let (inv, rest) = Reach-Inv c disk e r in
    (
      step-Inv (world c disk) choice s s' (λ b h. receive-IsSent c s.conn b rest h) inv fair q,
      step-IsRest c choice s s' rest q,
    )

Output-IsReplies :
    (w : World) (holder : Option ℕ) (threads : ℕ → Thread) (out : List ℕ)
    → Output w holder threads out
    → IsReplies w out ⊎ ((cmd : Request) × (sofar : List ℕ) × IsBegun w cmd sofar out)
Output-IsReplies w none threads out o = inl o
Output-IsReplies w (some i) threads out (cmd, sofar, begun, h) = inr (cmd, sofar, begun)

all_ended :
    (w : World) (holder : Option ℕ) (threads : ℕ → Thread) (out : List ℕ)
    → Output w holder threads out
    → ((j : ℕ) → threads j ≡ ended)
    → IsReplies w out
all_ended w none threads out o e = o
all_ended w (some i) threads out (cmd, sofar, begun, h) e =
    elim (subst (Holds w cmd sofar) (e i) h) [ ]

-- Whatever the client sends, and in whatever order the goroutines of the transmission go on, until
-- a write fails or the client takes no more byte: what the client has got are whole replies, one
-- behind the other, with at most one behind them that has been begun; and whole replies only, where
-- every READ is at its end. A whole reply is a header with an error and the cookie of a command, or
-- a header without and the data of one. A command is one that is parsed from 28 bytes in a row of
-- those that the client has sent. If its range ends below 2 ^ 63, its data are as many bytes as it
-- asks for, and each is the byte of the disk at its place in the range or one of the bogus bytes
-- 0xe0 to 0xee; of a reply that has been begun this holds as far as it goes. The backend keeps the
-- contract of io.ReaderAt and gives the bytes of the disk, and the payloads that are discarded are
-- all there.
pub Reach-IsReplies :
    (c : Conn) (disk : ℕ → ℕ) (s : System)
    → c.outgoing ≡ []
    → Reach (IsHonest (world c disk)) c s
    → 0 < s.conn.room
    → (IsReplies (world c disk) s.conn.outgoing
        ⊎ ((cmd : Request) × (sofar : List ℕ) × IsBegun (world c disk) cmd sofar s.conn.outgoing))
      × (((j : ℕ) → s.threads j ≡ ended) → IsReplies (world c disk) s.conn.outgoing)
Reach-IsReplies c disk s e r p =
    let f = ((Reach-Inv c disk e r).0.2 p).0 in
    (
      Output-IsReplies (world c disk) s.holder s.threads s.conn.outgoing f.output,
      all_ended (world c disk) s.holder s.threads s.conn.outgoing f.output,
    )
