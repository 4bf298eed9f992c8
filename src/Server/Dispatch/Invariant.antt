-- ===== src/Server/Dispatch/Invariant.antt =====
-- Every step of nbd/server's transmission keeps the replies of its goroutines apart.
use pond.Prelude.{
  Bool, if◌then◌else◌, ℕ, ◌<◌, ◌≡◌, refl, sym, subst, ◌∙◌, ◌==◌, true, false, Option, none, some,
  List, arith, Bool-cases, inl, inr,
}
use pond.Server.Const.{nbd_request_magic, nbd_cmd_read, nbd_cmd_write, nbd_cmd_disc}
use pond.Server.Conn.{Conn, Result, ok, err, panic, stuck}
use pond.Server.Transmit.{Answer, reply_header}
use pond.Server.Dispatch.{parse, Request, Reading, Thread, rounds, ended, round}
use pond.Server.Dispatch.System.{
  release, System, Receiver, receives, offers, gone, Main, waits, discards, checks_discard, answers,
  checks_answer, returned, after_check_discard, after_check_answer, set_thread, after_receive,
  take_command, after_answer, after_discard, is_free, after_round,
}
use pond.Server.Dispatch.Data.{World}
use pond.Server.Dispatch.Threads.{IsCookie, Quiet, Holds, IsAnswer, round-HoldsOrEnds}
use pond.Server.Dispatch.Rounds.{Sent, round_outside, round_inside, Role, outsider, insider, role}
use pond.Server.Dispatch.Framing.{IsReplies, error_reply, Framed, Framed-new, live}

-- The loop answers by errors only, with the cookie of a command.
abbrev pub IsError : World → Main → Type 0
IsError w waits = Unit
IsError w (discards n cookie) = IsCookie w cookie
IsError w (checks_discard cookie) = IsCookie w cookie
IsError w (answers cookie error) = ((error == 0) ≡ false) × IsCookie w cookie
IsError w checks_answer = Unit
IsError w (returned e) = Unit

-- The command that is offered is one of the client's.
abbrev pub IsOffer : World → Receiver → Type 0
IsOffer w receives = Unit
IsOffer w (offers cmd) = w.Asked cmd
IsOffer w gone = Unit

-- Until writing to the client has failed, what it got is framed, and `err` is nil.
abbrev pub Inv : World → System → Type 0
Inv w s =
    IsError w s.main
    × IsOffer w s.receiver
    × (0 < s.conn.room → Framed w s.holder s.threads s.count s.conn.outgoing × (s.failed ≡ false))

pub if-Inv :
    (w : World) (b : Bool) (x y : System)
    → (b ≡ true → Inv w x)
    → (b ≡ false → Inv w y)
    → Inv w (if b then x else y)
if-Inv w true x y f g = f refl
if-Inv w false x y f g = g refl

pub free_none : (holder : Option ℕ) → is_free holder ≡ true → holder ≡ none
free_none none e = refl
free_none (some i) e = cc

Framed-append :
    (w : World) (threads : ℕ → Thread) (count : ℕ) (out out' : List ℕ)
    → Framed w none threads count out
    → IsReplies w out'
    → Framed w none threads count out'
Framed-append w threads count out out' f h = record { others = f.others; late = f.late; output = h }

module _ (w : World) (s : System) (inv : Inv w s) where
  kept :
      (c : Conn)
      → (c.outgoing ≡ s.conn.outgoing) × (c.room ≡ s.conn.room)
      → 0 < c.room
      → Framed w s.holder s.threads s.count c.outgoing × (s.failed ≡ false)
  kept c (o, e) p =
      let (f, nil) = inv.2 (subst (λ n. 0 < n) e p) in
      (subst (Framed w s.holder s.threads s.count) (sym o) f, nil)

  pub after_receive-Inv :
      (r : Result (List ℕ)) (c : Conn)
      → (c.outgoing ≡ s.conn.outgoing) × (c.room ≡ s.conn.room)
      → ((b : List ℕ) → r ≡ ok b → w.Asked (parse b))
      → Inv w (after_receive s (r, c))
  after_receive-Inv (ok b) c h a = (inv.0, a b refl, kept c h)
  after_receive-Inv (err e) c h a = (inv.0, tt, kept c h)
  after_receive-Inv panic c h a = (inv.0, tt, kept c h)
  after_receive-Inv stuck c h a = (inv.0, tt, kept c h)

  pub after_discard-Inv :
      (cookie : ℕ) (c : Conn)
      → IsCookie w cookie
      → (c.outgoing ≡ s.conn.outgoing) × (c.room ≡ s.conn.room)
      → Inv w (after_discard s cookie (ok tt, c))
  after_discard-Inv cookie c k h = (k, inv.1, λ p. ((kept c h p).0, refl))

  pub after_check_discard-Inv :
      (cookie : ℕ) → IsCookie w cookie → Inv w (after_check_discard cookie s)
  after_check_discard-Inv cookie k =
      if-Inv w s.failed _ _ (λ e. (tt, inv.1, inv.2)) (λ e. ((refl, k), inv.1, inv.2))

  pub after_check_answer-Inv : Inv w (after_check_answer s)
  after_check_answer-Inv = if-Inv w s.failed _ _ (λ e. (tt, inv.1, inv.2)) (λ e. (tt, inv.1, inv.2))

  pub take_command-Inv :
      (cmd : Request) → w.Asked cmd → Inv w (take_command cmd (record s { receiver = receives }))
  unfolding take_command
  take_command-Inv cmd asked =
      let cookie : IsCookie w cmd.cookie = (cmd, asked, refl) in
      elim (Bool-cases (cmd.magic == nbd_request_magic)) [
        | inr a ↦ rw a (tt, tt, inv.2)
        | inl a ↦ elim (Bool-cases (cmd.flag == 0)) [
          | inr b ↦ rw (a, b) ((refl, cookie), tt, inv.2)
          | inl b ↦ elim (Bool-cases (cmd.type == nbd_cmd_read)) [
            | inl c ↦
                rw (a, b, c)
                  (
                    inv.0,
                    tt,
                    λ p.
                        let (f, nil) = inv.2 p in
                        (Framed-new w cmd s.holder s.threads s.count s.conn.outgoing asked f, nil),
                  )
            | inr c ↦ elim (Bool-cases (cmd.type == nbd_cmd_disc)) [
              | inl d ↦ rw (a, b, c, d) (tt, tt, inv.2)
              | inr d ↦ elim (Bool-cases (cmd.type == nbd_cmd_write)) [
                | inl e ↦ rw (a, b, c, d, e) (cookie, tt, inv.2)
                | inr e ↦ rw (a, b, c, d, e) ((refl, cookie), tt, inv.2)
              ]
            ]
          ]
        ]
      ]

  -- Where nobody holds the lock, a reply that is not data comes behind whole ones.
  pub error_Framed :
      (cookie error : ℕ) (c : Conn)
      → is_free s.holder ≡ true
      → (error == 0) ≡ false
      → IsCookie w cookie
      → Sent (reply_header error cookie) s.conn (ok tt) c
      → 0 < c.room
      → Framed w s.holder s.threads s.count c.outgoing
  error_Framed cookie error c free n k (o, l) p =
      let e = free_none s.holder free in
      let f = subst (λ h. Framed w h s.threads s.count s.conn.outgoing) e (inv.2 (omega arith)).0 in
      subst (λ h. Framed w h s.threads s.count c.outgoing) (sym e)
        (Framed-append w s.threads s.count s.conn.outgoing c.outgoing f
          (subst (IsReplies w) (sym o) (error_reply cookie error n k f.output)))

  pub after_answer-Inv :
      (cookie error : ℕ) (r : Result (Unit {0})) (c : Conn)
      → is_free s.holder ≡ true
      → (error == 0) ≡ false
      → IsCookie w cookie
      → Sent (reply_header error cookie) s.conn r c
      → Inv w (after_answer s (r, c))
  after_answer-Inv cookie error (ok t) c free n k h =
      (tt, inv.1, λ p. (error_Framed cookie error c free n k h p, refl))
  after_answer-Inv cookie error (err e) c free n k h = (tt, inv.1, λ p. absurd (omega arith))
  after_answer-Inv cookie error panic c free n k h = (tt, inv.1, λ p. absurd (omega arith))
  after_answer-Inv cookie error stuck c free n k h = (tt, inv.1, λ p. absurd (omega arith))

  module _ (i : ℕ) where
    pub alive :
        (t : Thread)
        → s.threads i ≡ t
        → ¬ (t ≡ ended)
        → Framed w s.holder s.threads s.count s.conn.outgoing
        → i < s.count
    alive t e n f = live w s.holder s.threads s.count s.conn.outgoing i f (λ z. n (sym e ∙ z))

    round_role :
        (a : Answer) (r : Reading)
        → s.threads i ≡ rounds r
        → IsAnswer w a r
        → Framed w s.holder s.threads s.count s.conn.outgoing
        → Role w s.holder s.threads s.conn.outgoing i
        → Framed w
            (release (round a r) r s.holder)
            (set_thread i (round a r) s.threads)
            s.count
            s.conn.outgoing
    round_role a r e answer f (outsider n q) =
        round_outside w s.threads s.count s.conn.outgoing i r s.holder a f
          (alive (rounds r) e (λ z. cc) f) n (subst (Quiet w) e q) answer
    round_role a r e answer f (insider cmd sofar held begun h) =
        let h' = subst (Holds w cmd sofar) e h in
        subst
          (λ o.
            Framed w (release (round a r) r o) (set_thread i (round a r) s.threads) s.count
              s.conn.outgoing)
          (sym held)
          (round_inside w s.threads s.count s.conn.outgoing i r (round a r) cmd sofar
            (subst (λ o. Framed w o s.threads s.count s.conn.outgoing) held f)
            (alive (rounds r) e (λ z. cc) f) h'.0 begun
            (round-HoldsOrEnds w a r cmd sofar h' answer))

    pub after_round-Inv :
        (a : Answer) (r : Reading)
        → s.threads i ≡ rounds r
        → IsAnswer w a r
        → Inv w (after_round i r (round a r) s)
    after_round-Inv a r e answer = (
      inv.0,
      inv.1,
      λ p.
          let (f, nil) = inv.2 p in
          (round_role a r e answer f (role w s.holder s.threads s.count s.conn.outgoing i f), nil),
    )
