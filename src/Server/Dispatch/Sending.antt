-- ===== src/Server/Dispatch/Sending.antt =====
-- The steps of nbd/server's transmission in which the goroutine of a READ writes to the client.
use pond.Prelude.{
  ℕ, ◌<◌, ◌≡◌, refl, sym, subst, ◌∙◌, ap, true, ◌≤◌, none, some, List, [], ◌++◌, append-nil,
  append_assoc, length, arith,
}
use pond.Server.Const.{nbd_eio}
use pond.Server.Conn.{Conn, Result, ok, err, panic, stuck}
use pond.Server.Transmit.{reply_header}
use pond.Server.Dispatch.{Request, Reading, rounds, checks, begins, sends, refuses, ended}
use pond.Server.Dispatch.System.{
  System, set_thread, is_free, after_begin, after_data, after_check, after_refusal,
}
use pond.Server.Dispatch.Data.{World, IsDataAt}
use pond.Server.Dispatch.Threads.{IsBounded, IsCookie, Quiet, Holds, At}
use pond.Server.Dispatch.Framing.{Framed, IsNotHolder, Framed-set, Framed-hold, Framed-begin}
use pond.Server.Dispatch.Rounds.{Sent, Role, outsider, insider, role}
use pond.Server.Dispatch.Invariant.{Inv, if-Inv, error_Framed, alive, free_none}

-- What has been sent of a reply.
At-data :
    (w : World) (r : Reading) (cmd : Request) (bs : List ℕ)
    → r.cmd ≡ cmd
    → At w r bs
    → IsBounded cmd
    → (length bs ≤ cmd.len) × IsDataAt w cmd.offset bs
At-data w r cmd bs same at =
    subst (λ t. IsBounded t → (length bs ≤ t.len) × IsDataAt w t.offset bs) same
      (λ b. let (c, l, e, size, sent) = at b in (l, sent))

module _ (w : World) (s : System) (inv : Inv w s) (i : ℕ) where
  -- The header opens a reply, with nothing of its data.
  begin_Framed :
      (r : Reading) (bytes : List ℕ) (c : Conn)
      → s.threads i ≡ begins r bytes
      → s.holder ≡ none
      → Sent (reply_header 0 r.cmd.cookie) s.conn (ok tt) c
      → 0 < c.room
      → Framed w
          (some i)
          (set_thread i (sends (record r { in_transaction = true }) bytes) s.threads)
          s.count
          c.outgoing
  begin_Framed r bytes c e free (o, l) p =
      let f0 = (inv.2 (omega arith)).0 in
      let f = subst (λ h. Framed w h s.threads s.count s.conn.outgoing) free f0 in
      let q : Quiet w (begins r bytes) = subst (Quiet w) e (f.others i) in
      Framed-begin w s.threads s.count i (sends (record r { in_transaction = true }) bytes)
        s.conn.outgoing c.outgoing r.cmd [] f (alive w s inv i (begins r bytes) e (λ z. cc) f0)
        record {
          before = s.conn.outgoing;
          whole = f.output;
          asked = q.1;
          data_so_far = λ b. (omega arith, tt);
          shape =
              o ∙ ap (λ t. s.conn.outgoing ++ t) (sym (append-nil (reply_header 0 r.cmd.cookie)));
        }
        (refl, refl, q.2)

  pub after_begin-Inv :
      (r : Reading) (bytes : List ℕ) (x : Result (Unit {0})) (c : Conn)
      → s.threads i ≡ begins r bytes
      → is_free s.holder ≡ true
      → Sent (reply_header 0 r.cmd.cookie) s.conn x c
      → Inv w (after_begin i r bytes s (x, c))
  after_begin-Inv r bytes (ok t) c e free h = (
    inv.0,
    inv.1,
    λ p. (begin_Framed r bytes c e (free_none s.holder free) h p, (inv.2 (omega arith)).1),
  )
  after_begin-Inv r bytes (err z) c e free h = (inv.0, inv.1, λ p. absurd (omega arith))
  after_begin-Inv r bytes panic c e free h = (inv.0, inv.1, λ p. absurd (omega arith))
  after_begin-Inv r bytes stuck c e free h = (inv.0, inv.1, λ p. absurd (omega arith))

  -- Data comes behind the data that has been sent.
  data_Framed :
      (r : Reading) (bytes : List ℕ) (c : Conn)
      → s.threads i ≡ sends r bytes
      → Sent bytes s.conn (ok tt) c
      → Framed w s.holder s.threads s.count s.conn.outgoing
      → Role w s.holder s.threads s.conn.outgoing i
      → Framed w s.holder (set_thread i (checks r) s.threads) s.count c.outgoing
  data_Framed r bytes c e (o, l) f (outsider n q) =
      let (outside, nothing, asked, at) = subst (Quiet w) e q in
      let same : c.outgoing ≡ s.conn.outgoing =
        o ∙ (ap (λ t. s.conn.outgoing ++ t) nothing ∙ append-nil s.conn.outgoing) in
      subst (Framed w s.holder (set_thread i (checks r) s.threads) s.count) (sym same) (
        Framed-set w s.threads s.count i (checks r) s.holder s.conn.outgoing f
          (alive w s inv i (sends r bytes) e (λ z. cc) f) n (outside, asked, at))
  data_Framed r bytes c e (o, l) f (insider cmd sofar held begun h) =
      let (inside, same, at) = subst (Holds w cmd sofar) e h in
      let head = reply_header 0 cmd.cookie in
      let shape : c.outgoing ≡ begun.before ++ (head ++ (sofar ++ bytes)) =
        o
        ∙ (ap (λ t. t ++ bytes) begun.shape
            ∙ (append_assoc begun.before (head ++ sofar) bytes
                ∙ ap (λ t. begun.before ++ t) (append_assoc head sofar bytes))) in
      subst (λ k. Framed w k (set_thread i (checks r) s.threads) s.count c.outgoing) (sym held)
        (Framed-hold w s.threads s.count i (checks r) s.conn.outgoing c.outgoing cmd
          (sofar ++ bytes) (subst (λ k. Framed w k s.threads s.count s.conn.outgoing) held f)
          (alive w s inv i (sends r bytes) e (λ z. cc) f)
          record {
            before = begun.before;
            whole = begun.whole;
            asked = begun.asked;
            data_so_far = At-data w r cmd (sofar ++ bytes) same at;
            shape = shape;
          }
          (inside, same, at))

  pub after_data-Inv :
      (r : Reading) (bytes : List ℕ) (x : Result (Unit {0})) (c : Conn)
      → s.threads i ≡ sends r bytes
      → Sent bytes s.conn x c
      → Inv w (after_data i r s (x, c))
  after_data-Inv r bytes (ok t) c e h = (
    inv.0,
    inv.1,
    λ p.
        let f = (inv.2 (omega arith)).0 in
        (data_Framed r bytes c e h f (role w s.holder s.threads s.count s.conn.outgoing i f), refl),
  )
  after_data-Inv r bytes (err z) c e h = (inv.0, inv.1, λ p. absurd (omega arith))
  after_data-Inv r bytes panic c e h = (inv.0, inv.1, λ p. absurd (omega arith))
  after_data-Inv r bytes stuck c e h = (inv.0, inv.1, λ p. absurd (omega arith))

  -- The test of `err` finds none, and the thread goes on as it was.
  check_Framed :
      (r : Reading)
      → s.threads i ≡ checks r
      → Framed w s.holder s.threads s.count s.conn.outgoing
      → Role w s.holder s.threads s.conn.outgoing i
      → Framed w s.holder (set_thread i (rounds r) s.threads) s.count s.conn.outgoing
  check_Framed r e f (outsider n q) =
      Framed-set w s.threads s.count i (rounds r) s.holder s.conn.outgoing f
        (alive w s inv i (checks r) e (λ z. cc) f) n (subst (Quiet w) e q)
  check_Framed r e f (insider cmd sofar held begun h) =
      subst (λ k. Framed w k (set_thread i (rounds r) s.threads) s.count s.conn.outgoing) (sym held)
        (Framed-hold w s.threads s.count i (rounds r) s.conn.outgoing s.conn.outgoing cmd sofar
          (subst (λ k. Framed w k s.threads s.count s.conn.outgoing) held f)
          (alive w s inv i (checks r) e (λ z. cc) f) begun (subst (Holds w cmd sofar) e h))

  pub after_check-Inv : (r : Reading) → s.threads i ≡ checks r → Inv w (after_check i r s)
  after_check-Inv r e =
      if-Inv w s.failed _ _ (λ q. (inv.0, inv.1, λ p. let n = (inv.2 p).1 in cc))
        (λ q. (
          inv.0,
          inv.1,
          λ p.
              let (f, nil) = inv.2 p in
              (check_Framed r e f (role w s.holder s.threads s.count s.conn.outgoing i f), nil),
        ))

  pub after_refusal-Inv :
      (cookie : ℕ) (x : Result (Unit {0})) (c : Conn)
      → s.threads i ≡ refuses cookie
      → is_free s.holder ≡ true
      → Sent (reply_header nbd_eio cookie) s.conn x c
      → Inv w (after_refusal i s (x, c))
  after_refusal-Inv cookie (ok t) c e free h = (
    inv.0,
    inv.1,
    λ p.
        let (f0, nil) = inv.2 (omega arith) in
        let f =
          subst (λ k. Framed w k s.threads s.count s.conn.outgoing) (free_none s.holder free) f0 in
        let k : IsCookie w cookie = subst (Quiet w) e (f.others i) in
        (
          Framed-set w s.threads s.count i ended s.holder c.outgoing
              (error_Framed w s inv cookie nbd_eio c free refl k h p)
              (alive w s inv i (refuses cookie) e (λ z. cc) f0)
              (subst (λ k. IsNotHolder k i) (sym (free_none s.holder free)) tt) tt,
          nil,
        ),
  )
  after_refusal-Inv cookie (err z) c e free h = (inv.0, inv.1, λ p. absurd (omega arith))
  after_refusal-Inv cookie panic c e free h = (inv.0, inv.1, λ p. absurd (omega arith))
  after_refusal-Inv cookie stuck c e free h = (inv.0, inv.1, λ p. absurd (omega arith))
