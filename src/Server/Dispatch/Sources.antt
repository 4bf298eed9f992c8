-- ===== src/Server/Dispatch/Sources.antt =====
-- Which bytes of the client nbd/server's transmission takes for commands.
use pond.Prelude.{
  Bool, length-drop, ℕ, ◌+◌, ◌≤◌, ◌≡◌, refl, sym, subst, ◌∙◌, ap, ◌==◌, true, false, none, some,
  List, length, take, drop, drop-add, drop_all, leb, ltb, if◌then◌else◌, Bool-cases, inl, inr,
  arith,
}
use pond.Server.Const.{nbd_eio, nbd_request_magic, nbd_cmd_read, nbd_cmd_write, nbd_cmd_disc}
use pond.Server.Conn.{Conn, Result, ok, err, panic, stuck, receive, send}
use pond.Server.Discard.{discard, discard_lem}
use pond.Server.Transmit.{Answer, reply_header}
use pond.Server.Dispatch.{
  Request, request_size, parse, Reading, Thread, rounds, checks, begins, sends, refuses, ended,
}
use pond.Server.Dispatch.System.{
  System, Receiver, receives, gone, offers, Main, waits, discards, checks_discard, answers,
  checks_answer, returned, is_free, take_command, after_receive, after_begin, after_refusal,
  thread_step, Choice, receiver_goes_on, receiver_stops, main_goes_on, main_stops, thread_goes_on,
  receiver_step, main_step, hand_over, receiver_stop, main_stop, step,
}

-- The client has sent a command: it is 28 bytes of what it sends.
abbrev pub IsSent : Conn → Request → Type 0
IsSent c cmd =
    (k : ℕ) × (k + request_size ≤ length c.incoming)
    × (cmd ≡ parse (take request_size (drop k c.incoming)))

-- The client's bytes behind the first `k` are still to be read.
abbrev pub IsRest : Conn → Conn → Type 0
IsRest c x = (k : ℕ) × (x.incoming ≡ drop k c.incoming)

pub receive-fits :
    (n : ℕ) (c : Conn)
    → n ≤ length c.incoming
    → receive n c ≡ (ok (take n c.incoming), record c { incoming = drop n c.incoming })
unfolding receive
receive-fits n c h = let e : leb n (length c.incoming) ≡ true = ground arith in rw e refl

pub discard-fits :
    (n : ℕ) (c : Conn)
    → n ≤ length c.incoming
    → discard n c ≡ (ok tt, record c { incoming = drop n c.incoming })
discard-fits n c h =
    let e : ltb (length c.incoming) n ≡ false = ground arith in discard_lem n c ∙ rw e refl

module _ (c : Conn) where
  receive-IsRest : (n : ℕ) (x : Conn) → IsRest c x → IsRest c (receive n x).1
  unfolding receive
  receive-IsRest n x (k, e) = elim (Bool-cases (leb n (length x.incoming))) [
    | inl l ↦ rw l (k + n, ap (drop n) e ∙ sym (drop-add k n c.incoming))
    | inr l ↦ rw l (length c.incoming, sym (drop_all (length c.incoming) c.incoming (omega arith)))
  ]

  discard-IsRest : (n : ℕ) (x : Conn) → IsRest c x → IsRest c (discard n x).1
  discard-IsRest n x (k, e) = elim (Bool-cases (ltb (length x.incoming) n)) [
    | inl l ↦
        rw (discard_lem n x, l)
          (length c.incoming, sym (drop_all (length c.incoming) c.incoming (omega arith)))
    | inr l ↦ rw (discard_lem n x, l) (k + n, ap (drop n) e ∙ sym (drop-add k n c.incoming))
  ]

  send-IsRest : (bytes : List ℕ) (x : Conn) → IsRest c x → IsRest c (send bytes x).1
  unfolding send
  send-IsRest bytes x (k, e) = elim (Bool-cases (leb (length bytes) x.room)) [
    | inl l ↦ rw l (k, e)
    | inr l ↦ rw l (k, e)
  ]

  -- What is received in front of the rest is a command of the client's.
  pub receive-IsSent :
      (x : Conn) (b : List ℕ) → IsRest c x → (receive request_size x).0 ≡ ok b → IsSent c (parse b)
  unfolding receive
  receive-IsSent x b (k, e) h = elim (Bool-cases (leb request_size (length x.incoming))) [
    | inl l ↦
        let q : b ≡ take request_size x.incoming = ground (arith, l, h) in
        let lengths = ap (λ xs. length xs) e in
        let rest = length-drop k c.incoming in
        (k, ground (arith, l, lengths, rest), ap parse (q ∙ ap (take request_size) e))
    | inr l ↦ absurd (ground (arith, l, h))
  ]

  if-IsRest :
      (b : Bool) (x y : System)
      → IsRest c x.conn
      → IsRest c y.conn
      → IsRest c (if b then x else y).conn
  if-IsRest true x y h k = h
  if-IsRest false x y h k = k

  conn-take_command : (cmd : Request) (s : System) → (take_command cmd s).conn ≡ s.conn
  unfolding take_command
  conn-take_command cmd s = elim (Bool-cases (cmd.magic == nbd_request_magic)) [
    | inr a ↦ rw a refl
    | inl a ↦ elim (Bool-cases (cmd.flag == 0)) [
      | inr b ↦ rw (a, b) refl
      | inl b ↦ elim (Bool-cases (cmd.type == nbd_cmd_read)) [
        | inl d ↦ rw (a, b, d) refl
        | inr d ↦ elim (Bool-cases (cmd.type == nbd_cmd_disc)) [
          | inl e ↦ rw (a, b, d, e) refl
          | inr e ↦ elim (Bool-cases (cmd.type == nbd_cmd_write)) [
            | inl f ↦ rw (a, b, d, e, f) refl
            | inr f ↦ rw (a, b, d, e, f) refl
          ]
        ]
      ]
    ]
  ]

  by_some : (x s' : System) → some x ≡ some s' → IsRest c x.conn → IsRest c s'.conn
  by_some x s' e h = let q : x ≡ s' = cc in subst (λ y. IsRest c y.conn) q h

  after_receive-IsRest :
      (s : System) (r : Result (List ℕ)) (x : Conn)
      → IsRest c x
      → IsRest c (after_receive s (r, x)).conn
  after_receive-IsRest s (ok b) x h = h
  after_receive-IsRest s (err e) x h = h
  after_receive-IsRest s panic x h = h
  after_receive-IsRest s stuck x h = h

  after_begin-IsRest :
      (i : ℕ) (r : Reading) (bytes : List ℕ) (s : System) (y : Result (Unit {0})) (x : Conn)
      → IsRest c x
      → IsRest c (after_begin i r bytes s (y, x)).conn
  after_begin-IsRest i r bytes s (ok b) x h = h
  after_begin-IsRest i r bytes s (err e) x h = h
  after_begin-IsRest i r bytes s panic x h = h
  after_begin-IsRest i r bytes s stuck x h = h

  after_refusal-IsRest :
      (i : ℕ) (s : System) (y : Result (Unit {0})) (x : Conn)
      → IsRest c x
      → IsRest c (after_refusal i s (y, x)).conn
  after_refusal-IsRest i s (ok b) x h = h
  after_refusal-IsRest i s (err e) x h = h
  after_refusal-IsRest i s panic x h = h
  after_refusal-IsRest i s stuck x h = h

  module _ (s s' : System) (rest : IsRest c s.conn) where
    if_some :
        (b : Bool) (x : System)
        → (if b then some x else none) ≡ some s'
        → IsRest c x.conn
        → IsRest c s'.conn
    if_some true x e h = by_some x s' e h
    if_some false x e h = cc

    receiver_step-IsRest : (r : Receiver) → receiver_step r s ≡ some s' → IsRest c s'.conn
    unfolding receiver_step
    receiver_step-IsRest receives e =
        by_some _ s' e (after_receive-IsRest s _ _ (receive-IsRest request_size s.conn rest))
    receiver_step-IsRest (offers cmd) e = cc
    receiver_step-IsRest gone e = cc

    receiver_stop-IsRest : (r : Receiver) → receiver_stop r s ≡ some s' → IsRest c s'.conn
    receiver_stop-IsRest (offers cmd) e = if_some s.cancelled _ e rest
    receiver_stop-IsRest receives e = cc
    receiver_stop-IsRest gone e = cc

    hand_over-IsRest : (r : Receiver) → hand_over r s ≡ some s' → IsRest c s'.conn
    hand_over-IsRest (offers cmd) e =
        by_some _ s' e
          (subst (IsRest c) (sym (conn-take_command cmd (record s { receiver = receives }))) rest)
    hand_over-IsRest receives e = cc
    hand_over-IsRest gone e = cc

    main_step-IsRest : (m : Main) → main_step m s ≡ some s' → IsRest c s'.conn
    unfolding main_step
    main_step-IsRest waits e = hand_over-IsRest s.receiver e
    main_step-IsRest (discards n cookie) e = by_some _ s' e (discard-IsRest n s.conn rest)
    main_step-IsRest (checks_discard cookie) e = by_some _ s' e (if-IsRest s.failed _ _ rest rest)
    main_step-IsRest (answers cookie error) e =
        if_some (is_free s.holder) _ e (send-IsRest (reply_header error cookie) s.conn rest)
    main_step-IsRest checks_answer e = by_some _ s' e (if-IsRest s.failed _ _ rest rest)
    main_step-IsRest (returned r) e = cc

    main_stop-IsRest : (m : Main) → main_stop m s ≡ some s' → IsRest c s'.conn
    main_stop-IsRest waits e = if_some s.cancelled _ e rest
    main_stop-IsRest (discards n cookie) e = cc
    main_stop-IsRest (checks_discard cookie) e = cc
    main_stop-IsRest (answers cookie error) e = cc
    main_stop-IsRest checks_answer e = cc
    main_stop-IsRest (returned r) e = cc

    thread_step-IsRest :
        (i : ℕ) (a : Answer) (t : Thread) → thread_step i a t s ≡ some s' → IsRest c s'.conn
    unfolding thread_step
    thread_step-IsRest i a (rounds r) e = by_some _ s' e rest
    thread_step-IsRest i a (checks r) e = by_some _ s' e (if-IsRest s.failed _ _ rest rest)
    thread_step-IsRest i a (begins r bytes) e =
        if_some (is_free s.holder) _ e (
          after_begin-IsRest i r bytes s _ _
            (send-IsRest (reply_header 0 r.cmd.cookie) s.conn rest))
    thread_step-IsRest i a (sends r bytes) e = by_some _ s' e (send-IsRest bytes s.conn rest)
    thread_step-IsRest i a (refuses cookie) e =
        if_some (is_free s.holder) _ e
          (after_refusal-IsRest i s _ _ (send-IsRest (reply_header nbd_eio cookie) s.conn rest))
    thread_step-IsRest i a ended e = cc

  -- A step takes bytes of the client in their order.
  pub step-IsRest :
      (choice : Choice) (s s' : System)
      → IsRest c s.conn
      → step choice s ≡ some s'
      → IsRest c s'.conn
  unfolding step
  step-IsRest receiver_goes_on s s' h e = receiver_step-IsRest s s' h s.receiver e
  step-IsRest receiver_stops s s' h e = receiver_stop-IsRest s s' h s.receiver e
  step-IsRest main_goes_on s s' h e = main_step-IsRest s s' h s.main e
  step-IsRest main_stops s s' h e = main_stop-IsRest s s' h s.main e
  step-IsRest (thread_goes_on i a) s s' h e = thread_step-IsRest s s' h i a (s.threads i) e
