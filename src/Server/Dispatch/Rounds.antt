-- ===== src/Server/Dispatch/Rounds.antt =====
-- What the goroutines of nbd/server's transmission do to the shape of the client's bytes, one by one.
use pond.Prelude.{
  ℕ, ◌≤◌, ◌<◌, ◌≡◌, refl, sym, subst, ◌⊎◌, ap, ◌==◌, true, false, Option, none, some, List, ◌++◌,
  length, arith, Bool-cases, inl, inr, leb, ltb,
}
use pond.Server.Conn.{Conn, Result, ok, err, panic, stuck, receive, send, write_failed}
use pond.Server.Discard.{discard, discard_lem}
use pond.Server.Transmit.{Answer}
use pond.Server.Dispatch.{
  Request, Reading, Thread, rounds, checks, begins, sends, refuses, ended, round,
}
use pond.Server.Dispatch.System.{release, set_thread}
use pond.Server.Dispatch.Data.{World}
use pond.Server.Dispatch.Threads.{Quiet, Holds, HoldsOrEnds, IsAnswer, round-Quiet}
use pond.Server.Dispatch.Framing.{
  IsReplies, data_reply, IsBegun, Framed, IsNotHolder, Framed-set, Framed-hold, Framed-end,
}

pub receive-conn :
    (n : ℕ) (c : Conn) → ((receive n c).1.outgoing ≡ c.outgoing) × ((receive n c).1.room ≡ c.room)
unfolding receive
receive-conn n c = elim (Bool-cases (leb n (length c.incoming))) [
  | inl e ↦ rw e (refl, refl)
  | inr e ↦ rw e (refl, refl)
]

pub discard-conn :
    (n : ℕ) (c : Conn) → ((discard n c).1.outgoing ≡ c.outgoing) × ((discard n c).1.room ≡ c.room)
discard-conn n c = elim (Bool-cases (ltb (length c.incoming) n)) [
  | inl e ↦ rw (discard_lem n c, e) (refl, refl)
  | inr e ↦ rw (discard_lem n c, e) (refl, refl)
]

-- A write succeeds, or leaves a client that takes nothing any more.
send_cases :
    (bytes : List ℕ) (c : Conn)
    → ((send bytes c).0 ≡ ok tt)
        × ((send bytes c).1.outgoing ≡ c.outgoing ++ bytes)
        × ((send bytes c).1.room ≤ c.room)
      ⊎ (((send bytes c).0 ≡ err write_failed) × ((send bytes c).1.room ≡ 0))
unfolding send
send_cases bytes c = elim (Bool-cases (leb (length bytes) c.room)) [
  | inl e ↦ rw e (inl (refl, refl, omega arith))
  | inr e ↦ rw e (inr (refl, refl))
]

-- What a write does, by its result.
abbrev pub Sent : List ℕ → Conn → Result (Unit {0}) → Conn → Type 0
Sent bytes before (ok t) c = (c.outgoing ≡ before.outgoing ++ bytes) × (c.room ≤ before.room)
Sent bytes before (err e) c = c.room ≡ 0
Sent bytes before panic c = c.room ≡ 0
Sent bytes before stuck c = c.room ≡ 0

pub send-Sent : (bytes : List ℕ) (c : Conn) → Sent bytes c (send bytes c).0 (send bytes c).1
send-Sent bytes c = elim (send_cases bytes c) [ inl (e, o, l) ↦ rw e (o, l) | inr (e, z) ↦ rw e z ]

module _ (w : World) (threads : ℕ → Thread) (count : ℕ) (out : List ℕ) (i : ℕ) (r : Reading) where
  release_outside :
      (t : Thread) (holder : Option ℕ) → r.in_transaction ≡ false → release t r holder ≡ holder
  release_outside ended holder e = rw e refl
  release_outside (rounds r') holder e = refl
  release_outside (checks r') holder e = refl
  release_outside (begins r' bytes) holder e = refl
  release_outside (sends r' bytes) holder e = refl
  release_outside (refuses cookie) holder e = refl

  pub round_outside :
      (holder : Option ℕ) (a : Answer)
      → Framed w holder threads count out
      → i < count
      → IsNotHolder holder i
      → Quiet w (rounds r)
      → IsAnswer w a r
      → Framed w (release (round a r) r holder) (set_thread i (round a r) threads) count out
  round_outside holder a f l n q answer =
      subst (λ h. Framed w h (set_thread i (round a r) threads) count out)
        (sym (release_outside (round a r) holder q.0))
        (Framed-set w threads count i (round a r) holder out f l n (round-Quiet w a r q answer))

  pub round_inside :
      (t : Thread) (cmd : Request) (sofar : List ℕ)
      → Framed w (some i) threads count out
      → i < count
      → r.in_transaction ≡ true
      → IsBegun w cmd sofar out
      → HoldsOrEnds w cmd sofar t
      → Framed w (release t r (some i)) (set_thread i t threads) count out
  round_inside ended cmd sofar f l inside begun h = rw inside (
      Framed-end w threads count i ended out out f l
        (subst (IsReplies w) (sym begun.shape) (data_reply cmd sofar begun.asked h begun.whole)) tt)
  round_inside (rounds r') cmd sofar f l inside begun h =
      Framed-hold w threads count i (rounds r') out out cmd sofar f l begun h
  round_inside (sends r' bytes) cmd sofar f l inside begun h =
      Framed-hold w threads count i (sends r' bytes) out out cmd sofar f l begun h
  round_inside (checks r') cmd sofar f l inside begun h = elim h [ ]
  round_inside (begins r' bytes) cmd sofar f l inside begun h = elim h [ ]
  round_inside (refuses cookie) cmd sofar f l inside begun h = elim h [ ]

-- Where a thread is: outside of a transaction, or the holder of the lock.
pub data Role (w : World) (holder : Option ℕ) (threads : ℕ → Thread) (out : List ℕ) (i : ℕ)
    : Type 0 where
  outsider : IsNotHolder holder i → Quiet w (threads i) → Role w holder threads out i
  insider :
      (cmd : Request) (sofar : List ℕ)
      → holder ≡ some i
      → IsBegun w cmd sofar out
      → Holds w cmd sofar (threads i)
      → Role w holder threads out i

pub role :
    (w : World) (holder : Option ℕ) (threads : ℕ → Thread) (count : ℕ) (out : List ℕ) (i : ℕ)
    → Framed w holder threads count out
    → Role w holder threads out i
role w none threads count out i f = outsider tt (f.others i)
role w (some k) threads count out i f = elim (Bool-cases (k == i)) [
  | inl e ↦
      let same : k ≡ i = ground arith in
      let (cmd, sofar, begun, h) = f.output in
      insider cmd sofar (ap some same) begun (subst (λ j. Holds w cmd sofar (threads j)) same h)
  | inr e ↦ outsider e (f.others i e)
]
