-- ===== src/Server/Dispatch/Framing.antt =====
-- The shape of what a client of nbd/server gets from all goroutines of the transmission together.
use pond.Prelude.{
  ℕ, ◌+◌, ◌≤◌, ◌<◌, ◌≡◌, refl, sym, subst, ◌∙◌, ◌==◌, true, false, Option, none, some, List, [],
  ◌++◌, arith, Bool-cases, inl, inr, leb, length,
}
use pond.Server.Transmit.{reply_header}
use pond.Server.Dispatch.{Request, Thread, rounds, ended, start}
use pond.Server.Dispatch.System.{set_thread}
use pond.Server.Dispatch.Data.{World, IsDataAt}
use pond.Server.Dispatch.Threads.{Quiet, Holds, IsAnswered, IsCookie, IsBounded, start-Quiet}

-- Whole replies, one behind the other: headers with an error, for a command that the client has
-- sent, and headers without, for a command that it has sent, with data of the length that was asked
-- for, from the place on the disk that was asked for.
pub data IsReplies (w : World) : List ℕ → Type 0 where
  no_reply : IsReplies w []
  error_reply :
      (cookie error : ℕ) {out : List ℕ}
      → (error == 0) ≡ false
      → IsCookie w cookie
      → IsReplies w out
      → IsReplies w (out ++ reply_header error cookie)
  data_reply :
      (cmd : Request) (bytes : List ℕ) {out : List ℕ}
      → w.Asked cmd
      → IsAnswered w cmd bytes
      → IsReplies w out
      → IsReplies w (out ++ (reply_header 0 cmd.cookie ++ bytes))

-- Whole replies, and behind them a reply that has been begun, with data from the right place.
pub record IsBegun (w : World) (cmd : Request) (sofar out : List ℕ) : Type 0 where
  pub before : List ℕ
  pub whole : IsReplies w before
  pub asked : w.Asked cmd
  pub data_so_far : IsBounded cmd → (length sofar ≤ cmd.len) × IsDataAt w cmd.offset sofar
  pub shape : out ≡ before ++ (reply_header 0 cmd.cookie ++ sofar)

abbrev pub IsOther : World → Option ℕ → ℕ → Thread → Type 0
IsOther w none j t = Quiet w t
IsOther w (some i) j t = (i == j) ≡ false → Quiet w t

abbrev pub Output : World → Option ℕ → (ℕ → Thread) → List ℕ → Type 0
Output w none threads out = IsReplies w out
Output w (some i) threads out =
    (cmd : Request) × (sofar : List ℕ) × IsBegun w cmd sofar out × Holds w cmd sofar (threads i)

-- Only the holder of the lock is inside of a transaction.
pub record Framed (w : World) (holder : Option ℕ) (threads : ℕ → Thread) (count : ℕ) (out : List ℕ)
    : Type 0 where
  pub others : (j : ℕ) → IsOther w holder j (threads j)
  pub late : (j : ℕ) → count ≤ j → threads j ≡ ended
  pub output : Output w holder threads out

abbrev pub IsNotHolder : Option ℕ → ℕ → Type 0
IsNotHolder none i = Unit
IsNotHolder (some k) i = (k == i) ≡ false

set_here : (i : ℕ) (t : Thread) (f : ℕ → Thread) (j : ℕ) → (i == j) ≡ true → set_thread i t f j ≡ t
set_here i t f j e = rw e refl

set_there :
    (i : ℕ) (t : Thread) (f : ℕ → Thread) (j : ℕ) → (i == j) ≡ false → set_thread i t f j ≡ f j
set_there i t f j e = rw e refl

module _ (w : World) (threads : ℕ → Thread) (count : ℕ) (i : ℕ) (t : Thread) where
  set_late :
      ((j : ℕ) → count ≤ j → threads j ≡ ended)
      → i < count
      → (j : ℕ) → count ≤ j
      → set_thread i t threads j ≡ ended
  set_late late live j l =
      let e : (i == j) ≡ false = ground arith in set_there i t threads j e ∙ late j l

  set-IsOther :
      (holder : Option ℕ)
      → ((j : ℕ) → IsOther w holder j (threads j))
      → Quiet w t
      → (j : ℕ) → IsOther w holder j (set_thread i t threads j)
  set-IsOther none others q j = elim (Bool-cases (i == j)) [
    | inl e ↦ subst (Quiet w) (sym (set_here i t threads j e)) q
    | inr e ↦ subst (Quiet w) (sym (set_there i t threads j e)) (others j)
  ]
  set-IsOther (some k) others q j = λ n. elim (Bool-cases (i == j)) [
    | inl e ↦ subst (Quiet w) (sym (set_here i t threads j e)) q
    | inr e ↦ subst (Quiet w) (sym (set_there i t threads j e)) (others j n)
  ]

  set_Output :
      (holder : Option ℕ) (out : List ℕ)
      → IsNotHolder holder i
      → Output w holder threads out
      → Output w holder (set_thread i t threads) out
  set_Output none out n o = o
  set_Output (some k) out n (cmd, sofar, begun, h) =
      let e : (i == k) ≡ false = ground (arith, n) in
      (cmd, sofar, begun, subst (Holds w cmd sofar) (sym (set_there i t threads k e)) h)

  -- A thread outside of a transaction goes on outside.
  pub Framed-set :
      (holder : Option ℕ) (out : List ℕ)
      → Framed w holder threads count out
      → i < count
      → IsNotHolder holder i
      → Quiet w t
      → Framed w holder (set_thread i t threads) count out
  Framed-set holder out f live n q = record {
    others = set-IsOther holder f.others q;
    late = set_late f.late live;
    output = set_Output holder out n f.output;
  }

  -- The holder of the lock goes on inside of its transaction.
  pub Framed-hold :
      (out out' : List ℕ) (cmd : Request) (sofar : List ℕ)
      → Framed w (some i) threads count out
      → i < count
      → IsBegun w cmd sofar out'
      → Holds w cmd sofar t
      → Framed w (some i) (set_thread i t threads) count out'
  Framed-hold out out' cmd sofar f live begun h = record {
    others = λ j n. subst (Quiet w) (sym (set_there i t threads j n)) (f.others j n);
    late = set_late f.late live;
    output = (
      cmd,
      sofar,
      begun,
      subst (Holds w cmd sofar) (sym (set_here i t threads i (ground arith))) h,
    );
  }

  -- The lock is taken.
  pub Framed-begin :
      (out out' : List ℕ) (cmd : Request) (sofar : List ℕ)
      → Framed w none threads count out
      → i < count
      → IsBegun w cmd sofar out'
      → Holds w cmd sofar t
      → Framed w (some i) (set_thread i t threads) count out'
  Framed-begin out out' cmd sofar f live begun h = record {
    others = λ j n. subst (Quiet w) (sym (set_there i t threads j n)) (f.others j);
    late = set_late f.late live;
    output = (
      cmd,
      sofar,
      begun,
      subst (Holds w cmd sofar) (sym (set_here i t threads i (ground arith))) h,
    );
  }

  -- The lock is given up.
  pub Framed-end :
      (out out' : List ℕ)
      → Framed w (some i) threads count out
      → i < count
      → IsReplies w out'
      → Quiet w t
      → Framed w none (set_thread i t threads) count out'
  Framed-end out out' f live whole q = record {
    others = λ j. elim (Bool-cases (i == j)) [
      | inl e ↦ subst (Quiet w) (sym (set_here i t threads j e)) q
      | inr e ↦ subst (Quiet w) (sym (set_there i t threads j e)) (f.others j e)
    ];
    late = set_late f.late live;
    output = whole;
  }

-- A thread that is not at its end is one of the first `count`.
pub live :
    (w : World) (holder : Option ℕ) (threads : ℕ → Thread) (count : ℕ) (out : List ℕ) (i : ℕ)
    → Framed w holder threads count out
    → ¬ (threads i ≡ ended)
    → i < count
live w holder threads count out i f n = elim (Bool-cases (leb count i)) [
  | inl e ↦ elim (n (f.late i (ground arith))) [ ]
  | inr e ↦ ground arith
]

holder_live :
    (w : World) (holder : Option ℕ) (threads : ℕ → Thread) (count : ℕ) (out : List ℕ)
    → Framed w holder threads count out
    → IsNotHolder holder count
holder_live w none threads count out f = tt
holder_live w (some k) threads count out f =
    let (cmd, sofar, begun, h) = f.output in
    let l = live w (some k) threads count out k f (λ e. subst (Holds w cmd sofar) e h) in
    ground arith

-- A new thread.
pub Framed-new :
    (w : World) (cmd : Request) (holder : Option ℕ) (threads : ℕ → Thread) (count : ℕ)
    (out : List ℕ)
    → w.Asked cmd
    → Framed w holder threads count out
    → Framed w holder (set_thread count (rounds (start cmd)) threads) (count + 1) out
Framed-new w cmd holder threads count out asked f = record {
  others =
      set-IsOther w threads count count (rounds (start cmd)) holder f.others
        (start-Quiet w cmd asked);
  late = λ j l.
      let e : (count == j) ≡ false = ground arith in
      set_there count (rounds (start cmd)) threads j e ∙ f.late j (omega arith);
  output =
      set_Output w threads count count (rounds (start cmd)) holder out
        (holder_live w holder threads count out f) f.output;
}
