-- ===== src/Server/Dispatch/Threads.antt =====
-- What the goroutine of NBD_CMD_READ still owes its client, round by round.
use pond.Prelude.{
  ℕ, ◌+◌, ◌-◌, ◌^◌, ◌≤◌, ◌<◌, ◌≡◌, refl, sym, subst, ◌⊎◌, ◌==◌, ◌&&◌, true, false, List, [], ◌∷◌,
  length, min, arith, ◌++◌, ltb, length-append, Bool-cases, inl, inr,
}
use pond.Prelude.Words.{slt}
use pond.Server.Const.{buffer_size}
use pond.Server.Transmit.{Answer, payload, buffer_len, count_errors, io_errors_threshold}
use pond.Server.Transmit.Framing.{length-bogus, buffer_len-min}
use pond.Server.Dispatch.Data.{
  World, IsDiskAt, IsDataAt, bogus-IsBogus, disk-IsDataAt, bogus-IsDataAt, IsDataAt-append,
}
use pond.Server.Dispatch.{
  Request, Reading, Thread, rounds, checks, begins, sends, refuses, ended, round_size, round_bytes,
  advance, round, start,
}

-- The range of a request is below 2 ^ 63.
abbrev pub IsBounded : Request → Type 0
IsBounded cmd = cmd.offset + cmd.len < 2 ^ 63

-- The bytes `bs` of the range are behind `cur`.
abbrev pub At : World → Reading → List ℕ → Type 0
At w r bs =
    IsBounded r.cmd
    → (r.cur ≡ r.cmd.offset + length bs)
      × (length bs ≤ r.cmd.len)
      × (r.end ≡ r.cmd.offset + r.cmd.len)
      × (r.size ≤ buffer_size)
      × IsDataAt w r.cmd.offset bs

-- The contract of io.ReaderAt, for one call.
abbrev pub IsAnswer : World → Answer → Reading → Type 0
IsAnswer w a r = (length a.bytes ≤ round_size r) × IsDiskAt w r.cur a.bytes

-- The cookie of a command of the client's.
abbrev pub IsCookie : World → ℕ → Type 0
IsCookie w cookie = (cmd : Request) × w.Asked cmd × (cmd.cookie ≡ cookie)

-- Outside of a transaction nothing has been sent.
abbrev pub Quiet : World → Thread → Type 0
Quiet w (rounds r) = (r.in_transaction ≡ false) × w.Asked r.cmd × At w r []
Quiet w (checks r) = (r.in_transaction ≡ false) × w.Asked r.cmd × At w r []
Quiet w (begins r bytes) = (r.in_transaction ≡ false) × w.Asked r.cmd × At w r bytes
Quiet w (sends r bytes) = (r.in_transaction ≡ false) × (bytes ≡ []) × w.Asked r.cmd × At w r []
Quiet w (refuses cookie) = IsCookie w cookie
Quiet w ended = Unit

-- Inside, the bytes `sofar` have been sent behind the header of the reply to `cmd`.
abbrev pub Holds : World → Request → List ℕ → Thread → Type 0
Holds w cmd sofar (rounds r) = (r.in_transaction ≡ true) × (r.cmd ≡ cmd) × At w r sofar
Holds w cmd sofar (checks r) = (r.in_transaction ≡ true) × (r.cmd ≡ cmd) × At w r sofar
Holds w cmd sofar (sends r bytes) =
    (r.in_transaction ≡ true) × (r.cmd ≡ cmd) × At w r (sofar ++ bytes)
Holds w cmd sofar (begins r bytes) = ⊥
Holds w cmd sofar (refuses cookie) = ⊥
Holds w cmd sofar ended = ⊥

-- A reply with all its bytes.
abbrev pub IsAnswered : World → Request → List ℕ → Type 0
IsAnswered w cmd sofar = IsBounded cmd → (length sofar ≡ cmd.len) × IsDataAt w cmd.offset sofar

abbrev pub HoldsOrEnds : World → Request → List ℕ → Thread → Type 0
HoldsOrEnds w cmd sofar ended = IsAnswered w cmd sofar
HoldsOrEnds w cmd sofar (rounds r) = Holds w cmd sofar (rounds r)
HoldsOrEnds w cmd sofar (sends r bytes) = Holds w cmd sofar (sends r bytes)
HoldsOrEnds w cmd sofar (checks r) = ⊥
HoldsOrEnds w cmd sofar (begins r bytes) = ⊥
HoldsOrEnds w cmd sofar (refuses cookie) = ⊥

pub start-Quiet : (w : World) (cmd : Request) → w.Asked cmd → Quiet w (rounds (start cmd))
start-Quiet w cmd asked =
    (refl, asked, λ b. (omega arith, omega arith, omega arith, omega arith, tt))

round_bytes_fit :
    (a : Answer) (r : Reading)
    → length a.bytes ≤ round_size r
    → length (round_bytes a r) ≤ round_size r
unfolding payload
round_bytes_fit a r h = ground (arith, h, length-bogus (round_size r) (round_size r))

module _ (w : World) where
  round_bytes-IsDataAt :
      (a : Answer) (r : Reading) → IsDiskAt w r.cur a.bytes → IsDataAt w r.cur (round_bytes a r)
  unfolding payload
  round_bytes-IsDataAt a r h =
      let errors = count_errors a r.in_transaction r.io_errors in
      elim (Bool-cases
        (a.failed && r.in_transaction && length a.bytes == 0 && ltb io_errors_threshold errors)) [
          | inl e ↦ rw e (bogus-IsDataAt w r.cur _ (bogus-IsBogus (round_size r) (round_size r)))
          | inr e ↦ rw e (disk-IsDataAt w r.cur a.bytes h)
        ]

  -- A round goes on by the bytes that it sends.
  advance-At :
      (a : Answer) (r : Reading) (bs : List ℕ)
      → At w r bs
      → IsAnswer w a r
      → slt r.cur r.end ≡ true
      → At w (advance a r) (bs ++ round_bytes a r)
  unfolding buffer_len slt
  advance-At a r bs h (fits_size, honest) going = λ b.
      let (c, l, e, size, sent) = h b in
      let left : ℕ = r.cmd.len - length bs in
      let whole : r.cur + left ≡ r.end = omega arith in
      let m : round_size r ≡ min left r.size =
        buffer_len-min r.cur left r.end whole (omega arith) r.size size in
      let fits = round_bytes_fit a r fits_size in
      let both = length-append bs (round_bytes a r) in
      let more = subst (λ n. IsDataAt w n (round_bytes a r)) c (round_bytes-IsDataAt a r honest) in
      (
        omega arith,
        omega arith,
        e,
        omega arith,
        IsDataAt-append w r.cmd.offset bs (round_bytes a r) sent more,
      )

  -- At the end of the range everything is sent.
  finished :
      (r : Reading) (bs : List ℕ) → At w r bs → slt r.cur r.end ≡ false → IsAnswered w r.cmd bs
  unfolding slt
  finished r bs h going b = let (c, l, e, size, sent) = h b in (ground arith, sent)

round_at_end : (a : Answer) (r : Reading) → slt r.cur r.end ≡ false → round a r ≡ ended
unfolding round
round_at_end a r f = rw f refl

-- The cases of a round outside of a transaction.
round_outside :
    (a : Answer) (r : Reading)
    → slt r.cur r.end ≡ true
    → r.in_transaction ≡ false
    → (round a r ≡ refuses r.cmd.cookie)
      ⊎ ((round a r ≡ begins (advance a r) (round_bytes a r))
          ⊎ ((round a r ≡ sends (advance a r) (round_bytes a r)) × (length (round_bytes a r) ≡ 0)))
unfolding round
round_outside a r t outside = elim (Bool-cases (a.failed && (length a.bytes == 0))) [
  | inl x ↦ inl (rw (t, outside) (ground (arith, x)))
  | inr x ↦ elim (Bool-cases (length (round_bytes a r) == 0)) [
    | inl z ↦ inr (inr (rw t (ground (arith, x, z, outside)), ground (arith, z)))
    | inr n ↦ inr (inl (rw t (ground (arith, x, n, outside))))
  ]
]

round_inside :
    (a : Answer) (r : Reading)
    → slt r.cur r.end ≡ true
    → r.in_transaction ≡ true
    → round a r ≡ sends (advance a r) (round_bytes a r)
unfolding round
round_inside a r t inside = rw t (ground (arith, inside))

length_zero : (xs : List ℕ) → length xs ≡ 0 → xs ≡ []
length_zero [] h = refl
length_zero (x ∷ xs) h = absurd (omega arith)

module _ (w : World) where
  -- Outside of a transaction a round sends no data but behind a header.
  pub round-Quiet :
      (a : Answer) (r : Reading) → Quiet w (rounds r) → IsAnswer w a r → Quiet w (round a r)
  round-Quiet a r (outside, asked, at) answer = elim (Bool-cases (slt r.cur r.end)) [
    | inr f ↦ subst (Quiet w) (sym (round_at_end a r f)) tt
    | inl t ↦
        let next = advance-At w a r [] at answer t in
        elim (round_outside a r t outside) [
          | inl e ↦ subst (Quiet w) (sym e) (r.cmd, asked, refl)
          | inr (inl e) ↦ subst (Quiet w) (sym e) (outside, asked, next)
          | inr (inr (e, z)) ↦
              let empty = length_zero (round_bytes a r) z in
              subst (Quiet w) (sym e) (outside, empty, asked, subst (At w (advance a r)) empty next)
        ]
  ]

  -- Inside of a transaction a round goes on with it, or all is sent.
  pub round-HoldsOrEnds :
      (a : Answer) (r : Reading) (cmd : Request) (sofar : List ℕ)
      → Holds w cmd sofar (rounds r)
      → IsAnswer w a r
      → HoldsOrEnds w cmd sofar (round a r)
  round-HoldsOrEnds a r cmd sofar (inside, same, at) answer = elim (Bool-cases (slt r.cur r.end)) [
    | inr f ↦
        subst (HoldsOrEnds w cmd sofar) (sym (round_at_end a r f))
          (subst (λ t. IsAnswered w t sofar) same (finished w r sofar at f))
    | inl t ↦
        subst (HoldsOrEnds w cmd sofar) (sym (round_inside a r t inside))
          (inside, same, advance-At w a r sofar at answer t)
  ]
