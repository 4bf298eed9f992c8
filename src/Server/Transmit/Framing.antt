-- ===== src/Server/Transmit/Framing.antt =====
-- The shape of the answer to NBD_CMD_READ.
use pond.Prelude.{
  ℕ, zero, suc, ◌+◌, ◌-◌, ◌*◌, ◌^◌, ◌≤◌, ◌<◌, ◌≡◌, refl, ap, ◌∙◌, Bool, true, false, List, [], ◌++◌,
  length, length-append, length-take, take, append_assoc, append-nil, arith, min,
}
use pond.Prelude.Words.{wrap64, slt}
use pond.Server.Const.{buffer_size}
use pond.Server.Conn.{Conn, Io, ok, send, ◌>>◌}
use pond.Server.Transmit.{Backend, bogus, bogus_data, count_errors, payload, buffer_len, read_loop}

-- What io.ReaderAt promises: no more bytes than the buffer holds, and an error with fewer.
pub record IsReaderAt (backend : Backend) : Type 0 where
  pub fits : (call size at : ℕ) → length (backend call size at).bytes ≤ size
  pub short :
      (call size at : ℕ)
      → length (backend call size at).bytes < size
      → (backend call size at).failed ≡ true

pub length-bogus : (fuel n : ℕ) → n ≤ fuel → length (bogus fuel n) ≡ n
unfolding bogus
length-bogus zero n h = omega arith
length-bogus (suc fuel) n h = ground (
  arith,
  length-append (take n bogus_data) (bogus fuel (n - 16)),
  length-take n bogus_data,
  length-bogus fuel (n - 16),
)

-- Inside a transaction a round sends something, or counts one more error of the few allowed.
round_progress :
    (backend : Backend) (call size at io_errors left : ℕ)
    → IsReaderAt backend
    → 0 < size
    → size ≤ left
    → (let a = backend call size at in
        let errors = count_errors a true io_errors in
        let sent = length (payload a true errors size) in
        (sent ≤ size) × (32 * (left - sent) + (31 - errors) < 32 * left + (31 - io_errors)))
unfolding count_errors payload
round_progress backend call size at io_errors left r pos fits =
    ground (arith, r.fits call size at, r.short call size at, length-bogus size size)

pub send-fits :
    (bytes : List ℕ) (c : Conn)
    → length bytes ≤ c.room
    → send bytes c
      ≡ (ok tt, record c { outgoing = c.outgoing ++ bytes; room = c.room - length bytes })
unfolding send
send-fits bytes c h = ground arith

-- The arithmetic of the loop, where nothing wraps.
module _ (cur left end : ℕ) (whole : cur + left ≡ end) (small : end < 2 ^ 63) where
  pub more : 0 < left → slt cur end ≡ true
  unfolding slt
  more pos = ground arith

  pub no_more : left ≡ 0 → slt cur end ≡ false
  unfolding slt
  no_more z = ground arith

  pub buffer_len-min : (size : ℕ) → size ≤ buffer_size → buffer_len cur end size ≡ min left size
  unfolding buffer_len slt
  buffer_len-min size h = ground arith

-- A run of `m` that ends well and sends `bytes`.
abbrev pub Replies : Io (Unit {0}) → Conn → List ℕ → Type 0
Replies m c bytes =
    m c ≡ (ok tt, record c { outgoing = c.outgoing ++ bytes; room = c.room - length bytes })

pub Replies-nothing : (m : Io (Unit {0})) (c : Conn) → m c ≡ (ok tt, c) → Replies m c []
Replies-nothing m c e =
    let room : c.room - 0 ≡ c.room = omega arith in e ∙ rw (append-nil c.outgoing, room) refl

pub Replies-send :
    (now later : List ℕ) (m : Io (Unit {0})) (c : Conn)
    → length now ≤ c.room
    → Replies m (record c { outgoing = c.outgoing ++ now; room = c.room - length now }) later
    → Replies (send now >> m) c (now ++ later)
Replies-send now later m c fits e =
    let room : c.room - length (now ++ later) ≡ c.room - length now - length later =
      omega (arith, length-append now later) in
    rw (send-fits now c fits, room, ← append_assoc c.outgoing now later) e

-- A run of `m` that ends well and sends `n` bytes.
abbrev pub Sends : Io (Unit {0}) → Conn → ℕ → Type 0
Sends m c n = (sent : List ℕ) × (length sent ≡ n) × Replies m c sent

pub Sends-eq :
    (m m' : Io (Unit {0})) (c : Conn) (n n' : ℕ) → m c ≡ m' c → n ≡ n' → Sends m' c n' → Sends m c n
Sends-eq m m' c n n' e k s = rw (e, k) s

pub Sends-send :
    (now : List ℕ) (m : Io (Unit {0})) (c : Conn) (n : ℕ)
    → length now ≤ c.room
    → Sends m (record c { outgoing = c.outgoing ++ now; room = c.room - length now }) n
    → Sends (send now >> m) c (length now + n)
Sends-send now m c n fits (later, size, e) = (
  now ++ later,
  length-append now later ∙ ap (λ (k : ℕ). length now + k) size,
  Replies-send now later m c fits e,
)

module _ (backend : Backend) (cookie : ℕ) where
  -- A round inside a transaction.
  pub transaction_round :
      (fuel call cur end size io_errors : ℕ) (c : Conn)
      → slt cur end ≡ true
      → (let size' = buffer_len cur end size in
          let a = backend call size' cur in
          let errors = count_errors a true io_errors in
          let now = payload a true errors size' in
          read_loop (suc fuel) backend call cookie cur end size true io_errors c
          ≡ (send now
                >> read_loop fuel backend
                    (call + 1)
                    cookie
                    (wrap64 (cur + length now))
                    end
                    size'
                    true
                    errors)
              c)
  unfolding read_loop
  transaction_round fuel call cur end size io_errors c e = rw e (ground arith)

  -- A loop that is at its end sends nothing.
  pub at_end_Sends :
      (fuel call cur end size io_errors : ℕ) (in_transaction : Bool) (c : Conn)
      → slt cur end ≡ false
      → read_loop (suc fuel) backend call cookie cur end size in_transaction io_errors c
        ≡ (ok tt, c)
  unfolding read_loop
  at_end_Sends fuel call cur end size io_errors in_transaction c e = rw e refl

  -- Every run inside a transaction sends exactly what is left.
  pub transaction_Sends :
      IsReaderAt backend
      → (fuel call cur end size io_errors left : ℕ) (c : Conn) → cur + left ≡ end
      → end < 2 ^ 63
      → 0 < size
      → size ≤ buffer_size
      → 32 * left + (31 - io_errors) < fuel
      → left ≤ c.room
      → Sends (read_loop fuel backend call cookie cur end size true io_errors) c left
  transaction_Sends r zero call cur end size io_errors left c whole small pos cap' enough room =
      absurd (omega arith)
  transaction_Sends r (suc fuel) call cur end size io_errors zero c whole small pos cap' enough
        room =
      (
        [],
        refl,
        Replies-nothing (read_loop (suc fuel) backend call cookie cur end size true io_errors) c (
            at_end_Sends fuel call cur end size io_errors true c
              (no_more cur 0 end whole small refl)),
      )
  transaction_Sends r (suc fuel) call cur end size io_errors (suc left) c whole small pos cap'
        enough room =
      let size' = buffer_len cur end size in
      let is_min : size' ≡ min (suc left) size =
        buffer_len-min cur (suc left) end whole small size cap' in
      let a = backend call size' cur in
      let errors = count_errors a true io_errors in
      let now = payload a true errors size' in
      let progress =
        round_progress backend call size' cur io_errors (suc left) r (omega arith) (omega arith) in
      let wrapped : wrap64 (cur + length now) ≡ cur + length now = ground (arith, progress) in
      let rest =
        read_loop fuel backend (call + 1) cookie (wrap64 (cur + length now)) end size' true
          errors in
      Sends-eq (read_loop (suc fuel) backend call cookie cur end size true io_errors)
        (send now >> rest) c (suc left) (length now + (suc left - length now))
        (transaction_round fuel call cur end size io_errors c
          (more cur (suc left) end whole small (omega arith)))
        (omega (arith, progress))
        (Sends-send now rest c (suc left - length now) (omega (arith, progress)) (
          transaction_Sends r fuel (call + 1) (wrap64 (cur + length now)) end size' errors
            (suc left - length now)
            (record c { outgoing = c.outgoing ++ now; room = c.room - length now })
            (omega (arith, progress, wrapped)) small (omega (arith, is_min)) (omega (arith, is_min))
            (omega (arith, progress)) (omega (arith, progress))))
