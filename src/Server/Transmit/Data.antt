-- ===== src/Server/Transmit/Data.antt =====
-- NBD_CMD_READ from a backend that has a byte for every call.
use pond.Prelude.{
  ℕ, zero, suc, ◌+◌, ◌-◌, ◌*◌, ◌^◌, ◌≤◌, ◌<◌, ◌≡◌, refl, ap, ◌∙◌, Bool, true, List, [], ◌∷◌, ◌++◌,
  length, take, take_all, drop, drop-add, min, arith,
}
use pond.Prelude.Words.{wrap64}
use pond.Server.Const.{buffer_size}
use pond.Server.Conn.{Conn, Io, send, ◌>>◌}
use pond.Server.Transmit.{
  Answer, Backend, reply_header, count_errors, payload, buffer_len, read_loop, read_command,
}
use pond.Server.Transmit.Framing.{
  IsReaderAt, transaction_round, more, no_more, buffer_len-min, Replies, Replies-nothing,
  Replies-send, at_end_Sends,
}
use pond.Server.Transmit.Reply.{opening_round, length-reply_header}

-- Each answer has one byte of the disk at least, the next ones; it may be short, or have an error with it.
pub record Serves (disk : List ℕ) (backend : Backend) : Type 0 where
  pub reader : IsReaderAt backend
  pub moves :
      (call size at : ℕ)
      → 0 < size
      → at + size ≤ length disk
      → 0 < length (backend call size at).bytes
  pub holds :
      (call size at : ℕ)
      → 0 < size
      → at + size ≤ length disk
      → (let bytes = (backend call size at).bytes in bytes ≡ take (length bytes) (drop at disk))

module _ {A : Type 0} where
  pub take-split :
      (k n : ℕ) (xs : List A) → k ≤ n → take k xs ++ take (n - k) (drop k xs) ≡ take n xs
  take-split zero n xs h = let e : n - 0 ≡ n = omega arith in rw e
  take-split (suc k) zero xs h = absurd (omega arith)
  take-split (suc k) (suc n) [] h = take_all {A = A} (suc n - suc k) [] (omega arith)
  take-split (suc k) (suc n) (x ∷ xs) h =
      let e : suc n - suc k ≡ n - k = omega arith in
      rw e (ap (λ t. x ∷ t) (take-split k n xs (omega arith)))

payload_present :
    (a : Answer) (t : Bool) (errors size : ℕ)
    → 0 < length a.bytes
    → payload a t errors size ≡ a.bytes
unfolding payload
payload_present a t errors size some = ground arith

count_present : (a : Answer) (t : Bool) → 0 < length a.bytes → count_errors a t 0 ≡ 0
unfolding count_errors
count_present a t some = ground arith

-- The next bytes of the disk, and behind them a run that sends the ones after.
Replies-next :
    (disk now : List ℕ) (at left : ℕ) (m rest : Io (Unit {0})) (c : Conn)
    → m c ≡ (send now >> rest) c
    → now ≡ take (length now) (drop at disk)
    → length now ≤ left
    → left ≤ c.room
    → Replies rest
        (record c { outgoing = c.outgoing ++ now; room = c.room - length now })
        (take (left - length now) (drop (at + length now) disk))
    → Replies m c (take left (drop at disk))
Replies-next disk now at left m rest c e next fits room later =
    let all : now ++ take (left - length now) (drop (at + length now) disk)
        ≡ take left (drop at disk) =
      rw (drop-add at (length now) disk) (
        ap (λ bytes. bytes ++ take (left - length now) (drop (length now) (drop at disk))) next
        ∙ take-split (length now) left (drop at disk) fits) in
    let sent =
      Replies-send now (take (left - length now) (drop (at + length now) disk)) rest c (omega arith)
        later in
    e ∙ rw all at sent

module _ (backend : Backend) (cookie : ℕ) (disk : List ℕ) (serves : Serves disk backend) where
  transaction_data :
      (fuel call cur end size left : ℕ) (c : Conn)
      → cur + left ≡ end
      → end ≤ length disk
      → length disk < 2 ^ 63
      → 0 < size
      → size ≤ buffer_size
      → left < fuel
      → left ≤ c.room
      → Replies
          (read_loop fuel backend call cookie cur end size true 0)
          c
          (take left (drop cur disk))
  transaction_data zero call cur end size left c whole stored small pos cap' enough room =
      absurd (omega arith)
  transaction_data (suc fuel) call cur end size zero c whole stored small pos cap' enough room =
      Replies-nothing (read_loop (suc fuel) backend call cookie cur end size true 0) c (
        at_end_Sends backend cookie fuel call cur end size 0 true c
          (no_more cur 0 end whole (omega arith) refl))
  transaction_data (suc fuel) call cur end size (suc left) c whole stored small pos cap' enough
        room =
      let size' = buffer_len cur end size in
      let is_min : size' ≡ min (suc left) size =
        buffer_len-min cur (suc left) end whole (omega arith) size cap' in
      let a = backend call size' cur in
      let fits : length a.bytes ≤ size' = serves.reader.fits call size' cur in
      let moved : 0 < length a.bytes = serves.moves call size' cur (omega arith) (omega arith) in
      let wrapped : wrap64 (cur + length a.bytes) ≡ cur + length a.bytes = omega arith in
      let round =
        transaction_round backend cookie fuel call cur end size 0 c
          (more cur (suc left) end whole (omega arith) (omega arith)) in
      let rest = read_loop fuel backend (call + 1) cookie (cur + length a.bytes) end size' true 0 in
      Replies-next disk a.bytes cur (suc left)
        (read_loop (suc fuel) backend call cookie cur end size true 0) rest c
        (rw (count_present a true moved, payload_present a true 0 size' moved, wrapped) at round)
        (serves.holds call size' cur (omega arith) (omega arith)) (omega arith) room
        (transaction_data fuel (call + 1) (cur + length a.bytes) end size'
          (suc left - length a.bytes)
          (record c { outgoing = c.outgoing ++ a.bytes; room = c.room - length a.bytes })
          (omega arith) stored small (omega arith) (omega arith) (omega arith) (omega arith))

  -- From a backend that answers each call with at least the next byte of a disk, be it short or
  -- with an error, NBD_CMD_READ of one byte or more inside the disk ends, and the client gets a
  -- header without error and exactly the bytes of the disk that it asked for, if it takes them
  -- all and the disk is below 2 ^ 63 bytes.
  pub read_command_data :
      (offset len : ℕ) (c : Conn)
      → 0 < len
      → offset + len ≤ length disk
      → length disk < 2 ^ 63
      → 16 + len ≤ c.room
      → Replies
          (read_command backend cookie offset len)
          c
          (reply_header 0 cookie ++ take len (drop offset disk))
  unfolding read_command
  read_command_data offset len c some stored small room =
      let size' = min len buffer_size in
      let a = backend 0 size' offset in
      let now = a.bytes in
      let fits : length now ≤ size' = serves.reader.fits 0 size' offset in
      let moved : 0 < length now = serves.moves 0 size' offset (omega arith) (omega arith) in
      let whole : wrap64 (offset + len) ≡ offset + len = omega arith in
      let fuel : 32 * len + 32 ≡ suc (32 * len + 31) = omega arith in
      let size : buffer_len offset (offset + len) buffer_size ≡ size' =
        buffer_len-min offset len (offset + len) refl (omega arith) buffer_size (omega arith) in
      let wrapped : wrap64 (offset + length now) ≡ offset + length now = omega arith in
      let opening =
        opening_round backend cookie (32 * len + 31) 0 offset (offset + len) buffer_size c
          (more offset len (offset + len) refl (omega arith) some) in
      let opening' = rw size at opening in
      let opening'' = rw wrapped at opening' moved in
      let head = reply_header 0 cookie in
      let sixteen = length-reply_header 0 cookie in
      let c' = record c { outgoing = c.outgoing ++ head; room = c.room - length head } in
      let rest =
        read_loop (32 * len + 31) backend 1 cookie (offset + length now) (offset + len) size' true
          0 in
      rw (whole, fuel)
        (opening''
          ∙ Replies-send head (take len (drop offset disk)) (send now >> rest) c
              (omega (arith, sixteen))
              (Replies-next disk now offset len (send now >> rest) rest c' refl
                (serves.holds 0 size' offset (omega arith) (omega arith)) (omega arith)
                (omega (arith, sixteen))
                (transaction_data (32 * len + 31) 1 (offset + length now) (offset + len) size'
                  (len - length now)
                  (record c' { outgoing = c'.outgoing ++ now; room = c'.room - length now })
                  (omega arith) stored small (omega arith) (omega arith) (omega arith)
                  (omega (arith, sixteen)))))
