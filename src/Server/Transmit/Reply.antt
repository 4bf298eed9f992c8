-- ===== src/Server/Transmit/Reply.antt =====
-- NBD_CMD_READ as a whole: one reply, an error or all that was asked for.
use pond.Prelude.{
  ℕ, suc, ◌+◌, ◌-◌, ◌*◌, ◌^◌, ◌≤◌, ◌<◌, ◌≡◌, refl, ◌∙◌, ◌==◌, true, false, List, ◌++◌, length, min,
  arith,
}
use pond.Prelude.Words.{wrap64, slt}
use pond.Prelude.Bytes.{be32, be64}
use pond.Server.Const.{nbd_eio, buffer_size}
use pond.Server.Conn.{Conn, Io, send, ◌>>◌}
use pond.Server.Transmit.{
  Answer, Backend, reply_header, send_error, count_errors, payload, buffer_len, read_loop,
  read_command,
}
use pond.Server.Transmit.Framing.{
  IsReaderAt, more, buffer_len-min, Sends, Sends-send, Replies, Replies-send, send-fits, send-fits,
  transaction_Sends,
}

count_outside : (a : Answer) → count_errors a false 0 ≡ 0
unfolding count_errors
count_outside a = ground arith

payload_outside : (a : Answer) (errors size : ℕ) → payload a false errors size ≡ a.bytes
unfolding payload
payload_outside a errors size = ground arith

module _ (backend : Backend) (cookie : ℕ) where
  -- The first round where the backend has no byte.
  refused_round :
      (fuel call cur end size : ℕ) (c : Conn)
      → slt cur end ≡ true
      → (let a = backend call (buffer_len cur end size) cur in
          a.failed ≡ true
          → length a.bytes ≡ 0
          → read_loop (suc fuel) backend call cookie cur end size false 0 c
            ≡ send_error cookie nbd_eio c)
  unfolding read_loop
  refused_round fuel call cur end size c e failed none = rw (e, failed, none) refl

  -- The first round where it has some.
  pub opening_round :
      (fuel call cur end size : ℕ) (c : Conn)
      → slt cur end ≡ true
      → (let size' = buffer_len cur end size in
          let a = backend call size' cur in
          0 < length a.bytes
          → read_loop (suc fuel) backend call cookie cur end size false 0 c
            ≡ (send (reply_header 0 cookie)
                  >> (send a.bytes
                      >> read_loop fuel backend
                          (call + 1)
                          cookie
                          (wrap64 (cur + length a.bytes))
                          end
                          size'
                          true
                          0))
                c)
  unfolding read_loop
  opening_round fuel call cur end size c e some =
      let size' = buffer_len cur end size in
      let a = backend call size' cur in
      let present : (length a.bytes == 0) ≡ false = ground arith in
      rw (e, count_outside a, payload_outside a 0 size', present) (ground arith)

pub length-reply_header : (error cookie : ℕ) → length (reply_header error cookie) ≡ 16
unfolding be32 be64
length-reply_header error cookie = refl

-- A first part, and behind it all of a run of known length.
opened :
    (m rest : Io (Unit {0})) (head now : List ℕ) (c : Conn) (n k : ℕ)
    → length now + n ≡ k
    → m c ≡ (send head >> (send now >> rest)) c
    → length head + length now ≤ c.room
    → (let c' = record c { outgoing = c.outgoing ++ head; room = c.room - length head } in
        Sends rest (record c' { outgoing = c'.outgoing ++ now; room = c'.room - length now }) n)
    → (data' : List ℕ) × (length data' ≡ k) × Replies m c (head ++ data')
opened m rest head now c n k total e fits later =
    let c' = record c { outgoing = c.outgoing ++ head; room = c.room - length head } in
    let (data', size, sent) = Sends-send now rest c' n (omega arith) later in
    (data', size ∙ total, e ∙ Replies-send head data' (send now >> rest) c (omega arith) sent)

module _ (backend : Backend) (cookie offset len : ℕ) (c : Conn) (reader : IsReaderAt backend)
    (some : 0 < len) (bounded : offset + len < 2 ^ 63) (room : 16 + len ≤ c.room) where
  abbrev first : Answer
  first = backend 0 (min len buffer_size) offset

  start :
      (slt offset (offset + len) ≡ true)
      × (buffer_len offset (offset + len) buffer_size ≡ min len buffer_size)
      × (wrap64 (offset + len) ≡ offset + len)
      × (32 * len + 32 ≡ suc (32 * len + 31))
  start = (
    more offset len (offset + len) refl bounded some,
    buffer_len-min offset len (offset + len) refl bounded buffer_size (omega arith),
    omega arith,
    omega arith,
  )

  -- Whatever the backend does within the contract of io.ReaderAt, where its first answer has no
  -- byte NBD_CMD_READ ends with NBD_EIO and nothing else for the client, if the range is not
  -- empty and ends below 2 ^ 63 and the client takes the reply.
  pub read_command_refused :
      length first.bytes ≡ 0
      → Replies (read_command backend cookie offset len) c (reply_header nbd_eio cookie)
  unfolding read_command
  read_command_refused none =
      let (going, size, whole, fuel) = start in
      let failed : first.failed ≡ true =
        reader.short 0 (min len buffer_size) offset (omega arith) in
      rw (whole, fuel)
        (refused_round backend cookie (32 * len + 31) 0 offset (offset + len) buffer_size c going
            (rw size failed) (rw size none)
          ∙ send-fits (reply_header nbd_eio cookie) c
              (omega (arith, length-reply_header nbd_eio cookie)))

  -- Whatever the backend does within the contract of io.ReaderAt, also if it fails forever from
  -- some call on, where its first answer has a byte NBD_CMD_READ ends, and the client gets a
  -- header without error and behind it exactly as many bytes as it asked for, if the range is
  -- not empty and ends below 2 ^ 63 and the client takes the reply.
  pub read_command_answered :
      0 < length first.bytes
      → (data' : List ℕ) × (length data' ≡ len)
        × Replies (read_command backend cookie offset len) c (reply_header 0 cookie ++ data')
  unfolding read_command
  read_command_answered present =
      let (going, size, whole, fuel) = start in
      let size' = min len buffer_size in
      let now = first.bytes in
      let fits : length now ≤ size' = reader.fits 0 size' offset in
      let sixteen = length-reply_header 0 cookie in
      let wrapped : wrap64 (offset + length now) ≡ offset + length now = omega arith in
      let rest =
        read_loop (32 * len + 31) backend 1 cookie (wrap64 (offset + length now)) (offset + len)
          size' true 0 in
      let c' = record c {
        outgoing = c.outgoing ++ reply_header 0 cookie;
        room = c.room - length (reply_header 0 cookie);
      } in
      let c'' = record c' { outgoing = c'.outgoing ++ now; room = c'.room - length now } in
      let total : length now + (len - length now) ≡ len = omega arith in
      let opening =
        opening_round backend cookie (32 * len + 31) 0 offset (offset + len) buffer_size c going in
      rw (whole, fuel)
        (opened
          (read_loop (suc (32 * len + 31)) backend 0 cookie offset (offset + len) buffer_size false
            0)
          rest (reply_header 0 cookie) now c (len - length now) len total
          (rw size at opening present) (omega (arith, sixteen))
          (transaction_Sends backend cookie reader (32 * len + 31) 1 (wrap64 (offset + length now))
            (offset + len) size' 0 (len - length now) c'' (omega (arith, wrapped)) bounded
            (omega arith) (omega arith) (omega arith) (omega (arith, sixteen))))
