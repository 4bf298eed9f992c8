-- ===== src/Sandbox/Refinement.antt =====
-- The buffer of lib/sandbox/output.go implements a list of writes.
use pond.Prelude.{
  ℕ, ◌+◌, ◌-◌, ◌≤◌, ◌≡◌, refl, sym, ◌∙◌, ◌==◌, true, List, [], ◌∷◌, ◌++◌, append-nil, append_assoc,
  drop, length, leb, replicate, ok, if◌then◌else◌, Bool-cases, inl, inr, arith, length-append,
  length-replicate, take-length_append, drop-length_append, take_all, drop-add, length-drop, subst,
}
use pond.Sandbox.{OutputChunk, MultiBuffer, empty, write, slice, copy_at, read_loop, read, read_all}

-- What has been written: a tag and the bytes for each call.
pub record Written : Type 0 where
  pub tag : ℕ
  pub bytes : List ℕ

-- The bytes of all writes, and those of one tag.
abbrev pub all_of : List Written → List ℕ
all_of [] = []
all_of (x ∷ ws) = x.bytes ++ all_of ws

abbrev pub bytes_of : ℕ → List Written → List ℕ
bytes_of tag [] = []
bytes_of tag (x ∷ ws) = let rest = bytes_of tag ws in if x.tag == tag then x.bytes ++ rest else rest

abbrev chunks_of : List Written → List OutputChunk
chunks_of [] = []
chunks_of (x ∷ ws) = record { tag = x.tag; size = length x.bytes } ∷ chunks_of ws

-- Writes in their order.
unfoldable pub write_all : List Written → MultiBuffer → MultiBuffer
unfolding write
write_all [] b = b
write_all (x ∷ ws) b = write_all ws (write x.tag x.bytes b)

write_all-buf : (ws : List Written) (b : MultiBuffer) → (write_all ws b).buf ≡ b.buf ++ all_of ws
unfolding write_all
write_all-buf [] b = sym (append-nil b.buf)
write_all-buf (x ∷ ws) b =
    write_all-buf ws (write x.tag x.bytes b) ∙ append_assoc b.buf x.bytes (all_of ws)

write_all-chunks :
    (ws : List Written) (b : MultiBuffer) → (write_all ws b).chunks ≡ b.chunks ++ chunks_of ws
unfolding write_all
write_all-chunks [] b = sym (append-nil b.chunks)
write_all-chunks (x ∷ ws) b =
    write_all-chunks ws (write x.tag x.bytes b)
    ∙ append_assoc b.chunks (record { tag = x.tag; size = length x.bytes } ∷ []) (chunks_of ws)

slice-append :
    (front xs tail : List ℕ)
    → slice (length front) (length front + length xs) (front ++ (xs ++ tail)) ≡ ok xs
unfolding slice
slice-append front xs tail =
    let a : leb (length front) (length front + length xs) ≡ true = ground arith in
    let b : leb (length front + length xs) (length (front ++ (xs ++ tail))) ≡ true =
      ground (arith, length-append front (xs ++ tail), length-append xs tail) in
    let c : length front + length xs - length front ≡ length xs = omega arith in
    rw (a, b, drop-length_append front (xs ++ tail), c, take-length_append xs tail) refl

slice_front : (xs tail : List ℕ) → slice 0 (length xs) (xs ++ tail) ≡ ok xs
unfolding slice
slice_front xs tail =
    let a : leb 0 (length xs) ≡ true = ground arith in
    let b : leb (length xs) (length (xs ++ tail)) ≡ true = ground (arith, length-append xs tail) in
    let c : length xs - 0 ≡ length xs = omega arith in rw (a, b, c, take-length_append xs tail) refl

copy_at-append :
    (front rest xs : List ℕ)
    → length xs ≤ length rest
    → copy_at (front ++ rest) (length front) xs ≡ (front ++ xs) ++ drop (length xs) rest
unfolding copy_at
copy_at-append front rest xs h =
    let a : length (front ++ rest) - length front ≡ length rest =
      omega (arith, length-append front rest) in
    rw
      (
        take-length_append front rest,
        a,
        take_all (length rest) xs h,
        drop-add (length front) (length xs) (front ++ rest),
        drop-length_append front rest,
      )
      (sym (append_assoc front xs (drop (length xs) rest)))

-- The loop, between what is done and what is to do of the buffer and of the output.
abbrev LoopsTo : ℕ → List Written → List ℕ → List ℕ → ℕ → ℕ → List ℕ → Type 0
LoopsTo tag ws buf out out_index buf_index acc =
    (rest : List ℕ) × (read_loop buf tag (chunks_of ws) out out_index buf_index
      ≡ ok ((acc ++ bytes_of tag ws) ++ rest, length (acc ++ bytes_of tag ws)))

read_loop-bytes_of :
    (tag : ℕ) (ws : List Written) (buf out front acc rest : List ℕ) (out_index buf_index : ℕ)
    → buf ≡ front ++ all_of ws
    → out ≡ acc ++ rest
    → out_index ≡ length acc
    → buf_index ≡ length front
    → length (all_of ws) ≤ length rest
    → LoopsTo tag ws buf out out_index buf_index acc
unfolding read_loop
read_loop-bytes_of tag [] buf out front acc rest oi bi hb ho io ib h =
    (rest, rw (append-nil acc, ho, io) refl)
read_loop-bytes_of tag (x ∷ ws) buf out front acc rest oi bi hb ho io ib h =
    let l = length-append x.bytes (all_of ws) in
    let hb' : buf ≡ (front ++ x.bytes) ++ all_of ws =
      hb ∙ sym (append_assoc front x.bytes (all_of ws)) in
    let ib' : bi + length x.bytes ≡ length (front ++ x.bytes) =
      omega (arith, length-append front x.bytes) in
    elim (Bool-cases (x.tag == tag)) [
      | inl t ↦
          let cut : slice bi (bi + length x.bytes) buf ≡ ok x.bytes =
            rw (hb, ib) (slice-append front x.bytes (all_of ws)) in
          let ho' : copy_at out oi x.bytes ≡ (acc ++ x.bytes) ++ drop (length x.bytes) rest =
            rw (ho, io) (copy_at-append acc rest x.bytes (omega arith)) in
          let io' : oi + length x.bytes ≡ length (acc ++ x.bytes) =
            omega (arith, length-append acc x.bytes) in
          let room : length (all_of ws) ≤ length (drop (length x.bytes) rest) =
            omega (arith, length-drop (length x.bytes) rest) in
          let (rest', ih) =
            read_loop-bytes_of tag ws buf (copy_at out oi x.bytes) (front ++ x.bytes)
              (acc ++ x.bytes) (drop (length x.bytes) rest) (oi + length x.bytes)
              (bi + length x.bytes) hb' ho' io' ib' room in
          (
            rest',
            rw (t, cut)
                (subst
                  (λ z.
                    read_loop buf tag (chunks_of ws) (copy_at out oi x.bytes) (oi + length x.bytes)
                      (bi + length x.bytes)
                    ≡ ok (z ++ rest', length z))
                  (append_assoc acc x.bytes (bytes_of tag ws)) ih),
          )
      | inr f ↦
          let (rest', ih) =
            read_loop-bytes_of tag ws buf out (front ++ x.bytes) acc rest oi (bi + length x.bytes)
              hb' ho io ib' (omega arith) in
          (rest', rw f ih)
    ]

-- Whatever is written to an empty buffer, in whatever order of the writers, `Read` of a tag does not
-- panic and returns the bytes of this tag's writes in their order, and `ReadAll` returns all bytes.
pub read-write_all :
    (tag : ℕ) (ws : List Written)
    → (read tag (write_all ws empty) ≡ ok (bytes_of tag ws))
      × (read_all (write_all ws empty) ≡ all_of ws)
unfolding read
read-write_all tag ws =
    let b = write_all ws empty in
    let n : length (all_of ws) ≤ length (replicate (length b.buf) 0) =
      rw (length-replicate {A = ℕ} (length b.buf) 0, write_all-buf ws empty) (omega arith) in
    let (rest, e) =
      read_loop-bytes_of tag ws b.buf (replicate (length b.buf) 0) [] []
        (replicate (length b.buf) 0) 0 0 (write_all-buf ws empty) refl refl refl n in
    (rw (write_all-chunks ws empty, e) (slice_front (bytes_of tag ws) rest), write_all-buf ws empty)
