-- ===== src/Server/Discard.antt =====
-- nbd/server/util.go: `discard` and `byteWriter`.
use pond.Prelude.{
  ℕ, zero, suc, ◌+◌, ◌-◌, ◌≤◌, ◌≡◌, List, [], ◌++◌, ltb, leb, length, drop, drop-add, drop_all,
  length-drop, ◌==◌, ap, if◌then◌else◌, min, arith, Bool-cases, inl, inr,
}
use pond.Server.Conn.{Conn, Io, Result, ok, err, stuck, eof, read, buffer_full}

abbrev pub discard_buf : ℕ
discard_buf = 4096

-- The loop's fuel is the number of bytes that are left, since a `Read` gives one at least. A
-- `Read` that gives none is the one that returns the end of the connection as an error.
unfoldable pub discard_loop : ℕ → ℕ → Io (Unit {0})
unfolding read
discard_loop fuel zero c = (ok tt, c)
discard_loop zero (suc n) c = (stuck, c)
discard_loop (suc fuel) (suc n) c =
    let (done, c') = read (min (suc n) discard_buf) c in
    let rest = discard_loop fuel (suc n - done) c' in if done == 0 then (err eof, c') else rest

unfoldable pub discard : ℕ → Io (Unit {0})
unfolding discard_loop
discard n = discard_loop n n

discard_loop_lem :
    (fuel n : ℕ) (c : Conn)
    → n ≤ fuel
    → discard_loop fuel n c ≡ (
        if ltb (length c.incoming) n
        then (err eof, record c { incoming = [] })
        else (ok tt, record c { incoming = drop n c.incoming }))
unfolding discard_loop
discard_loop_lem fuel zero c h = ground arith
discard_loop_lem zero (suc n) c h = absurd (omega arith)
discard_loop_lem (suc fuel) (suc n) c h =
    let got : ℕ = min (min (min (suc n) discard_buf) (suc c.segment)) (length c.incoming) in
    let rest : Conn = record c { incoming = drop got c.incoming } in
    elim (Bool-cases (got == 0)) [
      | inl e ↦
          let l : length c.incoming ≡ 0 = ground arith in
          let z : got ≡ 0 = ground arith in rw z (ground (arith, l, drop_all 0 c.incoming))
      | inr e ↦
          let all : got + (suc n - got) ≡ suc n = ground arith in
          ground (
            arith,
            e,
            discard_loop_lem fuel (suc n - got) rest (ground arith),
            length-drop got c.incoming,
            drop-add got (suc n - got) c.incoming,
            ap (λ (k : ℕ). drop k c.incoming) all,
          )
    ]

-- `discard` skips exactly `n` bytes, whatever pieces the connection gives them in, and fails with
-- the end of the connection if there are fewer, all of which it reads.
pub discard_lem :
    (n : ℕ) (c : Conn)
    → discard n c ≡ (
        if ltb (length c.incoming) n
        then (err eof, record c { incoming = [] })
        else (ok tt, record c { incoming = drop n c.incoming }))
unfolding discard
discard_lem n c = discard_loop_lem n n c (omega arith)

-- What `byteWriter.Write` appends to a slice of capacity `cap`.
unfoldable pub write_bytes : ℕ → List ℕ → List ℕ → Result (List ℕ)
write_bytes cap buf p = if leb (length p) (cap - length buf) then ok (buf ++ p) else err buffer_full
