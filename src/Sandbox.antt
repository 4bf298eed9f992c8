-- ===== src/Sandbox.antt =====
-- lib/sandbox/output.go: what several writers write into one buffer, apart or together.
mod Refinement
mod Views
mod Examples
use pond.Prelude.{
  ℕ, ◌+◌, ◌-◌, ◌==◌, List, [], ◌∷◌, ◌++◌, take, drop, length, leb, replicate, Outcome, ok, panic,
  ◌>>=◌, if◌then◌else◌,
}

pub record OutputChunk : Type 0 where
  pub tag : ℕ
  pub size : ℕ

pub record MultiBuffer : Type 0 where
  pub buf : List ℕ
  pub chunks : List OutputChunk

-- A multiBuffer before its first use.
abbrev pub empty : MultiBuffer
empty = record { buf = []; chunks = [] }

-- The whole of `Write` is behind the lock.
unfoldable pub write : ℕ → List ℕ → MultiBuffer → MultiBuffer
write tag data_in b = record {
  buf = b.buf ++ data_in;
  chunks = b.chunks ++ (record { tag = tag; size = length data_in } ∷ []);
}

-- No function of the buffer returns an error.
pub data NoError : Type 0 where

-- buf[low:high], with the bound that Go checks on a slice whose capacity is its length.
unfoldable pub slice : ℕ → ℕ → List ℕ → Outcome NoError (List ℕ)
slice low high xs =
    if leb low high
    then (if leb high (length xs) then ok (take (high - low) (drop low xs)) else panic)
    else panic

-- copy(out[at:], xs)
unfoldable pub copy_at : List ℕ → ℕ → List ℕ → List ℕ
copy_at out at xs = take at out ++ (take (length out - at) xs ++ drop (at + length xs) out)

unfoldable pub read_loop :
    List ℕ → ℕ → List OutputChunk → List ℕ → ℕ → ℕ → Outcome NoError (List ℕ × ℕ)
unfolding slice copy_at
read_loop buf tag [] out out_index buf_index = ok (out, out_index)
read_loop buf tag (chunk ∷ chunks) out out_index buf_index =
    let skip = read_loop buf tag chunks out out_index (buf_index + chunk.size) in
    if chunk.tag == tag
    then slice buf_index (buf_index + chunk.size) buf >>= (λ part.
      read_loop buf tag chunks (copy_at out out_index part) (out_index + chunk.size)
        (buf_index + chunk.size))
    else skip

unfoldable pub read : ℕ → MultiBuffer → Outcome NoError (List ℕ)
unfolding read_loop
read tag b =
    read_loop b.buf tag b.chunks (replicate (length b.buf) 0) 0 0 >>= (λ r. slice 0 r.1 r.0)

abbrev pub read_all : MultiBuffer → List ℕ
read_all b = b.buf
