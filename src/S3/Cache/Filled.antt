-- ===== src/S3/Cache/Filled.antt =====
-- `bgFetchAll` with a network that works: the local file is the object.
use pond.Prelude.{
  ℕ, zero, suc, ◌+◌, ◌*◌, ◌^◌, ◌<◌, ◌≡◌, refl, ap, ◌∙◌, ltb, Bool-cases, inl, inr, some, arith,
}
use pond.S3.Chunk.{chunk_size, check}
use pond.S3.Cache.{Cache, Answer, copy, fetch, next_part, fetch_all, bytes_at}
use pond.S3.Cache.Reads.{bytes_at-eq}
use pond.S3.Cache.Coherence.{IsCoherent, copy-IsCoherent, check-IsCoherent}
use pond.S3.Cache.WarmUp.{size-fetch, chunk_count, fetch_all_total, fetch_all_fills, SendsAll}

fetch-IsCoherent :
    (c : Cache) (part : ℕ) (a : Answer)
    → part < 2 ^ 40
    → IsCoherent c
    → IsCoherent (fetch c part a).1
unfolding fetch
fetch-IsCoherent c part a p h = ground (
  arith,
  check-IsCoherent c part h,
  copy-IsCoherent (record c { chunk = (check c.chunk part).0 }) part a p
      (check-IsCoherent c part h),
)

remote-fetch : (c : Cache) (part : ℕ) (a : Answer) → (fetch c part a).1.remote ≡ c.remote
unfolding fetch copy
remote-fetch c part a = ground arith

fetch_all-IsCoherent :
    (fuel : ℕ) (answers : ℕ → ℕ → Answer) (call : ℕ) (c c' : Cache) (part retry : ℕ)
    → IsCoherent c
    → fetch_all fuel answers call c part retry ≡ some c'
    → IsCoherent c' × (c'.remote ≡ c.remote) × (c'.chunk.size ≡ c.chunk.size)
unfolding fetch_all
fetch_all-IsCoherent zero answers call c c' part retry h e = cc
fetch_all-IsCoherent (suc fuel) answers call c c' part retry h e =
    let a = answers call part in
    let got = fetch c part a in
    let step = next_part got.0 part retry in
    elim (Bool-cases (ltb (part * chunk_size) c.chunk.size)) [
      | inr p ↦ let q : c' ≡ c = ground (arith, e, p) in rw q (h, refl, refl)
      | inl p ↦
          let in_range : part < 2 ^ 40 = ground (arith, h.small) in
          let later =
            fetch_all-IsCoherent fuel answers (call + 1) got.1 c' step.0 step.1
              (fetch-IsCoherent c part a in_range h) (ground (arith, e, p)) in
          (later.0, later.1 ∙ remote-fetch c part a, later.2 ∙ size-fetch c part a)
    ]

-- Started on a coherent cache of an object below 2 ^ 62 bytes, with a network that sends every
-- chunk whole, the loop ends, and behind it every byte of the local file is the object's.
pub warm_up :
    (answers : ℕ → ℕ → Answer) (c : Cache)
    → SendsAll c.chunk.size answers
    → IsCoherent c
    → (c' : Cache) × (fetch_all (6 * chunk_count c.chunk.size + 6) answers 0 c 0 0 ≡ some c')
      × (bytes_at c'.local 0 c.chunk.size ≡ bytes_at c.remote 0 c.chunk.size)
warm_up answers c sends h =
    let size = c.chunk.size in
    let fuel = 6 * chunk_count size + 6 in
    let (c', ends) = fetch_all_total fuel answers 0 c 0 0 (omega arith) (omega arith) in
    let (coherent, same, size_e) = fetch_all-IsCoherent fuel answers 0 c c' 0 0 h ends in
    (
      c',
      ends,
      bytes_at-eq c'.local c.remote 0 size (λ byte lo hi.
          let inside : byte < c.chunk.size = omega (arith, hi) in
          (coherent.at byte (rw size_e inside) (
            fetch_all_fills size answers h.small sends fuel 0 c c' 0 byte refl
              (λ j l. absurd (omega arith)) ends inside))
          ∙ ap (λ file. file byte) same),
    )
