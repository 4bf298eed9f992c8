-- ===== src/Server/Dispatch/Data.antt =====
-- The data of nbd/server's replies: bytes of a disk, or bogus ones.
use pond.Prelude.{
  ℕ, ◌+◌, ◌-◌, ◌≤◌, ◌≡◌, All-append, All-take, subst, ◌⊎◌, ◌==◌, List, [], ◌∷◌, length, arith, ◌++◌,
  take, zero, suc, All, Bool-cases, inl, inr,
}
use pond.Server.Transmit.{bogus, bogus_data}
use pond.Server.Dispatch.{Request}

-- The commands that the client has sent, and what the backend's disk holds.
pub record World : Type 1 where
  pub Asked : Request → Type 0
  pub disk : ℕ → ℕ

-- A byte that the server makes up where the backend fails again and again.
abbrev pub IsBogus : ℕ → Type 0
IsBogus b = (0xe0 ≤ b) × (b ≤ 0xee)

-- Bytes of the disk from `at` on.
abbrev pub IsDiskAt : World → ℕ → List ℕ → Type 0
IsDiskAt w at [] = Unit
IsDiskAt w at (b ∷ bs) = (b ≡ w.disk at) × IsDiskAt w (at + 1) bs

-- Bytes of the disk from `at` on, or bogus ones in their places.
abbrev pub IsDataAt : World → ℕ → List ℕ → Type 0
IsDataAt w at [] = Unit
IsDataAt w at (b ∷ bs) = ((b ≡ w.disk at) ⊎ IsBogus b) × IsDataAt w (at + 1) bs

bogus_data-IsBogus : All IsBogus bogus_data
bogus_data-IsBogus = (
  (omega arith, omega arith),
  (
    (omega arith, omega arith),
    (
      (omega arith, omega arith),
      (
        (omega arith, omega arith),
        (
          (omega arith, omega arith),
          (
            (omega arith, omega arith),
            (
              (omega arith, omega arith),
              (
                (omega arith, omega arith),
                (
                  (omega arith, omega arith),
                  (
                    (omega arith, omega arith),
                    (
                      (omega arith, omega arith),
                      (
                        (omega arith, omega arith),
                        (
                          (omega arith, omega arith),
                          (
                            (omega arith, omega arith),
                            ((omega arith, omega arith), ((omega arith, omega arith), tt)),
                          ),
                        ),
                      ),
                    ),
                  ),
                ),
              ),
            ),
          ),
        ),
      ),
    ),
  ),
)

pub bogus-IsBogus : (fuel n : ℕ) → All IsBogus (bogus fuel n)
unfolding bogus
bogus-IsBogus zero n = tt
bogus-IsBogus (suc fuel) n = elim (Bool-cases (n == 0)) [
  | inl e ↦ rw e tt
  | inr e ↦ rw e (
      All-append IsBogus (take n bogus_data) (bogus fuel (n - 16))
        (All-take IsBogus n bogus_data bogus_data-IsBogus) (bogus-IsBogus fuel (n - 16)))
]

module _ (w : World) where
  pub disk-IsDataAt : (at : ℕ) (bs : List ℕ) → IsDiskAt w at bs → IsDataAt w at bs
  disk-IsDataAt at [] h = tt
  disk-IsDataAt at (b ∷ bs) (p, h) = (inl p, disk-IsDataAt (at + 1) bs h)

  pub bogus-IsDataAt : (at : ℕ) (bs : List ℕ) → All IsBogus bs → IsDataAt w at bs
  bogus-IsDataAt at [] h = tt
  bogus-IsDataAt at (b ∷ bs) (p, h) = (inr p, bogus-IsDataAt (at + 1) bs h)

  pub IsDataAt-append :
      (at : ℕ) (xs ys : List ℕ)
      → IsDataAt w at xs
      → IsDataAt w (at + length xs) ys
      → IsDataAt w at (xs ++ ys)
  IsDataAt-append at [] ys h k =
      let e : at + length {A = ℕ} [] ≡ at = omega arith in subst (λ n. IsDataAt w n ys) e k
  IsDataAt-append at (x ∷ xs) ys (p, h) k =
      let e : at + length (x ∷ xs) ≡ at + 1 + length xs = omega arith in
      (p, IsDataAt-append (at + 1) xs ys h (subst (λ n. IsDataAt w n ys) e k))
