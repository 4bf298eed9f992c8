-- ===== src/Sandbox/Views.antt =====
-- lib/sandbox/output.go: what two writers get back, in whatever order they came.
use pond.Prelude.{ℕ, ◌≡◌, refl, ◌∙◌, ap, ◌==◌, true, false, List, [], ◌∷◌, ◌++◌, ok, arith}
use pond.Sandbox.{empty, read}
use pond.Sandbox.Refinement.{Written, bytes_of, write_all, read-write_all}

-- The writes of two writers, each in its own order.
pub data Interleaving (a b : ℕ) : List (List ℕ) → List (List ℕ) → List Written → Type 0 where
  nothing : Interleaving a b [] [] []
  first :
      (x : List ℕ) {xs ys : List (List ℕ)} {ws : List Written}
      → Interleaving a b xs ys ws
      → Interleaving a b (x ∷ xs) ys (record { tag = a; bytes = x } ∷ ws)
  second :
      (y : List ℕ) {xs ys : List (List ℕ)} {ws : List Written}
      → Interleaving a b xs ys ws
      → Interleaving a b xs (y ∷ ys) (record { tag = b; bytes = y } ∷ ws)

abbrev pub concat : List (List ℕ) → List ℕ
concat [] = []
concat (x ∷ xs) = x ++ concat xs

module _ (a b : ℕ) (differ : (a == b) ≡ false) where
  bytes_of-Interleaving :
      {xs ys : List (List ℕ)} {ws : List Written}
      → Interleaving a b xs ys ws
      → (bytes_of a ws ≡ concat xs) × (bytes_of b ws ≡ concat ys)
  bytes_of-Interleaving nothing = (refl, refl)
  bytes_of-Interleaving (first x w) =
      let (p, q) = bytes_of-Interleaving w in
      let e : (a == a) ≡ true = ground arith in (rw (e, p) refl, rw (differ, q) refl)
  bytes_of-Interleaving (second y w) =
      let (p, q) = bytes_of-Interleaving w in
      let e : (b == b) ≡ true = ground arith in
      let d : (b == a) ≡ false = ground arith in (rw (d, p) refl, rw (e, q) refl)

  bytes_of_other :
      (tag : ℕ)
      → (a == tag) ≡ false
      → (b == tag) ≡ false
      → {xs ys : List (List ℕ)} {ws : List Written} → Interleaving a b xs ys ws
      → bytes_of tag ws ≡ []
  bytes_of_other tag p q nothing = refl
  bytes_of_other tag p q (first x w) = rw (p, bytes_of_other tag p q w) refl
  bytes_of_other tag p q (second y w) = rw (q, bytes_of_other tag p q w) refl

  -- Two writers with different tags that write to an empty buffer, in whatever interleaving: `Read`
  -- of either tag returns what its writer wrote, in its order and with nothing of the other.
  pub read-Interleaving :
      (xs ys : List (List ℕ)) (ws : List Written)
      → Interleaving a b xs ys ws
      → (read a (write_all ws empty) ≡ ok (concat xs))
        × (read b (write_all ws empty) ≡ ok (concat ys))
  read-Interleaving xs ys ws w =
      let (p, q) = bytes_of-Interleaving w in
      ((read-write_all a ws).0 ∙ ap ok p, (read-write_all b ws).0 ∙ ap ok q)
