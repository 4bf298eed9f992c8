-- ===== src/Sandbox/Examples.antt =====
-- lib/sandbox/output.go at concrete inputs: stdout and stderr in turns.
use pond.Prelude.{ℕ, ◌≡◌, List, [], ◌∷◌, ok}
use pond.Sandbox.{empty, read, read_all}
use pond.Sandbox.Refinement.{Written, all_of, bytes_of, write_all, read-write_all}

abbrev stdout : ℕ
stdout = 1

abbrev stderr : ℕ
stderr = 2

abbrev turns : List Written
turns =
    record { tag = stdout; bytes = b'a' ∷ b'b' ∷ [] }
    ∷ record { tag = stderr; bytes = b'!' ∷ [] }
    ∷ record { tag = stdout; bytes = b'c' ∷ [] }
    ∷ []

read-write_all_example :
    (read stdout (write_all turns empty) ≡ ok (bytes_of stdout turns))
    × (read_all (write_all turns empty) ≡ all_of turns)
read-write_all_example = read-write_all stdout turns
