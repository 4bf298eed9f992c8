-- ===== src/Bytepack/Examples.antt =====
-- Runs of lib/bytepack, and its theorems at concrete inputs.
use pond.Prelude.{ℕ, ◌≡◌, refl, ok, List, [], ◌∷◌, arith}
use pond.Bytepack.Utf8.{encode, runes, size}
use pond.Bytepack.Pack.{Bytepack, wrap, pack, decode_head}
use pond.Bytepack.Unpack.{unpack}
use pond.Bytepack.RoundTrip.{unpack-pack}
use pond.Bytepack.Safety.{Unpacks, wrap-Unpacks}

abbrev three : List (List ℕ)
three = (1 ∷ 2 ∷ []) ∷ [] ∷ (7 ∷ []) ∷ []

abbrev three_packed : Bytepack
three_packed = record {
  blob = 3 ∷ 2 ∷ 0 ∷ 1 ∷ 1 ∷ 2 ∷ 7 ∷ [];
  size = 2 ∷ 0 ∷ 1 ∷ [];
  offset = 4 ∷ 6 ∷ 6 ∷ [];
}

pack-three : pack three ≡ ok three_packed
unfolding pack wrap decode_head runes encode size
pack-three = refl

wrap-three : wrap three_packed.blob ≡ ok three_packed
unfolding wrap decode_head runes encode size
wrap-three = refl

-- U+20AC has three bytes.
encode_euro : encode 0x20ac ≡ 0xe2 ∷ 0x82 ∷ 0xac ∷ []
unfolding encode
encode_euro = refl

runes_malformed : runes (0xe2 ∷ 0x82 ∷ 0x41 ∷ []) ≡ 0xfffd ∷ 0xfffd ∷ 0x41 ∷ []
unfolding runes
runes_malformed = refl

unpack-pack_example : (p : Bytepack) × (pack three ≡ ok p) × (unpack p ≡ ok three)
unpack-pack_example = unpack-pack three (omega arith) (omega arith)

wrap-Unpacks_example : (out : List (List ℕ)) × Unpacks three_packed.blob three_packed out
wrap-Unpacks_example = wrap-Unpacks three_packed.blob three_packed wrap-three
