-- ===== src/Template/Examples.antt =====
-- Documents whose lines are one byte: "s" starts the section "a" and "e" ends it.
use pond.Prelude.{
  ℕ, ◌≡◌, refl, false, ◌==◌, Option, none, some, List, [], ◌∷◌, ok, panic, if◌then◌else◌,
}
use pond.Template.{Match, set, offset_of, fill}
use pond.Template.Replaces.{bare, fill-set, fill_panics}

abbrev section_a : List ℕ
section_a = b'a' ∷ []

abbrev when_byte : ℕ → Match → List ℕ → Option Match
when_byte b m [] = none
when_byte b m (c ∷ line) = if c == b then some m else none

abbrev with_offset : ℕ → Match
with_offset d = record { name = section_a; digits = d ∷ [] }

fill-set_example :
    fill
      (when_byte b's' (bare section_a))
      (when_byte b'e' (bare section_a))
      (set section_a (b'v' ∷ 10 ∷ []) [])
      ((b'x' ∷ []) ∷ (b's' ∷ []) ∷ (b'y' ∷ []) ∷ (b'z' ∷ []) ∷ (b'e' ∷ []) ∷ (b'x' ∷ []) ∷ [])
      false
    ≡ ok ((b'x' ∷ []) ∷ (b's' ∷ []) ∷ (b'v' ∷ []) ∷ (b'e' ∷ []) ∷ (b'x' ∷ []) ∷ [])
fill-set_example =
    fill-set (when_byte b's' (bare section_a)) (when_byte b'e' (bare section_a)) b'a' []
      (b'v' ∷ 10 ∷ []) (b's' ∷ []) (b'e' ∷ []) ((b'x' ∷ []) ∷ []) ((b'y' ∷ []) ∷ (b'z' ∷ []) ∷ [])
      ((b'x' ∷ []) ∷ []) refl refl refl ((refl, refl), tt) ((refl, refl), ((refl, refl), tt))
      ((refl, refl), tt)

offset_of_two : offset_of (with_offset b'2') ≡ ok 2
unfolding offset_of
offset_of_two = refl

offset_of_one : offset_of (with_offset b'1') ≡ ok 1
unfolding offset_of
offset_of_one = refl

fill_panics_example :
    fill
      (when_byte b's' (with_offset b'2'))
      (when_byte b'e' (with_offset b'1'))
      ((section_a, []) ∷ [])
      ((b's' ∷ []) ∷ (b'e' ∷ []) ∷ [])
      false
    ≡ panic
fill_panics_example =
    fill_panics (when_byte b's' (with_offset b'2')) (when_byte b'e' (with_offset b'1'))
      ((section_a, []) ∷ []) [] (b's' ∷ []) (b'e' ∷ []) (b'2' ∷ []) (b'1' ∷ []) b'a' [] 1 0 [] false
      refl refl refl refl offset_of_two offset_of_one refl
