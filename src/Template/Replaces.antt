-- ===== src/Template/Replaces.antt =====
-- lib/block/template.go: what becomes of one marked section.
use pond.Prelude.{
  ℕ, zero, suc, ◌+◌, ◌-◌, ◌%◌, leb, panic, ◌≡◌, refl, sym, ap, ◌∙◌, Bool, true, false, ◌==◌, Option,
  none, some, List, [], ◌∷◌, ◌++◌, length, ltb, Outcome, ok, bytes_equal_refl, lookup, All,
  append_assoc, append-nil, arith,
}
use pond.Template.{
  BlockError, Sections, Match, Filling, set, trim_right, start, end, plain, blank_lines, kept_line,
  kept_lines, offset_of, fill_lines, fill,
}

abbrev outside : ℕ → ℕ → List (List ℕ) → List (List ℕ) → Filling
outside index offset rendered output = record {
  section = [];
  index = index;
  offset = offset;
  buffer = [];
  rendered = rendered;
  output = output;
}

abbrev inside : List ℕ → ℕ → List (List ℕ) → List (List ℕ) → Filling
inside section index rendered output = record {
  section = section;
  index = index;
  offset = 0;
  buffer = [];
  rendered = rendered;
  output = output;
}

-- A marker without an offset.
abbrev pub bare : List ℕ → Match
bare name = record { name = name; digits = [] }

length-blank_lines : (n : ℕ) → length (blank_lines n) ≡ n
length-blank_lines zero = refl
length-blank_lines (suc n) = ap suc (length-blank_lines n)

module _ (start_marker end_marker : List ℕ → Option Match) where
  abbrev pub IsPlain : List ℕ → Type 0
  IsPlain line = (start_marker line ≡ none) × (end_marker line ≡ none)

  abbrev run : Sections → List (List ℕ) → Filling → Outcome BlockError Filling
  run t lines s = fill_lines start_marker end_marker t lines s

  fill_lines-outside :
      (t : Sections) (lines rest : List (List ℕ)) (i o : ℕ) (r out : List (List ℕ))
      → All IsPlain lines
      → fill_lines start_marker end_marker t (lines ++ rest) (outside i o r out)
        ≡ fill_lines start_marker end_marker t rest (outside (i + length lines) o r (out ++ lines))
  unfolding fill_lines plain
  fill_lines-outside t [] rest i o r out h =
      let e : i ≡ i + length {A = List ℕ} [] = omega arith in
      rw (append-nil out) (ap (λ j. run t rest (outside j o r out)) e)
  fill_lines-outside t (line ∷ lines) rest i o r out ((p, q), h) =
      let e : i + 1 + length lines ≡ i + length (line ∷ lines) = omega arith in
      rw (p, q)
        (fill_lines-outside t lines rest (i + 1) o r (out ++ (line ∷ [])) h
          ∙ ap (λ j. run t rest (outside j o r ((out ++ (line ∷ [])) ++ lines))) e
          ∙ ap (λ x. run t rest (outside (i + length (line ∷ lines)) o r x))
              (append_assoc out (line ∷ []) lines))

  fill_lines-inside :
      (t : Sections) (c : ℕ) (name : List ℕ) (lines rest : List (List ℕ)) (i : ℕ)
      (r out : List (List ℕ))
      → All IsPlain lines
      → fill_lines start_marker end_marker t (lines ++ rest) (inside (c ∷ name) i r out)
        ≡ fill_lines start_marker end_marker t rest (inside (c ∷ name) (i + length lines) r out)
  unfolding fill_lines plain
  fill_lines-inside t c name [] rest i r out h =
      let e : i ≡ i + length {A = List ℕ} [] = omega arith in
      ap (λ j. run t rest (inside (c ∷ name) j r out)) e
  fill_lines-inside t c name (line ∷ lines) rest i r out ((p, q), h) =
      let e : i + 1 + length lines ≡ i + length (line ∷ lines) = omega arith in
      let skipped : ltb 0 (i + 1) ≡ true = ground arith in
      let named : (length (c ∷ name) == 0) ≡ false = ground arith in
      rw (p, q, named, skipped)
        (fill_lines-inside t c name lines rest (i + 1) r out h
          ∙ ap (λ j. run t rest (inside (c ∷ name) j r out)) e)

  module _ (c : ℕ) (name value : List ℕ) (line : List ℕ) (rest : List (List ℕ)) (i o : ℕ)
      (r out : List (List ℕ)) where
    fill_lines-start :
        start_marker line ≡ some (bare (c ∷ name))
        → run (set (c ∷ name) value []) (line ∷ rest) (outside i o r out)
          ≡ run (set (c ∷ name) value []) rest (inside (c ∷ name) 0 r (out ++ (line ∷ [])))
    unfolding fill_lines start offset_of set
    fill_lines-start p = rw (p, bytes_equal_refl (c ∷ name)) refl

    fill_lines-end :
        start_marker line ≡ none
        → end_marker line ≡ some (bare (c ∷ name))
        → run (set (c ∷ name) value []) (line ∷ rest) (inside (c ∷ name) i r out)
          ≡ run
              (set (c ∷ name) value [])
              rest
              (outside i 0 ((c ∷ name) ∷ r) (out ++ (trim_right value ∷ line ∷ [])))
    unfolding fill_lines end offset_of set
    fill_lines-end n q =
        let named : (length (c ∷ name) == 0) ≡ false = ground arith in
        rw (n, q, named, bytes_equal_refl (c ∷ name)) refl

  -- A document with one section that the template has, between two markers of the same name and
  -- without an offset, and with no marker in any other line, is filled: the lines before and
  -- behind the section, and the markers, stay, and what is between the markers is replaced by the
  -- value. The name is not empty, and it is the only one of the template.
  pub fill-set :
      (c : ℕ) (name value first last : List ℕ) (before old behind : List (List ℕ))
      → start_marker first ≡ some (bare (c ∷ name))
      → start_marker last ≡ none
      → end_marker last ≡ some (bare (c ∷ name))
      → All IsPlain before
      → All IsPlain old
      → All IsPlain behind
      → fill start_marker end_marker
          (set (c ∷ name) value [])
          (before ++ (first ∷ (old ++ (last ∷ behind))))
          false
        ≡ ok (before ++ (first ∷ trim_right value ∷ last ∷ behind))
  unfolding fill fill_lines start end offset_of set
  fill-set c name value first last before old behind p n q hb ho hh =
      let t = set (c ∷ name) value [] in
      let k = c ∷ name in
      let out = before ++ (first ∷ []) in
      let text = trim_right value ∷ last ∷ [] in
      let e =
        fill_lines-outside t before (first ∷ (old ++ (last ∷ behind))) 0 0 [] [] hb
        ∙ fill_lines-start c name value first (old ++ (last ∷ behind)) (0 + length before) 0 []
            before p
        ∙ fill_lines-inside t c name old (last ∷ behind) 0 [] out ho
        ∙ fill_lines-end c name value last behind (0 + length old) 0 [] out n q
        ∙ ap (λ b. run t b (outside (0 + length old) 0 (k ∷ []) (out ++ text)))
            (sym (append-nil behind))
        ∙ fill_lines-outside t behind [] (0 + length old) 0 (k ∷ []) (out ++ text) hh in
      rw (e, bytes_equal_refl k)
        (ap ok (append_assoc out text behind ∙ append_assoc before (first ∷ []) (text ++ behind)))

  -- A start marker with an offset of one or more, directly followed by the end marker of the same
  -- name with an offset that the first one does not divide, makes `Fill` panic, where the
  -- template has the section.
  pub fill_panics :
      (t : Sections) (value first last digits digits' : List ℕ) (c : ℕ) (name : List ℕ) (n m : ℕ)
      (behind : List (List ℕ)) (failed : Bool)
      → start_marker first ≡ some (record { name = c ∷ name; digits = digits })
      → start_marker last ≡ none
      → end_marker last ≡ some (record { name = c ∷ name; digits = digits' })
      → lookup (c ∷ name) t ≡ some value
      → offset_of (record { name = c ∷ name; digits = digits }) ≡ ok (suc n)
      → offset_of (record { name = c ∷ name; digits = digits' }) ≡ ok (suc m)
      → (suc m % suc n == 0) ≡ false
      → fill start_marker end_marker t (first ∷ last ∷ behind) failed ≡ panic
  unfolding fill fill_lines start end kept_lines kept_line
  fill_panics t value first last digits digits' c name n m behind failed p q r known o o' d =
      let named : (length (c ∷ name) == 0) ≡ false = ground arith in
      let full : (suc (length (blank_lines n)) == 0) ≡ false = ground arith in
      let many : length (blank_lines n) ≡ n = length-blank_lines n in
      let none_yet : leb (suc m) (0 + (suc m - suc m)) ≡ false = ground arith in
      let back : suc m - (0 + (suc m - suc m)) ≡ suc m = omega arith in
      rw (p, o, known, q, r, named, o', bytes_equal_refl (c ∷ name), full, none_yet, back, many, d)
        refl
