-- ===== src/Template.antt =====
-- lib/block/template.go: a document whose marked sections are filled.
mod Replaces
mod Examples
use pond.Prelude.{
  ℕ, zero, suc, ◌+◌, ◌-◌, ◌*◌, ◌%◌, ◌^◌, ◌==◌, ◌&&◌, ◌||◌, not, Bool, true, false, Option, none,
  some, List, [], ◌∷◌, ◌++◌, length, get_elem?, ltb, leb, Outcome, ok, err, panic, ◌>>=◌,
  if◌then◌else◌, bytes_equal, lookup, has,
}

-- Template.sections
abbrev pub Sections : Type 0
Sections = List (List ℕ × List ℕ)

abbrev is_blank : ℕ → Bool
is_blank b = ((b == 32) || (b == 9)) || ((b == 10) || (b == 13))

-- strings.TrimRight of " \t\n\r".
abbrev pub trim_right : List ℕ → List ℕ
trim_right [] = []
trim_right (b ∷ s) =
    let rest = trim_right s in if length rest == 0 && is_blank b then [] else b ∷ rest

-- `Set`: the latest value of a key is the first one.
unfoldable pub set : List ℕ → List ℕ → Sections → Sections
set key value t = (key, trim_right value) ∷ t

-- The groups that a regular expression of a marker finds in a line.
pub record Match : Type 0 where
  pub name : List ℕ
  pub digits : List ℕ

pub data BlockError : Type 0 where
  bad_offset : BlockError
  tag_mismatch : BlockError
  scan_failed : BlockError
  not_rendered : BlockError

-- The variables of `Fill`. What is printed with a line feed behind it is an element of the output.
pub record Filling : Type 0 where
  pub section : List ℕ
  pub index : ℕ
  pub offset : ℕ
  pub buffer : List (List ℕ)
  pub rendered : List (List ℕ)
  pub output : List (List ℕ)

abbrev pub initial : Filling
initial = record { section = []; index = 0; offset = 0; buffer = []; rendered = []; output = [] }

abbrev decimal : ℕ → List ℕ → ℕ
decimal n [] = n
decimal n (d ∷ ds) = decimal (10 * n + (d - b'0')) ds

-- strconv.Atoi of digits, where there are any.
unfoldable pub offset_of : Match → Outcome BlockError ℕ
offset_of m =
    if length m.digits == 0
    then ok 0
    else if ltb (decimal 0 m.digits) (2 ^ 63)
    then ok (decimal 0 m.digits)
    else err bad_offset

-- make([]string, n)
abbrev pub blank_lines : ℕ → List (List ℕ)
blank_lines zero = []
blank_lines (suc n) = [] ∷ blank_lines n

-- buffer[i] = line
abbrev set_line : ℕ → List ℕ → List (List ℕ) → List (List ℕ)
set_line i line [] = []
set_line zero line (x ∷ xs) = line ∷ xs
set_line (suc i) line (x ∷ xs) = x ∷ set_line i line xs

abbrev line_at : Option (List ℕ) → Outcome BlockError (List ℕ)
line_at none = panic
line_at (some line) = ok line

-- buffer[(index-offset+i)%len(buffer)], where the remainder of a negative number is one or 0.
unfoldable pub kept_line : List (List ℕ) → ℕ → ℕ → ℕ → Outcome BlockError (List ℕ)
kept_line buffer index offset i =
    if leb offset (index + i)
    then line_at (get_elem? buffer ((index + i - offset) % length buffer))
    else if (offset - (index + i)) % length buffer == 0
    then line_at (get_elem? buffer 0)
    else panic

-- The last `left` rounds of the loop that prints the lines kept.
unfoldable pub kept_lines : List (List ℕ) → ℕ → ℕ → ℕ → Outcome BlockError (List (List ℕ))
unfolding kept_line
kept_lines buffer index offset zero = ok []
kept_lines buffer index offset (suc left) =
    kept_line buffer index offset (offset - suc left)
    >>= (λ line. kept_lines buffer index offset left >>= (λ lines. ok (line ∷ lines)))

abbrev pub is_known : Option (List ℕ) → Bool
is_known none = false
is_known (some v) = true

abbrev pub value_of : Option (List ℕ) → List ℕ
value_of none = []
value_of (some v) = v

-- A start marker.
unfoldable pub start : Sections → List ℕ → Match → Filling → Outcome BlockError Filling
unfolding offset_of
start t line m s = offset_of m >>= (λ offset.
    let printed = record s { offset = offset; output = s.output ++ (line ∷ []) } in
    ok (
      if is_known (lookup m.name t)
      then record printed { section = m.name; index = 0; buffer = blank_lines offset }
      else printed))

-- An end marker inside a section.
unfoldable pub end : Sections → List ℕ → Match → Filling → Outcome BlockError Filling
unfolding offset_of kept_lines
end t line m s = offset_of m >>= (λ offset.
    if not (bytes_equal m.name s.section)
    then err tag_mismatch
    else (if length s.buffer == 0 then ok [] else kept_lines s.buffer s.index offset offset)
      >>= (λ lines. ok (record s {
        section = [];
        offset = offset;
        buffer = [];
        rendered = s.section ∷ s.rendered;
        output = s.output ++ (value_of (lookup s.section t) ∷ (lines ++ (line ∷ [])));
      })))

-- Any other line.
unfoldable pub plain : List ℕ → Filling → Filling
plain line s =
    let kept = record s {
      buffer =
          if length s.buffer == 0 then [] else set_line (s.index % length s.buffer) line s.buffer;
      index = s.index + 1;
    } in
    if not (length s.section == 0) && ltb s.offset (s.index + 1)
    then kept
    else record kept { output = s.output ++ (line ∷ []) }

abbrev pub end_or_plain : Sections → List ℕ → Option Match → Filling → Outcome BlockError Filling
end_or_plain t line none s = ok (plain line s)
end_or_plain t line (some m) s = if length s.section == 0 then ok (plain line s) else end t line m s

abbrev pub one_line :
    Sections → List ℕ → Option Match → Option Match → Filling → Outcome BlockError Filling
one_line t line (some m) q s = start t line m s
one_line t line none q s = end_or_plain t line q s

-- Some section of the template was not rendered.
abbrev pub missing : Sections → List (List ℕ) → Bool
missing [] rendered = false
missing ((name, v) ∷ t) rendered = if has name rendered then missing t rendered else true

module _ (start_marker end_marker : List ℕ → Option Match) where
  unfoldable pub fill_lines : Sections → List (List ℕ) → Filling → Outcome BlockError Filling
  unfolding start end plain
  fill_lines t [] s = ok s
  fill_lines t (line ∷ lines) s =
      one_line t line (start_marker line) (end_marker line) s >>= (λ s'. fill_lines t lines s')

  -- `Fill`, from the lines that the scanner gives and whether it fails behind them.
  unfoldable pub fill : Sections → List (List ℕ) → Bool → Outcome BlockError (List (List ℕ))
  unfolding fill_lines
  fill t lines failed = fill_lines t lines initial >>= (λ s.
      if failed
      then err scan_failed
      else if missing t s.rendered
      then err not_rendered
      else ok s.output)
