-- ===== src/Yml/Lines.antt =====
-- internal/yml/parser.go: the lines of a text, with their indentation and their literal blocks.
use gopherd.Prelude.Strings.{
  has_prefix, drop, trim_left_by, trim_right_by, trim_space, split_on, join,
}
use gopherd.Prelude.{
  ℕ, zero, suc, ◌-◌, ltb, leb, eqb, Text, codes, ◌==◌, text_discrete, Bool, true, false, ◌&&◌, ◌||◌,
  Option, none, some, List, [], ◌∷◌, ◌++◌, if◌then◌else◌, length,
}
use gopherd.Yml.{find_colon, strip_inline_comment}
use gopherd.Yml.Result.{
  Result, ok, err, ◌>>=◌, tab_indentation, folded_block, unknown_indicator, out_of_fuel, at_line,
}

pub record RawLine : Type 0 where
  pub indent : ℕ
  pub text : Text
  pub num : ℕ
  pub literal : Option Text

-- The white space at the end of a line, and the indentation.
abbrev is_trailing : ℕ → Bool
is_trailing c = eqb c b' ' || (eqb c b'\t' || eqb c b'\r')

abbrev pub indent_of : Text → ℕ
indent_of s = length s - length (trim_left_by (λ c. eqb c b' ') s)

-- The loop over the item markers of blockIndicator.
unfoldable pub strip_markers : Text → Text
strip_markers [] = []
strip_markers (c ∷ []) = c ∷ []
strip_markers (c ∷ d ∷ s) =
    let rest = strip_markers s in if eqb c b'-' && eqb d b' ' then rest else c ∷ d ∷ s

abbrev value_part : Text → Text
value_part s = elim (find_colon s) [ none ↦ s | some i ↦ trim_space (drop (suc i) s) ]

abbrev starts_block : Text → Bool
starts_block [] = false
starts_block (c ∷ s) = eqb c b'|' || eqb c b'>'

unfoldable pub block_indicator : Text → Option Text
unfolding strip_markers find_colon trim_space
block_indicator content =
    let s = value_part (strip_markers content) in if starts_block s then some s else none

pub data Chomp : Type 0 where
  clip strip keep : Chomp

unfoldable pub chomp_of : Text → Result Chomp
unfolding text_discrete
chomp_of s =
    if s == codes "|"
    then ok clip
    else if s == codes "|-"
    then ok strip
    else if s == codes "|+"
    then ok keep
    else if s == codes ">" || (s == codes ">-" || s == codes ">+")
    then err 0 folded_block
    else err 0 unknown_indicator

abbrev is_blank : Text → Bool
is_blank s = elim (trim_space s) [ [] ↦ true | c ∷ t ↦ false ]

-- The loop that gathers the body, with the lines behind the block. `block` is the indentation of its
-- first line of content.
unfoldable pub collect_body :
    (header : ℕ) → (block : Option ℕ) → List Text → List (ℕ × Text) → List Text × List (ℕ × Text)
unfolding trim_space trim_left_by
collect_body header block body [] = (body, [])
collect_body header block body ((num, line) ∷ raw) =
    let indent = indent_of line in
    let blank = collect_body header block (body ++ [] ∷ []) raw in
    let first = collect_body header (some indent) (body ++ drop indent line ∷ []) raw in
    if is_blank line then blank else elim block [
      | none ↦ if leb indent header then (body, (num, line) ∷ raw) else first
      | some b ↦
          let next = collect_body header (some b) (body ++ drop b line ∷ []) raw in
          if ltb indent b then (body, (num, line) ∷ raw) else next
    ]

abbrev newline : Text
newline = b'\n' ∷ []

unfoldable pub chomped : Chomp → List Text → Text
unfolding join trim_right_by
chomped strip body = trim_right_by (λ c. eqb c b'\n') (join newline body)
chomped keep [] = []
chomped keep (s ∷ body) = join newline (s ∷ body) ++ newline
chomped clip body =
    let text = trim_right_by (λ c. eqb c b'\n') (join newline body) in
    elim text [ [] ↦ [] | c ∷ t ↦ c ∷ t ++ newline ]

unfoldable pub collect_literal_block :
    List (ℕ × Text) → (header : ℕ) → Text → Result (Text × List (ℕ × Text))
unfolding chomp_of collect_body chomped
collect_literal_block raw header indicator = do
  c ← chomp_of indicator
  let (body, rest) = collect_body header none [] raw
  ok (chomped c body, rest)

abbrev begins_with_tab : Text → Bool
begins_with_tab [] = false
begins_with_tab (c ∷ s) = eqb c b'\t'

-- What the loop of splitLines makes of a line: nothing, an error, or a line, with a block to collect.
pub data LineKind : Type 0 where
  skipped : LineKind
  tabbed : LineKind
  plain : RawLine → LineKind
  block : RawLine → (indicator : Text) → LineKind

unfoldable pub line_kind : ℕ → Text → LineKind
unfolding trim_space trim_left_by trim_right_by strip_inline_comment block_indicator
line_kind num raw =
    let trimmed = trim_right_by is_trailing raw in
    let content = strip_inline_comment (trim_space trimmed) in
    let line : RawLine = record {
      indent = indent_of trimmed;
      text = content;
      num = num;
      literal = none;
    } in
    if is_blank trimmed
    then skipped
    else if begins_with_tab raw
    then tabbed
    else if has_prefix (b'#' ∷ []) (trim_space trimmed)
    then skipped
    else elim (block_indicator content) [ none ↦ plain line | some ind ↦ block line ind ]

-- A line, by its kind; `more` goes on with the lines behind it. A literal block takes the lines of its
-- body along.
abbrev pub on_kind :
    ℕ
    → List (ℕ × Text)
    → (List (ℕ × Text) → Result (List RawLine))
    → LineKind
    → Result (List RawLine)
on_kind num raw more skipped = more raw
on_kind num raw more tabbed = err num tab_indentation
on_kind num raw more (plain l) = more raw >>= λ ls. ok (l ∷ ls)
on_kind num raw more (block l ind) = at_line num (collect_literal_block raw l.indent ind) >>= λ p.
    more p.1 >>= λ ls. ok (record l { literal = some p.0 } ∷ ls)

-- The loop of splitLines.
unfoldable pub lines_from : ℕ → List (ℕ × Text) → Result (List RawLine)
unfolding line_kind collect_literal_block
lines_from fuel [] = ok []
lines_from zero (l ∷ raw) = err 0 out_of_fuel
lines_from (suc fuel) ((num, line) ∷ raw) = on_kind num raw (lines_from fuel) (line_kind num line)

abbrev pub numbered : ℕ → List Text → List (ℕ × Text)
numbered n [] = []
numbered n (l ∷ ls) = (n, l) ∷ numbered (suc n) ls

-- The last part of a text that ends in a newline is no line.
abbrev pub drop_last_empty : List Text → List Text
drop_last_empty [] = []
drop_last_empty ([] ∷ []) = []
drop_last_empty (l ∷ ls) = l ∷ drop_last_empty ls

unfoldable pub split_lines : Text → Result (List RawLine)
unfolding split_on lines_from
split_lines s =
    let raw = numbered 1 (drop_last_empty (split_on b'\n' s)) in lines_from (length raw) raw
