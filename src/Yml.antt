-- ===== src/Yml.antt =====
-- internal/yml/parser.go: quoting, escapes, comments and the splitting of inline values.
pub mod Result
pub mod Lines
pub mod Scalars
pub mod Node
pub mod Blocks
pub mod WellFormed
pub mod Descent
pub mod Total
mod Samples
use gopherd.Prelude.Int.{ℤ, pos, is_zero, increment, decrement}
use gopherd.Prelude.{
  ℕ, zero, suc, eqb, Text, Bool, true, false, ◌&&◌, ◌||◌, not, Option, none, some, List, [], ◌∷◌,
  ◌++◌, if◌then◌else◌,
}

-- The character that an escape stands for; both bytes are kept of one that is not known.
unfoldable pub decode_escape : ℕ → Text
decode_escape c =
    if eqb c b'n'
    then b'\n' ∷ []
    else if eqb c b't'
    then b'\t' ∷ []
    else if eqb c b'r'
    then b'\r' ∷ []
    else if eqb c b'\\'
    then b'\\' ∷ []
    else if eqb c b'"'
    then b'"' ∷ []
    else if eqb c b'\''
    then b'\'' ∷ []
    else b'\\' ∷ c ∷ []

-- The loop of unescapeDouble. Its early return, for a text without a backslash, is that case of it.
unfoldable pub unescape_double : Text → Text
unfolding decode_escape
unescape_double [] = []
unescape_double (c ∷ []) = c ∷ []
unescape_double (c ∷ d ∷ s) =
    let kept = c ∷ unescape_double (d ∷ s) in
    let decoded = decode_escape d ++ unescape_double s in if eqb c b'\\' then decoded else kept

-- The bytes before the last one of `c ∷ s`, and the last one.
unfoldable pub split_last : ℕ → Text → Text × ℕ
split_last c [] = ([], c)
split_last c (d ∷ s) = let (body, last) = split_last d s in (c ∷ body, last)

unfoldable pub unquote : Text → Text
unfolding split_last unescape_double
unquote [] = []
unquote (c ∷ []) = c ∷ []
unquote (q ∷ c ∷ s) =
    let (body, last) = split_last c s in
    if eqb q b'\'' && eqb last b'\''
    then body
    else if eqb q b'"' && eqb last b'"'
    then unescape_double body
    else q ∷ c ∷ s

-- Where a byte of an inline value stands: in quotes, behind a backslash, in brackets.
pub record Scan : Type 0 where
  pub in_quote : Bool
  pub quote_char : ℕ
  pub escaped : Bool
  pub depth : ℤ

abbrev pub outside : Scan
outside = record { in_quote = false; quote_char = 0; escaped = false; depth = pos 0 }

abbrev nest : ℕ → ℤ → ℤ
nest c depth =
    if eqb c b'[' || eqb c b'{'
    then increment depth
    else if eqb c b']' || eqb c b'}'
    then decrement depth
    else depth

-- The state behind a byte, and whether the byte is a comma that splits.
unfoldable pub scan : ℕ → Scan → Scan × Bool
scan c st =
    if st.escaped
    then (record st { escaped = false }, false)
    else if st.in_quote
    then (
      (if eqb c b'\\' && eqb st.quote_char b'"'
          then record st { escaped = true }
          else if eqb c st.quote_char
          then record st { in_quote = false }
          else st),
      false,
    )
    else if eqb c b'"' || eqb c b'\''
    then (record st { in_quote = true; quote_char = c }, false)
    else (record st { depth = nest c st.depth }, eqb c b',' && is_zero (nest c st.depth))

-- The loop of splitCSV, with `current` and `parts`.
unfoldable pub split_from : Scan → Text → List Text → Text → List Text
unfolding scan
split_from st [] parts [] = parts
split_from st (c ∷ current) parts [] = parts ++ (c ∷ current) ∷ []
split_from st current parts (c ∷ s) =
    let (st', splits) = scan c st in
    let next = split_from st' [] (parts ++ current ∷ []) s in
    let same = split_from st' (current ++ c ∷ []) parts s in if splits then next else same

unfoldable pub split_csv : Text → List Text
unfolding split_from
split_csv s = split_from outside [] [] s

-- Nothing, or a space, comes next.
abbrev pub starts_apart : Text → Bool
starts_apart [] = true
starts_apart (d ∷ s) = eqb d b' '

-- findColon, where -1 is `none`.
unfoldable pub find_colon : Text → Option ℕ
find_colon [] = none
find_colon (c ∷ s) =
    let rest = find_colon s in
    if eqb c b':' && starts_apart s
    then some 0
    else elim rest [ none ↦ none | some i ↦ some (suc i) ]

-- stripInlineComment: the text before a '#' that follows a space outside of quotes, without the
-- spaces at its end, or the whole text.
unfoldable pub trim_right : Text → Text
trim_right [] = []
trim_right (c ∷ s) =
    let rest = trim_right s in
    elim rest [ [] ↦ if eqb c b' ' then [] else c ∷ [] | d ∷ t ↦ c ∷ d ∷ t ]

pub record Quotes : Type 0 where
  pub in_single : Bool
  pub in_double : Bool
  pub escaped : Bool

unfoldable pub quote_step : ℕ → Quotes → Quotes
quote_step c q =
    if q.escaped
    then record q { escaped = false }
    else if eqb c b'\\'
    then (if q.in_double then record q { escaped = true } else q)
    else if eqb c b'\''
    then (if q.in_double then q else record q { in_single = not q.in_single })
    else if eqb c b'"'
    then (if q.in_single then q else record q { in_double = not q.in_double })
    else q

-- Where the comment starts: the bytes before it, if there is one. `previous` is the byte before.
unfoldable pub before_comment : Quotes → (previous : ℕ) → Text → Option Text
unfolding quote_step
before_comment q previous [] = none
before_comment q previous (c ∷ s) =
    let rest = before_comment (quote_step c q) c s in
    if eqb c b'#' && (not q.escaped && (not q.in_single && (not q.in_double && eqb previous b' ')))
    then some []
    else elim rest [ none ↦ none | some t ↦ some (c ∷ t) ]

unfoldable pub strip_inline_comment : Text → Text
unfolding before_comment trim_right
strip_inline_comment s =
    elim (before_comment (record { in_single = false; in_double = false; escaped = false }) 0 s) [
      | none ↦ s
      | some t ↦ trim_right t
    ]
