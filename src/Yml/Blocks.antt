-- ===== src/Yml/Blocks.antt =====
-- internal/yml/parser.go: the recursive descent over lines and inline values. `room` is how many
-- levels are left below the depth limit, one more than maxParseDepth - depth, so that no room is
-- depth > maxParseDepth. A position is the list of the lines from there on, `floor` is minIndent + 1.
use gopherd.Prelude.Strings.{has_prefix, drop, take, ends_with, trim_space}
use gopherd.Prelude.{
  ℕ, zero, suc, ◌+◌, ◌-◌, ltb, leb, eqb, Text, ◌==◌, Bool, true, false, ◌&&◌, ◌||◌, not, Option,
  none, some, List, [], ◌∷◌, if◌then◌else◌, length,
}
use gopherd.Yml.{find_colon, split_csv, unquote}
use gopherd.Yml.Lines.{RawLine, split_lines}
use gopherd.Yml.Node.{
  Node, scalar, mapping, sequence, Entries, no_entry, entry, Nodes, no_node, node,
}
use gopherd.Yml.Result.{
  Result, ok, err, ◌>>=◌, at_line, no_colon, duplicate_key, too_deep, unexpected_indentation,
  out_of_fuel,
}

-- maxParseDepth
abbrev pub max_parse_depth : ℕ
max_parse_depth = 64

-- The entries of a mapping that are read so far, the last one first.
abbrev Pairs : Type 0
Pairs = List (Text × Node)

unfoldable pub entries_onto : Pairs → Entries → Entries
entries_onto [] es = es
entries_onto ((key, n) ∷ ps) es = entries_onto ps (entry key n es)

unfoldable pub nodes_onto : List Node → Nodes → Nodes
nodes_onto [] ns = ns
nodes_onto (n ∷ rest) ns = nodes_onto rest (node n ns)

abbrev pub has_key : Text → Pairs → Bool
has_key key [] = false
has_key key ((k, n) ∷ ps) = k == key || has_key key ps

abbrev pub bracketed : ℕ → ℕ → Text → Bool
bracketed open' close [] = false
bracketed open' close (c ∷ s) = eqb c open' && ends_with close (c ∷ s)

-- s[1 : len(s)-1], of a text that is one bracket at least; of a single one Go would panic, but a
-- bracket that opens does not close.
abbrev pub inner : Text → Text
inner s = take (length s - 2) (drop 1 s)

unfoldable pub items_of : List Text → Nodes
unfolding trim_space unquote
items_of [] = no_node
items_of (item ∷ items) = node (scalar (unquote (trim_space item))) (items_of items)

-- An entry of a flow mapping.
abbrev pub split_entry : Text → Option (Text × Text)
split_entry s = elim (find_colon s) [
  | none ↦ none
  | some i ↦ some (unquote (trim_space (take i s)), trim_space (drop (suc i) s))
]

-- The parts of an entry of a flow mapping, before the duplicate check and after it.
abbrev pub add_inline :
    (Text → Result Node) → (Pairs → Result Node) → Pairs → Option (Text × Text) → Result Node
add_inline value more acc none = err 0 no_colon
add_inline value more acc (some (key, v)) =
    if has_key key acc
    then err 0 (duplicate_key key)
    else (value v >>= (λ n. more ((key, n) ∷ acc)))

abbrev pub inline_entry : (Text → Result Node) → (Pairs → Result Node) → Pairs → Text → Result Node
inline_entry value more acc [] = more acc
inline_entry value more acc (c ∷ t) = add_inline value more acc (split_entry (c ∷ t))

-- The loop of parseInlineMap; `value` parses a value one level deeper.
unfoldable pub inline_entries : (Text → Result Node) → List Text → Pairs → Result Node
unfolding find_colon unquote trim_space entries_onto
inline_entries value [] acc = ok (mapping (entries_onto acc no_entry))
inline_entries value (s ∷ ss) acc = inline_entry value (inline_entries value ss) acc (trim_space s)

unfoldable pub parse_scalar : (room : ℕ) → Text → Result Node
unfolding split_csv items_of inline_entries trim_space unquote
parse_scalar zero s = err 0 too_deep
parse_scalar (suc room) s =
    if bracketed b'[' b']' s
    then ok (sequence (items_of (split_csv (inner s))))
    else if bracketed b'{' b'}' s
    then inline_entries (parse_scalar room) (split_csv (inner s)) []
    else ok (scalar (unquote (trim_space s)))

-- isInlineSeqItem
abbrev quoted : Text → Bool
quoted [] = false
quoted (c ∷ []) = false
quoted (c ∷ d ∷ s) = (eqb c b'\'' || eqb c b'"') && ends_with c (d ∷ s)

abbrev has_colon : Text → Bool
has_colon s = elim (find_colon s) [ none ↦ false | some i ↦ true ]

abbrev pub is_item : Text → Bool
is_item s = has_prefix (b'-' ∷ b' ' ∷ []) s

unfoldable pub is_inline_seq_item : Text → Bool
unfolding find_colon
is_inline_seq_item s =
    if is_item s
    then false
    else if bracketed b'{' b'}' s
    then true
    else if not (has_colon s)
    then true
    else quoted s

-- What a level returns: its node, and the lines from where it stopped.
abbrev pub Parsed : Type 0
Parsed = Node × List RawLine

-- The parts of a parser that the loops call: inline values on their level, blocks one level deeper.
pub record Level : Type 0 where
  pub value : Text → Result Node
  pub child : List RawLine → (floor : ℕ) → Result Parsed

abbrev pub is_empty : Text → Bool
is_empty [] = true
is_empty (c ∷ s) = false

-- Whether the next line opens a block below a line of that indentation.
abbrev pub goes_deeper : ℕ → List RawLine → Bool
goes_deeper indent [] = false
goes_deeper indent (l ∷ ls) = ltb indent l.indent

-- The value of a key, and the lines behind it.
unfoldable pub entry_value : Level → RawLine → (rest : Text) → List RawLine → Result Parsed
entry_value level line rest ls = elim (line.literal) [
  | some text ↦ ok (scalar text, ls)
  | none ↦
      if not (is_empty rest)
      then (at_line line.num (level.value rest) >>= (λ n. ok (n, ls)))
      else if goes_deeper line.indent ls
      then level.child ls (suc line.indent)
      else ok (scalar [], ls)
]

abbrev pub stops_mapping : ℕ → Option ℕ → ℕ → Bool
stops_mapping floor none indent = ltb indent floor
stops_mapping floor (some base) indent = not (eqb indent base)

-- A key, by whether it is there already, and a line, by where its colon is; `more` goes on with the
-- lines behind the value.
abbrev pub add_pair :
    Level
    → RawLine
    → (rest key : Text) → List RawLine
    → (List RawLine → Pairs → Result Parsed)
    → Pairs
    → (duplicate : Bool) → Result Parsed
add_pair level line rest key ls more acc true = err line.num (duplicate_key key)
add_pair level line rest key ls more acc false =
    entry_value level line rest ls >>= λ r. more r.1 ((key, r.0) ∷ acc)

abbrev pub mapping_line :
    Level
    → RawLine
    → List RawLine
    → (List RawLine → Pairs → Result Parsed)
    → Pairs
    → Option ℕ
    → Result Parsed
mapping_line level line ls more acc none = err line.num no_colon
mapping_line level line ls more acc (some i) =
    let key = trim_space (take i line.text) in
    add_pair level line (trim_space (drop (suc i) line.text)) key ls more acc (has_key key acc)

-- The loop of parseMapping; `base` is the indentation of its first key.
unfoldable pub mapping_loop :
    Level → ℕ → (floor : ℕ) → (base : Option ℕ) → List RawLine → Pairs → Result Parsed
unfolding entry_value entries_onto find_colon trim_space
mapping_loop level fuel floor base [] acc = ok (mapping (entries_onto acc no_entry), [])
mapping_loop level zero floor base (line ∷ ls) acc = err 0 out_of_fuel
mapping_loop level (suc fuel) floor base (line ∷ ls) acc =
    if stops_mapping floor base line.indent
    then ok (mapping (entries_onto acc no_entry), line ∷ ls)
    else mapping_line level line ls (mapping_loop level fuel line.indent (some line.indent)) acc
        (find_colon line.text)

-- The lines of an item: those that are indented deeper than its marker, and the lines behind them.
unfoldable pub span_deeper : ℕ → List RawLine → List RawLine × List RawLine
span_deeper indent [] = ([], [])
span_deeper indent (l ∷ ls) =
    let (mine, rest) = span_deeper indent ls in
    if leb l.indent indent then ([], l ∷ ls) else (l ∷ mine, rest)

-- An item whose lines are complete has to use them all.
abbrev pub all_used : Parsed → Result Node
all_used (n, []) = ok n
all_used (n, bad ∷ ls) = err bad.num unexpected_indentation

abbrev pub is_literal_item : RawLine → Text → Bool
is_literal_item line item = elim (line.literal) [
  | none ↦ false
  | some t ↦ not (is_item item) && not (has_colon item)
]

abbrev pub literal_of : RawLine → Text
literal_of line = elim (line.literal) [ none ↦ [] | some t ↦ t ]

abbrev pub is_one_line : List RawLine → Bool
is_one_line [] = true
is_one_line (l ∷ ls) = false

-- An item that is no literal block, from its lines below the marker.
unfoldable pub item_value : Level → RawLine → (item : Text) → List RawLine → Result Node
unfolding is_inline_seq_item
item_value level line item mine =
    let indent = line.indent + 2 in
    if is_one_line mine && is_inline_seq_item item
    then at_line line.num (level.value item)
    else level.child (record line { indent = indent; text = item } ∷ mine) indent >>= all_used

unfoldable pub sequence_loop : Level → ℕ → (indent : ℕ) → List RawLine → List Node → Result Parsed
unfolding span_deeper item_value nodes_onto find_colon
sequence_loop level fuel indent [] acc = ok (sequence (nodes_onto acc no_node), [])
sequence_loop level zero indent (line ∷ ls) acc = err 0 out_of_fuel
sequence_loop level (suc fuel) indent (line ∷ ls) acc =
    let item = drop 2 line.text in
    let (mine, rest) = span_deeper indent ls in
    if not (eqb line.indent indent && is_item line.text)
    then ok (sequence (nodes_onto acc no_node), line ∷ ls)
    else if is_literal_item line item
    then sequence_loop level fuel indent ls (scalar (literal_of line) ∷ acc)
    else item_value level line item mine >>= λ n. sequence_loop level fuel indent rest (n ∷ acc)

-- The number of the line that is too deep.
abbrev line_number : List RawLine → ℕ
line_number [] = 0
line_number (l ∷ ls) = l.num

unfoldable pub parse_block : (room : ℕ) → List RawLine → (floor : ℕ) → Result Parsed
unfolding mapping_loop sequence_loop parse_scalar
parse_block zero lines floor = err (line_number lines) too_deep
parse_block (suc room) [] floor = ok (scalar [], [])
parse_block (suc room) (line ∷ ls) floor =
    let level : Level = record { value = parse_scalar (suc room); child = parse_block room } in
    let fuel = suc (length ls) in
    if is_item line.text
    then sequence_loop level fuel line.indent (line ∷ ls) []
    else mapping_loop level fuel floor none (line ∷ ls) []

-- bytes.TrimPrefix of the byte order mark, and the line endings that are or hold a carriage return.
abbrev pub strip_bom : Text → Text
strip_bom s = if has_prefix (0xef ∷ 0xbb ∷ 0xbf ∷ []) s then drop 3 s else s

unfoldable pub normalize : Text → Text
normalize [] = []
normalize (c ∷ []) = (if eqb c b'\r' then b'\n' else c) ∷ []
normalize (c ∷ d ∷ s) =
    let pair = normalize s in
    let rest = normalize (d ∷ s) in
    if eqb c b'\r' then (if eqb d b'\n' then b'\n' ∷ pair else b'\n' ∷ rest) else c ∷ rest

unfoldable pub parse : Text → Result Node
unfolding normalize split_lines parse_block
parse s = do
  lines ← split_lines (normalize (strip_bom s))
  r ← parse_block (suc max_parse_depth) lines 0
  all_used r
