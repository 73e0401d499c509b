-- ===== src/Service/Templates.antt =====
-- service/env.go and service/file_template.go: the placeholders {{.VAR}} and {{file "path"}}. What
-- the file system answers is an argument; the two regular expressions are written out.
use gopherd.Prelude.Maps.{Map, lookup}
use gopherd.Prelude.Outcome.{Outcome, accept, reject, ◌>>=◌, unless}
use gopherd.Prelude.Strings.{has_prefix, drop, take, trim_right_by}
use gopherd.Prelude.{
  ℕ, zero, suc, ◌+◌, ◌-◌, ltb, leb, eqb, Text, codes, Bool, true, false, ◌&&◌, ◌||◌, not, Option,
  none, some, List, [], ◌∷◌, ◌++◌, if◌then◌else◌, length,
}

-- What opening and reading a file gives: it is missing, it cannot be opened, it is no regular file,
-- it cannot be read, or it has this text.
pub data FileAnswer : Type 0 where
  missing_file open_failed irregular read_failed : FileAnswer
  text_of : Text → FileAnswer

pub data TemplateError : Type 0 where
  relative_path unopened not_regular unread too_large has_nul : (path : Text) → TemplateError

-- A placeholder: a file, or a variable; either may have a default.
pub data Ref : Type 0 where
  file_ref : (path : Text) → (trim follow : Bool) → (default : Option Text) → Ref
  var_ref : (name : Text) → (default : Option Text) → Ref

-- The classes \s and \w.
abbrev is_blank_byte : ℕ → Bool
is_blank_byte c = eqb c b' ' || (eqb c b'\t' || (eqb c b'\n' || (eqb c b'\r' || eqb c 0x0c)))

abbrev is_word_byte : ℕ → Bool
is_word_byte c =
    eqb c b'_'
    || (leb b'0' c && leb c b'9' || (leb b'A' c && leb c b'Z' || leb b'a' c && leb c b'z'))

-- The longest begin whose bytes pass a test, and the rest.
unfoldable pub span : (ℕ → Bool) → Text → Text × Text
span p [] = ([], [])
span p (c ∷ s) = let (mine, rest) = span p s in if p c then (c ∷ mine, rest) else ([], c ∷ s)

abbrev skip_blanks : Text → Text
skip_blanks s = (span is_blank_byte s).1

-- The text behind a literal.
abbrev after : Text → Text → Option Text
after lit s = if has_prefix lit s then some (drop (length lit) s) else none

-- The end of a placeholder: an optional default, which cannot hold a brace, and the braces.
abbrev close_with : (Option Text → Ref) → Option Text → Text → Option (Ref × Text)
close_with make default s = elim (after (codes "}}") (skip_blanks s)) [
  | none ↦ none
  | some rest ↦ some (make default, rest)
]

abbrev close_ref : (Option Text → Ref) → Text → Option (Ref × Text)
close_ref make s = elim (after (codes ":-") s) [
  | none ↦ close_with make none s
  | some t ↦
      let (default, rest) = span (λ c. not (eqb c b'}')) t in close_with make (some default) rest
]

-- The modifiers of a file, read until there is none: whether there is a `trim` and a `follow`.
unfoldable pub modifiers : (fuel : ℕ) → (trim follow : Bool) → Text → (Bool × Bool) × Text
unfolding span
modifiers zero trim follow s = ((trim, follow), s)
modifiers (suc fuel) trim follow s =
    let (blanks, t) = span is_blank_byte s in
    let trims = modifiers fuel true follow (drop 4 t) in
    let follows = modifiers fuel trim true (drop 6 t) in
    if eqb (length blanks) 0
    then ((trim, follow), s)
    else if has_prefix (codes "trim") t
    then trims
    else if has_prefix (codes "follow") t
    then follows
    else ((trim, follow), s)

abbrev not_empty : Text → Bool
not_empty [] = false
not_empty (c ∷ s) = true

-- The path of a file, between quotes, with what follows it.
abbrev file_path : Text → Option (Ref × Text)
file_path s =
    let (path, rest) = span (λ c. not (eqb c b'"')) s in
    let ((trim, follow), t) = modifiers (length rest) false false (drop 1 rest) in
    if not_empty path && not_empty rest then close_ref (file_ref path trim follow) t else none

-- A match of fileRe, and one of templateRe, at the begin of the text, with what is behind it.
unfoldable pub match_file : Text → Option (Ref × Text)
unfolding span modifiers
match_file s = elim (after (codes "{{") s) [
  | none ↦ none
  | some t ↦ elim (after (codes "file") (skip_blanks t)) [
    | none ↦ none
    | some u ↦
        let (blanks, v) = span is_blank_byte u in
        if not_empty blanks && has_prefix (codes "\"") v then file_path (drop 1 v) else none
  ]
]

abbrev var_name : Text → Option (Ref × Text)
var_name s =
    let (name, rest) = span is_word_byte s in
    if not_empty name then close_ref (var_ref name) (skip_blanks rest) else none

unfoldable pub match_var : Text → Option (Ref × Text)
unfolding span
match_var s = elim (after (codes "{{") s) [
  | none ↦ none
  | some t ↦ elim (after (codes ".") (skip_blanks t)) [ none ↦ none | some u ↦ var_name u ]
]

-- Where a match begins and ends, and what it refers to.
pub record Loc : Type 0 where
  pub start : ℕ
  pub end : ℕ
  pub ref : Ref

-- FindAllStringSubmatchIndex: `skip` bytes belong to the match before.
unfoldable pub find_all : (Text → Option (Ref × Text)) → (at skip : ℕ) → Text → List Loc
find_all match at skip [] = []
find_all match at (suc skip) (c ∷ s) = find_all match (suc at) skip s
find_all match at zero (c ∷ s) =
    let none_here = find_all match (suc at) 0 s in
    elim (match (c ∷ s)) [
      | none ↦ none_here
      | some (r, rest) ↦
          let n = length (c ∷ s) - length rest in
          record { start = at; end = at + n; ref = r } ∷ find_all match (suc at) (n - 1) s
    ]

abbrev pub insert_loc : Loc → List Loc → List Loc
insert_loc l [] = l ∷ []
insert_loc l (m ∷ ms) = if leb l.start m.start then l ∷ m ∷ ms else m ∷ insert_loc l ms

abbrev pub sort_locs : List Loc → List Loc
sort_locs [] = []
sort_locs (l ∷ ls) = insert_loc l (sort_locs ls)

abbrev pub is_absolute : Text → Bool
is_absolute s = has_prefix (codes "/") s

abbrev pub max_file_size : ℕ
max_file_size = 1048576

abbrev has_zero : Text → Bool
has_zero [] = false
has_zero (c ∷ s) = eqb c 0 || has_zero s

abbrev is_ws : ℕ → Bool
is_ws c = eqb c b' ' || (eqb c b'\t' || (eqb c b'\r' || eqb c b'\n'))

abbrev checked_text : (path : Text) → (trim : Bool) → Text → Outcome TemplateError Text
checked_text path trim s =
    unless (ltb max_file_size (length s)) (too_large path)
      (unless (has_zero s) (has_nul path) (accept (if trim then trim_right_by is_ws s else s)))

-- A default stands in for a file that is missing, and for no other error.
abbrev answered :
    (path : Text) → (trim : Bool) → Option Text → FileAnswer → Outcome TemplateError Text
answered path trim none missing_file = reject (unopened path)
answered path trim (some d) missing_file = accept d
answered path trim default open_failed = reject (unopened path)
answered path trim default irregular = reject (not_regular path)
answered path trim default read_failed = reject (unread path)
answered path trim default (text_of s) = checked_text path trim s

-- readFileTemplate; `read` opens a path, with or without following symbolic links.
unfoldable pub read_file_template :
    (read : Text → Bool → FileAnswer)
    → Text
    → (trim follow : Bool) → Option Text
    → Outcome TemplateError Text
unfolding trim_right_by
read_file_template read path trim follow default =
    unless (not (is_absolute path)) (relative_path path)
      (answered path trim default (read path follow))

-- The value of a variable: its default if it is not set or empty.
abbrev var_value : Option Text → (value : Option Text) → Text
var_value none none = []
var_value none (some v) = v
var_value (some d) none = d
var_value (some d) (some []) = d
var_value (some d) (some (c ∷ v)) = c ∷ v

unfoldable pub ref_value :
    (read : Text → Bool → FileAnswer) → (env : Map Text) → Ref → Outcome TemplateError Text
unfolding read_file_template lookup
ref_value read env (file_ref path trim follow default) =
    read_file_template read path trim follow default
ref_value read env (var_ref name default) = accept (var_value default (lookup name env))

-- The loop over the sorted matches; `prev` is the end of the last one that was replaced.
unfoldable pub splice :
    (Ref → Outcome TemplateError Text) → Text → List Loc → (prev : ℕ) → Outcome TemplateError Text
splice value s [] prev = accept (drop prev s)
splice value s (l ∷ ls) prev =
    let skipped = splice value s ls prev in
    if ltb l.start prev
    then skipped
    else (value l.ref >>= λ v. splice value s ls l.end >>= λ rest.
        accept (take (l.start - prev) (drop prev s) ++ v ++ rest))

abbrev pub contains_braces : Text → Bool
contains_braces [] = false
contains_braces (c ∷ s) = has_prefix (codes "{{") (c ∷ s) || contains_braces s

-- ExpandRefs: both kinds in one pass.
unfoldable pub expand_refs :
    (read : Text → Bool → FileAnswer) → (env : Map Text) → Text → Outcome TemplateError Text
unfolding find_all match_file match_var splice ref_value
expand_refs read env s =
    if contains_braces s
    then splice (ref_value read env) s
        (sort_locs (find_all match_file 0 0 s ++ find_all match_var 0 0 s)) 0
    else accept s

-- ExpandFileRefs and ExpandEnvRefs: one kind alone.
unfoldable pub expand_file_refs :
    (read : Text → Bool → FileAnswer) → Text → Outcome TemplateError Text
unfolding find_all match_file splice ref_value
expand_file_refs read s =
    if contains_braces s
    then splice (ref_value read []) s (find_all match_file 0 0 s) 0
    else accept s

unfoldable pub expand_env_refs : (env : Map Text) → Text → Outcome TemplateError Text
unfolding find_all match_var splice ref_value
expand_env_refs env s =
    if contains_braces s
    then splice (ref_value (λ p f. missing_file) env) s (find_all match_var 0 0 s) 0
    else accept s
