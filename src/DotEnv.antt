-- ===== src/DotEnv.antt =====
-- service/service.go: the comments, the escapes and the keys of a .env file.
use gopherd.Prelude.{
  ℕ, eqb, leb, Text, Bool, true, false, ◌&&◌, ◌||◌, not, Option, none, some, [], ◌∷◌, ◌++◌,
  if◌then◌else◌, ◌≡◌, refl, arith,
}
use gopherd.Yml.{trim_right}
use gopherd.Yml.Scalars.{escape}

-- The character that an escape stands for: unlike in the configuration, a single quote has none.
unfoldable pub decode_escape : ℕ → Text
decode_escape c =
    if eqb c b'n'
    then b'\n' ∷ []
    else if eqb c b't'
    then b'\t' ∷ []
    else if eqb c b'r'
    then b'\r' ∷ []
    else if eqb c b'\\'
    then b'\\' ∷ []
    else if eqb c b'"'
    then b'"' ∷ []
    else b'\\' ∷ c ∷ []

-- dotenvUnescapeDouble
unfoldable pub dotenv_unescape_double : Text → Text
unfolding decode_escape
dotenv_unescape_double [] = []
dotenv_unescape_double (c ∷ []) = c ∷ []
dotenv_unescape_double (c ∷ d ∷ s) =
    let kept = c ∷ dotenv_unescape_double (d ∷ s) in
    let decoded = decode_escape d ++ dotenv_unescape_double s in
    if eqb c b'\\' then decoded else kept

-- What precedes the comment, if there is one. `previous` is the byte before, and a backslash in
-- double quotes takes the next byte along.
unfoldable pub comment_free : (in_single in_double : Bool) → (previous : ℕ) → Text → Option Text
comment_free in_single in_double previous [] = none
comment_free in_single in_double previous (c ∷ []) =
    if eqb c b'#' && (not in_single && (not in_double && eqb previous b' ')) then some [] else none
comment_free in_single in_double previous (c ∷ d ∷ s) =
    let skip = comment_free in_single in_double d s in
    let single = comment_free (not in_single) in_double c (d ∷ s) in
    let double = comment_free in_single (not in_double) c (d ∷ s) in
    let same = comment_free in_single in_double c (d ∷ s) in
    if eqb c b'\\' && in_double
    then elim skip [ none ↦ none | some t ↦ some (c ∷ d ∷ t) ]
    else if eqb c b'\'' && not in_double
    then elim single [ none ↦ none | some t ↦ some (c ∷ t) ]
    else if eqb c b'"' && not in_single
    then elim double [ none ↦ none | some t ↦ some (c ∷ t) ]
    else if eqb c b'#' && (not in_single && (not in_double && eqb previous b' '))
    then some []
    else elim same [ none ↦ none | some t ↦ some (c ∷ t) ]

unfoldable pub strip_dot_env_comment : Text → Text
unfolding comment_free trim_right
strip_dot_env_comment v = elim (comment_free false false 0 v) [ none ↦ v | some t ↦ trim_right t ]

abbrev is_letter : ℕ → Bool
is_letter c = eqb c b'_' || (leb b'A' c && leb c b'Z' || leb b'a' c && leb c b'z')

abbrev is_digit : ℕ → Bool
is_digit c = leb b'0' c && leb c b'9'

abbrev all_in : Text → Bool
all_in [] = true
all_in (c ∷ s) = (is_letter c || is_digit c) && all_in s

-- IsValidEnvKey
unfoldable pub is_valid_env_key : Text → Bool
is_valid_env_key [] = false
is_valid_env_key (c ∷ s) = is_letter c && all_in s

unescape_plain :
    (c : ℕ) (s : Text)
    → eqb c b'\\' ≡ false
    → dotenv_unescape_double (c ∷ s) ≡ c ∷ dotenv_unescape_double s
unfolding dotenv_unescape_double
unescape_plain c [] h = refl
unescape_plain c (d ∷ s) h = ground arith

-- What a double-quoted value of the configuration is written as is read back from a .env file too.
pub dotenv_unescape_double-escape : (s : Text) → dotenv_unescape_double (escape s) ≡ s
unfolding dotenv_unescape_double decode_escape
dotenv_unescape_double-escape [] = refl
dotenv_unescape_double-escape (c ∷ s) =
    ground (arith, dotenv_unescape_double-escape s, unescape_plain c (escape s))

-- Text with neither a quote nor a '#'.
abbrev pub is_plain : Text → Bool
is_plain [] = true
is_plain (c ∷ s) = not (eqb c b'#' || (eqb c b'"' || eqb c b'\'')) && is_plain s

comment_free_plain :
    (previous : ℕ) (s comment : Text)
    → is_plain s ≡ true
    → comment_free false false previous (s ++ b' ' ∷ b'#' ∷ comment) ≡ some (s ++ b' ' ∷ [])
unfolding comment_free
comment_free_plain previous [] [] h = ground arith
comment_free_plain previous [] (c ∷ comment) h = ground arith
comment_free_plain previous (c ∷ []) comment h =
    ground (arith, comment_free_plain c [] comment refl)
comment_free_plain previous (c ∷ d ∷ s) comment h =
    ground (arith, comment_free_plain c (d ∷ s) comment)

-- A comment behind a space is cut off a value with neither quotes nor a '#', with the spaces before it.
pub strip_dot_env_comment_plain :
    (s comment : Text)
    → is_plain s ≡ true
    → strip_dot_env_comment (s ++ b' ' ∷ b'#' ∷ comment) ≡ trim_right (s ++ b' ' ∷ [])
unfolding strip_dot_env_comment
strip_dot_env_comment_plain s comment h =
    rw (comment_free_plain 0 s comment h, strip_dot_env_comment) refl
