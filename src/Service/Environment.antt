-- ===== src/Service/Environment.antt =====
-- parseDotEnv and buildEnvMap of service/service.go: the environment of a child. What the operating
-- system answers to the opening of the file is an argument.
use gopherd.DotEnv.{dotenv_unescape_double, strip_dot_env_comment, is_valid_env_key}
use gopherd.Prelude.Maps.{Map, lookup, insert}
use gopherd.Prelude.Outcome.{Outcome, accept, reject, ◌>>=◌, unless, need}
use gopherd.Prelude.Strings.{has_prefix, drop, take, ends_with, trim_space, split_on, cut}
use gopherd.Prelude.{
  ℕ, ◌-◌, ◌/◌, ◌%◌, ltb, eqb, Text, Bool, true, ◌&&◌, not, Option, none, some, List, [], ◌∷◌,
  if◌then◌else◌, length, ◌≡◌,
}

-- A file that is open: what Stat says of it, and its text if it can be read.
pub record OpenFile : Type 0 where
  pub regular : Bool
  pub mode : ℕ
  pub uid : ℕ
  pub content : Option Text

pub data DotEnvError : Type 0 where
  unopened not_regular world_writable foreign_owner unread too_large : DotEnvError
  bad_key : (key : Text) → DotEnvError

-- maxDotEnvSize
abbrev max_dot_env_size : ℕ
max_dot_env_size = 1048576

-- mode & 0o002
abbrev for_all_writable : ℕ → Bool
for_all_writable mode = eqb ((mode / 2) % 2) 1

-- The text of a file that may be read; the log of a file that its group can write is left out.
unfoldable pub trusted_text : (euid : ℕ) → Option OpenFile → Outcome DotEnvError Text
trusted_text euid none = reject unopened
trusted_text euid (some f) = unless (not f.regular) not_regular (
    unless (for_all_writable f.mode) world_writable (
      unless (not (eqb f.uid 0) && not (eqb f.uid euid)) foreign_owner (
        need f.content unread >>= λ text.
        unless (ltb max_dot_env_size (length text)) too_large (accept text))))

abbrev byte_order_mark : Text
byte_order_mark = 0xef ∷ 0xbb ∷ 0xbf ∷ []

abbrev without_mark : Text → Text
without_mark s = if has_prefix byte_order_mark s then drop 3 s else s

abbrev quoted_by : ℕ → Text → Bool
quoted_by q s = ltb 1 (length s) && (has_prefix (q ∷ []) s && ends_with q s)

abbrev between : Text → Text
between s = take (length s - 2) (drop 1 s)

-- The value of an entry, without its comment and its quotes.
unfoldable pub dot_env_value : Text → Text
unfolding trim_space strip_dot_env_comment dotenv_unescape_double
dot_env_value raw =
    let v = strip_dot_env_comment (trim_space raw) in
    if quoted_by b'"' v
    then dotenv_unescape_double (between v)
    else if quoted_by b'\'' v
    then between v
    else v

-- The parts of a line around its first =, and what becomes of them; `more` reads the other lines.
abbrev add_entry :
    (more : Map Text → Outcome DotEnvError (Map Text))
    → Map Text
    → (key value : Text) → Outcome DotEnvError (Map Text)
add_entry more env [] value = more env
add_entry more env (c ∷ key) value =
    unless (not (is_valid_env_key (c ∷ key))) (bad_key (c ∷ key))
      (more (insert (c ∷ key) (dot_env_value value) env))

abbrev read_entry :
    (more : Map Text → Outcome DotEnvError (Map Text))
    → Map Text
    → Option (Text × Text)
    → Outcome DotEnvError (Map Text)
read_entry more env none = more env
read_entry more env (some (key, value)) = add_entry more env (trim_space key) value

abbrev read_line :
    (more : Map Text → Outcome DotEnvError (Map Text))
    → Map Text
    → Text
    → Outcome DotEnvError (Map Text)
read_line more env [] = more env
read_line more env (c ∷ line) =
    let entry = read_entry more env (cut b'=' (c ∷ line)) in if eqb c b'#' then more env else entry

unfoldable pub read_lines : List Text → Map Text → Outcome DotEnvError (Map Text)
unfolding trim_space cut insert is_valid_env_key dot_env_value
read_lines [] env = accept env
read_lines (line ∷ lines) env = read_line (read_lines lines) env (trim_space line)

unfoldable pub parse_dot_env : (euid : ℕ) → Option OpenFile → Outcome DotEnvError (Map Text)
unfolding trusted_text read_lines split_on
parse_dot_env euid file =
    trusted_text euid file >>= λ text. read_lines (split_on b'\n' (without_mark text)) []

-- The variables that are inherited: the last value of each, and none with an empty name.
abbrev inherit_entry : Option (Text × Text) → Map Text → Map Text
inherit_entry none env = env
inherit_entry (some ([], v)) env = env
inherit_entry (some (c ∷ k, v)) env = insert (c ∷ k) v env

unfoldable pub inherited_from : List Text → Map Text → Map Text
unfolding cut insert
inherited_from [] env = env
inherited_from (e ∷ es) env = inherited_from es (inherit_entry (cut b'=' e) env)

-- The entries of one map written over another; as the keys of a Go map are different, the order in
-- which they are written makes no difference.
abbrev written_over : Map Text → Map Text → Map Text
written_over [] env = env
written_over ((k, v) ∷ m) env = insert k v (written_over m env)

abbrev marked : Map Text → Map Bool → Map Bool
marked [] keys = keys
marked ((k, v) ∷ m) keys = insert k true (marked m keys)

-- The .env file, if one is configured.
abbrev pub dot_env_of :
    (euid : ℕ)
    → (path : Text) → (open_file : Text → Option OpenFile) → Outcome DotEnvError (Map Text)
dot_env_of euid [] open_file = accept []
dot_env_of euid (c ∷ path) open_file = parse_dot_env euid (open_file (c ∷ path))

-- The environment, and the keys whose values may hold placeholders.
unfoldable pub build_env_map :
    (euid : ℕ)
    → (environ : List Text) → (open_file : Text → Option OpenFile) → (path : Text)
    → (proc_env : Map Text) → (pass_env : Bool) → Outcome DotEnvError (Map Text × Map Bool)
unfolding parse_dot_env inherited_from insert
build_env_map euid environ open_file path proc_env pass_env =
    dot_env_of euid path open_file >>= λ dotenv.
    let inherited = if pass_env then inherited_from environ [] else [] in
    accept
      (written_over proc_env (written_over dotenv inherited), marked proc_env (marked dotenv []))

abbrev pub or_below : {A : Type 0} → Option A → Option A → Option A
or_below none below = below
or_below (some a) below = some a

abbrev pub true_if : Option Text → Option Bool
true_if none = none
true_if (some v) = some true

-- What a child gets, given the entries of its .env file: its own settings win over these, and these over
-- what is inherited; placeholders are looked for only in values that gopherd's environment did not give.
abbrev pub IsLayered : (inherited dotenv proc_env : Map Text) → Map Text × Map Bool → Type 0
IsLayered inherited dotenv proc_env (env, user_keys) =
    (k : Text)
    → (lookup k env
        ≡ or_below (lookup k proc_env) (or_below (lookup k dotenv) (lookup k inherited)))
      × (lookup k user_keys ≡ or_below (true_if (lookup k proc_env)) (true_if (lookup k dotenv)))
