-- ===== src/Config/ParseProcess.antt =====
-- parseProcess of internal/yml/config.go: a process from its node. A map literal that the code ranges
-- over, whose order is open, is gone through in the order in which it is written.
use gopherd.Config.{
  Answers, ConfigError, process_error, Fault, bad_template, bad_startup, relative_condition_path,
  same_condition_path, not_mapping, bad_env_key, bad_exit_key, bad_exit_value, bad_rewrite_source,
  bad_rewrite_target, bad_umask, bad_parent_death_signal, bad_sd_notify_timeout, bad_backoff_factor,
}
use gopherd.DotEnv.{is_valid_env_key}
use gopherd.Prelude.Int.{ℤ}
use gopherd.Prelude.Maps.{Map, insert}
use gopherd.Prelude.Outcome.{Outcome, accept, reject, ◌>>=◌, unless, need}
use gopherd.Prelude.Strings.{trim_space, atoi}
use gopherd.Prelude.{
  ℕ, ltb, Text, codes, ◌==◌, text_discrete, Bool, true, false, ◌&&◌, ◌||◌, not, Option, none, some,
  List, [], ◌∷◌, if◌then◌else◌,
}
use gopherd.Service.Process.{Process, proc_name, parse_exit_code, same_int}
use gopherd.Service.Signals.{parse_signal, signal_name, parse_umask}
use gopherd.Service.Templates.{FileAnswer, TemplateError, expand_refs, contains_braces, is_absolute}
use gopherd.Yml.Node.{
  Node, scalar, mapping, sequence, get, string, strings, string_map, bool, bool_ptr, int_ptr,
}

abbrev or_else : Text → Text → Text
or_else [] other = other
or_else (c ∷ s) other = c ∷ s

-- How an error names a process whose node is not read yet.
abbrev pub label_of : Option Node → Text
label_of n =
    or_else (string (get (codes "name") n))
      (or_else (string (get (codes "command") n)) (codes "(unnamed)"))

-- A reference to a variable that is empty disables the process; an empty text does not.
abbrev pub settled : (raw trimmed : Text) → Text
settled raw [] = if contains_braces raw then codes "disabled" else []
settled raw (c ∷ s) = c ∷ s

abbrev pub is_startup : Text → Bool
is_startup s =
    s == []
    || (s == codes "enabled"
        || (s == codes "disabled" || (s == codes "oneshot" || s == codes "scheduled")))

abbrev pub expanded_or : (label : Text) → Outcome TemplateError Text → Outcome ConfigError Text
expanded_or label (accept s) = accept s
expanded_or label (reject e) = reject (process_error label (bad_template e))

abbrev pub accept_startup : (label startup : Text) → Outcome ConfigError Text
accept_startup label startup =
    unless (not (is_startup startup)) (process_error label bad_startup) (accept startup)

unfoldable pub startup_of :
    (Text → Bool → FileAnswer) → (env : Map Text) → Option Node → Outcome ConfigError Text
unfolding get string expand_refs trim_space text_discrete
startup_of read env n =
    let raw = string (get (codes "startup") n) in
    (expanded_or (label_of n) (expand_refs read env raw) >>= λ s.
    accept_startup (label_of n) (settled raw (trim_space s)))

-- The settings that are only read; the others are filled_in in after they are checked.
unfoldable pub fields_of : Option Node → (startup : Text) → Process
unfolding get string strings string_map bool bool_ptr int_ptr atoi text_discrete
fields_of n startup =
    let text : Text → Text = λ key. string (get key n) in
    let texts : Text → List Text = λ key. strings (get key n) in
    let table : Text → Map Text = λ key. string_map (get key n) in
    let flag : Text → Bool = λ key. bool (get key n) in
    let choice : Text → Option Bool = λ key. bool_ptr (get key n) in
    let number : Text → Option ℤ = λ key. int_ptr atoi (get key n) in
    record {
      user_id = number (codes "user-id");
      group_id = number (codes "group-id");
      environment = table (codes "environment");
      on_check_failure = table (codes "on-check-failure");
      pass_env = choice (codes "pass-env");
      log_capture = choice (codes "log-capture");
      export_socket = choice (codes "export-socket");
      name = text (codes "name");
      command = text (codes "command");
      working_dir = text (codes "working-dir");
      user = text (codes "user");
      group = text (codes "group");
      startup = startup;
      stop_signal = text (codes "stop-signal");
      kill_delay = text (codes "kill-delay");
      on_success = text (codes "on-success");
      on_failure = text (codes "on-failure");
      backoff_delay = text (codes "backoff-delay");
      backoff_limit = text (codes "backoff-limit");
      ready_check = text (codes "ready-check");
      ready_timeout = text (codes "ready-timeout");
      startup_timeout = text (codes "startup-timeout");
      schedule = text (codes "schedule");
      condition_file_exists = text (codes "condition-file-exists");
      condition_file_missing = text (codes "condition-file-missing");
      umask = text (codes "umask");
      dot_env = text (codes "dotenv");
      prefix = text (codes "prefix");
      sd_notify_timeout = text (codes "sd-notify-timeout");
      parent_death_signal = text (codes "parent-death-signal");
      exit_code_map = [];
      signal_rewrite = table (codes "signal-rewrite");
      args = texts (codes "args");
      after = texts (codes "after");
      before = texts (codes "before");
      requires = texts (codes "requires");
      remove_env = texts (codes "remove-env");
      backoff_factor = 0;
      use_entrypoint_args = flag (codes "use-entrypoint-args");
      sd_notify = flag (codes "sd-notify");
      strict_groups = flag (codes "strict-groups");
      dot_env_follow = flag (codes "dotenv-follow");
      restart_with_dependents = flag (codes "restart-with-dependents");
    }

-- A path that is given, and not absolute; and two conditions that cannot both hold.
abbrev pub is_relative : Text → Bool
is_relative [] = false
is_relative (c ∷ s) = not (is_absolute (c ∷ s))

abbrev pub is_same_path : (exists missing : Text) → Bool
is_same_path [] missing = false
is_same_path (c ∷ s) missing = (c ∷ s) == missing

-- requireMapping: a value that is there, and no mapping.
unfoldable pub is_not_mapping : Option Node → Bool
is_not_mapping none = false
is_not_mapping (some (mapping es)) = false
is_not_mapping (some (scalar s)) = true
is_not_mapping (some (sequence ns)) = true

unfoldable pub check_env_keys : (label : Text) → Map Text → Outcome ConfigError (Map Text)
unfolding is_valid_env_key
check_env_keys label [] = accept []
check_env_keys label ((k, v) ∷ m) =
    unless (not (is_valid_env_key k)) (process_error label (bad_env_key k))
      (check_env_keys label m >>= λ rest. accept ((k, v) ∷ rest))

abbrev put_code : ℤ → ℤ → List (ℤ × ℤ) → List (ℤ × ℤ)
put_code k v [] = (k, v) ∷ []
put_code k v ((j, w) ∷ m) = if same_int j k then (j, v) ∷ m else (j, w) ∷ put_code k v m

unfoldable pub exit_codes :
    (label : Text) → Map Text → List (ℤ × ℤ) → Outcome ConfigError (List (ℤ × ℤ))
unfolding parse_exit_code
exit_codes label [] acc = accept acc
exit_codes label ((k, v) ∷ m) acc =
    need (parse_exit_code k) (process_error label (bad_exit_key k)) >>= λ key.
    need (parse_exit_code v) (process_error label (bad_exit_value v)) >>= λ value.
    exit_codes label m (put_code key value acc)

unfoldable pub canonical : (label : Text) → Map Text → Map Text → Outcome ConfigError (Map Text)
unfolding parse_signal signal_name insert
canonical label [] acc = accept acc
canonical label ((k, v) ∷ m) acc =
    need (parse_signal k) (process_error label (bad_rewrite_source k)) >>= λ source.
    need (parse_signal v) (process_error label (bad_rewrite_target v)) >>= λ target.
    canonical label m (insert (signal_name source) (signal_name target) acc)

abbrev pub is_none : {A : Type 0} → Option A → Bool
is_none none = true
is_none (some a) = false

-- A setting that is given, and does not parse.
abbrev pub is_unread : {A : Type 0} → (Text → Option A) → Text → Bool
is_unread parse [] = false
is_unread parse (c ∷ s) = is_none (parse (c ∷ s))

-- The test `!IsNaN(v) && !IsInf(v, 0) && v > 0` on the 64 bits of the number: these are those of the
-- numbers between 0 and the infinity, whose sign bit is clear.
abbrev pub is_positive_finite : ℕ → Bool
is_positive_finite bits = ltb 0 bits && ltb bits 0x7ff0000000000000

unfoldable pub backoff_of : (Text → Option ℕ) → (label : Text) → Text → Outcome ConfigError ℕ
backoff_of parse_float label [] = accept 0
backoff_of parse_float label (c ∷ s) =
    need (parse_float (c ∷ s)) (process_error label bad_backoff_factor) >>= λ bits.
    unless (not (is_positive_finite bits)) (process_error label bad_backoff_factor) (accept bits)

abbrev check_conditions : Process → Outcome ConfigError Process → Outcome ConfigError Process
check_conditions p more =
    let fail : Fault → ConfigError = process_error (proc_name p) in
    unless (is_relative p.condition_file_exists)
      (fail (relative_condition_path (codes "condition-file-exists")))
      (unless (is_relative p.condition_file_missing)
        (fail (relative_condition_path (codes "condition-file-missing")))
        (unless (is_same_path p.condition_file_exists p.condition_file_missing)
          (fail same_condition_path) more))

-- The settings that are checked so that a mistake does not surface before a start.
abbrev check_early :
    (Text → Option ℤ) → Process → Outcome ConfigError Process → Outcome ConfigError Process
check_early parse_duration p more =
    let fail : Fault → ConfigError = process_error (proc_name p) in
    unless (is_unread parse_umask p.umask) (fail bad_umask) (
      unless (is_unread parse_signal p.parent_death_signal) (fail bad_parent_death_signal)
        (unless (is_unread parse_duration p.sd_notify_timeout) (fail bad_sd_notify_timeout) more))

abbrev pub filled_in :
    Process → (exit_code_map : List (ℤ × ℤ)) → (signal_rewrite : Map Text) → (factor : ℕ) → Process
filled_in p exit_code_map signal_rewrite factor = record p {
  exit_code_map = exit_code_map;
  signal_rewrite = signal_rewrite;
  backoff_factor = factor;
}

-- The rest of a process, behind its plain settings.
unfoldable pub complete : Answers → Option Node → Process → Outcome ConfigError Process
unfolding proc_name get string_map string is_not_mapping check_env_keys exit_codes canonical
    parse_umask parse_signal backoff_of text_discrete
complete w n p =
    let label = proc_name p in
    let fail : Fault → ConfigError = process_error label in
    let env_equals = get (codes "condition-env-equals") n in
    let exits = get (codes "exit-code-map") n in
    check_conditions p (
      unless (is_not_mapping env_equals) (fail (not_mapping (codes "condition-env-equals"))) (
        check_env_keys label (string_map env_equals) >>= λ keys.
        unless (is_not_mapping exits) (fail (not_mapping (codes "exit-code-map"))) (
          exit_codes label (string_map exits) [] >>= λ exit_code_map.
          canonical label p.signal_rewrite [] >>= λ signal_rewrite. check_early w.parse_duration p (
            backoff_of w.parse_float label (string (get (codes "backoff-factor") n)) >>= λ factor.
            accept (filled_in p exit_code_map signal_rewrite factor)))))

unfoldable pub parse_process :
    Answers → (env : Map Text) → Option Node → Outcome ConfigError Process
unfolding startup_of fields_of complete
parse_process w env n = startup_of w.read env n >>= λ startup. complete w n (fields_of n startup)
