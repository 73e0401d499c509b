-- ===== src/Service/Process.antt =====
-- The Process of service/service.go, the configuration of a process; what a reload compares of it
-- (processConfigChanged of daemon.go); and what the configuration (internal/yml/config.go) makes of
-- processes that are excluded and of exit codes.
use gopherd.Prelude.Int.{ℤ, pos, negsuc}
use gopherd.Prelude.Maps.{Map, lookup}
use gopherd.Prelude.Strings.{trim_space, atoi}
use gopherd.Prelude.{
  ℕ, ◌+◌, eqb, Text, ◌==◌, text_discrete, Bool, true, false, ◌&&◌, ◌||◌, not, Option, none, some,
  List, [], ◌∷◌, if◌then◌else◌, length, contains, select,
}
use gopherd.Service.Signals.{parse_signal}

-- A pointer is an option, and a backoff factor stands by its 64 bits.
pub record Process : Type 0 where
  pub user_id : Option ℤ
  pub group_id : Option ℤ
  pub environment : Map Text
  pub on_check_failure : Map Text
  pub pass_env : Option Bool
  pub log_capture : Option Bool
  pub export_socket : Option Bool
  pub name : Text
  pub command : Text
  pub working_dir : Text
  pub user : Text
  pub group : Text
  pub startup : Text
  pub stop_signal : Text
  pub kill_delay : Text
  pub on_success : Text
  pub on_failure : Text
  pub backoff_delay : Text
  pub backoff_limit : Text
  pub ready_check : Text
  pub ready_timeout : Text
  pub startup_timeout : Text
  pub schedule : Text
  pub condition_file_exists : Text
  pub condition_file_missing : Text
  pub umask : Text
  pub dot_env : Text
  pub prefix : Text
  pub sd_notify_timeout : Text
  pub parent_death_signal : Text
  pub exit_code_map : List (ℤ × ℤ)
  pub signal_rewrite : Map Text
  pub args : List Text
  pub after : List Text
  pub before : List Text
  pub requires : List Text
  pub remove_env : List Text
  pub backoff_factor : ℕ
  pub use_entrypoint_args : Bool
  pub sd_notify : Bool
  pub strict_groups : Bool
  pub dot_env_follow : Bool
  pub restart_with_dependents : Bool

abbrev same_bool : Bool → Bool → Bool
same_bool true b = b
same_bool false b = not b

abbrev pub same_int : ℤ → ℤ → Bool
same_int (pos a) (pos b) = eqb a b
same_int (negsuc a) (negsuc b) = eqb a b
same_int (pos a) (negsuc b) = false
same_int (negsuc a) (pos b) = false

-- intPtrDiffers and boolPtrDiffers
abbrev int_ptr_differs : Option ℤ → Option ℤ → Bool
int_ptr_differs none none = false
int_ptr_differs (some a) (some b) = not (same_int a b)
int_ptr_differs none (some b) = true
int_ptr_differs (some a) none = true

abbrev bool_ptr_differs : Option Bool → Option Bool → Bool
bool_ptr_differs none none = false
bool_ptr_differs (some a) (some b) = not (same_bool a b)
bool_ptr_differs none (some b) = true
bool_ptr_differs (some a) none = true

-- slices.Equal and maps.Equal
abbrev same_texts : List Text → List Text → Bool
same_texts [] [] = true
same_texts (s ∷ ss) (t ∷ ts) = s == t && same_texts ss ts
same_texts [] (t ∷ ts) = false
same_texts (s ∷ ss) [] = false

abbrev found_in : Text → Option Text → Bool
found_in v none = false
found_in v (some w) = v == w

abbrev all_found : Map Text → Map Text → Bool
all_found [] n = true
all_found ((k, v) ∷ m) n = found_in v (lookup k n) && all_found m n

abbrev same_map : Map Text → Map Text → Bool
same_map m n = eqb (length m) (length n) && all_found m n

abbrev any_of : List Bool → Bool
any_of [] = false
any_of (b ∷ bs) = b || any_of bs

unfoldable pub process_config_changed : (old new : Process) → Bool
unfolding lookup text_discrete
process_config_changed old new = any_of (
    not (old.prefix == new.prefix)
    ∷ not (old.startup == new.startup)
    ∷ not (old.command == new.command)
    ∷ not (same_texts old.args new.args)
    ∷ not (old.user == new.user)
    ∷ not (old.group == new.group)
    ∷ int_ptr_differs old.user_id new.user_id
    ∷ int_ptr_differs old.group_id new.group_id
    ∷ not (old.umask == new.umask)
    ∷ not (same_bool old.strict_groups new.strict_groups)
    ∷ not (old.working_dir == new.working_dir)
    ∷ not (old.stop_signal == new.stop_signal)
    ∷ bool_ptr_differs old.pass_env new.pass_env
    ∷ bool_ptr_differs old.log_capture new.log_capture
    ∷ bool_ptr_differs old.export_socket new.export_socket
    ∷ not (same_map old.environment new.environment)
    ∷ not (same_texts old.remove_env new.remove_env)
    ∷ not (old.dot_env == new.dot_env)
    ∷ not (same_bool old.dot_env_follow new.dot_env_follow)
    ∷ not (old.ready_check == new.ready_check)
    ∷ not (old.ready_timeout == new.ready_timeout)
    ∷ not (old.kill_delay == new.kill_delay)
    ∷ not (same_bool old.sd_notify new.sd_notify)
    ∷ not (old.sd_notify_timeout == new.sd_notify_timeout)
    ∷ not (old.parent_death_signal == new.parent_death_signal)
    ∷ [])

-- procName
abbrev or_command : Text → Text → Text
or_command [] command = command
or_command (c ∷ name) command = c ∷ name

unfoldable pub proc_name : Process → Text
proc_name p = or_command p.name p.command

-- excludeProcesses: `excluded` holds the names that are mapped to true.
abbrev pub strip : List Text → List Text → List Text
strip excluded deps = select (λ d. not (contains excluded d)) deps

abbrev pub stripped : List Text → Process → Process
stripped excluded p = record p {
  after = strip excluded p.after;
  before = strip excluded p.before;
  requires = strip excluded p.requires;
}

unfoldable pub exclude_processes : List Process → (excluded : List Text) → List Process
unfolding proc_name contains
exclude_processes [] excluded = []
exclude_processes (p ∷ ps) excluded =
    let rest = exclude_processes ps excluded in
    if contains excluded (proc_name p) then rest else stripped excluded p ∷ rest

-- parseExitCode: a number, or a signal as 128 and its number.
abbrev code_of_signal : Option ℕ → Option ℤ
code_of_signal none = none
code_of_signal (some sig) = some (pos (128 + sig))

abbrev number_or_signal : Option ℤ → Text → Option ℤ
number_or_signal (some v) s = some v
number_or_signal none s = code_of_signal (parse_signal s)

abbrev exit_code_of : Text → Option ℤ
exit_code_of [] = none
exit_code_of (c ∷ s) = number_or_signal (atoi (c ∷ s)) (c ∷ s)

unfoldable pub parse_exit_code : Text → Option ℤ
unfolding trim_space atoi parse_signal
parse_exit_code s = exit_code_of (trim_space s)
