-- ===== src/Config.antt =====
-- internal/yml/config.go: the configuration and what is refused of it. An error is its reason and the
-- name in it, without the rendered text; what the program asks of its surroundings while it loads a
-- configuration is a record of answers.
use gopherd.Prelude.Int.{ℤ}
use gopherd.Prelude.Maps.{Map, insert}
use gopherd.Prelude.Strings.{cut}
use gopherd.Prelude.{ℕ, Text, codes, Bool, Option, none, some, List, [], ◌∷◌}
use gopherd.Cron.{CronError}
use gopherd.Service.Process.{Process}
use gopherd.Service.Templates.{FileAnswer, TemplateError}
use gopherd.Yml.Result.{Reason}
pub mod Accepted
pub mod Conditions
pub mod Kept
pub mod Load
pub mod Orphans
pub mod Parsed
pub mod ParseProcess
mod Samples
pub mod Shutdown
pub mod Valid
pub mod Validate

-- time.ParseDuration with `none` for its errors, and strconv.ParseFloat, which gives 64 bits.
pub record Answers : Type 0 where
  pub environ : List Text
  pub read : Text → Bool → FileAnswer
  pub parse_duration : Text → Option ℤ
  pub parse_float : Text → Option ℕ

-- envFromOS: a variable that comes twice has its last value.
abbrev add_pair_of : Option (Text × Text) → Map Text → Map Text
add_pair_of none m = m
add_pair_of (some (k, v)) m = insert k v m

unfoldable pub env_onto : List Text → Map Text → Map Text
unfolding cut insert
env_onto [] m = m
env_onto (e ∷ es) m = env_onto es (add_pair_of (cut b'=' e) m)

abbrev pub env_from_os : Answers → Map Text
env_from_os w = env_onto w.environ []

-- What is wrong with a process; a `key` is one of its settings.
pub data Fault : Type 0 where
  bad_template : TemplateError → Fault
  bad_startup same_condition_path bad_umask bad_parent_death_signal bad_sd_notify_timeout
        bad_backoff_factor :
      Fault
  relative_condition_path not_mapping : (key : Text) → Fault
  bad_env_key bad_exit_key bad_exit_value bad_rewrite_source bad_rewrite_target :
      (text : Text) → Fault
  no_command name_with_space bad_on_success bad_on_failure bad_stop_signal : Fault
  bad_check_action : (check : Text) → Fault
  reserved_signal : (key : Text) → Fault
  no_schedule success_of_scheduled failure_of_scheduled backoff_of_scheduled order_of_scheduled
        bad_startup_timeout stray_schedule :
      Fault
  bad_schedule : CronError → Fault
  after_scheduled : (dep : Text) → Fault

pub data CheckFault : Type 0 where
  bad_threshold bad_port : CheckFault

pub data ConfigError : Type 0 where
  bad_yaml : (line : ℕ) → Reason → ConfigError
  bad_init_stop_signal uncatchable_signal : (name : Text) → ConfigError
  bad_shutdown_order bad_socket_mode no_processes : ConfigError
  process_error : (name : Text) → Fault → ConfigError
  check_error : (name : Text) → CheckFault → ConfigError

-- Config of check/check.go and its parts.
pub record HttpProbe : Type 0 where
  pub url : Text
  pub socket : Text

pub record TcpProbe : Type 0 where
  pub host : Text
  pub port : ℤ

pub record ExecProbe : Type 0 where
  pub command : Text
  pub args : List Text

pub record CheckConfig : Type 0 where
  pub http : Option HttpProbe
  pub tcp : Option TcpProbe
  pub exec : Option ExecProbe
  pub period : Text
  pub timeout : Text
  pub initial_delay : Text
  pub threshold : ℤ

-- TargetConfig of internal/logger/target.go
pub record TargetConfig : Type 0 where
  pub labels : Map Text
  pub kind : Text
  pub location : Text
  pub max_size : Text
  pub services : List Text
  pub max_files : ℤ
  pub compress : Bool

-- Config of control/server.go
pub record ControlConfig : Type 0 where
  pub socket_path : Text
  pub socket_mode : ℕ

-- Why a process is excluded, and by which processes a dropped check was used.
pub record Exclusion : Type 0 where
  pub name : Text
  pub variable : Text
  pub wanted : Text

pub record DroppedCheck : Type 0 where
  pub name : Text
  pub users : List Text

pub record Config : Type 0 where
  pub checks : Map CheckConfig
  pub log_targets : Map TargetConfig
  pub excluded : List Exclusion
  pub excluded_checks : List DroppedCheck
  pub prefix : Text
  pub pass_env : Option Bool
  pub log_capture : Option Bool
  pub export_socket : Option Bool
  pub shutdown_order : Text
  pub init_stop_signal : List Text
  pub control : ControlConfig
  pub processes : List Process
  pub no_logo : Bool
  pub subreaper : Bool

-- The names of the orders in which services are stopped.
abbrev pub shutdown_reverse_dep : Text
shutdown_reverse_dep = codes "reverse-dep"

abbrev pub shutdown_dep : Text
shutdown_dep = codes "dep"

abbrev pub shutdown_simultaneous : Text
shutdown_simultaneous = codes "simultaneous"
