-- ===== src/Config/Load.antt =====
-- Unmarshal, parseCheck and parseLogTarget of internal/yml/config.go: a configuration from its text.
use gopherd.Config.{
  Answers, env_from_os, Config, CheckConfig, HttpProbe, TcpProbe, ExecProbe, TargetConfig,
  ControlConfig, Exclusion, ConfigError, bad_yaml, bad_init_stop_signal, uncatchable_signal,
  bad_shutdown_order, bad_socket_mode, no_processes, check_error, CheckFault, bad_threshold,
  bad_port, shutdown_reverse_dep, shutdown_dep, shutdown_simultaneous, env_onto,
}
use gopherd.Config.Conditions.{condition_env_unmet, exclude_orphaned_checks}
use gopherd.Config.ParseProcess.{parse_process}
use gopherd.Config.Validate.{shutdown_signals, scheduled_set, validate, is_nil}
use gopherd.Prelude.Int.{ℤ, pos}
use gopherd.Prelude.Maps.{Map, insert}
use gopherd.Prelude.Outcome.{Outcome, accept, reject, ◌>>=◌, unless, need}
use gopherd.Prelude.Strings.{atoi}
use gopherd.Prelude.{
  ℕ, ltb, eqb, ◌^◌, Text, codes, ◌==◌, text_discrete, Bool, ◌||◌, not, Option, none, some, List, [],
  ◌∷◌, if◌then◌else◌,
}
use gopherd.Service.Process.{Process, proc_name, exclude_processes}
use gopherd.Service.Signals.{parse_signal, octal_from}
use gopherd.Yml.Blocks.{parse}
use gopherd.Yml.Node.{
  Node, get, string, strings, string_map, bool, bool_ptr, int_ptr, entries, items,
}
use gopherd.Yml.Result.{Result, ok, err}

-- A signal that triggers the shutdown: neither SIGKILL nor SIGSTOP.
abbrev pub catchable : (name : Text) → Option ℕ → Outcome ConfigError ℕ
catchable name none = reject (bad_init_stop_signal name)
catchable name (some sig) = unless (eqb sig 9 || eqb sig 19) (uncatchable_signal name) (accept sig)

unfoldable pub check_stop_signals : List Text → Outcome ConfigError (List Text)
unfolding parse_signal
check_stop_signals [] = accept []
check_stop_signals (name ∷ names) = catchable name (parse_signal name) >>= λ sig.
    check_stop_signals names >>= λ rest. accept (name ∷ rest)

abbrev pub is_order : Text → Bool
is_order s =
    s == [] || (s == shutdown_reverse_dep || (s == shutdown_dep || s == shutdown_simultaneous))

-- strconv.ParseUint(s, 8, 32)
abbrev below_32 : Option ℕ → Option ℕ
below_32 none = none
below_32 (some n) = if ltb n (2 ^ 32) then some n else none

abbrev mode_of : Text → Outcome ConfigError ℕ
mode_of [] = accept 0
mode_of (c ∷ s) = need (below_32 (octal_from 0 (c ∷ s))) bad_socket_mode

unfoldable pub control_of : Option Node → Outcome ConfigError ControlConfig
unfolding get string octal_from text_discrete
control_of n = mode_of (string (get (codes "socket-mode") n)) >>= λ mode.
    accept (record { socket_path = string (get (codes "socket") n); socket_mode = mode })

-- A setting of the configuration that a process does not set.
abbrev inherited : {A : Type 0} → Option A → Option A → Option A
inherited none global = global
inherited (some own) global = some own

abbrev pub with_defaults : (root : Option Node) → Process → Process
with_defaults root p = record p {
  pass_env = inherited p.pass_env (bool_ptr (get (codes "pass-env") root));
  log_capture = inherited p.log_capture (bool_ptr (get (codes "log-capture") root));
  export_socket = inherited p.export_socket (bool_ptr (get (codes "export-socket") root));
}

abbrev pub add_exclusion : Option Exclusion → List Exclusion → List Exclusion
add_exclusion none xs = xs
add_exclusion (some x) xs = x ∷ xs

-- The loop over the processes: those that are read, and which of them are excluded.
unfoldable pub parse_processes :
    Answers
    → (env : Map Text) → (root : Option Node) → List Node
    → Outcome ConfigError (List Process × List Exclusion)
unfolding parse_process condition_env_unmet get string_map bool_ptr proc_name text_discrete
parse_processes w env root [] = accept ([], [])
parse_processes w env root (n ∷ ns) = parse_process w env (some n) >>= λ p.
    parse_processes w env root ns >>= λ rest.
    let wanted = string_map (get (codes "condition-env-equals") (some n)) in
    accept (
      with_defaults root p ∷ rest.0,
      add_exclusion (condition_env_unmet env wanted (proc_name p)) rest.1,
    )

abbrev number_or : (fault : CheckFault) → Text → Outcome CheckFault ℤ
number_or fault [] = accept (pos 0)
number_or fault (c ∷ s) = need (atoi (c ∷ s)) fault

abbrev http_of : Option Node → Option HttpProbe
http_of none = none
http_of (some h) = some (record {
  url = string (get (codes "url") (some h));
  socket = string (get (codes "socket") (some h));
})

abbrev tcp_of : Option Node → Outcome CheckFault (Option TcpProbe)
tcp_of none = accept none
tcp_of (some t) = number_or bad_port (string (get (codes "port") (some t))) >>= λ port.
    accept (some (record { host = string (get (codes "host") (some t)); port = port }))

abbrev exec_of : Option Node → Option ExecProbe
exec_of none = none
exec_of (some e) = some (record {
  command = string (get (codes "command") (some e));
  args = strings (get (codes "args") (some e));
})

unfoldable pub parse_check : Option Node → Outcome CheckFault CheckConfig
unfolding get string strings atoi text_discrete
parse_check n = number_or bad_threshold (string (get (codes "threshold") n)) >>= λ threshold.
    tcp_of (get (codes "tcp") n) >>= λ tcp. accept (record {
      http = http_of (get (codes "http") n);
      tcp = tcp;
      exec = exec_of (get (codes "exec") n);
      period = string (get (codes "period") n);
      timeout = string (get (codes "timeout") n);
      initial_delay = string (get (codes "initial-delay") n);
      threshold = threshold;
    })

abbrev in_check : (name : Text) → Outcome CheckFault CheckConfig → Outcome ConfigError CheckConfig
in_check name (accept c) = accept c
in_check name (reject e) = reject (check_error name e)

unfoldable pub parse_checks :
    List (Text × Node) → Map CheckConfig → Outcome ConfigError (Map CheckConfig)
unfolding parse_check insert
parse_checks [] checks = accept checks
parse_checks ((name, n) ∷ es) checks =
    in_check name (parse_check (some n)) >>= λ c. parse_checks es (insert name c checks)

abbrev number_of : Option ℤ → ℤ
number_of none = pos 0
number_of (some n) = n

unfoldable pub parse_log_target : Option Node → TargetConfig
unfolding get string strings string_map bool int_ptr atoi text_discrete
parse_log_target n = record {
  labels = string_map (get (codes "labels") n);
  kind = string (get (codes "type") n);
  location = string (get (codes "location") n);
  max_size = string (get (codes "max-size") n);
  services = strings (get (codes "services") n);
  max_files = number_of (int_ptr atoi (get (codes "max-files") n));
  compress = bool (get (codes "compress") n);
}

unfoldable pub parse_log_targets : List (Text × Node) → Map TargetConfig → Map TargetConfig
unfolding parse_log_target insert
parse_log_targets [] targets = targets
parse_log_targets ((name, n) ∷ es) targets =
    parse_log_targets es (insert name (parse_log_target (some n)) targets)

-- The checks of all processes, before any of them is excluded.
unfoldable pub validate_all :
    (Text → Option ℤ)
    → (shutdown : List ℕ) → (scheduled : List Text) → List Process
    → Outcome ConfigError (List Process)
unfolding validate
validate_all parse_duration shutdown scheduled [] = accept []
validate_all parse_duration shutdown scheduled (p ∷ ps) =
    validate parse_duration shutdown scheduled p >>= λ q.
    validate_all parse_duration shutdown scheduled ps >>= λ rest. accept (q ∷ rest)

abbrev pub excluded_names : List Exclusion → List Text
excluded_names [] = []
excluded_names (x ∷ xs) = x.name ∷ excluded_names xs

-- What is left of the configuration without the processes that are excluded.
unfoldable pub exclude : Config → Config
unfolding exclude_orphaned_checks exclude_processes
exclude c =
    let kept = exclude_orphaned_checks c.processes c.checks (excluded_names c.excluded) in
    if is_nil c.excluded then c else record c {
      checks = kept.0;
      excluded_checks = kept.1;
      processes = exclude_processes c.processes (excluded_names c.excluded);
    }

-- The configuration that is read, with all its processes.
unfoldable pub read_config : Answers → Option Node → Outcome ConfigError Config
unfolding env_onto get string strings bool bool_ptr entries items check_stop_signals control_of
    parse_processes parse_checks parse_log_targets text_discrete
read_config w root =
    let signals = strings (get (codes "init-stop-signal") root) in
    let order = string (get (codes "shutdown-order") root) in
    check_stop_signals signals >>= λ init_stop_signal.
    unless (not (is_order order)) bad_shutdown_order (
      control_of (get (codes "control") root) >>= λ control.
      parse_processes w (env_from_os w) root (items (get (codes "processes") root)) >>= λ read.
      parse_checks (entries (get (codes "checks") root)) [] >>= λ checks.
      unless (is_nil read.0) no_processes (
        accept (record {
          checks = checks;
          log_targets = parse_log_targets (entries (get (codes "log-targets") root)) [];
          excluded = read.1;
          excluded_checks = [];
          prefix = string (get (codes "prefix") root);
          pass_env = bool_ptr (get (codes "pass-env") root);
          log_capture = bool_ptr (get (codes "log-capture") root);
          export_socket = bool_ptr (get (codes "export-socket") root);
          shutdown_order = order;
          init_stop_signal = init_stop_signal;
          control = control;
          processes = read.0;
          no_logo = bool (get (codes "no-logo") root);
          subreaper = bool (get (codes "subreaper") root);
        })))

-- What is checked of it, and the exclusion.
unfoldable pub settle_config : Answers → Config → Outcome ConfigError Config
unfolding shutdown_signals scheduled_set validate_all exclude
settle_config w c =
    validate_all w.parse_duration (shutdown_signals c.init_stop_signal) (scheduled_set c.processes)
      c.processes
    >>= λ ps. accept (exclude c)

abbrev pub root_of : Result Node → Outcome ConfigError Node
root_of (ok n) = accept n
root_of (err line why) = reject (bad_yaml line why)

unfoldable pub unmarshal : Answers → Text → Outcome ConfigError Config
unfolding parse read_config settle_config
unmarshal w text = root_of (parse text) >>= λ n. read_config w (some n) >>= λ c. settle_config w c
