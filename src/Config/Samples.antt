-- ===== src/Config/Samples.antt =====
-- Runs of internal/yml/config.go on small configurations.
use gopherd.Check.New.{IsRunnable, new_check, new_check-IsRunnable}
use gopherd.Config.{
  Answers, Config, CheckConfig, ConfigError, uncatchable_signal, process_error, after_scheduled,
  reserved_signal,
}
use gopherd.Config.Conditions.{exclude_orphaned_checks, keys}
use gopherd.Config.Load.{unmarshal}
use gopherd.Config.Orphans.{is_used, is_used_by_kept, exclude_orphaned_checks-dropped}
use gopherd.Config.ParseProcess.{fields_of}
use gopherd.Daemon.Build.{build_services, dry_run}
use gopherd.Daemon.DryRun.{IsAlike, BuildsUpTo, dry_run-build_services, dry_run-unmarshal}
use gopherd.Metrics.{new}
use gopherd.Config.Shutdown.{CanStop, KeepsOwn, shutdown_signals-CanStop, rewrite_signal-KeepsOwn}
use gopherd.Config.Valid.{IsValid, unmarshal-IsValid}
use gopherd.Prelude.Int.{pos}
use gopherd.Prelude.Maps.{Map, lookup}
use gopherd.Prelude.Outcome.{Outcome, accept, reject, Yields}
use gopherd.Prelude.{
  Text, codes, true, false, ◌&&◌, not, if◌then◌else◌, none, some, List, [], ◌∷◌, map, ◌≡◌, refl,
}
use gopherd.Service.Process.{Process, proc_name}
use gopherd.Service.Templates.{missing_file}

-- Every duration is a second, no number has a fraction, and there is one variable.
abbrev answers : Answers
answers = record {
  environ = codes "ROLE=web" ∷ [];
  read = λ path follow. missing_file;
  parse_duration = λ s. some (pos 1000000000);
  parse_float = λ s. none;
}

-- A web server after its database, which is for another role; a check that only the database uses.
abbrev shop : Text
shop =
    codes
      "processes:\n  - name: web\n    command: /bin/web\n    after: [db]\n    signal-rewrite: {USR1: HUP}\n  - name: db\n    command: /bin/db\n    ready-check: up\n    condition-env-equals: {ROLE: db}\nchecks:\n  up:\n    tcp: {port: 80}\n"

abbrev killed : Text
killed = codes "init-stop-signal: [INT, KILL]\nprocesses:\n  - command: a\n"

abbrev after_job : Text
after_job =
    codes
      "processes:\n  - name: job\n    command: a\n    startup: scheduled\n    schedule: '* * * * *'\n  - name: b\n    command: b\n    requires: [job]\n"

abbrev takes_hup : Text
takes_hup = codes "processes:\n  - name: b\n    command: b\n    signal-rewrite: {hup: USR1}\n"

-- What is left: the names, their edges, the checks and the reason of the exclusion.
abbrev Summary : Type 0
Summary = List Text × List (List Text) × List Text × List Text

abbrev summary : Outcome ConfigError Config → Outcome ConfigError Summary
summary (accept c) = accept (
  map proc_name c.processes,
  map (λ p. p.after) c.processes,
  keys c.checks,
  map (λ x. x.variable) c.excluded,
)
summary (reject e) = reject e

shop_loaded :
    summary (unmarshal answers shop) ≡ accept (codes "web" ∷ [], [] ∷ [], [], codes "ROLE" ∷ [])
unfolding unmarshal
shop_loaded = refl

killed_refused : summary (unmarshal answers killed) ≡ reject (uncatchable_signal (codes "KILL"))
unfolding unmarshal
killed_refused = refl

after_job_refused :
    summary (unmarshal answers after_job)
    ≡ reject (process_error (codes "b") (after_scheduled (codes "job")))
unfolding unmarshal
after_job_refused = refl

takes_hup_refused :
    summary (unmarshal answers takes_hup)
    ≡ reject (process_error (codes "b") (reserved_signal (codes "SIGHUP")))
unfolding unmarshal
takes_hup_refused = refl

unmarshal-IsValid_example : Yields (IsValid answers.parse_duration) (unmarshal answers shop)
unmarshal-IsValid_example = unmarshal-IsValid answers shop

shutdown_signals-CanStop_example : Yields CanStop (unmarshal answers shop)
shutdown_signals-CanStop_example = shutdown_signals-CanStop answers shop

rewrite_signal-KeepsOwn_example : Yields KeepsOwn (unmarshal answers shop)
rewrite_signal-KeepsOwn_example = rewrite_signal-KeepsOwn answers shop

-- A process that waits for a check.
abbrev user : (name check : Text) → Process
user name check = record (fields_of none []) { name = name; ready_check = check }

abbrev users : List Process
users = user (codes "web") (codes "up") ∷ user (codes "db") (codes "disk") ∷ []

abbrev plain : CheckConfig
plain = record {
  http = none;
  tcp = none;
  exec = none;
  period = [];
  timeout = [];
  initial_delay = [];
  threshold = pos 0;
}

abbrev checks : Map CheckConfig
checks = (codes "up", plain) ∷ (codes "disk", plain) ∷ []

exclude_orphaned_checks-dropped_example :
    lookup (codes "disk") (exclude_orphaned_checks users checks (codes "db" ∷ [])).0 ≡ (
      if is_used (codes "disk") users
        && not (is_used_by_kept (codes "db" ∷ []) (codes "disk") users)
      then none
      else lookup (codes "disk") checks)
exclude_orphaned_checks-dropped_example =
    exclude_orphaned_checks-dropped users checks (codes "db" ∷ []) (codes "disk")

dropped : keys (exclude_orphaned_checks users checks (codes "db" ∷ [])).0 ≡ codes "up" ∷ []
unfolding exclude_orphaned_checks fields_of
dropped = refl

abbrev small : Config
small = record {
  checks = checks;
  log_targets = [];
  excluded = [];
  excluded_checks = [];
  prefix = [];
  pass_env = none;
  log_capture = none;
  export_socket = none;
  shutdown_order = [];
  init_stop_signal = [];
  control = record { socket_path = []; socket_mode = 0 };
  processes = users;
  no_logo = false;
  subreaper = false;
}

dry_run-build_services_example :
    IsAlike
      (dry_run answers.parse_duration [] users)
      (build_services answers.parse_duration (codes "-v" ∷ []) [] small new)
dry_run-build_services_example =
    dry_run-build_services answers.parse_duration (codes "-v" ∷ []) [] small new

dry_run-unmarshal_example : Yields (BuildsUpTo answers.parse_duration) (unmarshal answers shop)
dry_run-unmarshal_example = dry_run-unmarshal answers shop

new_check-IsRunnable_example : Yields IsRunnable (
    new_check answers.parse_duration
      (λ url. true)
      (record plain { tcp = some (record { host = []; port = pos 80 }) }))
new_check-IsRunnable_example =
    new_check-IsRunnable answers.parse_duration (λ url. true)
      (record plain { tcp = some (record { host = []; port = pos 80 }) })
