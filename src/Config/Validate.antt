-- ===== src/Config/Validate.antt =====
-- ShutdownSignals, validateScheduled, validateSignalRewrite, and the loop of Unmarshal of
-- internal/yml/config.go that checks the processes.
use gopherd.Config.{
  ConfigError, process_error, Fault, no_command, name_with_space, bad_on_success, bad_on_failure,
  bad_stop_signal, bad_check_action, reserved_signal, no_schedule, bad_schedule,
  success_of_scheduled, failure_of_scheduled, backoff_of_scheduled, order_of_scheduled,
  bad_startup_timeout, stray_schedule, after_scheduled,
}
use gopherd.Config.ParseProcess.{is_unread}
use gopherd.Cron.{Schedule, Parsed, done, failed, parse as parse_cron}
use gopherd.ExitAction.{validate_exit_action}
use gopherd.Prelude.Int.{ℤ}
use gopherd.Prelude.Maps.{Map}
use gopherd.Prelude.Outcome.{Outcome, accept, reject, unless}
use gopherd.Prelude.{
  ℕ, eqb, leb, Text, codes, ◌==◌, text_discrete, Bool, true, false, ◌&&◌, ◌||◌, not, Option, none,
  some, List, [], ◌∷◌, if◌then◌else◌, contains, map,
}
use gopherd.Service.Process.{Process, proc_name}
use gopherd.Service.Signals.{parse_signal, signal_name}

-- ShutdownSignals: those that are named, without the names that do not parse.
abbrev pub add_signal : Option ℕ → List ℕ → List ℕ
add_signal none sigs = sigs
add_signal (some sig) sigs = sig ∷ sigs

unfoldable pub named_signals : List Text → List ℕ
unfolding parse_signal
named_signals [] = []
named_signals (name ∷ names) = add_signal (parse_signal name) (named_signals names)

unfoldable pub shutdown_signals : (init_stop_signal : List Text) → List ℕ
unfolding named_signals
shutdown_signals [] = 15 ∷ 2 ∷ []
shutdown_signals (name ∷ names) = named_signals (name ∷ names)

abbrev pub is_nil : {A : Type 0} → List A → Bool
is_nil [] = true
is_nil (x ∷ xs) = false

-- A service that is scheduled, or would be if it were not disabled.
abbrev pub is_scheduled : Process → Bool
is_scheduled p =
    p.startup == codes "scheduled" || (p.startup == codes "disabled" && not (is_nil p.schedule))

unfoldable pub scheduled_set : List Process → List Text
unfolding proc_name text_discrete
scheduled_set [] = []
scheduled_set (p ∷ ps) =
    let rest = scheduled_set ps in if is_scheduled p then proc_name p ∷ rest else rest

-- strings.ContainsAny(name, " \t\r\n\v\f")
abbrev is_space_byte : ℕ → Bool
is_space_byte c = eqb c b' ' || (leb 9 c && leb c 13)

abbrev pub has_space : Text → Bool
has_space [] = false
has_space (c ∷ s) = is_space_byte c || has_space s

unfoldable pub check_failure_actions :
    (label : Text) → Map Text → Outcome ConfigError Process → Outcome ConfigError Process
unfolding validate_exit_action
check_failure_actions label [] more = more
check_failure_actions label ((check, action) ∷ m) more =
    unless (not (validate_exit_action action)) (process_error label (bad_check_action check))
      (check_failure_actions label m more)

-- The map `reserved`: SIGHUP and the signals of the shutdown set.
unfoldable pub reserved : (shutdown : List ℕ) → List Text
unfolding signal_name
reserved sigs = codes "SIGHUP" ∷ map signal_name sigs

unfoldable pub validate_signal_rewrite :
    (label : Text)
    → Map Text
    → (shutdown : List ℕ) → Outcome ConfigError Process
    → Outcome ConfigError Process
unfolding reserved contains text_discrete
validate_signal_rewrite label [] sigs more = more
validate_signal_rewrite label ((key, target) ∷ m) sigs more =
    unless (contains (reserved sigs) key) (process_error label (reserved_signal key))
      (validate_signal_rewrite label m sigs more)

abbrev pub read_schedule :
    (label : Text) → Parsed Schedule → Outcome ConfigError Process → Outcome ConfigError Process
read_schedule label (done s) more = more
read_schedule label (failed e) more = reject (process_error label (bad_schedule e))

-- The contract of a scheduled service.
abbrev pub scheduled_contract :
    (Text → Option ℤ)
    → (label : Text) → Process
    → Outcome ConfigError Process
    → Outcome ConfigError Process
scheduled_contract parse_duration label p more =
    let fail : Fault → ConfigError = process_error label in
    unless (is_nil p.schedule) (fail no_schedule) (
      read_schedule label (parse_cron p.schedule) (
        unless (not (is_nil p.on_success)) (fail success_of_scheduled) (
          unless (not (is_nil p.on_failure)) (fail failure_of_scheduled) (
            unless (not (is_nil p.backoff_delay) || not (is_nil p.backoff_limit))
              (fail backoff_of_scheduled)
              (unless (not (is_nil p.after) || (not (is_nil p.before) || not (is_nil p.requires)))
                (fail order_of_scheduled)
                (unless (is_unread parse_duration p.startup_timeout) (fail bad_startup_timeout)
                  more))))))

abbrev pub not_after :
    (label : Text)
    → (scheduled : List Text) → (deps : List Text) → Outcome ConfigError Process
    → Outcome ConfigError Process
not_after label scheduled [] more = more
not_after label scheduled (d ∷ deps) more =
    unless (contains scheduled d) (process_error label (after_scheduled d))
      (not_after label scheduled deps more)

unfoldable pub validate_scheduled :
    (Text → Option ℤ)
    → (label : Text) → Process
    → (scheduled : List Text) → Outcome ConfigError Process
    → Outcome ConfigError Process
unfolding parse_cron contains text_discrete
validate_scheduled parse_duration label p scheduled more =
    let edges =
      not_after label scheduled p.after
        (not_after label scheduled p.before (not_after label scheduled p.requires more)) in
    let contract = scheduled_contract parse_duration label p edges in
    if is_scheduled p
    then contract
    else unless (not (is_nil p.schedule)) (process_error label stray_schedule) edges

abbrev pub or_unnamed : Text → Text
or_unnamed [] = codes "(unnamed)"
or_unnamed (c ∷ s) = c ∷ s

-- The body of the loop.
unfoldable pub validate :
    (Text → Option ℤ)
    → (shutdown : List ℕ) → (scheduled : List Text) → Process
    → Outcome ConfigError Process
unfolding proc_name validate_exit_action parse_signal check_failure_actions validate_signal_rewrite
    validate_scheduled
validate parse_duration shutdown scheduled p =
    let label = proc_name p in
    let fail : Fault → ConfigError = process_error label in
    unless (is_nil p.command) (process_error (or_unnamed label) no_command) (
      unless (has_space label) (fail name_with_space) (
        unless (not (validate_exit_action p.on_success)) (fail bad_on_success) (
          unless (not (validate_exit_action p.on_failure)) (fail bad_on_failure) (
            unless (is_unread parse_signal p.stop_signal) (fail bad_stop_signal) (
              check_failure_actions label p.on_check_failure (
                validate_signal_rewrite label p.signal_rewrite shutdown
                  (validate_scheduled parse_duration label p scheduled (accept p))))))))
