-- ===== src/Service/New.antt =====
-- New of service/service.go: a service from its configuration. time.ParseDuration is a parameter, with
-- `none` for its errors.
use gopherd.Prelude.Int.{ℤ, pos, negsuc}
use gopherd.Prelude.Maps.{Map, insert}
use gopherd.Prelude.{
  ℕ, Text, codes, ◌==◌, text_discrete, Bool, true, false, not, Option, none, some, List, [], ◌∷◌,
}
use gopherd.ExitAction.{ExitAction, restart, shutdown, parse_exit_action}
use gopherd.Cron.{Schedule, Parsed, done, failed, CronError, parse as parse_cron}
use gopherd.Logger.Writer.{PrefixWriter, new_prefix_writer}
use gopherd.Service.Process.{Process, proc_name}
use gopherd.Service.Signals.{parse_signal}

pub record NewService : Type 0 where
  pub proc : Process
  pub name : Text
  pub enabled : Bool
  pub oneshot : Bool
  pub scheduled : Bool
  pub schedule : Option Schedule
  pub stop_signal : ℕ
  pub kill_delay : ℤ
  pub on_success : ExitAction
  pub on_failure : ExitAction
  pub backoff_delay : ℤ
  pub backoff_limit : ℤ
  pub requires : List Text
  pub on_check_failure : Map ExitAction
  pub log_capture : Bool
  pub stdout : PrefixWriter
  pub stderr : PrefixWriter

pub data NewError : Type 0 where
  bad_schedule : CronError → NewError
  bad_stop_signal bad_kill_delay negative_kill_delay bad_backoff_delay bad_backoff_limit
        bad_on_success bad_on_failure :
      NewError
  bad_check_action : (check : Text) → NewError

pub data New : Type 0 where
  made : NewService → New
  refused : NewError → New

-- A value that a later part needs, or the error.
abbrev pub demand : {A : Type 0} → Option A → NewError → (A → New) → New
demand (some a) e more = more a
demand none e more = refused e

-- DefaultKillDelay, in nanoseconds.
abbrev pub default_kill_delay : ℤ
default_kill_delay = pos 10000000000

abbrev pub duration_or : (Text → Option ℤ) → ℤ → Text → Option ℤ
duration_or parse_duration default [] = some default
duration_or parse_duration default (c ∷ s) = parse_duration (c ∷ s)

abbrev pub accept_delay : ℤ → (ℤ → New) → New
accept_delay (pos n) more = more (pos n)
accept_delay (negsuc n) more = refused negative_kill_delay

abbrev pub with_schedule : (scheduled : Bool) → Parsed Schedule → (Option Schedule → New) → New
with_schedule false s more = more none
with_schedule true (done s) more = more (some s)
with_schedule true (failed e) more = refused (bad_schedule e)

abbrev pub action_or : NewError → ExitAction × Bool → (ExitAction → New) → New
action_or e (a, false) more = more a
action_or e (a, true) more = refused e

-- The loop over on-check-failure, in the order of the list, where Go ranges over a map: which of several
-- bad actions is reported first is left open there.
abbrev pub check_actions : Map Text → Map ExitAction → (Map ExitAction → New) → New
check_actions [] acc more = more acc
check_actions ((check, action) ∷ m) acc more =
    action_or (bad_check_action check) (parse_exit_action action restart)
      (λ a. check_actions m (insert check a acc) more)

abbrev pub resolved : Option Bool → Bool
resolved none = false
resolved (some b) = b

abbrev pub first_set : Text → Text → Text
first_set [] other = other
first_set (c ∷ s) other = c ∷ s

abbrev pub prefix_of : (own global : Text) → Text
prefix_of own global = first_set own (first_set global (codes "service timestamp"))

unfoldable pub new : (parse_duration : Text → Option ℤ) → Process → (global_prefix : Text) → New
unfolding proc_name parse_cron parse_signal parse_exit_action insert new_prefix_writer text_discrete
new parse_duration p global_prefix =
    let name = proc_name p in
    let scheduled = p.startup == codes "scheduled" in
    let prefix = prefix_of p.prefix global_prefix in
    with_schedule scheduled (parse_cron p.schedule) λ schedule.
      demand (parse_signal p.stop_signal) bad_stop_signal λ stop_signal.
        demand (duration_or parse_duration default_kill_delay p.kill_delay) bad_kill_delay λ delay.
          accept_delay delay λ kill_delay.
            demand (duration_or parse_duration (pos 0) p.backoff_delay) bad_backoff_delay
              λ backoff_delay.
                demand (duration_or parse_duration (pos 0) p.backoff_limit) bad_backoff_limit
                  λ backoff_limit. check_actions p.on_check_failure [] λ on_check_failure.
                    action_or bad_on_success (parse_exit_action p.on_success shutdown) λ on_success.
                      action_or bad_on_failure (parse_exit_action p.on_failure shutdown)
                        λ on_failure. made (record {
                          proc = p;
                          name = name;
                          enabled = not (p.startup == codes "disabled");
                          oneshot = p.startup == codes "oneshot";
                          scheduled = scheduled;
                          schedule = schedule;
                          stop_signal = stop_signal;
                          kill_delay = kill_delay;
                          on_success = on_success;
                          on_failure = on_failure;
                          backoff_delay = backoff_delay;
                          backoff_limit = backoff_limit;
                          requires = p.requires;
                          on_check_failure = on_check_failure;
                          log_capture = resolved p.log_capture;
                          stdout = new_prefix_writer name prefix;
                          stderr = new_prefix_writer name prefix;
                        })
