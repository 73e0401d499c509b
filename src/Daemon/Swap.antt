-- ===== src/Daemon/Swap.antt =====
-- reload of daemon.go: its checks before anything is changed, the exchange of the services under the
-- lock, and what comes after the wait for the old instances.
use gopherd.Check.New.{NewChecker, CheckError, new_check}
use gopherd.Config.{Answers, Config, CheckConfig, ConfigError, TargetConfig}
use gopherd.Config.Conditions.{keys}
use gopherd.Config.Load.{unmarshal}
use gopherd.Daemon.{Daemon, StartEnv, start_service}
use gopherd.Daemon.Build.{Target, Built, build_services, start_order, dry_run}
use gopherd.Daemon.Reload.{
  Supervisor, Refusal, starting_up, unread, several_entrypoints, bad_order, shuts_down, bad_config,
  bad_process, remove_gone, clear_all, add_instances, unregister_gone, reconcile,
}
use gopherd.Metrics.{Metrics, register_check, unregister_check}
use gopherd.Order.{Result, ok}
use gopherd.Prelude.Int.{ℤ}
use gopherd.Prelude.Maps.{Map, lookup}
use gopherd.Prelude.Outcome.{Outcome, accept, reject, ◌>>=◌, unless, need}
use gopherd.Prelude.{
  ℕ, ltb, Text, Bool, ◌&&◌, not, Option, none, some, List, [], ◌∷◌, ◌++◌, length, map, select,
  if◌then◌else◌,
}
use gopherd.Service.{Service, Done}
use gopherd.Service.New.{NewError}
use gopherd.Service.Process.{Process, proc_name}

-- What the outside answers to a reload: the text of the file, whether a URL can be requested, and
-- which log targets could be opened.
pub record Surroundings : Type 0 where
  pub answers : Answers
  pub file : Option Text
  pub url_ok : Text → Bool
  pub opened : Map TargetConfig → List Target
  pub now : ℕ

abbrev in_config : Outcome ConfigError Config → Outcome Refusal Config
in_config (accept c) = accept c
in_config (reject e) = reject (bad_config e)

abbrev in_process : {A : Type 0} → Outcome NewError A → Outcome Refusal A
in_process (accept a) = accept a
in_process (reject e) = reject (bad_process e)

abbrev ordered_or : Option (Result (List Text)) → Outcome Refusal (List Text)
ordered_or (some (ok names)) = accept names
ordered_or _ = reject bad_order

abbrev entrypoints : List Process → ℕ
entrypoints ps = length (select (λ p. p.use_entrypoint_args) ps)

-- A configuration that is fit to be installed, with its start order.
unfoldable pub prepare_reload : Surroundings → Supervisor → Outcome Refusal (Config × List Text)
unfolding unmarshal start_order dry_run
prepare_reload w u = unless (not u.started) starting_up (
    need w.file unread >>= λ text. in_config (unmarshal w.answers text) >>= λ c.
    unless (ltb 1 (entrypoints c.processes)) several_entrypoints (
      ordered_or (start_order c) >>= λ order.
      in_process (dry_run w.answers.parse_duration c.prefix c.processes) >>= λ made.
      accept (c, order)))

-- What reload leaves to its second half: the services to start, the channels to wait for, and the
-- checks of the old configuration.
pub record Leftover : Type 0 where
  pub to_start : List ℕ
  pub waits : List Done
  pub old_checks : List Text

abbrev starts_now : Service → Bool
starts_now s = s.enabled && (not s.oneshot && (not s.scheduled && not s.running))

abbrev add_start : Daemon → Option ℕ → List ℕ → List ℕ
add_start d none ids = ids
add_start d (some id) ids = if starts_now (d.heap id) then id ∷ ids else ids

abbrev starts_among : Daemon → (order : List Text) → List ℕ
starts_among d [] = []
starts_among d (name ∷ order) = add_start d (lookup name d.services) (starts_among d order)

-- The exchange, where `built` are the services of the new configuration. The map of the services is
-- built anew; `old` is how it was before.
abbrev pub cleared : (now : ℕ) → Config → Supervisor → Supervisor
cleared now c u =
    let v = remove_gone now (map proc_name c.processes) u.daemon.services u in
    clear_all v.daemon.services v

abbrev pub installed :
    (parse_duration : Text → Option ℤ)
    → (now : ℕ) → Config
    → List Target
    → Built
    → Supervisor
    → Supervisor
installed dur now c ts built u =
    let v = cleared now c u in
    add_instances dur built.services (record v {
      daemon = record v.daemon { services = []; metrics = built.metrics };
      config = c;
      targets = ts;
      checkers = [];
      schedulers = [];
    })

abbrev pub without_gone : (old : Map ℕ) → Supervisor → Supervisor
without_gone old u = record u {
  daemon = record u.daemon { metrics = unregister_gone u.daemon.services old u.daemon.metrics };
}

unfoldable pub swap :
    (parse_duration : Text → Option ℤ)
    → (now : ℕ) → Config
    → (order : List Text) → List Target
    → Built
    → Supervisor
    → Supervisor × Leftover
unfolding remove_gone add_instances reconcile lookup proc_name
swap dur now c order ts built u =
    let old = u.daemon.services in
    let (v, waits) = reconcile now old (without_gone old (installed dur now c ts built u)) in
    let d = record v.daemon { shutdown_seq = order; shutdown_mode = c.shutdown_order } in
    (
      record v { daemon = d },
      record { to_start = starts_among d order; waits = waits; old_checks = keys u.config.checks },
    )

-- The part under the lock. The services are built before the old ones are removed, which buildServices
-- does not see; the code does the one after the other, and its error would leave the state in between.
unfoldable pub reload_locked :
    Surroundings
    → Config
    → (order : List Text) → Supervisor
    → Outcome Refusal (Supervisor × Leftover)
unfolding build_services swap
reload_locked w c order u =
    let ts = w.opened c.log_targets in
    unless u.daemon.shutting_down shuts_down (
      in_process (build_services w.answers.parse_duration u.entrypoint_args ts c u.daemon.metrics)
      >>= λ built. accept (swap w.answers.parse_duration w.now c order ts built u))

-- The first half of reload.
unfoldable pub reload : Surroundings → Supervisor → Outcome Refusal (Supervisor × Leftover)
unfolding prepare_reload reload_locked
reload w u = prepare_reload w u >>= λ ready. reload_locked w ready.0 ready.1 u

-- startChecks: a check whose configuration is refused is left out. The user as whom an exec check runs is
-- a matter of the operating system, as is the closing of log targets by reload.
abbrev add_check : Text → Outcome CheckError NewChecker → Supervisor → Supervisor
add_check name (reject e) u = u
add_check name (accept k) u = record u {
  daemon = record u.daemon { metrics = register_check name u.daemon.metrics };
  checkers = u.checkers ++ (name, k) ∷ [];
}

unfoldable pub start_checks : Surroundings → Map CheckConfig → Supervisor → Supervisor
unfolding new_check register_check
start_checks w [] u = u
start_checks w ((name, c) ∷ cs) u =
    start_checks w cs (add_check name (new_check w.answers.parse_duration w.url_ok c) u)

-- startSchedulers
abbrev start_schedulers : Map ℕ → Supervisor → Supervisor
start_schedulers [] u = u
start_schedulers ((name, id) ∷ m) u =
    start_schedulers m (
      if (u.daemon.heap id).scheduled then record u { schedulers = u.schedulers ++ id ∷ [] } else u)

unfoldable pub start_each : (ℕ → StartEnv) → List ℕ → Daemon → Daemon
unfolding start_service
start_each env [] d = d
start_each env (id ∷ ids) d = let (e, r) = start_service (env id) id d in start_each env ids e

abbrev unregister_checks : (checks : Map CheckConfig) → List Text → Metrics → Metrics
unregister_checks checks [] m = m
unregister_checks checks (name ∷ names) m =
    unregister_checks checks names
      (elim (lookup name checks) [ none ↦ unregister_check name m | some c ↦ m ])

-- The second half of reload, after the channels are closed; an error of a start is only logged.
unfoldable pub finish_reload : Surroundings → (ℕ → StartEnv) → Leftover → Supervisor → Supervisor
unfolding start_each start_checks lookup unregister_check
finish_reload w env left u =
    let d = start_each env left.to_start u.daemon in
    let v = start_checks w u.config.checks (record u { daemon = d }) in
    let s = start_schedulers v.daemon.services v in
    record s {
      daemon = record s.daemon {
        metrics = unregister_checks s.config.checks left.old_checks s.daemon.metrics;
      };
    }
