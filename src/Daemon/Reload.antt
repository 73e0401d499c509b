-- ===== src/Daemon/Reload.antt =====
-- reload of daemon.go, with startChecks and startSchedulers: what a reload of the configuration does
-- to the services. The part under the lock is one function; while reload waits for the instances that
-- it stopped, others take steps, so what comes after is a function of the state that is then there.
use gopherd.Check.New.{NewChecker}
use gopherd.Config.{Config, ConfigError}
use gopherd.Daemon.{Daemon, write, stop_service}
use gopherd.Daemon.Build.{Target, attach}
use gopherd.ExitAction.{ignore}
use gopherd.Logger.Writer.{clear_targets}
use gopherd.Metrics.{Metrics, unregister_service}
use gopherd.Prelude.Int.{ℤ, pos, negsuc}
use gopherd.Prelude.Maps.{Map, lookup, insert, remove}
use gopherd.Prelude.{
  ℕ, suc, eqb, Text, text_discrete, Bool, true, false, Option, none, some, List, [], ◌∷◌, ◌++◌,
  contains, if◌then◌else◌,
}
use gopherd.Service.{Service, Done, done_of}
use gopherd.Service.New.{NewService, NewError}
use gopherd.Service.Process.{Process, process_config_changed}

-- The daemon with the parts that a reload exchanges. `made` is what New made of an instance: its
-- process, its schedule and its writers; instances have the numbers below `next_id`.
pub record Supervisor : Type 0 where
  pub daemon : Daemon
  pub made : ℕ → NewService
  -- The conditions that SetFileConditions has put in place of those of the process.
  pub conditions : ℕ → Option (Text × Text)
  pub next_id : ℕ
  pub config : Config
  pub targets : List Target
  pub checkers : List (Text × NewChecker)
  -- The instances that a schedule runner starts.
  pub schedulers : List ℕ
  pub entrypoint_args : List Text
  pub started : Bool

pub data Refusal : Type 0 where
  starting_up unread several_entrypoints bad_order shuts_down : Refusal
  bad_config : ConfigError → Refusal
  bad_process : NewError → Refusal

abbrev natural : ℤ → ℕ
natural (pos n) = n
natural (negsuc n) = 0

-- New of internal/backoff: a limit that is not positive is 30 seconds.
abbrev limit_of : ℤ → ℕ
limit_of (pos (suc n)) = suc n
limit_of _ = 30000000000

-- A timeout that is not set, or does not parse, is 0.
abbrev timeout_of : Option ℤ → ℕ
timeout_of none = 0
timeout_of (some d) = natural d

-- The instance of a service that New has made, which has not run.
abbrev pub instance_of : (parse_duration : Text → Option ℤ) → NewService → Service
instance_of dur s = record {
  name = s.name;
  on_success = s.on_success;
  on_failure = s.on_failure;
  on_check_failure = s.on_check_failure;
  requires = s.requires;
  proc_on_failure = s.proc.on_failure;
  exit_code_map = s.proc.exit_code_map;
  restart_with_dependents = s.proc.restart_with_dependents;
  startup_timeout = timeout_of (dur s.proc.startup_timeout);
  enabled = s.enabled;
  oneshot = s.oneshot;
  scheduled = s.scheduled;
  sd_notify = s.proc.sd_notify;
  log_capture = s.log_capture;
  stop_signal = s.stop_signal;
  kill_delay = natural s.kill_delay;
  backoff = record { attempt = 0; at_limit = false; limit = limit_of s.backoff_limit };
  has_cmd = false;
  running = false;
  stopped = false;
  pid = 0;
  done = none;
  starts = 0;
  listener = false;
  capture = false;
  started_at = 0;
  kill_timer = none;
  kill_pgid = 0;
  kill_deadline = 0;
}

-- The exit of an instance that is on its way out is to change nothing.
abbrev pub ignore_exit : ℕ → Daemon → Daemon
ignore_exit id d = record d {
  heap = write id (record (d.heap id) { on_success = ignore; on_failure = ignore }) d.heap;
}

abbrev pub update_made : ℕ → NewService → (ℕ → NewService) → ℕ → NewService
update_made id s made j = if eqb j id then s else made j

abbrev pub without_targets : NewService → NewService
without_targets s = record s { stdout = clear_targets s.stdout; stderr = clear_targets s.stderr }

abbrev pub stop_if : (running : Bool) → (now : ℕ) → ℕ → Daemon → Daemon
stop_if true now id d = stop_service now id d
stop_if false now id d = d

-- A service that the new configuration does not have.
abbrev pub remove_service : (now : ℕ) → Text → ℕ → Supervisor → Supervisor
remove_service now name id u =
    let e = stop_if (u.daemon.heap id).running now id (ignore_exit id u.daemon) in
    record u {
      daemon = record e { services = remove name e.services };
      made = update_made id (without_targets (u.made id)) u.made;
    }

unfoldable pub remove_gone : (now : ℕ) → (names : List Text) → Map ℕ → Supervisor → Supervisor
unfolding remove stop_service clear_targets contains text_discrete
remove_gone now names [] u = u
remove_gone now names ((name, id) ∷ m) u =
    let kept = remove_gone now names m u in
    let gone = remove_gone now names m (remove_service now name id u) in
    if contains names name then kept else gone

-- The writers of the services that are left lose their targets.
abbrev pub clear_all : Map ℕ → Supervisor → Supervisor
clear_all [] u = u
clear_all ((name, id) ∷ m) u =
    clear_all m (record u { made = update_made id (without_targets (u.made id)) u.made })

-- Every service that buildServices made becomes an instance of its own.
abbrev pub add_instance :
    (parse_duration : Text → Option ℤ) → Text → NewService → Supervisor → Supervisor
add_instance dur name s u = record u {
  daemon = record u.daemon {
    heap = write u.next_id (instance_of dur s) u.daemon.heap;
    services = insert name u.next_id u.daemon.services;
  };
  made = update_made u.next_id s u.made;
  conditions = λ j. if eqb j u.next_id then none else u.conditions j;
  next_id = suc u.next_id;
}

unfoldable pub add_instances :
    (parse_duration : Text → Option ℤ) → Map NewService → Supervisor → Supervisor
unfolding insert
add_instances dur [] u = u
add_instances dur ((name, s) ∷ m) u = add_instances dur m (add_instance dur name s u)

-- The metrics of services that are gone.
abbrev pub unregister_gone : (now_there : Map ℕ) → Map ℕ → Metrics → Metrics
unregister_gone there [] m = m
unregister_gone there ((name, id) ∷ old) m =
    unregister_gone there old
      (elim (lookup name there) [ none ↦ unregister_service name m | some new ↦ m ])

-- A running instance whose process is the same stays, with the policies of the new configuration.
abbrev pub with_policies : Service → Service → Service
with_policies new old = record old {
  on_success = new.on_success;
  on_failure = new.on_failure;
  on_check_failure = new.on_check_failure;
  requires = new.requires;
  exit_code_map = new.exit_code_map;
  restart_with_dependents = new.restart_with_dependents;
}

abbrev pub rewired : List Target → NewService → NewService → NewService
rewired ts new old = record old {
  on_success = new.on_success;
  on_failure = new.on_failure;
  on_check_failure = new.on_check_failure;
  requires = new.requires;
  proc = record old.proc {
    exit_code_map = new.proc.exit_code_map;
    signal_rewrite = new.proc.signal_rewrite;
    restart_with_dependents = new.proc.restart_with_dependents;
  };
  stdout = attach ts old.name old.stdout;
  stderr = attach ts old.name old.stderr;
}

-- FileConditions: the paths that must exist and must be missing.
abbrev file_conditions : Process → Text × Text
file_conditions p = (p.condition_file_exists, p.condition_file_missing)

abbrev pub keep : Text → (id new : ℕ) → Supervisor → Supervisor
keep name id new u = record u {
  daemon = record u.daemon {
    heap = write id (with_policies (u.daemon.heap new) (u.daemon.heap id)) u.daemon.heap;
    services = insert name id u.daemon.services;
  };
  made = update_made id (rewired u.targets (u.made new) (u.made id)) u.made;
  conditions = λ j. if eqb j id then some (file_conditions (u.made new).proc) else u.conditions j;
}

abbrev pub retire : (now : ℕ) → ℕ → Supervisor → Supervisor
retire now id u = record u { daemon = stop_service now id (ignore_exit id u.daemon) }

-- A round of the loop, by whether the old instance runs and whether its process differs: the state,
-- and the channels that are to be waited for.
abbrev pub exchange :
    (now : ℕ) → Text → (id new : ℕ) → Supervisor → (running changed : Bool) → Supervisor × List Done
exchange now name id new u false changed = (u, [])
exchange now name id new u true true = (retire now id u, done_of (u.daemon.heap id) ∷ [])
exchange now name id new u true false = (keep name id new u, [])

abbrev pub reconcile_with : (now : ℕ) → Text → ℕ → Supervisor → Option ℕ → Supervisor × List Done
reconcile_with now name id u none = (u, [])
reconcile_with now name id u (some new) =
    exchange now name id new u (u.daemon.heap id).running
      (process_config_changed (u.made id).proc (u.made new).proc)

unfoldable pub reconcile_one : (now : ℕ) → Text → ℕ → Supervisor → Supervisor × List Done
unfolding lookup insert stop_service process_config_changed done_of
reconcile_one now name id u = reconcile_with now name id u (lookup name u.daemon.services)

unfoldable pub reconcile : (now : ℕ) → Map ℕ → Supervisor → Supervisor × List Done
unfolding reconcile_one
reconcile now [] u = (u, [])
reconcile now ((name, id) ∷ old) u =
    let one = reconcile_one now name id u in
    let rest = reconcile now old one.0 in (rest.0, one.1 ++ rest.1)
