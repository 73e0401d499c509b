-- ===== src/Daemon/Samples.antt =====
-- Runs of daemon.go and run.go on a small configuration: a database, and a web server that
-- requires it.
use native.Mathlib.Decide.{ℕ_discrete}
use gopherd.Prelude.Int.{pos}
use gopherd.Prelude.{
  List, ℕ, eqb, codes, text_discrete, true, false, none, some, [], ◌∷◌, if◌then◌else◌, ◌≡◌, refl,
  arith, ◌||◌, ◌&&◌,
}
use gopherd.ExitAction.{restart, ignore}
use gopherd.Metrics.{new}
use gopherd.Service.{Service, exited, signaled, finish_start, finish_with, mark_exited}
use gopherd.Daemon.{
  Daemon, StartEnv, continue, lookup_pid, insert_pid, start_service, start_with, start_locked,
  start_guarded, finish_locked, remove_pid, write,
}
use gopherd.Daemon.Boot.{OneshotResult, no_result, settle_oneshots, settle_oneshots-first_failure}
use gopherd.Daemon.Shutdown.{settle, handle_check_failure}
use gopherd.Daemon.Reap.{Drawn, reap_managed, stop_dependents}
use gopherd.Daemon.Table.{IsValid, IsFresh}
use gopherd.Daemon.Steps.{Step, Reach, here, next, with_legs, no_double_fork}
use gopherd.Daemon.Dependents.{stop_dependents_exactly, stops, holds}
use gopherd.Daemon.Requests.{IsCounted}
use gopherd.Daemon.Lifecycle.{
  Wait, exited as exit_seen, GateEnv, dependent_closure, run_restart, stop_leg,
}
use gopherd.Daemon.Ordered.{IsExact, dependent_closure-IsExact}
use gopherd.Daemon.Balance.{run_restart_balances}
use gopherd.Daemon.Reachable.{Reach-IsCounted, shutdown_is_final}
use gopherd.Daemon.Policy.{Drains, shutdown-Drains, restart_is_one_event}

abbrev database : Service
database = record {
  name = codes "db";
  on_success = ignore;
  on_failure = restart;
  on_check_failure = [];
  requires = [];
  proc_on_failure = [];
  exit_code_map = [];
  restart_with_dependents = false;
  startup_timeout = 0;
  enabled = true;
  oneshot = false;
  scheduled = false;
  sd_notify = false;
  log_capture = false;
  stop_signal = 15;
  kill_delay = 10;
  backoff = record { attempt = 0; at_limit = false; limit = 60 };
  has_cmd = false;
  running = false;
  stopped = false;
  pid = 0;
  done = none;
  starts = 0;
  listener = false;
  capture = false;
  started_at = 0;
  kill_timer = none;
  kill_pgid = 0;
  kill_deadline = 0;
}

abbrev web : Service
web = record database { name = codes "web"; requires = codes "db" ∷ [] }

-- A running instance, under the pid 7 or 8.
abbrev under : ℕ → Service → Service
under pid s = record s { has_cmd = true; running = true; pid = pid; done = some 0; starts = 1 }

abbrev idle_heap : ℕ → Service
idle_heap j = if eqb j 0 then database else web

abbrev busy_heap : ℕ → Service
busy_heap j = if eqb j 0 then under 7 database else under 8 web

abbrev idle : Daemon
idle = record {
  heap = idle_heap;
  services = (codes "db", 0) ∷ (codes "web", 1) ∷ [];
  pid_map = [];
  restart_pending = λ _. false;
  restarts = [];
  pending_restarts = pos 0;
  shutting_down = false;
  exit_code = pos 0;
  shutdowns = [];
  code_stores = [];
  legs = 0;
  shutdown_mode = codes "reverse-dep";
  shutdown_seq = codes "db" ∷ codes "web" ∷ [];
  tail = continue;
  metrics = new;
  effects = [];
}

abbrev busy : Daemon
busy = record idle { heap = busy_heap; pid_map = (7, 0) ∷ (8, 1) ∷ [] }

-- The database was stopped on purpose.
abbrev stopping : Daemon
stopping = record busy {
  heap = λ j. if eqb j 0 then record (under 7 database) { stopped = true } else under 8 web;
}

abbrev restarting : Daemon
restarting = record stopping { restart_pending = λ _. true }

abbrev closing : Daemon
closing = record busy { shutting_down = true; exit_code = pos 3 }

abbrev drawn : Drawn
drawn = record { delay = 1; over = false }

abbrev env : StartEnv
env = record {
  unmet = [];
  prepared = true;
  os = record { listen_ok = true; pipes_ok = true; forked = some 7; now = 5 };
}

idle-IsValid : IsValid idle
unfolding lookup_pid
idle-IsValid = record {
  mapped = λ p id h. absurd (cc);
  tracked = λ id h. absurd (ground arith);
  idle = λ id h. ground arith;
  live = λ id h. absurd (ground arith);
}

env-IsFresh : IsFresh env.os idle
unfolding lookup_pid
env-IsFresh pid h = ground arith

started_table : (start_service env 0 idle).0.pid_map ≡ (7, 0) ∷ []
unfolding start_service start_with start_locked start_guarded finish_start finish_with finish_locked
    insert_pid remove_pid text_discrete ℕ_discrete
started_table = refl

abbrev db_pid : ℕ
db_pid = 7

no_double_fork_example : db_pid ≡ db_pid
unfolding start_service start_with start_locked start_guarded finish_start finish_with finish_locked
    insert_pid remove_pid text_discrete ℕ_discrete lookup_pid
no_double_fork_example =
    no_double_fork db_pid db_pid 0 idle-IsValid (next here (Step.start env 0 env-IsFresh refl)) refl
      refl

-- An ordered restart stops the web service, and gives back what it added.
abbrev in_restart : Daemon
in_restart = with_legs 1 (stop_leg 5 1 busy)

abbrev given_back : Daemon
given_back = with_legs 0 (settle in_restart)

Reach-IsCounted_example : IsCounted given_back
Reach-IsCounted_example = Reach-IsCounted {d = busy} {e = given_back} steps refl
  where
    steps : Reach busy given_back
    steps = next {e = in_restart} (next here (Step.leg 5 1 refl refl)) (Step.give_back 0 refl refl)

shutdown_is_final_example :
    let e = handle_check_failure 5 (codes "live") closing in
    (e.shutting_down ≡ true) × (e.code_stores ≡ []) × (e.exit_code ≡ pos 3)
shutdown_is_final_example =
    shutdown_is_final (next here (Step.check 5 (codes "live") refl)) refl refl refl

shutdown-Drains_example : Drains 7 0 closing (reap_managed 5 drawn 7 0 (exited 0) closing)
shutdown-Drains_example = shutdown-Drains 5 drawn 7 0 (exited 0) closing refl

restart_is_one_event_example :
    ((reap_managed 5 drawn 7 0 (signaled 15) restarting).metrics ≡ new)
    × ((reap_managed 5 drawn 7 0 (signaled 15) restarting).restart_pending (codes "db") ≡ false)
restart_is_one_event_example =
    restart_is_one_event 5 drawn 7 0 (signaled 15) restarting refl refl refl

stop_dependents_exactly_example :
    ((stop_dependents 5 (codes "db") busy.services busy).heap 1).stopped
    ≡ (false || (holds 1 busy.services && stops busy (codes "db") 1))
stop_dependents_exactly_example =
    stop_dependents_exactly 5 (codes "db") busy.services busy 1 (λ id h. ground arith)

-- A migration that fails, after one whose wait failed.
abbrev results : List OneshotResult
results =
    record { name = codes "web"; service = 1; wait_failed = true; code = pos 0 }
    ∷ record { name = codes "db"; service = 0; wait_failed = false; code = pos 2 }
    ∷ []

settle_oneshots-first_failure_example :
    (settle_oneshots 5 results busy none).1 ≡ some (no_result (codes "web"))
settle_oneshots-first_failure_example = settle_oneshots-first_failure 5 results busy

dependent_closure-IsExact_example :
    IsExact
      (database ∷ web ∷ [])
      (codes "db")
      (dependent_closure (database ∷ web ∷ []) (codes "db"))
dependent_closure-IsExact_example = dependent_closure-IsExact (database ∷ web ∷ []) (codes "db")

-- A wait that ends with the exit, and a service without gates.
abbrev leaves : Wait
leaves id d = (record d { heap = write id (mark_exited 6 (d.heap id)).0 d.heap }, exit_seen)

abbrev gates : ℕ → GateEnv
gates id = record {
  ready_check = false;
  check_found = true;
  check_made = true;
  timeout_parsed = true;
  check_passed = true;
  before = λ d. d;
  start = env;
  notified = true;
  after = λ d. d;
}

run_restart_balances_example :
    (run_restart leaves gates 5 0 (1 ∷ []) busy).0.pending_restarts ≡ busy.pending_restarts
run_restart_balances_example =
    run_restart_balances leaves gates 5 0 (1 ∷ []) busy (λ id d. refl)
      (λ id. record { early = λ d. refl; late = λ d. refl })
