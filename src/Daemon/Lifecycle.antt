-- ===== src/Daemon/Lifecycle.antt =====
-- lifecycle.go: restarts that take the dependents of a service along. `wait` is the wait for an exit:
-- what the other goroutines do in the meantime, and why it ends.
use gopherd.Prelude.Int.{pos, increment}
use gopherd.Prelude.Maps.{Map, lookup}
use gopherd.Prelude.{
  ℕ, zero, suc, Text, ◌==◌, Bool, true, false, ◌&&◌, not, Option, none, some, List, [], ◌∷◌, ◌++◌,
  if◌then◌else◌, contains, length,
}
use gopherd.Metrics.{service_restarted}
use gopherd.Service.{Service}
use gopherd.Daemon.{
  Daemon, StartEnv, StartResult, started, already_running, condition_unmet, shutting_down, replaced,
  stop_service, mark_restart_pending, start_service,
}
use gopherd.Daemon.Shutdown.{begin_shutdown, settle}

-- The inner loop of dependentClosure over the services: the closure and the frontier, with those that
-- require `cur` added.
abbrev pub joins : (name cur : Text) → List Text → Service → Bool
joins name cur closure other =
    contains other.requires cur && (not (contains closure other.name) && not (other.name == name))

unfoldable pub visit :
    (name cur : Text) → List Service → (closure frontier : List Text) → List Text × List Text
unfolding contains
visit name cur [] closure frontier = (closure, frontier)
visit name cur (other ∷ services) closure frontier =
    let rest = visit name cur services closure frontier in
    let more = visit name cur services (other.name ∷ closure) (frontier ++ other.name ∷ []) in
    if joins name cur closure other then more else rest

-- The outer loop, with `none` if the fuel does not suffice.
unfoldable pub closure_loop :
    (fuel : ℕ) → (name : Text) → List Service → (closure frontier : List Text) → Option (List Text)
unfolding visit
closure_loop fuel name services closure [] = some closure
closure_loop zero name services closure (cur ∷ frontier) = none
closure_loop (suc fuel) name services closure (cur ∷ frontier) =
    let (grown, waiting) = visit name cur services closure frontier in
    closure_loop fuel name services grown waiting

-- A service joins the frontier once, and `name` is on it at first.
unfoldable pub dependent_closure : List Service → (name : Text) → Option (List Text)
unfolding closure_loop
dependent_closure services name = closure_loop (suc (length services)) name services [] (name ∷ [])

-- The services of the map, in the order of an iteration.
abbrev all_services : (ℕ → Service) → Map ℕ → List Service
all_services heap [] = []
all_services heap ((name, id) ∷ m) = heap id ∷ all_services heap m

-- The loop of runningDependentsLocked over the start order.
unfoldable pub running_among : (ℕ → Service) → Map ℕ → List Text → List Text → List ℕ
unfolding lookup contains
running_among heap services closure [] = []
running_among heap services closure (n ∷ seq) =
    let rest = running_among heap services closure seq in
    if contains closure n
    then elim (lookup n services) [
      | none ↦ rest
      | some id ↦ if (heap id).running then id ∷ rest else rest
    ]
    else rest

abbrev dependents_among : Daemon → Option (List Text) → List ℕ
dependents_among d none = []
dependents_among d (some closure) = running_among d.heap d.services closure d.shutdown_seq

unfoldable pub running_dependents : Text → Daemon → List ℕ
unfolding dependent_closure running_among
running_dependents name d =
    dependents_among d (dependent_closure (all_services d.heap d.services) name)

-- Why a wait ends: the exit, the shutdown, or the deadline.
pub data Waited : Type 0 where
  exited shutdown_began timed_out : Waited

pub data GateError : Type 0 where
  no_ready_check bad_ready_check bad_ready_timeout not_ready not_notified : GateError

-- The outcome of startGated: what startService returned, unless a gate stays closed.
pub data Gated : Type 0 where
  opened : StartResult → Gated
  closed : GateError → Gated

-- The answers of the outside to the gates of a service: the probes of its ready-check, if it has one,
-- the start, and the readiness message; and what the others do during the two waits.
pub record GateEnv : Type 0 where
  pub ready_check : Bool
  pub check_found : Bool
  pub check_made : Bool
  pub timeout_parsed : Bool
  pub check_passed : Bool
  pub before : Daemon → Daemon
  pub start : StartEnv
  pub notified : Bool
  pub after : Daemon → Daemon

-- The second gate, behind a start that went well or found the service running.
abbrev pub await_notified : GateEnv → (sd_notify : Bool) → StartResult → Daemon → Daemon × Gated
await_notified g false r d = (d, opened r)
await_notified g true r d =
    if g.notified then (g.after d, opened r) else (g.after d, closed not_notified)

abbrev pub behind_start : GateEnv → (sd_notify : Bool) → Daemon × StartResult → Daemon × Gated
behind_start g notify (d, started pid) = await_notified g notify (started pid) d
behind_start g notify (d, already_running pid) = await_notified g notify (already_running pid) d
behind_start g notify (d, r) = (d, opened r)

abbrev pub start_behind : GateEnv → ℕ → Daemon → Daemon × Gated
start_behind g id d = behind_start g (d.heap id).sd_notify (start_service g.start id d)

unfoldable pub start_gated : GateEnv → ℕ → Daemon → Daemon × Gated
unfolding start_service
start_gated g id d =
    if not g.ready_check
    then start_behind g id d
    else if not g.check_found
    then (d, closed no_ready_check)
    else if not g.check_made
    then (d, closed bad_ready_check)
    else if not g.timeout_parsed
    then (d, closed bad_ready_timeout)
    else if not g.check_passed
    then (g.before d, closed not_ready)
    else start_behind g id (g.before d)

-- The errors of a restart.
pub data RestartError : Type 0 where
  refused condition_skipped wait_timed_out : RestartError
  start_failed : Gated → RestartError

abbrev pub wait_error : Waited → Option RestartError
wait_error exited = none
wait_error shutdown_began = some refused
wait_error timed_out = some wait_timed_out

-- What startForRestart makes of the outcome: a service that stays down ends the daemon.
abbrev pub after_gates : Daemon × Gated → Daemon × Option RestartError
after_gates (d, opened (started pid)) = (d, none)
after_gates (d, opened (already_running pid)) = (d, none)
after_gates (d, opened replaced) = (d, none)
after_gates (d, opened condition_unmet) = (d, some condition_skipped)
after_gates (d, opened shutting_down) = (d, some refused)
after_gates (d, opened r) = (begin_shutdown (pos 1) d, some (start_failed (opened r)))
after_gates (d, closed e) = (begin_shutdown (pos 1) d, some (start_failed (closed e)))

unfoldable pub start_for_restart : GateEnv → ℕ → Daemon → Daemon × Option RestartError
unfolding start_gated begin_shutdown
start_for_restart g id d = after_gates (start_gated g id d)

-- stopForRestart, once the daemon is found not to shut down: the exit counts as part of a restart.
unfoldable pub stop_leg : ℕ → ℕ → Daemon → Daemon
unfolding stop_service mark_restart_pending
stop_leg now id d =
    let s = d.heap id in
    let e = if s.running then mark_restart_pending s.name (stop_service now id d) else d in
    record e {
      metrics = service_restarted s.name e.metrics;
      pending_restarts = increment e.pending_restarts;
    }

abbrev pub Wait : Type 0
Wait = ℕ → Daemon → Daemon × Waited

-- The legs of runRestart that stop services, with how many were stopped; `more` goes on after an exit.
abbrev pub Stopping : Type 0
Stopping = Daemon × ℕ × Option RestartError

abbrev pub on_exit : (Daemon → Stopping) → ℕ → Daemon × Waited → Stopping
on_exit more n (d, exited) = more d
on_exit more n (d, w) = (d, n, wait_error w)

unfoldable pub stop_legs : Wait → (now : ℕ) → List ℕ → (stopped : ℕ) → Daemon → Stopping
unfolding stop_leg
stop_legs wait now [] n d = (d, n, none)
stop_legs wait now (id ∷ ids) n d =
    if d.shutting_down
    then (d, n, some refused)
    else on_exit (stop_legs wait now ids (suc n)) (suc n) (wait id (stop_leg now id d))

-- The loop that starts the dependents; one whose condition is not met is passed over.
abbrev pub on_dependent :
    (Daemon → Daemon × Option RestartError)
    → Daemon × Option RestartError
    → Daemon × Option RestartError
on_dependent more (d, none) = more d
on_dependent more (d, some condition_skipped) = more d
on_dependent more (d, some e) = (d, some e)

unfoldable pub start_dependents : (ℕ → GateEnv) → List ℕ → Daemon → Daemon × Option RestartError
unfolding start_for_restart
start_dependents gates [] d = (d, none)
start_dependents gates (id ∷ ids) d =
    on_dependent (start_dependents gates ids) (start_for_restart (gates id) id d)

abbrev pub then_dependents :
    (Daemon → Daemon × Option RestartError)
    → Daemon × Option RestartError
    → Daemon × Option RestartError
then_dependents more (d, none) = more d
then_dependents more (d, some e) = (d, some e)

-- d.pendingRestarts.Add(-stopped)
unfoldable pub settle_by : ℕ → Daemon → Daemon
unfolding settle
settle_by zero d = d
settle_by (suc n) d = settle_by n (settle d)

abbrev pub settled_after : ℕ → Daemon × Option RestartError → Daemon × Option RestartError
settled_after n (d, e) = (settle_by n d, e)

abbrev pub restart_legs : (ℕ → GateEnv) → ℕ → List ℕ → Stopping → Daemon × Option RestartError
restart_legs gates id deps (d, n, some e) = settled_after n (d, some e)
restart_legs gates id deps (d, n, none) =
    settled_after n
      (then_dependents (start_dependents gates deps) (start_for_restart (gates id) id d))

abbrev pub backward : List ℕ → List ℕ
backward [] = []
backward (id ∷ ids) = backward ids ++ id ∷ []

-- runRestart: stop the dependents from the last on and then the service, start it and then them.
unfoldable pub run_restart :
    Wait → (ℕ → GateEnv) → (now id : ℕ) → (deps : List ℕ) → Daemon → Daemon × Option RestartError
unfolding stop_legs start_dependents settle_by start_for_restart
run_restart wait gates now id deps d =
    restart_legs gates id deps (stop_legs wait now (backward deps ++ id ∷ []) 0 d)
