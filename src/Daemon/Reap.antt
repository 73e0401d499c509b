-- ===== src/Daemon/Reap.antt =====
-- run.go: what the reap loop does with a child that Wait4 returned.
use gopherd.Prelude.Int.{ℤ, pos, is_zero, int32}
use gopherd.Prelude.{
  ℕ, suc, leb, Text, Bool, true, false, ◌&&◌, ◌||◌, not, none, some, List, [], ◌∷◌, ◌++◌,
  if◌then◌else◌, contains,
}
use gopherd.ExitAction.{
  ExitAction, restart, shutdown, success_shutdown, failure_shutdown, ignore, parse_exit_action,
}
use gopherd.Metrics.{service_exited, service_restarted}
use gopherd.Service.{
  Service, Backoff, WaitStatus, wait_status_code, effective_code, mark_exited, done_of,
}
use gopherd.Daemon.{
  Daemon, continue, break, store, lookup_pid, remove_pid, write, take_restart_pending, stop_service,
}
use gopherd.Daemon.Shutdown.{enqueue_restart}

-- Backoff.Next and Backoff.Reset. `over` says whether the delay of this attempt passes the limit.
unfoldable pub next_backoff : Bool → Backoff → Backoff
next_backoff over b = record b { attempt = suc b.attempt; at_limit = b.at_limit || over }

unfoldable pub reset_backoff : Backoff → Backoff
reset_backoff b = record b { attempt = 0; at_limit = false }

-- The switch that chooses the action for an exit with a given effective code.
unfoldable pub choose : Service → ℤ → ExitAction
unfolding parse_exit_action
choose s code =
    if s.stopped
    then ignore
    else if s.scheduled
    then ignore
    else if s.oneshot
    then (if is_zero code
        then ignore
        else let (a, bad) = parse_exit_action s.proc_on_failure ignore in if bad then ignore else a)
    else if is_zero code
    then s.on_success
    else s.on_failure

-- Whether the switch comes to its default case, where the failure of a hard dependency stops the
-- services that require it.
unfoldable pub fails_hard : Service → ℤ → Bool
fails_hard s code = not s.stopped && (not s.scheduled && (not s.oneshot && not (is_zero code)))

unfoldable pub stop_dependents : ℕ → Text → List (Text × ℕ) → Daemon → Daemon
unfolding stop_service contains
stop_dependents now name [] d = d
stop_dependents now name ((other, id) ∷ m) d =
    stop_dependents now name m (
      if contains (d.heap id).requires name && (d.heap id).running
      then stop_service now id d
      else d)

-- What is drawn or measured outside when a restart is planned: the delay that Backoff.Next
-- returns, and whether it met the limit.
pub record Drawn : Type 0 where
  pub delay : ℕ
  pub over : Bool

unfoldable pub plan_restart : Drawn → ℕ → ℕ → Daemon → Daemon
unfolding next_backoff reset_backoff enqueue_restart
plan_restart drawn duration id d =
    let s = d.heap id in
    let b = if leb s.backoff.limit duration then reset_backoff s.backoff else s.backoff in
    let t : Service = record s { backoff = next_backoff drawn.over b } in
    enqueue_restart (record { service = id; done = done_of t; delay = drawn.delay })
      (record d { heap = write id t d.heap; metrics = service_restarted s.name d.metrics })

-- The last switch.
unfoldable pub act : Drawn → ℕ → ℕ → ℤ → ExitAction → Daemon → Daemon
unfolding plan_restart
act drawn duration id code restart d = plan_restart drawn duration id d
act drawn duration id code shutdown d = record d { tail = store code }
act drawn duration id code failure_shutdown d = record d { tail = store code }
act drawn duration id code success_shutdown d = record d { shutdowns = d.shutdowns ++ pos 0 ∷ [] }
act drawn duration id code ignore d = d

abbrev pub is_restart : ExitAction → Bool
is_restart restart = true
is_restart _ = false

-- The exit is recorded unless it is part of a restart cycle.
unfoldable pub record_exit : Bool → Text → ℤ → Daemon → Daemon
record_exit skip name code d =
    if skip then d else record d { metrics = service_exited name code d.metrics }

-- The loop ends if a shutdown has no managed child left to wait for.
unfoldable pub leave_if_empty : Daemon → Daemon
leave_if_empty d = record d { tail = elim (d.pid_map) [ [] ↦ break | p ∷ m ↦ continue ] }

abbrev pub dependents : ℕ → Service → ℤ → (hard : Bool) → Daemon → Daemon
dependents now s code true d = stop_dependents now s.name d.services d
dependents now s code false d = d

-- What follows the bookkeeping of an exit, by whether the daemon shuts down and whether the exit
-- is part of a restart that was asked for.
unfoldable pub after_exit :
    ℕ → Drawn → ℕ → ℕ → Service → ℤ → (down consumed : Bool) → Daemon → Daemon
unfolding choose fails_hard stop_dependents act record_exit leave_if_empty
after_exit now drawn duration id s code true consumed d =
    leave_if_empty (record_exit consumed s.name code d)
after_exit now drawn duration id s code false consumed d =
    let action = choose s code in
    let f = dependents now s code (fails_hard s code) d in
    act drawn duration id code action (record_exit (consumed || is_restart action) s.name code f)

-- The part for a managed child, from the lookup in pidMap on.
unfoldable pub reap_managed : ℕ → Drawn → ℕ → ℕ → WaitStatus → Daemon → Daemon
unfolding remove_pid mark_exited effective_code wait_status_code take_restart_pending after_exit
reap_managed now drawn pid id status d =
    let (s, duration) = mark_exited now (d.heap id) in
    let code = effective_code s (wait_status_code status) in
    let (e, consumed) =
      take_restart_pending s.name
        (record d { heap = write id s d.heap; pid_map = remove_pid pid d.pid_map }) in
    after_exit now drawn duration id s code e.shutting_down consumed e

-- A child that is in no service: its status goes to the registry of internal/reaper.
unfoldable pub reap_unmanaged : Daemon → Daemon
unfolding leave_if_empty
reap_unmanaged d = if d.shutting_down then leave_if_empty d else d

unfoldable pub reap : ℕ → Drawn → ℕ → WaitStatus → Daemon → Daemon
unfolding lookup_pid reap_managed reap_unmanaged
reap now drawn pid status d = elim (lookup_pid pid d.pid_map) [
  | none ↦ reap_unmanaged d
  | some id ↦ reap_managed now drawn pid id status d
]

-- exitCode.CompareAndSwap(0, int32(code)) and `go d.initiateShutdown(code)`.
unfoldable pub store_exit : ℤ → Daemon → Daemon
unfolding int32
store_exit code d =
    let e = record d { tail = continue; shutdowns = d.shutdowns ++ code ∷ [] } in
    if is_zero d.exit_code then record e { exit_code = int32 code } else e
