-- ===== src/Daemon.antt =====
-- daemon.go: the supervisor's state, and the start of a service. Goroutines are the entries of
-- lists: a step of the daemon is what one of them does between two blocking operations, so any
-- interleaving of them is a sequence of steps. A pointer to a service is its number in the heap.
use gopherd.Prelude.Int.{ℤ, pos, negsuc, is_zero}
use gopherd.Prelude.Maps.{Map, lookup, insert, remove, update}
use gopherd.Prelude.{
  ℕ, suc, ◌+◌, ◌%◌, ◌-◌, ◌^◌, ltb, leb, eqb, Text, ◌==◌, Bool, true, false, ◌&&◌, ◌||◌, not, Option,
  none, some, List, [], ◌∷◌, ◌++◌, if◌then◌else◌,
}
use gopherd.Metrics.{Metrics, service_started, service_skipped, service_restarted}
use gopherd.Service.{
  Service, Effect, Spawn, Started, forked, failed, Done, finish_start, stop, done_of,
}
pub mod Shutdown
pub mod Reap
pub mod Boot
pub mod Build
pub mod Distinct
pub mod DryRun
pub mod Kept
pub mod Preserve
pub mod Reload
pub mod Reloaded
pub mod Swap
pub mod Reconcile
pub mod Lifting
pub mod Agreement
pub mod Table
pub mod Exits
pub mod Steps
pub mod Dependents
pub mod Requests
pub mod Lifecycle
pub mod Closure
pub mod Ordered
pub mod Balance
pub mod Scheduled
pub mod Reachable
pub mod Policy
pub mod Requirers
pub mod Actions
mod Samples
mod ReloadSamples

-- restartReq: a restart that waits for an exit. It is on `restartCh`, in a sender that blocks on
-- it, or with its handler.
pub record RestartReq : Type 0 where
  pub service : ℕ
  pub done : Done
  pub delay : ℕ

-- What is left to the reap loop after it releases the lock: to go on, to end, or to store an exit
-- code and to start the shutdown with it.
pub data Tail : Type 0 where
  continue break : Tail
  store : (code : ℤ) → Tail

pub record Daemon : Type 0 where
  pub heap : ℕ → Service
  pub services : Map ℕ
  pub pid_map : List (ℕ × ℕ)
  pub restart_pending : Text → Bool
  pub restarts : List RestartReq
  pub pending_restarts : ℤ
  pub shutting_down : Bool
  pub exit_code : ℤ
  -- The goroutines that are about to call initiateShutdown, by their code.
  pub shutdowns : List ℤ
  -- The call of initiateShutdown that has passed the swap and not yet stored its code.
  pub code_stores : List ℤ
  -- The restarts of ordered restarts that pendingRestarts counts.
  pub legs : ℕ
  pub shutdown_mode : Text
  pub shutdown_seq : List Text
  pub tail : Tail
  pub metrics : Metrics
  pub effects : List Effect

-- d.pidMap[pid], and its deletion.
unfoldable pub lookup_pid : ℕ → List (ℕ × ℕ) → Option ℕ
lookup_pid pid [] = none
lookup_pid pid ((p, id) ∷ m) = if eqb p pid then some id else lookup_pid pid m

unfoldable pub remove_pid : ℕ → List (ℕ × ℕ) → List (ℕ × ℕ)
remove_pid pid [] = []
remove_pid pid ((p, id) ∷ m) =
    let rest = remove_pid pid m in if eqb p pid then rest else (p, id) ∷ rest

unfoldable pub insert_pid : ℕ → ℕ → List (ℕ × ℕ) → List (ℕ × ℕ)
unfolding remove_pid
insert_pid pid id m = (pid, id) ∷ remove_pid pid m

-- A write through the pointer to a service.
abbrev pub write : ℕ → Service → (ℕ → Service) → ℕ → Service
write id s heap j = if eqb j id then s else heap j

-- markRestartPending and takeRestartPending.
unfoldable pub mark_restart_pending : Text → Daemon → Daemon
mark_restart_pending name d = record d { restart_pending = update d.restart_pending name true }

unfoldable pub take_restart_pending : Text → Daemon → Daemon × Bool
take_restart_pending name d =
    if d.restart_pending name
    then (record d { restart_pending = update d.restart_pending name false }, true)
    else (d, false)

-- Stop, called on the service `id` of the heap.
unfoldable pub stop_service : ℕ → ℕ → Daemon → Daemon
unfolding stop
stop_service now id d =
    let (s, es) = stop now (d.heap id) in
    record d { heap = write id s d.heap; effects = d.effects ++ es }

-- What startService returns.
pub data StartResult : Type 0 where
  started : (pid : ℕ) → StartResult
  already_running : (pid : ℕ) → StartResult
  condition_unmet prepare_failed shutting_down replaced spawn_failed : StartResult

-- The last part of startService under the lock, by what FinishStart returned.
unfoldable pub finish_locked : ℕ → ℕ → Daemon → Service × Started → Daemon × StartResult
unfolding insert_pid
finish_locked now id d (t, failed e) = (record d { heap = write id t d.heap }, spawn_failed)
finish_locked now id d (t, forked pid) = (
  record d {
    heap = write id t d.heap;
    pid_map = insert_pid pid id d.pid_map;
    metrics = service_started now (d.heap id).name pid d.metrics;
  },
  started pid,
)

-- current, ok := d.services[svc.Name]; ok && current == svc
abbrev pub is_current : ℕ → Option ℕ → Bool
is_current id none = false
is_current id (some current) = eqb current id

-- The guards in their order: the daemon shuts down, the service is current, it runs.
unfoldable pub start_guarded :
    Spawn → ℕ → Daemon → (shuts_down current running : Bool) → Daemon × StartResult
unfolding finish_start finish_locked
start_guarded os id d true current running = (d, shutting_down)
start_guarded os id d false false running = (d, replaced)
start_guarded os id d false true true = (d, already_running (d.heap id).pid)
start_guarded os id d false true false = finish_locked os.now id d (finish_start os (d.heap id))

-- The part of startService that runs under the lock.
unfoldable pub start_locked : Spawn → ℕ → Daemon → Daemon × StartResult
unfolding lookup start_guarded
start_locked os id d =
    start_guarded os id d d.shutting_down (is_current id (lookup (d.heap id).name d.services))
      (d.heap id).running

-- What the outside answers to a start: the reason that UnmetCondition gives (empty if it gives
-- none), whether PrepareStart succeeds, and what the fork returns.
pub record StartEnv : Type 0 where
  pub unmet : Text
  pub prepared : Bool
  pub os : Spawn

unfoldable pub start_with :
    StartEnv → ℕ → Daemon → (unmet : Text) → (prepared : Bool) → Daemon × StartResult
unfolding start_locked
start_with env id d (c ∷ reason) prepared = (
  record d { metrics = service_skipped (d.heap id).name (c ∷ reason) d.metrics },
  condition_unmet,
)
start_with env id d [] false = (d, prepare_failed)
start_with env id d [] true = start_locked env.os id d

unfoldable pub start_service : StartEnv → ℕ → Daemon → Daemon × StartResult
unfolding start_with
start_service env id d = start_with env id d env.unmet env.prepared
