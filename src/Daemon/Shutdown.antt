-- ===== src/Daemon/Shutdown.antt =====
-- daemon.go: the shutdown, the restarts that a client or a failed health check asks for, and the
-- handler of a restart. `wait` is what the other goroutines do while this one waits for an exit
-- with the lock released.
use gopherd.Prelude.Int.{ℤ, pos, decrement, increment, int32}
use gopherd.Prelude.Maps.{Map, lookup}
use gopherd.Prelude.{
  ℕ, Text, codes, ◌==◌, Bool, true, false, ◌||◌, Option, none, some, List, [], ◌∷◌, ◌++◌,
  if◌then◌else◌, contains, text_discrete,
}
use gopherd.ExitAction.{restart, shutdown, success_shutdown, failure_shutdown, ignore}
use gopherd.Metrics.{service_restarted}
use gopherd.Service.{done_of}
use gopherd.Daemon.{
  Daemon, RestartReq, StartEnv, StartResult, prepare_failed, spawn_failed, stop_service,
  mark_restart_pending, start_service,
}

-- The first part of initiateShutdown, the CompareAndSwap: only the first caller gets past it, and has
-- its code still to store.
unfoldable pub begin_shutdown : ℤ → Daemon → Daemon
begin_shutdown code d =
    if d.shutting_down
    then d
    else record d { shutting_down = true; code_stores = d.code_stores ++ code ∷ [] }

-- The second part, exitCode.Store, which no lock ties to the first.
unfoldable pub store_code : ℤ → Daemon → Daemon
unfolding int32
store_code code d = record d { exit_code = int32 code }

-- reverseSeq
unfoldable pub reverse_seq : List Text → List Text
reverse_seq [] = []
reverse_seq (name ∷ seq) = reverse_seq seq ++ name ∷ []

-- A loop of stopSequential: `stopped` collects the names for the second one.
unfoldable pub stop_each :
    (ℕ → Daemon → Daemon) → ℕ → List Text → List Text → Daemon → List Text × Daemon
unfolding lookup stop_service contains
stop_each wait now [] stopped d = (stopped, d)
stop_each wait now (name ∷ seq) stopped d = elim (lookup name d.services) [
  | none ↦ stop_each wait now seq stopped d
  | some id ↦ elim ((d.heap id).running) [
    | false ↦ stop_each wait now seq stopped d
    | true ↦ stop_each wait now seq (name ∷ stopped) (wait id (stop_service now id d))
  ]
]

-- The names that the second loop still has to look at.
abbrev pub uncovered : List Text → Map ℕ → List Text
uncovered stopped [] = []
uncovered stopped ((name, id) ∷ m) =
    if contains stopped name then uncovered stopped m else name ∷ uncovered stopped m

unfoldable pub stop_sequential : (ℕ → Daemon → Daemon) → ℕ → List Text → Daemon → Daemon
unfolding stop_each
stop_sequential wait now seq d =
    let (stopped, d') = stop_each wait now seq [] d in
    (stop_each wait now (uncovered stopped d'.services) stopped d').1

-- stopSimultaneous: all are signalled under the lock, then all exits are waited for.
unfoldable pub signal_all : ℕ → List (Text × ℕ) → List ℕ → Daemon → List ℕ × Daemon
unfolding stop_service
signal_all now [] ids d = (ids, d)
signal_all now ((name, id) ∷ m) ids d = elim ((d.heap id).running) [
  | false ↦ signal_all now m ids d
  | true ↦ signal_all now m (ids ++ id ∷ []) (stop_service now id d)
]

abbrev wait_each : (ℕ → Daemon → Daemon) → List ℕ → Daemon → Daemon
wait_each wait [] d = d
wait_each wait (id ∷ ids) d = wait_each wait ids (wait id d)

unfoldable pub stop_simultaneous : (ℕ → Daemon → Daemon) → ℕ → Daemon → Daemon
unfolding signal_all
stop_simultaneous wait now d =
    let (ids, d') = signal_all now d.services [] d in wait_each wait ids d'

unfoldable pub stop_all : (ℕ → Daemon → Daemon) → ℕ → Daemon → Daemon
unfolding stop_sequential stop_simultaneous reverse_seq text_discrete
stop_all wait now d =
    if d.shutdown_mode == [] || d.shutdown_mode == codes "reverse-dep"
    then stop_sequential wait now (reverse_seq d.shutdown_seq) d
    else if d.shutdown_mode == codes "dep"
    then stop_sequential wait now d.shutdown_seq d
    else stop_simultaneous wait now d

-- Queue a restart: pendingRestarts.Add(1), and a sender for restartCh.
unfoldable pub enqueue_restart : RestartReq → Daemon → Daemon
enqueue_restart r d = record d {
  restarts = d.restarts ++ r ∷ [];
  pending_restarts = increment d.pending_restarts;
}

-- Stop the service if it runs, book the exit as part of a restart, and queue the restart.
unfoldable pub bounce : ℕ → ℕ → Daemon → Daemon
unfolding stop_service mark_restart_pending enqueue_restart
bounce now id d =
    let s = d.heap id in
    let e = if s.running then mark_restart_pending s.name (stop_service now id d) else d in
    enqueue_restart (record { service = id; done = done_of s; delay = 0 })
      (record e { metrics = service_restarted s.name e.metrics })

-- The replies of RestartFn and StopFn, without --wait.
pub data Reply : Type 0 where
  unknown_service refused already_stopped stop_sent restart_scheduled : Reply

-- RestartFn for a service that takes no dependents along.
unfoldable pub request_restart : ℕ → Text → Daemon → Daemon × Reply
unfolding lookup bounce
request_restart now name d = elim (lookup name d.services) [
  | none ↦ (d, unknown_service)
  | some id ↦ if d.shutting_down then (d, refused) else (bounce now id d, restart_scheduled)
]

unfoldable pub request_stop : ℕ → Text → Daemon → Daemon × Reply
unfolding lookup stop_service
request_stop now name d = elim (lookup name d.services) [
  | none ↦ (d, unknown_service)
  | some id ↦
      if (d.heap id).running then (stop_service now id d, stop_sent) else (d, already_stopped)
]

-- The loop of handleCheckFailure. The second part of the result is the code of the shutdown that
-- ends the loop, if an action asks for one.
unfoldable pub check_failure_loop : ℕ → Text → List (Text × ℕ) → Daemon → Daemon × Option ℤ
unfolding lookup bounce
check_failure_loop now check [] d = (d, none)
check_failure_loop now check ((name, id) ∷ m) d = elim (lookup check (d.heap id).on_check_failure) [
  | none ↦ check_failure_loop now check m d
  | some restart ↦ check_failure_loop now check m (bounce now id d)
  | some shutdown ↦ (d, some (pos 1))
  | some success_shutdown ↦ (d, some (pos 0))
  | some failure_shutdown ↦ (d, some (pos 1))
  | some ignore ↦ check_failure_loop now check m d
]

unfoldable pub handle_check_failure : ℕ → Text → Daemon → Daemon
unfolding check_failure_loop begin_shutdown
handle_check_failure now check d =
    if d.shutting_down
    then d
    else let (d', code) = check_failure_loop now check d.services d in
      elim code [ none ↦ d' | some c ↦ begin_shutdown c d' ]

-- pendingRestarts.Add(-1)
unfoldable pub settle : Daemon → Daemon
settle d = record d { pending_restarts = decrement d.pending_restarts }

-- What handleRestartReq makes of the result of startService: a failed start ends the daemon.
abbrev pub give_up : Daemon × StartResult → Daemon
give_up (d, prepare_failed) = begin_shutdown (pos 1) d
give_up (d, spawn_failed) = begin_shutdown (pos 1) d
give_up (d, _) = d

-- handleRestartReq, from where the awaited exit is observed and the delay is over, with the
-- decrement of pendingRestarts that follows it.
unfoldable pub handle_with : StartEnv → RestartReq → Daemon → (running : Bool) → Daemon
unfolding start_service begin_shutdown settle
handle_with env r d true = settle d
handle_with env r d false = settle (give_up (start_service env r.service d))

unfoldable pub handle_restart : StartEnv → RestartReq → Daemon → Daemon
unfolding handle_with
handle_restart env r d = handle_with env r d (d.heap r.service).running
