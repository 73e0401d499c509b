-- ===== src/Lib.antt =====
-- gopherd: a service supervisor for containers, in Go. It starts the services of a configuration in
-- the order of their dependencies, restarts or stops them as their exits and health checks demand,
-- and shuts down in order.
--
-- Parts of the program, and where they are modelled:
--   internal/order/order.go      Order (TopoSort), Order/Layers (TopoLayers)
--   internal/metrics/metrics.go  Metrics: counters of services and checks; Metrics/Calls: their calls
--   internal/reaper/reaper.go    Reaper: exit statuses for probes that the supervisor does not manage
--   service/service.go           ExitAction, and Service: one process, its stop and its end
--   daemon.go                    Daemon (state, startService), Daemon/Shutdown (stops, restarts)
--   run.go, internal/backoff     Daemon/Reap: the reap of a child and the policy for its exit, proved in
--                                Daemon/Policy, Daemon/Requirers, Daemon/Actions, Daemon/Dependents,
--                                Daemon/Reachable
--   run.go (boot)                Daemon/Boot: the results of the oneshots of a layer
--   check/check.go               Check: the threshold of a health check; Check/New: New
--   control/                     Control: options of a command; Control/Commands: their dispatch;
--                                Control/Client: the command that the client sends
--   internal/sdnotify/sdnotify.go Notify: datagrams of services that announce their readiness
--   service/service.go (.env)    DotEnv: comments, escapes and keys of a .env file; Service/Environment:
--                                the file as a whole, and the environment of a child (buildEnvMap)
--   internal/yml/parser.go       Yml: quoting and splitting; Yml/Node: the node tree; Yml/Lines: lines and
--                                literal blocks; Yml/Blocks: the recursive descent and Parse, proved in
--                                Yml/WellFormed, Yml/Descent and Yml/Total
--   internal/cron/cron.go        Cron: fields as masks; Cron/Next: the search over a calendar; proved in
--                                Cron/Fill, Cron/Steps and Cron/First
--   lifecycle.go                 Daemon/Lifecycle: ordered restarts, gates, dependents; proved in
--                                Daemon/Closure, Daemon/Ordered and Daemon/Balance
--   sched.go                     Daemon/Scheduled: the rounds of a schedule runner
--   internal/logger/             Logger: sanitizing (target.go), proved in Logger/Clean; Logger/Writer:
--                                PrefixWriter (writer.go), proved in Logger/Recent, Logger/Stream and
--                                Logger/Bounds; Logger/Rotate (rotate.go)
--   service/signal.go            Service/Signals: names, rewriting, and umasks of service/service.go
--   internal/yml/config.go       Service/Process: the Process of service/service.go, processes that are
--                                excluded (proved in Service/Exclusion), exit codes, and what a reload
--                                compares (processConfigChanged of daemon.go)
--                                Config: the configuration, its checks and targets; Config/ParseProcess
--                                (parseProcess), Config/Validate (the checks on processes), Config/Conditions
--                                (excluded processes and orphaned checks), Config/Load (Unmarshal); proved
--                                in Config/Parsed, Config/Accepted, Config/Kept, Config/Valid,
--                                Config/Shutdown and Config/Orphans
--   service/service.go (New)     Service/New: a service from its Process, proved in Service/Sound
--   service/condition.go         Service/Conditions: the conditions on files that gate a start
--   service/env.go, file_template.go  Service/Templates: placeholders of variables and files
--   daemon.go (reload)           Daemon/Reload (the reconciling loop), Daemon/Swap (the whole exchange and
--                                what comes before and after), proved in Daemon/Reconcile, Daemon/Kept,
--                                Daemon/Preserve and Daemon/Reloaded; Daemon/Distinct: names are different
--   daemon.go (buildServices)    Daemon/Build: the services of a configuration; Daemon/DryRun: why
--                                building them cannot fail after the dry run of reload
-- Prelude holds what they share: byte texts, maps, integers, counting.
--
-- How the parts interact: the supervisor of Daemon keeps a heap of services (a pointer is a number),
-- the service map, the table of pids, the queued restarts and the metrics. Its functions call those
-- of Service and Metrics on the entries. A goroutine that waits is an entry of a list of the state,
-- and Daemon/Steps is the relation of the steps that the reap loop, the handlers of restarts, the control
-- socket with its ordered restarts, the health checks and the shutdown can make next, in any order. The
-- exchange of the services by a reload, the starts of the boot and those of oneshots, which go around
-- startService, are not among its steps. What runs under the lock is one step, and so is the handler of a
-- restart from where its wait is over; the swap of initiateShutdown and the store of its code are two.
--   startService -> start_service, handleRestartReq -> handle_restart, initiateShutdown ->
--   begin_shutdown and store_code, stopAll -> stop_all, handleCheckFailure -> handle_check_failure,
--   RestartFn -> request_restart, the body of the reap loop in run -> reap and store_exit.
--
-- Conventions: a text is a list of bytes. Go's int is an integer without bound, but the loop of a
-- cron field adds in 64 bits, and exit codes are cut to 32 bits where the code converts them. A Go
-- map is an association list, or a function where only its values are read. An error is a
-- constructor of a result type.
--
-- Fuel: the loops of both sorts run on fuel. A round of TopoSort places a service and one of
-- TopoLayers emits a layer that is not empty, so the number of services is enough. dependentClosure has a
-- name on its frontier at most once; the loops of the parser, of Write and of sanitizing use up a line
-- or a byte each round; Next gets later by a minute each round; the loop of a cron field ends after
-- 70 rounds at most.
--
-- Outside the model: the operating system (what fork, kill, wait4 and stat answer is an argument),
-- Go's time and random numbers, and what other goroutines do while one waits for an exit. It is
-- assumed that the kernel gives a new process no pid that is still in the table, as it keeps that of
-- a child which has not been waited for.
-- Package time in cron, with time.Date and AddDate, is a parameter, as are the probes of a ready-check and the file system.
-- Not modelled: the starts at boot, the opening of log files and sockets, and the limits of memory
-- and cpu.
pub mod Prelude
pub mod Order
pub mod Metrics
pub mod ExitAction
pub mod Service
pub mod Reaper
pub mod Daemon
pub mod Yml
pub mod Check
pub mod Config
pub mod Control
pub mod Notify
pub mod DotEnv
pub mod Cron
pub mod Logger
mod Samples
