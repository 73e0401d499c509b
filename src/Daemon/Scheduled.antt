-- ===== src/Daemon/Scheduled.antt =====
-- sched.go: the rounds of a schedule runner, and the runs that it starts.
use gopherd.Prelude.Maps.{Map}
use gopherd.Prelude.{
  ℕ, ◌+◌, ltb, eqb, Bool, true, false, ◌&&◌, Option, none, some, List, [], ◌∷◌, ◌++◌, if◌then◌else◌,
}
use gopherd.Service.{Service}
use gopherd.Daemon.{Daemon, StartEnv, StartResult, started, start_service, stop_service}

-- The timer that ends a run which exceeds its startup-timeout.
pub record Overrun : Type 0 where
  pub service : ℕ
  pub pid : ℕ
  pub fires_at : ℕ

-- A timeout of 0 stands for one that is not set.
abbrev arm : (now id timeout : ℕ) → StartResult → Option Overrun
arm now id timeout (started pid) =
    if ltb 0 timeout
    then some (record { service = id; pid = pid; fires_at = now + timeout })
    else none
arm now id timeout r = none

-- startScheduledRun: the start, and the timer that it arms.
unfoldable pub start_scheduled_run : StartEnv → ℕ → Daemon → Daemon × Option Overrun
unfolding start_service
start_scheduled_run env id d =
    let (e, r) = start_service env id d in (e, arm env.os.now id (d.heap id).startup_timeout r)

-- The callback of the timer: only the run that armed it is stopped.
unfoldable pub fire_overrun : ℕ → Overrun → Daemon → Daemon
unfolding stop_service
fire_overrun now t d =
    if (d.heap t.service).running && eqb (d.heap t.service).pid t.pid
    then stop_service now t.service d
    else d

-- What a round of the loop meets: no future match, the tick, or stop().
pub data Tick : Type 0 where
  no_match elapsed stopped : Tick

-- Whether the loop goes on is the last part.
unfoldable pub runner_round : StartEnv → ℕ → Tick → Daemon → Daemon × Option Overrun × Bool
unfolding start_scheduled_run
runner_round env id no_match d = (d, none, false)
runner_round env id stopped d = (d, none, false)
runner_round env id elapsed d =
    let (e, timer) = start_scheduled_run env id d in
    if (d.heap id).running then (d, none, true) else (e, timer, true)

-- The rounds of a runner, with the timers that they arm and what the others do before each round.
unfoldable pub runner_loop :
    ℕ → List (StartEnv × Tick × (Daemon → Daemon)) → Daemon → Daemon × List Overrun
unfolding runner_round
runner_loop id [] d = (d, [])
runner_loop id ((env, tick, others) ∷ rounds) d =
    let (e, timer, more) = runner_round env id tick (others d) in
    let (f, timers) = runner_loop id rounds e in
    let armed : List Overrun = elim timer [ none ↦ [] | some t ↦ t ∷ [] ] in
    if more then (f, armed ++ timers) else (e, armed)

-- startSchedulers: a runner for each service with a schedule.
abbrev pub runners : (ℕ → Service) → Map ℕ → List ℕ
runners heap [] = []
runners heap ((name, id) ∷ m) = if (heap id).scheduled then id ∷ runners heap m else runners heap m
