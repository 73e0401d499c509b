-- ===== src/Service.antt =====
-- service/service.go: a process and the state of its running instance. Calls into the operating
-- system are effects that a method returns; what they answer is an argument. Times are in
-- nanoseconds. A channel is the number of the start that made it.
pub mod Lifetime
pub mod Signals
pub mod Process
pub mod Templates
pub mod Conditions
pub mod Environment
pub mod Exclusion
pub mod New
pub mod Sound
mod Samples
use gopherd.Prelude.Int.{ℤ, pos, exceeds, ℤ-discrete}
use gopherd.Prelude.Maps.{Map}
use gopherd.Prelude.{
  ℕ, suc, ◌+◌, ◌-◌, ◌≤◌, ltb, leb, eqb, Text, ◌==◌, Bool, true, false, ◌&&◌, ◌||◌, not, Option,
  none, some, List, [], ◌∷◌, if◌then◌else◌,
}
use gopherd.ExitAction.{ExitAction}

-- The fields of internal/backoff that the supervisor sees: the delay itself is drawn at random.
pub record Backoff : Type 0 where
  pub attempt : ℕ
  pub at_limit : Bool
  pub limit : ℕ

-- kill(-pgid, signal), and the closing of the readiness socket and of the capture pipes.
pub data Effect : Type 0 where
  kill : (pgid signal : ℕ) → Effect
  close_listener release_capture release_process : Effect

pub record KillTimer : Type 0 where
  pub pgid : ℕ
  pub fires_at : ℕ

pub record Service : Type 0 where
  pub name : Text
  pub on_success : ExitAction
  pub on_failure : ExitAction
  pub on_check_failure : Map ExitAction
  pub requires : List Text
  pub proc_on_failure : Text
  pub exit_code_map : List (ℤ × ℤ)
  pub restart_with_dependents : Bool
  pub startup_timeout : ℕ
  pub enabled : Bool
  pub oneshot : Bool
  pub scheduled : Bool
  pub sd_notify : Bool
  pub log_capture : Bool
  pub stop_signal : ℕ
  pub kill_delay : ℕ
  pub backoff : Backoff
  -- The running instance.
  pub has_cmd : Bool
  pub running : Bool
  pub stopped : Bool
  pub pid : ℕ
  pub done : Option ℕ
  pub starts : ℕ
  pub listener : Bool
  pub capture : Bool
  pub started_at : ℕ
  pub kill_timer : Option KillTimer
  pub kill_pgid : ℕ
  pub kill_deadline : ℕ

abbrev when : Bool → List Effect → List Effect
when true es = es
when false es = []

-- Stop: signal the group, and arm the escalation to SIGKILL. Replacing the timer cancels the old.
unfoldable pub stop : ℕ → Service → Service × List Effect
stop now s =
    if not s.running || not s.has_cmd
    then (s, [])
    else if eqb s.pid 0
    then (record s { stopped = true }, [])
    else (
      (if ltb 0 s.kill_delay
          then record s {
            stopped = true;
            kill_pgid = s.pid;
            kill_deadline = now + s.kill_delay;
            kill_timer = some (record { pgid = s.pid; fires_at = now + s.kill_delay });
          }
          else record s { stopped = true }),
      kill s.pid s.stop_signal ∷ [],
    )

abbrev pub sigkill : ℕ
sigkill = 9

-- The callback of the timer; `alive` is the answer to the probe kill(-pgid, 0).
unfoldable pub fire_kill_timer : Bool → KillTimer → List Effect
fire_kill_timer alive t =
    if eqb t.pgid 0 then [] else if alive then kill t.pgid sigkill ∷ [] else []

-- Signal: any other signal to the group.
unfoldable pub signal : ℕ → Service → List Effect
signal sig s =
    if not s.running || not s.has_cmd then [] else if eqb s.pid 0 then [] else kill s.pid sig ∷ []

-- The answers of the operating system to FinishStart.
pub record Spawn : Type 0 where
  pub listen_ok : Bool
  pub pipes_ok : Bool
  -- The pid of the new process, if the fork succeeds.
  pub forked : Option ℕ
  pub now : ℕ

pub data StartError : Type 0 where
  no_listener no_pipes no_fork : StartError

unfoldable pub has_started : ℕ → Spawn → Bool → Service → Service
has_started pid os listener s = record s {
  has_cmd = true;
  running = true;
  stopped = false;
  pid = pid;
  done = some s.starts;
  starts = suc s.starts;
  listener = listener;
  capture = s.log_capture;
  started_at = os.now;
}

-- FinishStart: the new pid, or an error, on which the listener is closed again.
pub data Started : Type 0 where
  forked : (pid : ℕ) → Started
  failed : StartError → Started

-- The listener is closed again: before a new one is made, and on each error.
abbrev pub without_listener : Service → Service
without_listener s = record s { listener = if s.sd_notify then false else s.listener }

-- The chain of attempts, by whether the listener and the pipes are refused, and what is forked.
unfoldable pub finish_with : Spawn → Service → Bool → Bool → Option ℕ → Service × Started
unfolding has_started
finish_with os s true no_pipe fork = (without_listener s, failed no_listener)
finish_with os s false true fork = (without_listener s, failed no_pipes)
finish_with os s false false none = (without_listener s, failed no_fork)
finish_with os s false false (some pid) =
    (has_started pid os (if s.sd_notify then true else s.listener) s, forked pid)

unfoldable pub finish_start : Spawn → Service → Service × Started
unfolding finish_with
finish_start os s =
    finish_with os s (s.sd_notify && not os.listen_ok) (s.log_capture && not os.pipes_ok) os.forked

-- MarkExited: the instance is gone. The kill timer stays armed.
unfoldable pub mark_exited : ℕ → Service → Service × ℕ
mark_exited now s = (
  record s { running = false; pid = 0; done = none; listener = false; capture = false },
  now - s.started_at,
)

-- What Done returns: the open channel of the instance, or one that is closed already.
pub data Done : Type 0 where
  closed : Done
  channel : (start : ℕ) → Done

unfoldable pub done_of : Service → Done
done_of s = elim (s.done) [ none ↦ closed | some n ↦ channel n ]

-- Whether a receive from the channel returns. MarkExited closes the channel and clears the field in one
-- piece under the mutex of the service, so a channel that is not the service's own any more is closed.
unfoldable pub is_closed : Service → Done → Bool
is_closed s closed = true
is_closed s (channel n) = elim (s.done) [ none ↦ true | some m ↦ not (eqb n m) ]

abbrev pub same_code : ℤ → ℤ → Bool
same_code a b = elim (ℤ-discrete a b) [ yes _ ↦ true | no _ ↦ false ]

-- RemapExitCode: the map's entry, or the code itself.
unfoldable pub remap : List (ℤ × ℤ) → ℤ → ℤ
remap [] code = code
remap ((from, to) ∷ rest) code = if same_code from code then to else remap rest code

unfoldable pub remap_exit_code : Service → ℤ → ℤ
unfolding remap
remap_exit_code s code = remap s.exit_code_map code

-- A wait status, and the exit code that stands for it.
pub data WaitStatus : Type 0 where
  exited : (status : ℕ) → WaitStatus
  signaled : (signal : ℕ) → WaitStatus
  other : WaitStatus

unfoldable pub wait_status_code : WaitStatus → ℤ
wait_status_code (exited status) = pos status
wait_status_code (signaled signal) = pos (128 + signal)
wait_status_code other = pos 1

-- The code that the exit counts as: a death by signal that gopherd asked for is a success.
unfoldable pub effective_code : Service → ℤ → ℤ
unfolding remap_exit_code
effective_code s code =
    let mapped = remap_exit_code s code in if s.stopped && exceeds mapped 128 then pos 0 else mapped
