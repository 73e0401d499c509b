-- ===== src/Daemon/Agreement.antt =====
-- Which operations of daemon.go and run.go leave the process table alone: they may signal, count
-- and plan, but no process starts or ends in them.
use gopherd.Prelude.Int.{ℤ}
use gopherd.Prelude.{ℕ, Text, Bool, true, false, ◌≡◌, refl, ◌∙◌, arith}
use gopherd.ExitAction.{ExitAction, restart, shutdown, success_shutdown, failure_shutdown, ignore}
use gopherd.Service.{Service, stop}
use gopherd.Daemon.{Daemon, stop_service, mark_restart_pending, take_restart_pending}
use gopherd.Daemon.Shutdown.{begin_shutdown, enqueue_restart, bounce, handle_check_failure}
use gopherd.Daemon.Reap.{
  Drawn, plan_restart, act, record_exit, store_exit, leave_if_empty, after_exit,
}
use gopherd.Daemon.Lifting.{handle_check_failure-lift, after_exit-lift}

-- Both have the same processes under the same pids, with the same channels.
pub record Agrees (d e : Daemon) : Type 0 where
  pub pids : e.pid_map ≡ d.pid_map
  pub running : (id : ℕ) → (e.heap id).running ≡ (d.heap id).running
  pub pid : (id : ℕ) → (e.heap id).pid ≡ (d.heap id).pid
  pub done : (id : ℕ) → (e.heap id).done ≡ (d.heap id).done
  pub cmd : (id : ℕ) → (e.heap id).has_cmd ≡ (d.heap id).has_cmd

pub Agrees-refl : (d : Daemon) → Agrees d d
Agrees-refl d = record {
  pids = refl;
  running = λ j. refl;
  pid = λ j. refl;
  done = λ j. refl;
  cmd = λ j. refl;
}

pub Agrees-trans : (d e f : Daemon) → Agrees d e → Agrees e f → Agrees d f
Agrees-trans d e f a b = record {
  pids = b.pids ∙ a.pids;
  running = λ j. b.running j ∙ a.running j;
  pid = λ j. b.pid j ∙ a.pid j;
  done = λ j. b.done j ∙ a.done j;
  cmd = λ j. b.cmd j ∙ a.cmd j;
}

pub stop_service-Agrees : (now id : ℕ) (d : Daemon) → Agrees d (stop_service now id d)
unfolding stop_service stop
stop_service-Agrees now id d = record {
  pids = refl;
  running = λ j. ground arith;
  pid = λ j. ground arith;
  done = λ j. ground arith;
  cmd = λ j. ground arith;
}

pub begin_shutdown-Agrees : (code : ℤ) (d : Daemon) → Agrees d (begin_shutdown code d)
unfolding begin_shutdown
begin_shutdown-Agrees code d = record {
  pids = ground arith;
  running = λ j. ground arith;
  pid = λ j. ground arith;
  done = λ j. ground arith;
  cmd = λ j. ground arith;
}

pub bounce-Agrees : (now id : ℕ) (d : Daemon) → Agrees d (bounce now id d)
unfolding bounce mark_restart_pending enqueue_restart
bounce-Agrees now id d =
    let a = stop_service-Agrees now id d in
    record {
      pids = ground (arith, a.pids);
      running = λ j. ground (arith, a.running j);
      pid = λ j. ground (arith, a.pid j);
      done = λ j. ground (arith, a.done j);
      cmd = λ j. ground (arith, a.cmd j);
    }

pub handle_check_failure-Agrees :
    (now : ℕ) (check : Text) (d : Daemon) → Agrees d (handle_check_failure now check d)
handle_check_failure-Agrees =
    handle_check_failure-lift Agrees Agrees-refl Agrees-trans bounce-Agrees begin_shutdown-Agrees

-- What a reap does after the child is out of the table.
act-Agrees :
    (drawn : Drawn) (duration id : ℕ) (code : ℤ) (a : ExitAction) (d : Daemon)
    → Agrees d (act drawn duration id code a d)
unfolding act plan_restart enqueue_restart
act-Agrees drawn duration id code restart d = record {
  pids = refl;
  running = λ j. ground arith;
  pid = λ j. ground arith;
  done = λ j. ground arith;
  cmd = λ j. ground arith;
}
act-Agrees drawn duration id code shutdown d = record {
  pids = refl;
  running = λ j. refl;
  pid = λ j. refl;
  done = λ j. refl;
  cmd = λ j. refl;
}
act-Agrees drawn duration id code failure_shutdown d = record {
  pids = refl;
  running = λ j. refl;
  pid = λ j. refl;
  done = λ j. refl;
  cmd = λ j. refl;
}
act-Agrees drawn duration id code success_shutdown d = record {
  pids = refl;
  running = λ j. refl;
  pid = λ j. refl;
  done = λ j. refl;
  cmd = λ j. refl;
}
act-Agrees drawn duration id code ignore d = Agrees-refl d

record_exit-Agrees :
    (skip : Bool) (name : Text) (code : ℤ) (d : Daemon) → Agrees d (record_exit skip name code d)
unfolding record_exit
record_exit-Agrees true name code d = Agrees-refl d
record_exit-Agrees false name code d = record {
  pids = refl;
  running = λ j. refl;
  pid = λ j. refl;
  done = λ j. refl;
  cmd = λ j. refl;
}

pub leave_if_empty-Agrees : (d : Daemon) → Agrees d (leave_if_empty d)
unfolding leave_if_empty
leave_if_empty-Agrees d = record {
  pids = refl;
  running = λ j. refl;
  pid = λ j. refl;
  done = λ j. refl;
  cmd = λ j. refl;
}

-- What a reap does after that changes nothing in the table.
pub after_exit-Agrees :
    (now : ℕ) (drawn : Drawn) (duration id : ℕ) (s : Service) (code : ℤ) (down consumed : Bool)
    (e : Daemon)
    → Agrees e (after_exit now drawn duration id s code down consumed e)
after_exit-Agrees =
    after_exit-lift Agrees Agrees-refl Agrees-trans stop_service-Agrees record_exit-Agrees
      act-Agrees leave_if_empty-Agrees

pub store_exit-Agrees : (code : ℤ) (d : Daemon) → Agrees d (store_exit code d)
unfolding store_exit
store_exit-Agrees code d = record {
  pids = ground arith;
  running = λ j. ground arith;
  pid = λ j. ground arith;
  done = λ j. ground arith;
  cmd = λ j. ground arith;
}

pub take_restart_pending-Agrees :
    (name : Text) (d : Daemon) → Agrees d (take_restart_pending name d).0
unfolding take_restart_pending
take_restart_pending-Agrees name d = record {
  pids = ground arith;
  running = λ j. ground arith;
  pid = λ j. ground arith;
  done = λ j. ground arith;
  cmd = λ j. ground arith;
}
