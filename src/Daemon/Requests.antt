-- ===== src/Daemon/Requests.antt =====
-- pendingRestarts, the shutdown flag and the exit code of daemon.go, over its operations.
use gopherd.Prelude.Int.{ℤ, pos, is_zero}
use gopherd.Prelude.{
  ◌∙◌, ℕ, ◌+◌, Text, Bool, true, false, Option, none, some, [], ◌∷◌, ◌≡◌, refl, arith, length,
  length-append,
}
use gopherd.ExitAction.{ExitAction, restart, shutdown, success_shutdown, failure_shutdown, ignore}
use gopherd.Service.{Service, Started, forked, failed, mark_exited, WaitStatus, Spawn}
use gopherd.Daemon.{
  Daemon, StartEnv, StartResult, RestartReq, prepare_failed, spawn_failed, stop_service,
  mark_restart_pending, take_restart_pending, finish_locked, start_guarded, start_locked,
  start_with, start_service, lookup_pid,
}
use gopherd.Daemon.Shutdown.{begin_shutdown, enqueue_restart, bounce, handle_check_failure, give_up}
use gopherd.Daemon.Reap.{
  Drawn, plan_restart, act, record_exit, leave_if_empty, reap_managed, reap_unmanaged,
  reap as reap_child, store_exit,
}
use gopherd.Daemon.Exits.{taken_out}
use gopherd.Daemon.Lifting.{handle_check_failure-lift, after_exit-lift}

-- pendingRestarts is the number of the restart requests that wait, and of `k` that are handled now.
abbrev pub Counts : ℕ → Daemon → Type 0
Counts k d = d.pending_restarts ≡ pos (k + length d.restarts)

-- pendingRestarts is the number of the restart requests that wait, and of the services that ordered
-- restarts have stopped and not yet given back.
abbrev pub IsCounted : Daemon → Type 0
IsCounted d = Counts d.legs d

-- The count stays right; the shutdown is final; in it no further code is to be stored, and an exit code
-- that is not zero stays.
pub record Keeps (d e : Daemon) : Type 0 where
  pub counted : (k : ℕ) → Counts k d → Counts k e
  pub down : d.shutting_down ≡ true → e.shutting_down ≡ true
  pub legs : e.legs ≡ d.legs
  pub stores : d.shutting_down ≡ true → e.code_stores ≡ d.code_stores
  pub code : is_zero d.exit_code ≡ false → e.exit_code ≡ d.exit_code

pub Keeps-refl : (d : Daemon) → Keeps d d
Keeps-refl d = record {
  counted = λ k h. h;
  down = λ h. h;
  legs = refl;
  stores = λ h. refl;
  code = λ z. refl;
}

pub Keeps-trans : (d e f : Daemon) → Keeps d e → Keeps e f → Keeps d f
Keeps-trans d e f a b = record {
  counted = λ k h. b.counted k (a.counted k h);
  down = λ h. b.down (a.down h);
  legs = b.legs ∙ a.legs;
  stores = λ h. b.stores (a.down h) ∙ a.stores h;
  code = λ z. ground (arith, a.code z, b.code);
}

-- A state with the same requests, legs, flag and codes.
pub same_fields :
    (d e : Daemon)
    → e.restarts ≡ d.restarts
    → e.pending_restarts ≡ d.pending_restarts
    → e.shutting_down ≡ d.shutting_down
    → e.exit_code ≡ d.exit_code
    → e.code_stores ≡ d.code_stores
    → e.legs ≡ d.legs
    → Keeps d e
same_fields d e r p s c w l = record {
  counted = λ k h. cc;
  down = λ h. cc;
  legs = l;
  stores = λ h. w;
  code = λ z. c;
}

pub stop_service-Keeps : (now id : ℕ) (d : Daemon) → Keeps d (stop_service now id d)
unfolding stop_service
stop_service-Keeps now id d = same_fields d _ refl refl refl refl refl refl

enqueue_restart-Keeps : (r : RestartReq) (d : Daemon) → Keeps d (enqueue_restart r d)
unfolding enqueue_restart
enqueue_restart-Keeps r d = record {
  counted = λ k h. ground (arith, length-append d.restarts (r ∷ []));
  down = λ h. h;
  legs = refl;
  stores = λ h. refl;
  code = λ z. refl;
}

pub bounce-Keeps : (now id : ℕ) (d : Daemon) → Keeps d (bounce now id d)
unfolding bounce mark_restart_pending stop_service
bounce-Keeps now id d =
    Keeps-trans d _ _
      (same_fields d _ (ground arith) (ground arith) (ground arith) (ground arith) (ground arith)
        (ground arith))
      (enqueue_restart-Keeps _ _)

pub begin_shutdown-Keeps : (code : ℤ) (d : Daemon) → Keeps d (begin_shutdown code d)
unfolding begin_shutdown
begin_shutdown-Keeps code d = record {
  counted = λ k h. ground arith;
  down = λ h. ground arith;
  legs = ground arith;
  stores = λ h. ground arith;
  code = λ z. ground arith;
}

pub handle_check_failure-Keeps :
    (now : ℕ) (check : Text) (d : Daemon) → Keeps d (handle_check_failure now check d)
handle_check_failure-Keeps =
    handle_check_failure-lift Keeps Keeps-refl Keeps-trans bounce-Keeps begin_shutdown-Keeps

record_exit-Keeps :
    (skip : Bool) (name : Text) (code : ℤ) (d : Daemon) → Keeps d (record_exit skip name code d)
unfolding record_exit
record_exit-Keeps true name code d = Keeps-refl d
record_exit-Keeps false name code d = same_fields d _ refl refl refl refl refl refl

act-Keeps :
    (drawn : Drawn) (duration id : ℕ) (code : ℤ) (a : ExitAction) (d : Daemon)
    → Keeps d (act drawn duration id code a d)
unfolding act plan_restart
act-Keeps drawn duration id code restart d =
    Keeps-trans d _ _ (same_fields d _ refl refl refl refl refl refl) (enqueue_restart-Keeps _ _)
act-Keeps drawn duration id code shutdown d = same_fields d _ refl refl refl refl refl refl
act-Keeps drawn duration id code failure_shutdown d = same_fields d _ refl refl refl refl refl refl
act-Keeps drawn duration id code success_shutdown d = same_fields d _ refl refl refl refl refl refl
act-Keeps drawn duration id code ignore d = Keeps-refl d

leave_if_empty-Keeps : (d : Daemon) → Keeps d (leave_if_empty d)
unfolding leave_if_empty
leave_if_empty-Keeps d = same_fields d _ refl refl refl refl refl refl

reap_managed-Keeps :
    (now : ℕ) (drawn : Drawn) (pid id : ℕ) (status : WaitStatus) (d : Daemon)
    → Keeps d (reap_managed now drawn pid id status d)
unfolding reap_managed take_restart_pending
reap_managed-Keeps now drawn pid id status d =
    let x = mark_exited now (d.heap id) in
    let t = take_restart_pending x.0.name (taken_out now pid id d) in
    Keeps-trans d t.0 _
      (same_fields d t.0 (ground arith) (ground arith) (ground arith) (ground arith) (ground arith)
        (ground arith))
      (after_exit-lift Keeps Keeps-refl Keeps-trans stop_service-Keeps record_exit-Keeps act-Keeps
        leave_if_empty-Keeps now drawn x.1 id x.0 _ t.0.shutting_down t.1 t.0)

pub reap-Keeps :
    (now : ℕ) (drawn : Drawn) (pid : ℕ) (status : WaitStatus) (d : Daemon)
    → Keeps d (reap_child now drawn pid status d)
unfolding reap_child reap_unmanaged leave_if_empty
reap-Keeps now drawn pid status d = split (lookup_pid pid d.pid_map)
  where
    split :
        (o : Option ℕ)
        → Keeps d
            (elim o [ none ↦ reap_unmanaged d | some id ↦ reap_managed now drawn pid id status d ])
    split none =
        same_fields d _ (ground arith) (ground arith) (ground arith) (ground arith) (ground arith)
          (ground arith)
    split (some id) = reap_managed-Keeps now drawn pid id status d

finish_locked-Keeps :
    (now id : ℕ) (d : Daemon) (r : Service × Started) → Keeps d (finish_locked now id d r).0
unfolding finish_locked
finish_locked-Keeps now id d (t, failed e) = same_fields d _ refl refl refl refl refl refl
finish_locked-Keeps now id d (t, forked pid) = same_fields d _ refl refl refl refl refl refl

start_guarded-Keeps :
    (os : Spawn) (id : ℕ) (d : Daemon) (a b c : Bool) → Keeps d (start_guarded os id d a b c).0
unfolding start_guarded
start_guarded-Keeps os id d true b c = Keeps-refl d
start_guarded-Keeps os id d false false c = Keeps-refl d
start_guarded-Keeps os id d false true true = Keeps-refl d
start_guarded-Keeps os id d false true false = finish_locked-Keeps os.now id d _

pub start_service-Keeps :
    (env : StartEnv) (id : ℕ) (d : Daemon) → Keeps d (start_service env id d).0
unfolding start_service start_locked start_with
start_service-Keeps env id d = split env.unmet env.prepared
  where
    split : (u : Text) (p : Bool) → Keeps d (start_with env id d u p).0
    split (c ∷ reason) p = same_fields d _ refl refl refl refl refl refl
    split [] false = Keeps-refl d
    split [] true = start_guarded-Keeps env.os id d _ _ _

-- A start in a daemon that shuts down leaves the table of pids and all instances as they are.
pub no_start_in_shutdown :
    (env : StartEnv) (id : ℕ) (d : Daemon)
    → d.shutting_down ≡ true
    → ((start_service env id d).0.pid_map ≡ d.pid_map) × ((start_service env id d).0.heap ≡ d.heap)
unfolding start_service start_locked start_with start_guarded
no_start_in_shutdown env id d h = split env.unmet env.prepared
  where
    split :
        (u : Text) (p : Bool)
        → ((start_with env id d u p).0.pid_map ≡ d.pid_map)
          × ((start_with env id d u p).0.heap ≡ d.heap)
    split (c ∷ reason) p = (refl, refl)
    split [] false = (refl, refl)
    split [] true = ground arith

pub give_up-Keeps : (x : Daemon) (r : StartResult) → Keeps x (give_up (x, r))
give_up-Keeps x prepare_failed = begin_shutdown-Keeps (pos 1) x
give_up-Keeps x spawn_failed = begin_shutdown-Keeps (pos 1) x
give_up-Keeps x _ = Keeps-refl x

pub store_exit-Keeps : (code : ℤ) (d : Daemon) → Keeps d (store_exit code d)
unfolding store_exit
store_exit-Keeps code d = record {
  counted = λ k h. ground arith;
  down = λ h. ground arith;
  legs = ground arith;
  stores = λ h. ground arith;
  code = λ z. ground arith;
}
