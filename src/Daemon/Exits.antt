-- ===== src/Daemon/Exits.antt =====
-- run.go: a reap takes the child out of the process table, and keeps the table right.
use gopherd.Prelude.Int.{pos}
use gopherd.Prelude.{
  ℕ, Text, Bool, true, false, some, [], ◌∷◌, if◌then◌else◌, ◌≡◌, refl, arith, Option-cases, inl,
  inr,
}
use gopherd.Service.{WaitStatus, mark_exited, effective_code, wait_status_code}
use gopherd.Daemon.{
  Daemon, StartEnv, StartResult, prepare_failed, spawn_failed, start_with, write, lookup_pid,
  remove_pid, take_restart_pending, start_service, RestartReq,
}
use gopherd.Daemon.Shutdown.{give_up, settle, handle_with, handle_restart}
use gopherd.Daemon.Reap.{Drawn, reap_managed, reap, reap_unmanaged, leave_if_empty}
use gopherd.Daemon.Agreement.{
  Agrees-trans, after_exit-Agrees, leave_if_empty-Agrees, take_restart_pending-Agrees,
  begin_shutdown-Agrees,
}
use gopherd.Daemon.Table.{
  IsValid, IsFresh, Agrees-IsValid, lookup-remove_pid, start_locked-StartCase, StartCase-IsValid,
}

-- The first thing that happens to a managed child: it leaves the table.
abbrev pub taken_out : ℕ → ℕ → ℕ → Daemon → Daemon
taken_out now pid id d = record d {
  heap = write id (mark_exited now (d.heap id)).0 d.heap;
  pid_map = remove_pid pid d.pid_map;
}

pub taken_out-IsValid :
    (now pid id : ℕ) (d : Daemon)
    → lookup_pid pid d.pid_map ≡ some id
    → IsValid d
    → IsValid (taken_out now pid id d)
unfolding mark_exited
taken_out-IsValid now pid id d h v = record {
  mapped =
      λ p j e. ground (arith, lookup-remove_pid pid p d.pid_map, v.mapped p j, v.mapped pid id);
  tracked = λ j e. ground (
    arith,
    lookup-remove_pid pid (d.heap j).pid d.pid_map,
    v.tracked j,
    v.mapped pid id,
    v.mapped (d.heap j).pid j,
  );
  idle = λ j e. ground (arith, v.idle j);
  live = λ j e. ground (arith, v.live j);
}

pub reap_managed-IsValid :
    (now : ℕ) (drawn : Drawn) (pid id : ℕ) (status : WaitStatus) (d : Daemon)
    → lookup_pid pid d.pid_map ≡ some id
    → IsValid d
    → IsValid (reap_managed now drawn pid id status d)
unfolding reap_managed
reap_managed-IsValid now drawn pid id status d h v =
    let e = taken_out now pid id d in
    let x = mark_exited now (d.heap id) in
    let t = take_restart_pending x.0.name e in
    let code = effective_code x.0 (wait_status_code status) in
    Agrees-IsValid e _
      (Agrees-trans e t.0 _ (take_restart_pending-Agrees x.0.name e)
        (after_exit-Agrees now drawn x.1 id x.0 code t.0.shutting_down t.1 t.0))
      (taken_out-IsValid now pid id d h v)

pub reap-IsValid :
    (now : ℕ) (drawn : Drawn) (pid : ℕ) (status : WaitStatus) (d : Daemon)
    → IsValid d
    → IsValid (reap now drawn pid status d)
unfolding reap reap_unmanaged
reap-IsValid now drawn pid status d v = elim (Option-cases (lookup_pid pid d.pid_map)) [
  | inl e ↦ rw (e, reap) (unmanaged d.shutting_down)
  | inr (id, e) ↦ rw (e, reap) (reap_managed-IsValid now drawn pid id status d e v)
]
  where
    unmanaged : (b : Bool) → IsValid (if b then leave_if_empty d else d)
    unmanaged true = Agrees-IsValid d _ (leave_if_empty-Agrees d) v
    unmanaged false = v

skipped-IsValid :
    (env : StartEnv) (id : ℕ) (d : Daemon) (unmet : Text) (prepared : Bool)
    → IsFresh env.os d
    → IsValid d
    → IsValid (start_with env id d unmet prepared).0
unfolding start_with
skipped-IsValid env id d (c ∷ reason) prepared fresh v =
    Agrees-IsValid d _
      (record {
        pids = refl;
        running = λ j. refl;
        pid = λ j. refl;
        done = λ j. refl;
        cmd = λ j. refl;
      })
      v
skipped-IsValid env id d [] false fresh v = v
skipped-IsValid env id d [] true fresh v =
    StartCase-IsValid env.os id d _ (start_locked-StartCase env.os id d) fresh v

pub start_service-IsValid :
    (env : StartEnv) (id : ℕ) (d : Daemon)
    → IsFresh env.os d
    → IsValid d
    → IsValid (start_service env id d).0
unfolding start_service
start_service-IsValid env id d fresh v = skipped-IsValid env id d env.unmet env.prepared fresh v

settle-IsValid : (d : Daemon) → IsValid d → IsValid (settle d)
unfolding settle
settle-IsValid d v =
    Agrees-IsValid d _
      (record {
        pids = refl;
        running = λ j. refl;
        pid = λ j. refl;
        done = λ j. refl;
        cmd = λ j. refl;
      })
      v

give_up-IsValid : (x : Daemon) (r : StartResult) → IsValid x → IsValid (give_up (x, r))
give_up-IsValid x prepare_failed v = Agrees-IsValid x _ (begin_shutdown-Agrees (pos 1) x) v
give_up-IsValid x spawn_failed v = Agrees-IsValid x _ (begin_shutdown-Agrees (pos 1) x) v
give_up-IsValid x _ v = v

handled-IsValid :
    (env : StartEnv) (r : RestartReq) (d : Daemon) (running : Bool)
    → IsFresh env.os d
    → IsValid d
    → IsValid (handle_with env r d running)
unfolding handle_with
handled-IsValid env r d true fresh v = settle-IsValid d v
handled-IsValid env r d false fresh v = settle-IsValid _ (
    give_up-IsValid _ (start_service env r.service d).1
      (start_service-IsValid env r.service d fresh v))

pub handle_restart-IsValid :
    (env : StartEnv) (r : RestartReq) (d : Daemon)
    → IsFresh env.os d
    → IsValid d
    → IsValid (handle_restart env r d)
unfolding handle_restart
handle_restart-IsValid env r d fresh v = handled-IsValid env r d _ fresh v
