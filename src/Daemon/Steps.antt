-- ===== src/Daemon/Steps.antt =====
-- daemon.go, run.go and lifecycle.go as a machine between two reloads: the steps of the reap loop, of the
-- handlers of restarts, of the control socket with its ordered restarts, of the health checks and of the
-- shutdown. The exchange of the services by a reload (Daemon/Swap), the starts of the boot, and the starts
-- of oneshots, which go around startService, are not steps here.
use gopherd.Prelude.Int.{ℤ}
use gopherd.Prelude.{ℕ, suc, Text, true, false, some, List, ◌∷◌, ◌++◌, ◌≡◌, refl, arith}
use gopherd.Service.{WaitStatus, is_closed}
use gopherd.Daemon.{
  Daemon, StartEnv, RestartReq, continue, store, lookup_pid, mark_restart_pending, stop_service,
  start_service,
}
use gopherd.Daemon.Shutdown.{
  begin_shutdown, store_code, bounce, handle_check_failure, handle_restart, settle,
}
use gopherd.Daemon.Lifecycle.{stop_leg}
use gopherd.Daemon.Reap.{Drawn, reap as reap_child, store_exit}
use gopherd.Daemon.Agreement.{
  Agrees, stop_service-Agrees, bounce-Agrees, handle_check_failure-Agrees, begin_shutdown-Agrees,
  store_exit-Agrees,
}
use gopherd.Daemon.Table.{IsValid, IsFresh, Agrees-IsValid}
use gopherd.Daemon.Exits.{start_service-IsValid, reap-IsValid, handle_restart-IsValid}

abbrev pub without_request : Daemon → List RestartReq → Daemon
without_request d rs = record d { restarts = rs }

abbrev pub without_caller : Daemon → List ℤ → Daemon
without_caller d cs = record d { shutdowns = cs }

only_request : (d : Daemon) (rs : List RestartReq) → Agrees d (without_request d rs)
only_request d rs = record {
  pids = refl;
  running = λ j. refl;
  pid = λ j. refl;
  done = λ j. refl;
  cmd = λ j. refl;
}

only_caller : (d : Daemon) (cs : List ℤ) → Agrees d (without_caller d cs)
only_caller d cs = record {
  pids = refl;
  running = λ j. refl;
  pid = λ j. refl;
  done = λ j. refl;
  cmd = λ j. refl;
}

abbrev pub without_store : Daemon → List ℤ → Daemon
without_store d cs = record d { code_stores = cs }

abbrev pub with_legs : ℕ → Daemon → Daemon
with_legs n d = record d { legs = n }

store_code-Agrees :
    (code : ℤ) (d : Daemon) (cs : List ℤ) → Agrees d (store_code code (without_store d cs))
unfolding store_code
store_code-Agrees code d cs = record {
  pids = refl;
  running = λ j. refl;
  pid = λ j. refl;
  done = λ j. refl;
  cmd = λ j. refl;
}

stop_leg-Agrees : (now id n : ℕ) (d : Daemon) → Agrees d (with_legs n (stop_leg now id d))
unfolding stop_leg mark_restart_pending
stop_leg-Agrees now id n d =
    let a = stop_service-Agrees now id d in
    record {
      pids = ground (arith, a.pids);
      running = λ j. ground (arith, a.running j);
      pid = λ j. ground (arith, a.pid j);
      done = λ j. ground (arith, a.done j);
      cmd = λ j. ground (arith, a.cmd j);
    }

settle-Agrees : (n : ℕ) (d : Daemon) → Agrees d (with_legs n (settle d))
unfolding settle
settle-Agrees n d = record {
  pids = refl;
  running = λ j. refl;
  pid = λ j. refl;
  done = λ j. refl;
  cmd = λ j. refl;
}

-- A step between two states; the second is given by an equation. A part of the code that runs under the
-- lock is one step; the handler of a restart is one too, from where its wait is over.
pub data Step (d e : Daemon) : Type 0 where
  -- A client, the scheduler or a reload starts a service.
  start : (env : StartEnv) (id : ℕ) → IsFresh env.os d → e ≡ (start_service env id d).0 → Step d e
  -- A client, a timeout or the shutdown stops a service.
  stop : (now id : ℕ) → e ≡ stop_service now id d → Step d e
  -- A client restarts a service.
  restart : (now id : ℕ) → d.shutting_down ≡ false → e ≡ bounce now id d → Step d e
  -- A health check fails.
  check : (now : ℕ) (name : Text) → e ≡ handle_check_failure now name d → Step d e
  -- A restart request, whose awaited exit is observed, is handled.
  handle :
      (env : StartEnv) (before : List RestartReq) (r : RestartReq) (after : List RestartReq)
      → d.restarts ≡ before ++ r ∷ after
      → is_closed (d.heap r.service) r.done ≡ true
      → IsFresh env.os d
      → e ≡ handle_restart env r (without_request d (before ++ after))
      → Step d e
  -- The reap loop gets a child from Wait4.
  reap :
      (now : ℕ) (drawn : Drawn) (pid : ℕ) (status : WaitStatus)
      → d.tail ≡ continue
      → e ≡ reap_child now drawn pid status d
      → Step d e
  -- The reap loop goes on after it released the lock.
  finish : (code : ℤ) → d.tail ≡ store code → e ≡ store_exit code d → Step d e
  -- A goroutine that the reap loop started calls initiateShutdown.
  initiate :
      (before : List ℤ) (code : ℤ) (after : List ℤ)
      → d.shutdowns ≡ before ++ code ∷ after
      → e ≡ begin_shutdown code (without_caller d (before ++ after))
      → Step d e
  -- Any other goroutine calls it: for a signal, or because a service did not start.
  shut_down : (code : ℤ) → e ≡ begin_shutdown code d → Step d e
  -- The caller that passed the swap stores its code.
  keep_code :
      (before : List ℤ) (code : ℤ) (after : List ℤ)
      → d.code_stores ≡ before ++ code ∷ after
      → e ≡ store_code code (without_store d (before ++ after))
      → Step d e
  -- An ordered restart stops a service.
  leg :
      (now id : ℕ)
      → d.shutting_down ≡ false
      → e ≡ with_legs (suc d.legs) (stop_leg now id d)
      → Step d e
  -- An ordered restart that ends gives back what it added, one for each service that it stopped.
  give_back : (n : ℕ) → d.legs ≡ suc n → e ≡ with_legs n (settle d) → Step d e

pub data Reach (d : Daemon) : Daemon → Type 0 where
  here : Reach d d
  next : {e f : Daemon} → Reach d e → Step e f → Reach d f

same_table : (d e : Daemon) → Agrees d e → (f : Daemon) → f ≡ e → IsValid d → IsValid f
same_table d e a f q v = rw q (Agrees-IsValid d e a v)

pub Step-IsValid : {d e : Daemon} → Step d e → IsValid d → IsValid e
Step-IsValid {d} (start env id fresh q) v = rw q (start_service-IsValid env id d fresh v)
Step-IsValid {d} (stop now id q) v = same_table d _ (stop_service-Agrees now id d) _ q v
Step-IsValid {d} (restart now id up q) v = same_table d _ (bounce-Agrees now id d) _ q v
Step-IsValid {d} (check now name q) v =
    same_table d _ (handle_check_failure-Agrees now name d) _ q v
Step-IsValid {d} (handle env before r after split passed fresh q) v = rw q (
    handle_restart-IsValid env r (without_request d (before ++ after)) fresh
      (Agrees-IsValid d _ (only_request d (before ++ after)) v))
Step-IsValid {d} (reap now drawn pid status t q) v = rw q (reap-IsValid now drawn pid status d v)
Step-IsValid {d} (finish code t q) v = same_table d _ (store_exit-Agrees code d) _ q v
Step-IsValid {d} (initiate before code after split q) v = rw q (
    Agrees-IsValid (without_caller d (before ++ after)) _
      (begin_shutdown-Agrees code (without_caller d (before ++ after)))
      (Agrees-IsValid d _ (only_caller d (before ++ after)) v))
Step-IsValid {d} (shut_down code q) v = same_table d _ (begin_shutdown-Agrees code d) _ q v
Step-IsValid {d} (keep_code before code after split q) v =
    same_table d _ (store_code-Agrees code d (before ++ after)) _ q v
Step-IsValid {d} (leg now id up q) v = same_table d _ (stop_leg-Agrees now id (suc d.legs) d) _ q v
Step-IsValid {d} (give_back n h q) v = same_table d _ (settle-Agrees n d) _ q v

-- If the table of pids and the service instances agree in a state, they agree in every state that
-- these steps lead to.
pub Reach-IsValid : {d e : Daemon} → Reach d e → IsValid d → IsValid e
Reach-IsValid here v = v
Reach-IsValid (next r s) v = Step-IsValid s (Reach-IsValid r v)

-- In a state that steps lead to from one where the table of children and the instances agree, two
-- children of the table that belong to the same service instance are one. The steps are those of the reap
-- loop, the handlers of restarts, the control socket, the health checks and the shutdown, in any order;
-- the exchange of the services by a reload and the starts of the boot are not among them.
pub no_double_fork :
    {d e : Daemon} (p q id : ℕ)
    → IsValid d
    → Reach d e
    → lookup_pid p e.pid_map ≡ some id
    → lookup_pid q e.pid_map ≡ some id
    → p ≡ q
no_double_fork {d} {e} p q id v r hp hq =
    let w = Reach-IsValid r v in omega (arith, w.mapped p id hp, w.mapped q id hq)
