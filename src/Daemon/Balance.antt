-- ===== src/Daemon/Balance.antt =====
-- runRestart of lifecycle.go gives back what it adds to pendingRestarts, on every path.
use gopherd.Prelude.Int.{ℤ, pos, negsuc, decrement, increment}
use gopherd.Prelude.{
  ℕ, zero, suc, Text, Bool, true, false, not, Option, none, some, List, [], ◌∷◌, ◌++◌,
  if◌then◌else◌, ◌≡◌, refl, sym, ◌∙◌, arith, ap,
}
use gopherd.Service.{Service, Started, forked, failed, Spawn}
use gopherd.Daemon.{
  Daemon, StartEnv, StartResult, started, already_running, condition_unmet, prepare_failed,
  shutting_down, replaced, spawn_failed, stop_service, mark_restart_pending, start_service,
  start_with, start_locked, start_guarded, finish_locked,
}
use gopherd.Daemon.Shutdown.{begin_shutdown, settle}
use gopherd.Daemon.Lifecycle.{
  no_ready_check, bad_ready_check, bad_ready_timeout, not_ready, Gated, opened, closed, GateEnv,
  RestartError, condition_skipped, refused, wait_timed_out, start_failed, Wait, Waited, exited,
  shutdown_began, timed_out, await_notified, behind_start, start_behind, start_gated,
  start_for_restart, after_gates, stop_leg, stop_legs, Stopping, on_exit, on_dependent,
  start_dependents, then_dependents, settle_by, restart_legs, backward, run_restart,
}

finish_locked-pending :
    (now id : ℕ) (d : Daemon) (r : Service × Started)
    → (finish_locked now id d r).0.pending_restarts ≡ d.pending_restarts
unfolding finish_locked
finish_locked-pending now id d (t, failed e) = refl
finish_locked-pending now id d (t, forked pid) = refl

start_guarded-pending :
    (os : Spawn) (id : ℕ) (d : Daemon) (a b c : Bool)
    → (start_guarded os id d a b c).0.pending_restarts ≡ d.pending_restarts
unfolding start_guarded
start_guarded-pending os id d true b c = refl
start_guarded-pending os id d false false c = refl
start_guarded-pending os id d false true true = refl
start_guarded-pending os id d false true false = finish_locked-pending os.now id d _

start_service-pending :
    (env : StartEnv) (id : ℕ) (d : Daemon)
    → (start_service env id d).0.pending_restarts ≡ d.pending_restarts
unfolding start_service start_locked start_with
start_service-pending env id d = split env.unmet env.prepared
  where
    split :
        (u : Text) (p : Bool) → (start_with env id d u p).0.pending_restarts ≡ d.pending_restarts
    split (c ∷ reason) p = refl
    split [] false = refl
    split [] true = start_guarded-pending env.os id d _ _ _

begin_shutdown-pending :
    (code : ℤ) (d : Daemon) → (begin_shutdown code d).pending_restarts ≡ d.pending_restarts
unfolding begin_shutdown
begin_shutdown-pending code d = ground arith

-- What the others do while a service waits for its gates leaves the count.
pub record Leaves (g : GateEnv) : Type 0 where
  pub early : (d : Daemon) → (g.before d).pending_restarts ≡ d.pending_restarts
  pub late : (d : Daemon) → (g.after d).pending_restarts ≡ d.pending_restarts

module _ (g : GateEnv) (quiet : Leaves g) where
  await_notified-pending :
      (notify : Bool) (r : StartResult) (d : Daemon)
      → (await_notified g notify r d).0.pending_restarts ≡ d.pending_restarts
  await_notified-pending false r d = refl
  await_notified-pending true r d = ground (arith, quiet.late d)

  behind_start-pending :
      (notify : Bool) (d : Daemon) (r : StartResult)
      → (behind_start g notify (d, r)).0.pending_restarts ≡ d.pending_restarts
  behind_start-pending notify d (started pid) = await_notified-pending notify (started pid) d
  behind_start-pending notify d (already_running pid) =
      await_notified-pending notify (already_running pid) d
  behind_start-pending notify d condition_unmet = refl
  behind_start-pending notify d prepare_failed = refl
  behind_start-pending notify d shutting_down = refl
  behind_start-pending notify d replaced = refl
  behind_start-pending notify d spawn_failed = refl

  start_behind-pending :
      (id : ℕ) (d : Daemon) → (start_behind g id d).0.pending_restarts ≡ d.pending_restarts
  start_behind-pending id d =
      behind_start-pending (d.heap id).sd_notify (start_service g.start id d).0
        (start_service g.start id d).1
      ∙ start_service-pending g.start id d

  start_gated-pending :
      (id : ℕ) (d : Daemon) → (start_gated g id d).0.pending_restarts ≡ d.pending_restarts
  unfolding start_gated
  start_gated-pending id d =
      split g.ready_check g.check_found g.check_made g.timeout_parsed g.check_passed
    where
      split :
          (a b c e f : Bool)
          → (if not a
              then start_behind g id d
              else if not b
              then (d, closed no_ready_check)
              else if not c
              then (d, closed bad_ready_check)
              else if not e
              then (d, closed bad_ready_timeout)
              else if not f
              then (g.before d, closed not_ready)
              else start_behind g id (g.before d)).0.pending_restarts
            ≡ d.pending_restarts
      split false b c e f = start_behind-pending id d
      split true false c e f = refl
      split true true false e f = refl
      split true true true false f = refl
      split true true true true false = quiet.early d
      split true true true true true = start_behind-pending id (g.before d) ∙ quiet.early d

after_gates-pending :
    (d : Daemon) (r : Gated) → (after_gates (d, r)).0.pending_restarts ≡ d.pending_restarts
after_gates-pending d (opened (started pid)) = refl
after_gates-pending d (opened (already_running pid)) = refl
after_gates-pending d (opened condition_unmet) = refl
after_gates-pending d (opened prepare_failed) = begin_shutdown-pending (pos 1) d
after_gates-pending d (opened shutting_down) = refl
after_gates-pending d (opened replaced) = refl
after_gates-pending d (opened spawn_failed) = begin_shutdown-pending (pos 1) d
after_gates-pending d (closed e) = begin_shutdown-pending (pos 1) d

start_for_restart-pending :
    (g : GateEnv)
    → Leaves g
    → (id : ℕ) (d : Daemon) → (start_for_restart g id d).0.pending_restarts ≡ d.pending_restarts
unfolding start_for_restart
start_for_restart-pending g quiet id d =
    after_gates-pending (start_gated g id d).0 (start_gated g id d).1
    ∙ start_gated-pending g quiet id d

module _ (gates : ℕ → GateEnv) (quiet : (id : ℕ) → Leaves (gates id)) where
  start_dependents-pending :
      (ids : List ℕ) (d : Daemon)
      → (start_dependents gates ids d).0.pending_restarts ≡ d.pending_restarts
  unfolding start_dependents
  start_dependents-pending [] d = refl
  start_dependents-pending (id ∷ ids) d =
      split (start_for_restart (gates id) id d).0 (start_for_restart (gates id) id d).1
        (start_dependents-pending ids (start_for_restart (gates id) id d).0)
      ∙ start_for_restart-pending (gates id) (quiet id) id d
    where
      split :
          (e : Daemon) (err : Option RestartError)
          → (start_dependents gates ids e).0.pending_restarts ≡ e.pending_restarts
          → (on_dependent (start_dependents gates ids) (e, err)).0.pending_restarts
            ≡ e.pending_restarts
      split e none h = h
      split e (some condition_skipped) h = h
      split e (some refused) h = refl
      split e (some wait_timed_out) h = refl
      split e (some (start_failed r)) h = refl

-- The count that `n` stopped services add.
abbrev raised : ℕ → ℤ → ℤ
raised zero p = p
raised (suc n) p = raised n (increment p)

decrement-increment : (p : ℤ) → decrement (increment p) ≡ p
decrement-increment (pos n) = refl
decrement-increment (negsuc zero) = refl
decrement-increment (negsuc (suc n)) = refl

raised-increment : (n : ℕ) (p : ℤ) → raised n (increment p) ≡ increment (raised n p)
raised-increment zero p = refl
raised-increment (suc n) p = raised-increment n (increment p)

settle_by-raised :
    (n : ℕ) (d : Daemon) (p : ℤ)
    → d.pending_restarts ≡ raised n p
    → (settle_by n d).pending_restarts ≡ p
unfolding settle_by settle
settle_by-raised zero d p h = h
settle_by-raised (suc n) d p h =
    settle_by-raised n (settle d) p
      (ap decrement (h ∙ raised-increment n p) ∙ decrement-increment (raised n p))

stop_leg-pending :
    (now id : ℕ) (d : Daemon) → (stop_leg now id d).pending_restarts ≡ increment d.pending_restarts
unfolding stop_leg stop_service mark_restart_pending
stop_leg-pending now id d = ground arith

module _ (wait : Wait)
    (others : (id : ℕ) (d : Daemon) → (wait id d).0.pending_restarts ≡ d.pending_restarts) (now : ℕ)
    (p : ℤ) where
  stop_legs-raised :
      (ids : List ℕ) (n : ℕ) (d : Daemon)
      → d.pending_restarts ≡ raised n p
      → (stop_legs wait now ids n d).0.pending_restarts ≡ raised (stop_legs wait now ids n d).1 p
  unfolding stop_legs
  stop_legs-raised [] n d h = h
  stop_legs-raised (id ∷ ids) n d h = open' d.shutting_down (
      leg (wait id (stop_leg now id d)).0 (wait id (stop_leg now id d)).1
        (others id (stop_leg now id d)
          ∙ stop_leg-pending now id d
          ∙ ap increment h
          ∙ sym (raised-increment n p))
        (stop_legs-raised ids (suc n) (wait id (stop_leg now id d)).0))
    where
      IsRaised : Stopping → Type 0
      IsRaised s = s.0.pending_restarts ≡ raised s.1 p

      leg :
          (e : Daemon) (w : Waited)
          → e.pending_restarts ≡ raised (suc n) p
          → (e.pending_restarts ≡ raised (suc n) p → IsRaised (stop_legs wait now ids (suc n) e))
          → IsRaised (on_exit (stop_legs wait now ids (suc n)) (suc n) (e, w))
      leg e exited r more = more r
      leg e shutdown_began r more = r
      leg e timed_out r more = r

      open' :
          (b : Bool)
          → IsRaised
              (on_exit (stop_legs wait now ids (suc n)) (suc n) (wait id (stop_leg now id d)))
          → IsRaised (
              if b
              then (d, n, some refused)
              else on_exit (stop_legs wait now ids (suc n)) (suc n) (wait id (stop_leg now id d)))
      open' true more = h
      open' false more = more

-- If what the other goroutines do while a restart waits leaves pendingRestarts as it is, then so does
-- the whole restart: it ends with the count that it found, whether it succeeds or fails on any leg.
pub run_restart_balances :
    (wait : Wait) (gates : ℕ → GateEnv) (now id : ℕ) (deps : List ℕ) (d : Daemon)
    → ((id : ℕ) (d : Daemon) → (wait id d).0.pending_restarts ≡ d.pending_restarts)
    → ((id : ℕ) → Leaves (gates id))
    → (run_restart wait gates now id deps d).0.pending_restarts ≡ d.pending_restarts
unfolding run_restart
run_restart_balances wait gates now id deps d others quiet =
    split (stop_legs wait now (backward deps ++ id ∷ []) 0 d)
      (stop_legs-raised wait others now d.pending_restarts (backward deps ++ id ∷ []) 0 d refl)
  where
    served :
        (e : Daemon) (err : Option RestartError)
        → (then_dependents (start_dependents gates deps) (e, err)).0.pending_restarts
          ≡ e.pending_restarts
    served e none = start_dependents-pending gates quiet deps e
    served e (some x) = refl

    split :
        (s : Stopping)
        → s.0.pending_restarts ≡ raised s.1 d.pending_restarts
        → (restart_legs gates id deps s).0.pending_restarts ≡ d.pending_restarts
    split (e, n, some x) h = settle_by-raised n e d.pending_restarts h
    split (e, n, none) h =
        settle_by-raised n
          (then_dependents (start_dependents gates deps) (start_for_restart (gates id) id e)).0
          d.pending_restarts
          (served (start_for_restart (gates id) id e).0 (start_for_restart (gates id) id e).1
            ∙ start_for_restart-pending (gates id) (quiet id) id e
            ∙ h)
