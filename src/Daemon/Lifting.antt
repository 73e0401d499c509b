-- ===== src/Daemon/Lifting.antt =====
-- The loops of daemon.go and run.go over the services, and what follows an exit: a relation
-- between states that their single steps satisfy holds of them.
use gopherd.Prelude.Int.{ℤ, pos}
use gopherd.Prelude.Maps.{lookup}
use gopherd.Prelude.{
  ℕ, Text, Bool, true, false, ◌&&◌, ◌||◌, Option, none, some, List, [], ◌∷◌, if◌then◌else◌,
  contains,
}
use gopherd.ExitAction.{ExitAction, restart, shutdown, success_shutdown, failure_shutdown, ignore}
use gopherd.Service.{Service}
use gopherd.Daemon.{Daemon, stop_service}
use gopherd.Daemon.Shutdown.{begin_shutdown, bounce, check_failure_loop, handle_check_failure}
use gopherd.Daemon.Reap.{
  Drawn, choose, fails_hard, stop_dependents, act, record_exit, is_restart, leave_if_empty,
  dependents, after_exit,
}

module _ (R : Daemon → Daemon → Type 0) (same : (d : Daemon) → R d d)
    (chain : (d e f : Daemon) → R d e → R e f → R d f) where
  pub stop_dependents-lift :
      ((now id : ℕ) (d : Daemon) → R d (stop_service now id d))
      → (now : ℕ) (name : Text) (m : List (Text × ℕ)) (d : Daemon)
      → R d (stop_dependents now name m d)
  unfolding stop_dependents
  stop_dependents-lift one now name [] d = same d
  stop_dependents-lift one now name ((other, id) ∷ m) d =
      let b = contains (d.heap id).requires name && (d.heap id).running in
      let e = if b then stop_service now id d else d in
      chain d e (stop_dependents now name m e) (guarded b) (stop_dependents-lift one now name m e)
    where
      guarded : (b : Bool) → R d (if b then stop_service now id d else d)
      guarded true = one now id d
      guarded false = same d

  check_failure_loop-lift :
      ((now id : ℕ) (d : Daemon) → R d (bounce now id d))
      → (now : ℕ) (check : Text) (m : List (Text × ℕ)) (d : Daemon)
      → R d (check_failure_loop now check m d).0
  unfolding check_failure_loop
  check_failure_loop-lift one now check [] d = same d
  check_failure_loop-lift one now check ((name, id) ∷ m) d =
      split (lookup check (d.heap id).on_check_failure) (check_failure_loop-lift one now check m d)
        (chain d (bounce now id d) _ (one now id d)
          (check_failure_loop-lift one now check m (bounce now id d)))
    where
      split :
          (o : Option ExitAction)
          → R d (check_failure_loop now check m d).0
          → R d (check_failure_loop now check m (bounce now id d)).0
          → R d (
              let r : Daemon × Option ℤ = elim o [
                | none ↦ check_failure_loop now check m d
                | some restart ↦ check_failure_loop now check m (bounce now id d)
                | some shutdown ↦ (d, some (pos 1))
                | some success_shutdown ↦ (d, some (pos 0))
                | some failure_shutdown ↦ (d, some (pos 1))
                | some ignore ↦ check_failure_loop now check m d
              ] in
              r.0)
      split none a b = a
      split (some restart) a b = b
      split (some shutdown) a b = same d
      split (some success_shutdown) a b = same d
      split (some failure_shutdown) a b = same d
      split (some ignore) a b = a

  pub handle_check_failure-lift :
      ((now id : ℕ) (d : Daemon) → R d (bounce now id d))
      → ((code : ℤ) (d : Daemon) → R d (begin_shutdown code d))
      → (now : ℕ) (check : Text) (d : Daemon) → R d (handle_check_failure now check d)
  unfolding handle_check_failure
  handle_check_failure-lift one begin now check d =
      split d.shutting_down (check_failure_loop now check d.services d)
        (check_failure_loop-lift one now check d.services d)
    where
      split :
          (b : Bool) (r : Daemon × Option ℤ)
          → R d r.0
          → R d (if b then d else elim (r.1) [ none ↦ r.0 | some c ↦ begin_shutdown c r.0 ])
      split true r a = same d
      split false (e, none) a = a
      split false (e, some c) a = chain d e _ a (begin c e)

  pub after_exit-lift :
      ((now id : ℕ) (d : Daemon) → R d (stop_service now id d))
      → ((skip : Bool) (name : Text) (code : ℤ) (d : Daemon) → R d (record_exit skip name code d))
      → ((drawn : Drawn) (duration id : ℕ) (code : ℤ) (a : ExitAction) (d : Daemon)
          → R d (act drawn duration id code a d))
      → ((d : Daemon) → R d (leave_if_empty d))
      → (now : ℕ) (drawn : Drawn) (duration id : ℕ) (s : Service) (code : ℤ) (down consumed : Bool)
        (e : Daemon)
      → R e (after_exit now drawn duration id s code down consumed e)
  unfolding after_exit
  after_exit-lift one noted acts leave now drawn duration id s code true consumed e =
      chain e (record_exit consumed s.name code e) _ (noted consumed s.name code e) (leave _)
  after_exit-lift one noted acts leave now drawn duration id s code false consumed e =
      let f = dependents now s code (fails_hard s code) e in
      let g = record_exit (consumed || is_restart (choose s code)) s.name code f in
      chain e f _ (all (fails_hard s code))
        (chain f g _ (noted _ s.name code f) (acts drawn duration id code (choose s code) g))
    where
      all : (b : Bool) → R e (dependents now s code b e)
      all true = stop_dependents-lift one now s.name e.services e
      all false = same e
