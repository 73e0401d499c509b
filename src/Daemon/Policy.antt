-- ===== src/Daemon/Policy.antt =====
-- run.go: which exits bring on an action, what they count as, and which services they stop.
use gopherd.Prelude.Int.{ℤ, pos}
use gopherd.Prelude.{
  ℕ, eqb, Bool, true, false, none, List, [], ◌∷◌, ◌≡◌, ◌↔◌, ◌<◌, refl, sym, ap, ◌∙◌, arith,
  Bool-cases, inl, inr,
}
use gopherd.ExitAction.{ignore}
use gopherd.Metrics.{service_exited}
use gopherd.Service.{
  Service, WaitStatus, signaled, mark_exited, effective_code, wait_status_code, remap,
}
use gopherd.Daemon.{Daemon, break, lookup_pid, remove_pid, take_restart_pending}
use gopherd.Daemon.Table.{lookup-remove_pid}
use gopherd.Daemon.Reap.{
  Drawn, choose, fails_hard, act, record_exit, after_exit, reap_managed, leave_if_empty,
}
use gopherd.Daemon.Exits.{taken_out}

-- No restart is queued, no shutdown is begun, and no process gets a signal.
pub record IsQuiet (d e : Daemon) : Type 0 where
  pub no_restart : e.restarts ≡ d.restarts
  pub no_shutdown : e.shutdowns ≡ d.shutdowns
  pub no_code : e.tail ≡ d.tail
  pub no_signal : e.effects ≡ d.effects

-- The state in which the policy for an exit is applied.
abbrev pub booked : ℕ → ℕ → ℕ → Daemon → Daemon × Bool
booked now pid id d =
    take_restart_pending (mark_exited now (d.heap id)).0.name (taken_out now pid id d)

pub booked-IsQuiet : (now pid id : ℕ) (d : Daemon) → IsQuiet d (booked now pid id d).0
unfolding take_restart_pending
booked-IsQuiet now pid id d = record {
  no_restart = ground arith;
  no_shutdown = ground arith;
  no_code = ground arith;
  no_signal = ground arith;
}

pub booked_same :
    (now pid id : ℕ) (d : Daemon)
    → ((booked now pid id d).0.shutting_down ≡ d.shutting_down)
      × ((booked now pid id d).0.metrics ≡ d.metrics)
      × ((booked now pid id d).0.services ≡ d.services)
      × ((booked now pid id d).1 ≡ d.restart_pending (d.heap id).name)
unfolding take_restart_pending mark_exited
booked_same now pid id d = ground arith

-- A process that dies of a signal after it was stopped on purpose counts as a success, unless the
-- service's map gives that death another code.
pub stopped_counts_as_success :
    (s : Service) (sig : ℕ)
    → s.stopped ≡ true
    → 0 < sig
    → remap s.exit_code_map (wait_status_code (signaled sig)) ≡ wait_status_code (signaled sig)
    → effective_code s (wait_status_code (signaled sig)) ≡ pos 0
unfolding effective_code wait_status_code
stopped_counts_as_success s sig h p m = ground arith

leave_tail :
    (d : Daemon) (m : List (ℕ × ℕ)) → d.pid_map ≡ m → ((leave_if_empty d).tail ≡ break) ↔ (m ≡ [])
unfolding leave_if_empty
leave_tail d [] h = (λ e. refl, λ e. ground arith)
leave_tail d (p ∷ m) h = (λ e. absurd (ground arith), λ e. absurd (cc))

-- The daemon manages no child but that one.
abbrev pub IsLast : (pid : ℕ) → Daemon → Type 0
IsLast pid d = (p : ℕ) → ¬ (p ≡ pid) → lookup_pid p d.pid_map ≡ none

-- What the reap of a child comes to while the daemon shuts down.
pub record Drains (pid id : ℕ) (d e : Daemon) : Type 0 where
  pub reaped : lookup_pid pid e.pid_map ≡ none
  pub others : (p : ℕ) → ¬ (p ≡ pid) → lookup_pid p e.pid_map ≡ lookup_pid p d.pid_map
  pub ends : (e.tail ≡ break) ↔ IsLast pid d
  pub restarts : e.restarts ≡ d.restarts
  pub shutdowns : e.shutdowns ≡ d.shutdowns
  pub effects : e.effects ≡ d.effects
  pub exited : (e.heap id).running ≡ false
  pub unmoved : (j : ℕ) → ¬ (j ≡ id) → e.heap j ≡ d.heap j

-- What is left of the table.
left_of :
    (pid p : ℕ) (m : List (ℕ × ℕ)) → ¬ (p ≡ pid) → lookup_pid p (remove_pid pid m) ≡ lookup_pid p m
left_of pid p m h = lookup-remove_pid pid p m ∙ rw (differs) refl
  where
    differs : eqb pid p ≡ false
    differs = ground (arith, h)

gone_from : (pid : ℕ) (m : List (ℕ × ℕ)) → lookup_pid pid (remove_pid pid m) ≡ none
gone_from pid m = ground (arith, lookup-remove_pid pid pid m)

-- A table in which nothing is found is empty.
nothing_found : (m : List (ℕ × ℕ)) → ((p : ℕ) → lookup_pid p m ≡ none) → m ≡ []
unfolding lookup_pid
nothing_found [] h = refl
nothing_found ((p, id) ∷ m) h = absurd (ground (arith, h p))

remove_pid-IsLast : (pid : ℕ) (d : Daemon) → (remove_pid pid d.pid_map ≡ []) ↔ IsLast pid d
unfolding lookup_pid
remove_pid-IsLast pid d = (
  λ e p differ. sym (left_of pid p d.pid_map differ) ∙ ap (lookup_pid p) e,
  λ h. nothing_found (remove_pid pid d.pid_map) λ p. elim (Bool-cases (eqb pid p)) [
    | inl same ↦ lookup-remove_pid pid p d.pid_map ∙ rw (same) refl
    | inr other ↦
        let differ : ¬ (p ≡ pid) = λ e. ground (arith, e, other) in
        left_of pid p d.pid_map differ ∙ h p differ
  ],
)

-- The exit of a child is only noted while the daemon shuts down.
exit_in_shutdown :
    (now : ℕ) (drawn : Drawn) (duration id : ℕ) (s : Service) (code : ℤ) (down consumed : Bool)
    (d : Daemon)
    → down ≡ true
    → let e = after_exit now drawn duration id s code down consumed d in
      ((e.tail ≡ break) ↔ (d.pid_map ≡ []))
      × (e.pid_map ≡ d.pid_map)
      × (e.restarts ≡ d.restarts)
      × (e.shutdowns ≡ d.shutdowns)
      × (e.effects ≡ d.effects)
      × (e.heap ≡ d.heap)
unfolding after_exit record_exit leave_if_empty
exit_in_shutdown now drawn duration id s code false consumed d h = absurd (cc)
exit_in_shutdown now drawn duration id s code true true d h =
    (leave_tail d d.pid_map refl, refl, refl, refl, refl, refl)
exit_in_shutdown now drawn duration id s code true false d h = (
  leave_tail (record d { metrics = service_exited s.name code d.metrics }) d.pid_map refl,
  refl,
  refl,
  refl,
  refl,
  refl,
)

pub booked_table :
    (now pid id : ℕ) (d : Daemon)
    → let b = (booked now pid id d).0 in
      (b.pid_map ≡ remove_pid pid d.pid_map)
      × ((b.heap id).running ≡ false)
      × (b.services ≡ d.services)
      × ((j : ℕ) → ¬ (j ≡ id) → b.heap j ≡ d.heap j)
unfolding take_restart_pending mark_exited
booked_table now pid id d = (ground arith, ground arith, ground arith, λ j h. ground (arith, h))

-- While the daemon shuts down, the reap of a managed child takes it, and no other, out of the table of
-- children and notes that its service does not run any more. It ends the loop exactly if the daemon
-- managed no other child, and it neither queues a restart or a shutdown nor signals a process or changes
-- another service.
pub shutdown-Drains :
    (now : ℕ) (drawn : Drawn) (pid id : ℕ) (status : WaitStatus) (d : Daemon)
    → d.shutting_down ≡ true
    → Drains pid id d (reap_managed now drawn pid id status d)
unfolding reap_managed
shutdown-Drains now drawn pid id status d h =
    let b = booked now pid id d in
    let s = (mark_exited now (d.heap id)).0 in
    let r =
      exit_in_shutdown now drawn (mark_exited now (d.heap id)).1 id s
        (effective_code s (wait_status_code status)) b.0.shutting_down b.1 b.0
        ((booked_same now pid id d).0 ∙ h) in
    let t = booked_table now pid id d in
    let q = booked-IsQuiet now pid id d in
    let table = r.1 ∙ t.0 in
    let last = remove_pid-IsLast pid d in
    record {
      reaped = ap (lookup_pid pid) table ∙ gone_from pid d.pid_map;
      others = λ p e. ap (lookup_pid p) table ∙ left_of pid p d.pid_map e;
      ends = (λ e. last.0 (sym t.0 ∙ r.0.0 e), λ e. r.0.1 (t.0 ∙ last.1 e));
      restarts = r.2 ∙ q.no_restart;
      shutdowns = r.3 ∙ q.no_shutdown;
      effects = r.4 ∙ q.no_signal;
      exited = ap (λ heap. (heap id).running) r.5 ∙ t.1;
      unmoved = λ j e. ap (λ heap. heap j) r.5 ∙ t.3 j e;
    }

consumed_exit :
    (now : ℕ) (drawn : Drawn) (duration id : ℕ) (s : Service) (code : ℤ) (down consumed : Bool)
    (e : Daemon)
    → down ≡ false
    → consumed ≡ true
    → choose s code ≡ ignore
    → fails_hard s code ≡ false
    → let f = after_exit now drawn duration id s code down consumed e in
      (f.metrics ≡ e.metrics) × (f.restart_pending ≡ e.restart_pending)
unfolding after_exit act record_exit
consumed_exit now drawn duration id s code down consumed e h1 h2 h3 h4 =
    (ground arith, ground arith)

booked_flag :
    (now pid id : ℕ) (d : Daemon) → (booked now pid id d).0.restart_pending (d.heap id).name ≡ false
unfolding take_restart_pending mark_exited
booked_flag now pid id d = ground arith

-- The exit of a service that was stopped for a restart, while the daemon does not shut down, is not
-- counted as an exit, and it takes the mark that the restart left, so that the next exit counts.
pub restart_is_one_event :
    (now : ℕ) (drawn : Drawn) (pid id : ℕ) (status : WaitStatus) (d : Daemon)
    → d.shutting_down ≡ false
    → (d.heap id).stopped ≡ true
    → d.restart_pending (d.heap id).name ≡ true
    → let e = reap_managed now drawn pid id status d in
      (e.metrics ≡ d.metrics) × (e.restart_pending (d.heap id).name ≡ false)
unfolding reap_managed mark_exited choose fails_hard
restart_is_one_event now drawn pid id status d up h m =
    let b = booked now pid id d in
    let s = (mark_exited now (d.heap id)).0 in
    let code = effective_code s (wait_status_code status) in
    let same = booked_same now pid id d in
    let q =
      consumed_exit now drawn (mark_exited now (d.heap id)).1 id s code b.0.shutting_down b.1 b.0
        (same.0 ∙ up) (same.3 ∙ m) (ground arith) (ground arith) in
    (q.0 ∙ same.1, ground (arith, q.1, booked_flag now pid id d))
