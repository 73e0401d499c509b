-- ===== src/Metrics/Counters.antt =====
-- What the counters of internal/metrics/metrics.go add up to, after any calls.
use gopherd.Prelude.Int.{ℤ}
use gopherd.Prelude.Maps.{lookup, lookup-remove}
use gopherd.Prelude.{
  ℕ, ◌+◌, Text, ◌==◌, Bool, true, false, Option, none, some, List, [], ◌∷◌, if◌then◌else◌, ◌≡◌,
  refl, arith, subst, sym, ◌∙◌, Option-cases, some_inj, inl, inr, ◌⊎◌, text_discrete,
}
use gopherd.Metrics.{
  ServiceStats, ServiceSnapshot, State, Metrics, service_snapshot, service_snapshot_of, fresh_stats,
  seeded, svc_register, started, exited, restarted, on_service, new, unregister_service,
  service_started, service_skipped, service_exited, service_restarted, register_check,
  unregister_check, check_result,
}
use gopherd.Metrics.Calls.{
  Call, register, unregister, start, skip, exit, restart, add_check, drop_check, check, apply, run,
  lookup-on_service, lookup-register_service, map_option,
}

-- An exit is a success or a failure; a service that is up has a start time, one that is not has no
-- pid; a pending one has neither run nor exited.
pub record IsSound (s : ServiceStats) : Type 0 where
  pub split : s.exits ≡ s.successes + s.failures
  pub since : s.up ≡ true → (t : ℕ) × (s.started_at ≡ some t)
  pub down : s.up ≡ false → s.pid ≡ 0
  pub waits : s.pending ≡ true → (s.started_at ≡ none) × (s.exits ≡ 0)

fresh-IsSound : IsSound fresh_stats
fresh-IsSound = record { split = refl; since = λ h. cc; down = λ h. refl; waits = λ h. cc }

seeded-IsSound : (enabled : Bool) (s : ServiceStats) → IsSound s → IsSound (seeded enabled s)
unfolding seeded
seeded-IsSound enabled s v = ground arith

started-IsSound : (now pid : ℕ) (s : ServiceStats) → IsSound s → IsSound (started now pid s)
unfolding started
started-IsSound now pid s v = record {
  split = v.split;
  since = λ h. (now, refl);
  down = λ h. cc;
  waits = λ h. cc;
}

exited-IsSound : (code : ℤ) (s : ServiceStats) → IsSound s → IsSound (exited code s)
unfolding exited
exited-IsSound code s v = ground arith

restarted-IsSound : (s : ServiceStats) → IsSound s → IsSound (restarted s)
unfolding restarted
restarted-IsSound s v = record { split = v.split; since = v.since; down = v.down; waits = v.waits }

skipped-IsSound :
    (reason : Text) (s : ServiceStats) → IsSound s → IsSound (record s { skipped = reason })
skipped-IsSound reason s v = record {
  split = v.split;
  since = v.since;
  down = v.down;
  waits = v.waits;
}

abbrev pub AllSound : Metrics → Type 0
AllSound m = (n : Text) (s : ServiceStats) → lookup n m.services ≡ some s → IsSound s

-- An entry of an updated map is the new one, or an old one.
at_key :
    (name n : Text) (m : Metrics) (o : Option ServiceStats) (t : ServiceStats)
    → AllSound m
    → ((s : ServiceStats) → o ≡ some s → IsSound s)
    → (if name == n then o else lookup n m.services) ≡ some t
    → IsSound t
at_key name n m o t all fresh h = elim (text_discrete name n) [
  | yes e ↦ fresh t (ground arith)
  | no e ↦ all n t (ground arith)
]

mapped-IsSound :
    (f : ServiceStats → ServiceStats) (o : Option ServiceStats)
    → ((s : ServiceStats) → IsSound s → IsSound (f s))
    → ((s : ServiceStats) → o ≡ some s → IsSound s)
    → (s : ServiceStats) → map_option f o ≡ some s
    → IsSound s
mapped-IsSound f none keep old s h = absurd (cc)
mapped-IsSound f (some a) keep old s h = subst IsSound (some_inj h) (keep a (old a refl))

on_service-AllSound :
    (f : ServiceStats → ServiceStats) (name : Text) (m : Metrics)
    → ((s : ServiceStats) → IsSound s → IsSound (f s))
    → AllSound m
    → AllSound (on_service f name m)
on_service-AllSound f name m keep all n t h =
    at_key name n m (map_option f (lookup n m.services)) t all
      (mapped-IsSound f (lookup n m.services) keep (all n)) (sym (lookup-on_service f name n m) ∙ h)

register_base : (name : Text) (m : Metrics) → AllSound m → IsSound (svc_register name m)
unfolding svc_register
register_base name m all = elim (Option-cases (lookup name m.services)) [
  | inl e ↦ rw (e, svc_register) fresh-IsSound
  | inr (s, e) ↦ rw (e, svc_register) (all name s e)
]

apply-AllSound : (c : Call) (m : Metrics) → AllSound m → AllSound (apply c m)
unfolding apply service_started service_skipped service_exited service_restarted register_check
    unregister_check check_result unregister_service
apply-AllSound (register name enabled) m all n t h =
    at_key name n m (some (seeded enabled (svc_register name m))) t all
      (λ s e.
        subst IsSound (some_inj e)
          (seeded-IsSound enabled (svc_register name m) (register_base name m all)))
      (sym (lookup-register_service name n enabled m) ∙ h)
apply-AllSound (unregister name) m all n t h =
    at_key name n m none t all (λ s e. absurd (cc)) (sym (lookup-remove name n m.services) ∙ h)
apply-AllSound (start now name pid) m all n t h =
    on_service-AllSound (started now pid) name m (started-IsSound now pid) all n t h
apply-AllSound (skip name reason) m all n t h =
    on_service-AllSound (λ s. record s { skipped = reason }) name m (skipped-IsSound reason) all n t
      h
apply-AllSound (exit name code) m all n t h =
    on_service-AllSound (exited code) name m (exited-IsSound code) all n t h
apply-AllSound (restart name) m all n t h =
    on_service-AllSound restarted name m restarted-IsSound all n t h
apply-AllSound (add_check name) m all n t h = all n t h
apply-AllSound (drop_check name) m all n t h = all n t h
apply-AllSound (check name healthy) m all n t h = all n t (ground arith)

-- After any calls at all the counters of every service add up.
pub run-AllSound : (cs : List Call) (m : Metrics) → AllSound m → AllSound (run cs m)
unfolding run
run-AllSound [] m all = all
run-AllSound (c ∷ cs) m all = run-AllSound cs (apply c m) (apply-AllSound c m all)

pub new-AllSound : AllSound new
unfolding new lookup
new-AllSound n s h = cc

-- What a snapshot shows: the exits split into successes and failures, a pid and an uptime are
-- shown only of a service that is up, a reason only of one that was skipped.
abbrev pub Shown : ServiceSnapshot → Type 0
Shown p =
    (p.exits ≡ p.successes + p.failures)
    × ((p.state ≡ State.up) ⊎ (p.pid ≡ 0) × (p.uptime ≡ 0))
    × ((p.state ≡ State.skipped) ⊎ (p.reason ≡ []))

snapshot-Shown :
    (now : ℕ) (n : Text) (s : ServiceStats) → IsSound s → Shown (service_snapshot_of now n s)
unfolding service_snapshot_of
snapshot-Shown now n s v = ground arith

-- In a snapshot that is taken after any calls on new metrics, the exits are the successes and the
-- failures, a pid and an uptime are shown only of a service that is up, and a reason only of one that
-- is skipped.
pub service_snapshot-Shown :
    (cs : List Call) (now : ℕ) (n : Text) (snap : ServiceSnapshot)
    → service_snapshot now n (run cs new) ≡ some snap
    → Shown snap
unfolding service_snapshot
service_snapshot-Shown cs now n snap h = elim (Option-cases (lookup n (run cs new).services)) [
  | inl e ↦ absurd (cc (rw (e, service_snapshot) at h))
  | inr (s, e) ↦
      subst Shown (some_inj (rw (e, service_snapshot) at h))
        (snapshot-Shown now n s (run-AllSound cs new new-AllSound n s e))
]
