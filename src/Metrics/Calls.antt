-- ===== src/Metrics/Calls.antt =====
-- Sequences of calls of internal/metrics/metrics.go, and what they cannot bring about.
use gopherd.Prelude.Int.{ℤ}
use gopherd.Prelude.Maps.{lookup, lookup-insert, lookup-remove}
use gopherd.Prelude.{
  ℕ, Text, ◌==◌, Bool, true, false, Option, none, some, List, [], ◌∷◌, if◌then◌else◌, ◌≡◌, arith,
  Option-cases, Bool-cases, inl, inr,
}
use gopherd.Metrics.{
  ServiceStats, Metrics, register_service, unregister_service, on_service, service_started,
  service_skipped, service_exited, service_restarted, register_check, unregister_check,
  check_result, seeded, svc_register, started, exited, restarted,
}

-- A call of a method that changes the metrics.
pub data Call : Type 0 where
  register : (name : Text) → Bool → Call
  unregister : (name : Text) → Call
  start : (now : ℕ) → (name : Text) → (pid : ℕ) → Call
  skip : (name reason : Text) → Call
  exit : (name : Text) → ℤ → Call
  restart : (name : Text) → Call
  add_check : (name : Text) → Call
  drop_check : (name : Text) → Call
  check : (name : Text) → Bool → Call

unfoldable pub apply : Call → Metrics → Metrics
apply (register name enabled) m = register_service name enabled m
apply (unregister name) m = unregister_service name m
apply (start now name pid) m = service_started now name pid m
apply (skip name reason) m = service_skipped name reason m
apply (exit name code) m = service_exited name code m
apply (restart name) m = service_restarted name m
apply (add_check name) m = register_check name m
apply (drop_check name) m = unregister_check name m
apply (check name healthy) m = check_result name healthy m

unfoldable pub run : List Call → Metrics → Metrics
unfolding apply
run [] m = m
run (c ∷ cs) m = run cs (apply c m)

-- A call that may create the entry of a service, or of a check.
abbrev pub registers : Text → Call → Bool
registers name (register n enabled) = n == name
registers name _ = false

abbrev pub registers_check : Text → Call → Bool
registers_check name (add_check n) = n == name
registers_check name _ = false

abbrev pub none_of : (Call → Bool) → List Call → Bool
none_of p [] = true
none_of p (c ∷ cs) = if p c then false else none_of p cs

abbrev pub map_option : {A : Type 0} → (A → A) → Option A → Option A
map_option f none = none
map_option f (some a) = some (f a)

-- An event changes the entry of its own name, if there is one, and nothing else.
pub lookup-on_service :
    (f : ServiceStats → ServiceStats) (name n : Text) (m : Metrics)
    → lookup n (on_service f name m).services
      ≡ (if name == n then map_option f (lookup n m.services) else lookup n m.services)
unfolding on_service
lookup-on_service f name n m = elim (Option-cases (lookup name m.services)) [
  | inl e ↦ rw (e, on_service) (ground arith)
  | inr (s, e) ↦ rw (e, on_service) (ground (arith, lookup-insert name n (f s) m.services))
]

pub lookup-register_service :
    (name n : Text) (enabled : Bool) (m : Metrics)
    → lookup n (register_service name enabled m).services
      ≡ (if name == n then some (seeded enabled (svc_register name m)) else lookup n m.services)
unfolding register_service
lookup-register_service name n enabled m = lookup-insert name n _ m.services

apply_absent :
    (n : Text) (c : Call) (m : Metrics)
    → registers n c ≡ false
    → lookup n m.services ≡ none
    → lookup n (apply c m).services ≡ none
unfolding apply unregister_service service_started service_skipped service_exited service_restarted
    register_check unregister_check check_result
apply_absent n (register name enabled) m h e =
    ground (arith, lookup-register_service name n enabled m)
apply_absent n (unregister name) m h e = ground (arith, lookup-remove name n m.services)
apply_absent n (start now name pid) m h e =
    ground (arith, lookup-on_service (started now pid) name n m)
apply_absent n (skip name reason) m h e =
    ground (arith, lookup-on_service (λ s. record s { skipped = reason }) name n m)
apply_absent n (exit name code) m h e = ground (arith, lookup-on_service (exited code) name n m)
apply_absent n (restart name) m h e = ground (arith, lookup-on_service restarted name n m)
apply_absent n (add_check name) m h e = e
apply_absent n (drop_check name) m h e = e
apply_absent n (check name healthy) m h e = ground arith

-- No sequence of events brings an unregistered service back: only registering it does.
pub run_absent :
    (n : Text) (cs : List Call) (m : Metrics)
    → none_of (registers n) cs ≡ true
    → lookup n m.services ≡ none
    → lookup n (run cs m).services ≡ none
unfolding run
run_absent n [] m h e = e
run_absent n (c ∷ cs) m h e = elim (Bool-cases (registers n c)) [
  | inl r ↦ absurd (cc (rw r at h))
  | inr r ↦ run_absent n cs (apply c m) (rw r at h) (apply_absent n c m r e)
]

-- After a service is unregistered, any calls but one that registers it leave no entry for it.
pub unregister_stays :
    (n : Text) (cs : List Call) (m : Metrics)
    → none_of (registers n) cs ≡ true
    → lookup n (run (unregister n ∷ cs) m).services ≡ none
unfolding run apply unregister_service
unregister_stays n cs m h =
    run_absent n cs (unregister_service n m) h (ground (arith, lookup-remove n n m.services))
