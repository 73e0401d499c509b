-- ===== src/Metrics.antt =====
-- internal/metrics/metrics.go: counters of the services and the health checks.
-- The mutex makes each method one step. A pointer in a map is the value under its key, so a write
-- through it is a write under that key. `time.Now` is the argument `now`, in nanoseconds; the zero
-- time of `StartedAt` is `none`. Format, which only lays text out, is not modelled.
pub mod Calls
pub mod Counters
use gopherd.Prelude.Int.{ℤ, pos, is_zero}
use gopherd.Prelude.Maps.{Map, lookup, insert, remove}
use gopherd.Prelude.{
  ℕ, suc, ◌+◌, ◌-◌, ◌/◌, eqb, Text, Bool, true, false, ◌&&◌, not, Option, none, some, List, [], ◌∷◌,
  map, if◌then◌else◌, sort, ◌==◌,
}

pub record ServiceStats : Type 0 where
  pub started_at : Option ℕ
  pub skipped : Text
  pub pid : ℕ
  pub restarts : ℕ
  pub exits : ℕ
  pub failures : ℕ
  pub successes : ℕ
  pub up : Bool
  pub enabled : Bool
  pub pending : Bool

pub record CheckStats : Type 0 where
  pub failures : ℕ
  pub healthy : Bool

pub record Metrics : Type 0 where
  pub services : Map ServiceStats
  pub checks : Map CheckStats

unfoldable pub new : Metrics
new = record { services = []; checks = [] }

abbrev pub fresh_stats : ServiceStats
fresh_stats = record {
  started_at = none;
  skipped = [];
  pid = 0;
  restarts = 0;
  exits = 0;
  failures = 0;
  successes = 0;
  up = false;
  enabled = true;
  pending = false;
}

abbrev pub fresh_check : CheckStats
fresh_check = record { failures = 0; healthy = true }

-- The entry for a name, or a new one: `svcRegister` and `chkRegister`.
unfoldable pub svc_register : Text → Metrics → ServiceStats
unfolding lookup
svc_register name m = elim (lookup name m.services) [ none ↦ fresh_stats | some s ↦ s ]

unfoldable pub chk_register : Text → Metrics → CheckStats
unfolding lookup
chk_register name m = elim (lookup name m.checks) [ none ↦ fresh_check | some c ↦ c ]

abbrev never_started : ServiceStats → Bool
never_started s = elim (s.started_at) [ none ↦ true | some _ ↦ false ]

unfoldable pub seeded : Bool → ServiceStats → ServiceStats
seeded enabled s =
    if enabled && (never_started s && eqb s.exits 0)
    then record s { enabled = enabled; pending = true }
    else record s { enabled = enabled }

unfoldable pub register_service : Text → Bool → Metrics → Metrics
unfolding svc_register insert seeded
register_service name enabled m = record m {
  services = insert name (seeded enabled (svc_register name m)) m.services;
}

unfoldable pub is_pending : Text → Metrics → Bool
unfolding lookup
is_pending name m = elim (lookup name m.services) [ none ↦ false | some s ↦ s.pending ]

unfoldable pub unregister_service : Text → Metrics → Metrics
unfolding remove
unregister_service name m = record m { services = remove name m.services }

-- What the event methods share: nothing happens for a name that is not registered.
unfoldable pub on_service : (ServiceStats → ServiceStats) → Text → Metrics → Metrics
unfolding lookup insert
on_service f name m = elim (lookup name m.services) [
  | none ↦ m
  | some s ↦ record m { services = insert name (f s) m.services }
]

unfoldable pub started : ℕ → ℕ → ServiceStats → ServiceStats
started now pid s = record s {
  up = true;
  pid = pid;
  pending = false;
  skipped = [];
  started_at = some now;
}

unfoldable pub service_started : ℕ → Text → ℕ → Metrics → Metrics
unfolding on_service started
service_started now name pid = on_service (started now pid) name

unfoldable pub service_skipped : Text → Text → Metrics → Metrics
unfolding on_service
service_skipped name reason = on_service (λ s. record s { skipped = reason }) name

unfoldable pub exited : ℤ → ServiceStats → ServiceStats
exited code s =
    let t = record s { up = false; pid = 0; pending = false; exits = suc s.exits } in
    if is_zero code
    then record t { successes = suc t.successes }
    else record t { failures = suc t.failures }

unfoldable pub service_exited : Text → ℤ → Metrics → Metrics
unfolding on_service exited
service_exited name code = on_service (exited code) name

unfoldable pub restarted : ServiceStats → ServiceStats
restarted s = record s { restarts = suc s.restarts }

unfoldable pub service_restarted : Text → Metrics → Metrics
unfolding on_service restarted
service_restarted = on_service restarted

unfoldable pub register_check : Text → Metrics → Metrics
unfolding chk_register insert
register_check name m = record m { checks = insert name (chk_register name m) m.checks }

unfoldable pub unregister_check : Text → Metrics → Metrics
unfolding remove
unregister_check name m = record m { checks = remove name m.checks }

unfoldable pub observed : Bool → CheckStats → CheckStats
observed healthy c =
    let d = record c { healthy = healthy } in
    if healthy then d else record d { failures = suc d.failures }

unfoldable pub check_result : Text → Bool → Metrics → Metrics
unfolding lookup insert observed
check_result name healthy m = elim (lookup name m.checks) [
  | none ↦ m
  | some c ↦ record m { checks = insert name (observed healthy c) m.checks }
]

pub data State : Type 0 where
  up stopped disabled pending skipped : State

-- A snapshot of one service; `uptime` is in seconds, and 0 unless the service is up.
pub record ServiceSnapshot : Type 0 where
  pub name : Text
  pub state : State
  pub reason : Text
  pub pid : ℕ
  pub uptime : ℕ
  pub enabled : Bool
  pub exits : ℕ
  pub restarts : ℕ
  pub successes : ℕ
  pub failures : ℕ

abbrev elapsed : ℕ → Option ℕ → ℕ
elapsed now none = now / 1000000000
elapsed now (some t) = (now - t) / 1000000000

abbrev is_empty : Text → Bool
is_empty [] = true
is_empty (c ∷ s) = false

unfoldable pub service_snapshot_of : ℕ → Text → ServiceStats → ServiceSnapshot
service_snapshot_of now name s =
    let snap : ServiceSnapshot = record {
      name = name;
      state = stopped;
      reason = [];
      pid = 0;
      uptime = 0;
      enabled = s.enabled;
      exits = s.exits;
      restarts = s.restarts;
      successes = s.successes;
      failures = s.failures;
    } in
    if s.up
    then record snap { state = up; pid = s.pid; uptime = elapsed now s.started_at }
    else if not s.enabled
    then record snap { state = disabled }
    else if not (is_empty s.skipped)
    then record snap { state = skipped; reason = s.skipped }
    else if s.pending
    then record snap { state = pending }
    else snap

unfoldable pub service_snapshot : ℕ → Text → Metrics → Option ServiceSnapshot
unfolding lookup service_snapshot_of
service_snapshot now name m = elim (lookup name m.services) [
  | none ↦ none
  | some s ↦ some (service_snapshot_of now name s)
]
