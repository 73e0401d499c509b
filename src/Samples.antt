-- ===== src/Samples.antt =====
-- Runs of internal/order, internal/metrics, internal/reaper, internal/yml, check, control and
-- service on small inputs.
use native.Mathlib.Decide.{ℕ_discrete}
use gopherd.Prelude.Int.{pos}
use gopherd.Prelude.Maps.{lookup, insert}
use gopherd.Prelude.{
  ℕ, Text, codes, text_discrete, Option, true, false, some, List, [], ◌∷◌, ◌++◌, ◌≡◌, refl, arith,
  contains, sort,
}
use gopherd.Order.{
  Service, Result, ok, topo_sort, prepare, sort_graph, kahn, conclude, relax, collect_names,
  add_services, add_service, add_after, add_before, add_requires, add_edge, linked, empty_graph,
}
use gopherd.Order.Sound.{IsStartOrder, topo_sort-IsStartOrder, topo_sort_total}
use gopherd.Order.Complete.{topo_sort_complete}
use gopherd.Order.Layers.{topo_layers, emit, drain, lower}
use gopherd.Metrics.{
  new, service_snapshot, service_snapshot_of, ServiceSnapshot, State, register_service, seeded,
  svc_register, service_started, service_exited, on_service, started, exited,
}
use gopherd.Metrics.Calls.{Call, apply, run}
use gopherd.Metrics.Counters.{Shown, service_snapshot-Shown}
use gopherd.Reaper.{Registry}
use gopherd.Check.{Checker, Probe, probe_failed, inconclusive, observe_all, threshold_fires_once}
use gopherd.Notify.{
  Listener, IsOnce, receive_all, receive, authorized, parse, split_lines, parse_lines, cut_equals,
  apply_record, set_ready, receive_all-IsOnce,
}
use gopherd.Yml.{unquote}
use gopherd.Yml.Scalars.{escape, unquote-escape}

-- A web server after its database.
abbrev db : Service
db = record { name = codes "db"; after = []; before = []; requires = [] }

abbrev web : Service
web = record {
  name = codes "web";
  after = codes "db" ∷ [];
  before = [];
  requires = codes "db" ∷ [];
}

abbrev both : List Service
both = web ∷ db ∷ []

abbrev in_order : List Text
in_order = codes "db" ∷ codes "web" ∷ []

both_sorted : topo_sort both ≡ some (ok in_order)
unfolding topo_sort prepare collect_names add_services add_service add_after add_before add_requires
    add_edge linked empty_graph sort_graph kahn relax conclude contains text_discrete ℕ_discrete
both_sorted = refl

both_layered : topo_layers both ≡ some (ok ((codes "db" ∷ []) ∷ (codes "web" ∷ []) ∷ []))
unfolding topo_layers emit drain lower sort prepare collect_names add_services add_service add_after
    add_before add_requires add_edge linked empty_graph contains text_discrete ℕ_discrete
both_layered = refl

topo_sort-IsStartOrder_example : IsStartOrder both in_order
topo_sort-IsStartOrder_example = topo_sort-IsStartOrder both in_order both_sorted

topo_sort_complete_example : (found : List Text) × (topo_sort both ≡ some (ok found))
topo_sort_complete_example = topo_sort_complete both in_order topo_sort-IsStartOrder_example

topo_sort_total_example : (r : Result (List Text)) × (topo_sort both ≡ some r)
topo_sort_total_example = topo_sort_total both

-- A service that starts, and exits with the code 1.
abbrev calls : List Call
calls =
    Call.register (codes "db") true
    ∷ Call.start 5 (codes "db") 7
    ∷ Call.exit (codes "db") (pos 1)
    ∷ []

abbrev failed_once : ServiceSnapshot
failed_once = record {
  name = codes "db";
  state = State.stopped;
  reason = [];
  pid = 0;
  uptime = 0;
  enabled = true;
  exits = 1;
  restarts = 0;
  successes = 0;
  failures = 1;
}

service_snapshot-Shown_example : Shown failed_once
unfolding service_snapshot service_snapshot_of run apply new register_service seeded svc_register
    service_started service_exited on_service started exited insert lookup text_discrete ℕ_discrete
service_snapshot-Shown_example = service_snapshot-Shown calls 9 (codes "db") failed_once refl

abbrev waiting : Registry
waiting = record { active = true; waiters = 4 ∷ []; delivered = [] }

abbrev checker : Checker
checker = record { threshold = 2; failures = 0; healthy = true; reported = [] }

abbrev probes : List Probe
probes = probe_failed ∷ inconclusive ∷ probe_failed ∷ probe_failed ∷ []

threshold_fires_once_example : (observe_all probes checker).1 ≡ 1
unfolding ℕ_discrete
threshold_fires_once_example = threshold_fires_once probes checker refl refl (omega arith)

unquote-escape_example : unquote (b'"' ∷ escape (codes "a\"b") ++ b'"' ∷ []) ≡ codes "a\"b"
unquote-escape_example = unquote-escape (codes "a\"b")

abbrev listener : Listener
listener = record { allowed_uid = 5; ready = false; closes = 0; stopping = false; status = [] }

-- A stranger and then the service announce readiness, the service twice.
abbrev datagrams : List (Option ℕ × Text)
datagrams = (some 6, codes "READY=1") ∷ (some 5, codes "READY=1\nREADY=1\nSTATUS=up") ∷ []

announced : (receive_all (λ s. s) true datagrams listener).status ≡ codes "up"
unfolding receive_all receive authorized parse split_lines parse_lines cut_equals apply_record
    set_ready text_discrete ℕ_discrete
announced = refl

receive_all-IsOnce_example : IsOnce (receive_all (λ s. s) true datagrams listener)
receive_all-IsOnce_example = receive_all-IsOnce (λ s. s) true datagrams listener refl
