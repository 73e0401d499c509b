-- ===== src/Daemon/Build.antt =====
-- buildServices, buildOrderServices and startOrder of daemon.go: the services of a configuration.
use gopherd.Config.{Config}
use gopherd.Logger.Writer.{PrefixWriter, add_target}
use gopherd.Metrics.{Metrics, register_service}
use gopherd.Order.{Service, Result, topo_sort}
use gopherd.Prelude.Int.{ℤ}
use gopherd.Prelude.Maps.{Map, insert}
use gopherd.Prelude.Outcome.{Outcome, accept, reject, ◌>>=◌}
use gopherd.Prelude.{
  ℕ, Text, text_discrete, Bool, true, Option, List, [], ◌∷◌, ◌++◌, contains, map, if◌then◌else◌,
}
use gopherd.Service.New.{NewService, NewError, New, made, refused, new}
use gopherd.Service.Process.{Process, proc_name}

-- Target of internal/logger/target.go, as far as services see it; `filter` is its list of services.
pub record Target : Type 0 where
  pub id : ℕ
  pub filter : List Text

-- AppliesTo
unfoldable pub applies_to : Target → Text → Bool
unfolding contains text_discrete
applies_to t name = elim t.filter [ [] ↦ true | n ∷ ns ↦ contains (n ∷ ns) name ]

abbrev pub attach : List Target → Text → PrefixWriter → PrefixWriter
attach [] name w = w
attach (t ∷ ts) name w = attach ts name (if applies_to t name then add_target t.id w else w)

abbrev pub attach_all : List Target → NewService → NewService
attach_all ts s = record s {
  stdout = attach ts s.name s.stdout;
  stderr = attach ts s.name s.stderr;
}

abbrev or_global : Text → Text → Text
or_global [] global = global
or_global (c ∷ s) global = c ∷ s

-- The process with the arguments of the entry point and with its prefix.
abbrev pub effective : (entrypoint_args : List Text) → (prefix : Text) → Process → Process
effective entrypoint prefix p = record p {
  args = if p.use_entrypoint_args then p.args ++ entrypoint else p.args;
  prefix = or_global p.prefix prefix;
}

-- d.services and d.m
pub record Built : Type 0 where
  pub services : Map NewService
  pub metrics : Metrics

abbrev pub install : List Target → Built → NewService → Built
install ts b s = record {
  services = insert s.name (attach_all ts s) b.services;
  metrics = register_service s.name s.enabled b.metrics;
}

abbrev pub made_or : New → Outcome NewError NewService
made_or (made s) = accept s
made_or (refused e) = reject e

unfoldable pub build_from :
    (parse_duration : Text → Option ℤ)
    → (entrypoint_args : List Text) → (prefix : Text) → List Target
    → List Process
    → Built
    → Outcome NewError Built
unfolding new insert register_service applies_to add_target text_discrete
build_from dur entrypoint prefix ts [] b = accept b
build_from dur entrypoint prefix ts (p ∷ ps) b =
    made_or (new dur (effective entrypoint prefix p) prefix) >>= λ s.
    build_from dur entrypoint prefix ts ps (install ts b s)

unfoldable pub build_services :
    (parse_duration : Text → Option ℤ)
    → (entrypoint_args : List Text) → List Target
    → Config
    → Metrics
    → Outcome NewError Built
unfolding build_from
build_services dur entrypoint ts c m =
    build_from dur entrypoint c.prefix ts c.processes (record { services = []; metrics = m })

abbrev pub order_service : Process → Service
order_service p = record {
  name = proc_name p;
  after = p.after;
  before = p.before;
  requires = p.requires;
}

unfoldable pub build_order_services : List Process → List Service
unfolding proc_name
build_order_services ps = map order_service ps

unfoldable pub start_order : Config → Option (Result (List Text))
unfolding build_order_services topo_sort
start_order c = topo_sort (build_order_services c.processes)

-- The loop of reload that tries every process before anything is changed.
unfoldable pub dry_run :
    (parse_duration : Text → Option ℤ)
    → (prefix : Text) → List Process
    → Outcome NewError (List NewService)
unfolding new
dry_run dur prefix [] = accept []
dry_run dur prefix (p ∷ ps) =
    made_or (new dur p prefix) >>= λ s. dry_run dur prefix ps >>= λ rest. accept (s ∷ rest)
