-- ===== src/Config/Valid.antt =====
-- Unmarshal of internal/yml/config.go: what holds of a configuration that is loaded.
use gopherd.Config.{Answers, Config, env_from_os, Exclusion}
use gopherd.Config.Accepted.{IsAccepted, validate-IsAccepted}
use gopherd.Config.Load.{
  check_stop_signals, catchable, is_order, control_of, parse_processes, with_defaults, parse_checks,
  validate_all, excluded_names, exclude, read_config, settle_config, root_of, unmarshal,
}
use gopherd.Config.Kept.{Every, IsAccepted-exclude, IsParsed-exclude}
use gopherd.Config.ParseProcess.{parse_process}
use gopherd.Config.Parsed.{IsParsed, parse_process-IsParsed}
use gopherd.Config.Validate.{shutdown_signals, scheduled_set, is_nil, validate}
use gopherd.Prelude.Int.{ℤ}
use gopherd.Prelude.Maps.{Map}
use gopherd.Prelude.Outcome.{accept, ◌>>=◌, Yields, Yields-bind, Yields-from, Yields-unless}
use gopherd.Prelude.{
  not-false, ℕ, eqb, Text, codes, true, false, ◌||◌, not, Option, none, some, List, [], ◌∷◌, ◌≡◌,
  refl, Bool-cases, inl, inr,
}
use gopherd.Service.Process.{Process}
use gopherd.Service.Signals.{parse_signal}
use gopherd.Yml.Blocks.{parse}
use gopherd.Yml.Node.{Node, get, strings, string, items, entries}

-- A signal that can trigger the shutdown.
abbrev pub IsCatchable : ℕ → Type 0
IsCatchable sig = (eqb sig 9 || eqb sig 19) ≡ false

abbrev pub AreCatchable : List Text → Type 0
AreCatchable [] = Unit {0}
AreCatchable (name ∷ names) =
    ((sig : ℕ) × (parse_signal name ≡ some sig) × IsCatchable sig) × AreCatchable names

-- The configuration is consistent: its processes are accepted against its own shutdown signals and its
-- own scheduled services.
pub record IsValid (dur : Text → Option ℤ) (c : Config) : Type 0 where
  pub order : is_order c.shutdown_order ≡ true
  pub signals : AreCatchable c.init_stop_signal
  pub parsed : Every (IsParsed dur) c.processes
  pub accepted :
      Every
        (IsAccepted dur (shutdown_signals c.init_stop_signal) (scheduled_set c.processes))
        c.processes

record IsRead (dur : Text → Option ℤ) (c : Config) : Type 0 where
  order : is_order c.shutdown_order ≡ true
  signals : AreCatchable c.init_stop_signal
  parsed : Every (IsParsed dur) c.processes

abbrev Catch : Text → ℕ → Type 0
Catch name sig = (parse_signal name ≡ some sig) × IsCatchable sig

catchable-Catch :
    (name : Text) (o : Option ℕ) → parse_signal name ≡ o → Yields (Catch name) (catchable name o)
catchable-Catch name none e = tt
catchable-Catch name (some sig) e =
    Yields-unless (Catch name) (eqb sig 9 || eqb sig 19) _ (accept sig) λ h. (e, h)

check_stop_signals-AreCatchable :
    (names : List Text) → Yields AreCatchable (check_stop_signals names)
unfolding check_stop_signals
check_stop_signals-AreCatchable [] = tt
check_stop_signals-AreCatchable (name ∷ names) =
    Yields-bind (Catch name) AreCatchable (catchable name (parse_signal name))
      (λ sig. check_stop_signals names >>= λ rest. accept (name ∷ rest))
      (catchable-Catch name (parse_signal name) refl)
      λ sig caught.
        Yields-bind AreCatchable AreCatchable (check_stop_signals names)
          (λ rest. accept (name ∷ rest)) (check_stop_signals-AreCatchable names)
          λ rest h. ((sig, caught.0, caught.1), h)

with_defaults-IsParsed :
    (dur : Text → Option ℤ) (root : Option Node) (p : Process)
    → IsParsed dur p
    → IsParsed dur (with_defaults root p)
with_defaults-IsParsed dur root p h = record {
  startup = h.startup;
  exists = h.exists;
  missing = h.missing;
  different = h.different;
  umask = h.umask;
  parent_death_signal = h.parent_death_signal;
  sd_notify_timeout = h.sd_notify_timeout;
  backoff_factor = h.backoff_factor;
  signal_rewrite = h.signal_rewrite;
}

abbrev AreParsed : (Text → Option ℤ) → List Process × List Exclusion → Type 0
AreParsed dur read = Every (IsParsed dur) read.0

parse_processes-AreParsed :
    (w : Answers) (env : Map Text) (root : Option Node) (ns : List Node)
    → Yields (AreParsed w.parse_duration) (parse_processes w env root ns)
unfolding parse_processes
parse_processes-AreParsed w env root [] = tt
parse_processes-AreParsed w env root (n ∷ ns) =
    let Q : List Process × List Exclusion → Type 0 = AreParsed w.parse_duration in
    Yields-bind (IsParsed w.parse_duration) Q (parse_process w env (some n)) _
      (parse_process-IsParsed w env (some n))
      λ p h.
        Yields-bind Q Q (parse_processes w env root ns) _ (parse_processes-AreParsed w env root ns)
          λ rest hs. (with_defaults-IsParsed w.parse_duration root p h, hs)

module _ (dur : Text → Option ℤ) (shutdown : List ℕ) (scheduled : List Text) where
  validate_all-IsAccepted :
      (ps : List Process)
      → Yields
          (λ qs. Every (IsAccepted dur shutdown scheduled) ps)
          (validate_all dur shutdown scheduled ps)
  unfolding validate_all
  validate_all-IsAccepted [] = tt
  validate_all-IsAccepted (p ∷ ps) =
      let Q : Process → Type 0 = IsAccepted dur shutdown scheduled in
      Yields-bind (λ q. Q p) (λ qs. Every Q (p ∷ ps)) (validate dur shutdown scheduled p)
        (λ q. validate_all dur shutdown scheduled ps >>= λ rest. accept (q ∷ rest))
        (validate-IsAccepted dur p shutdown scheduled)
        λ q h.
          Yields-bind (λ qs. Every Q ps) (λ qs. Every Q (p ∷ ps))
            (validate_all dur shutdown scheduled ps) (λ rest. accept (q ∷ rest))
            (validate_all-IsAccepted ps) λ rest hs. (h, hs)

exclude-IsValid :
    (dur : Text → Option ℤ) (c : Config)
    → IsRead dur c
    → Every
        (IsAccepted dur (shutdown_signals c.init_stop_signal) (scheduled_set c.processes))
        c.processes
    → IsValid dur (exclude c)
unfolding exclude
exclude-IsValid dur c h accepted = elim (Bool-cases (is_nil c.excluded)) [
  | inl none_left ↦
      rw (none_left)
        (record { order = h.order; signals = h.signals; parsed = h.parsed; accepted = accepted })
  | inr some_left ↦ rw (some_left) (record {
    order = h.order;
    signals = h.signals;
    parsed = IsParsed-exclude dur (excluded_names c.excluded) c.processes h.parsed;
    accepted =
        IsAccepted-exclude dur (shutdown_signals c.init_stop_signal) (excluded_names c.excluded)
          c.processes accepted;
  })
]

settle_config-IsValid :
    (w : Answers) (c : Config)
    → IsRead w.parse_duration c
    → Yields (IsValid w.parse_duration) (settle_config w c)
unfolding settle_config
settle_config-IsValid w c h =
    Yields-bind
      (λ ps.
        Every
          (IsAccepted w.parse_duration (shutdown_signals c.init_stop_signal)
            (scheduled_set c.processes))
          c.processes)
      (IsValid w.parse_duration)
      (validate_all w.parse_duration (shutdown_signals c.init_stop_signal)
        (scheduled_set c.processes) c.processes)
      (λ ps. accept (exclude c))
      (validate_all-IsAccepted w.parse_duration (shutdown_signals c.init_stop_signal)
        (scheduled_set c.processes) c.processes)
      λ ps accepted. exclude-IsValid w.parse_duration c h accepted

read_config-IsRead :
    (w : Answers) (root : Option Node) → Yields (IsRead w.parse_duration) (read_config w root)
unfolding read_config
read_config-IsRead w root =
    let Q : Config → Type 0 = IsRead w.parse_duration in
    let names = strings (get (codes "init-stop-signal") root) in
    let nodes = items (get (codes "processes") root) in
    Yields-bind AreCatchable Q (check_stop_signals names) _ (check_stop_signals-AreCatchable names)
      λ signals caught.
        Yields-unless Q (not (is_order (string (get (codes "shutdown-order") root)))) _ _ λ order.
          Yields-from Q (control_of (get (codes "control") root)) _ λ control e.
            Yields-bind (AreParsed w.parse_duration) Q
              (parse_processes w (env_from_os w) root nodes) _
              (parse_processes-AreParsed w (env_from_os w) root nodes)
              λ read parsed.
                Yields-from Q (parse_checks (entries (get (codes "checks") root)) []) _ λ checks e'.
                  Yields-unless Q (is_nil read.0) _ _
                    λ full. record { order = not-false _ order; signals = caught; parsed = parsed }

-- Whatever the text is, Unmarshal gives an error or a configuration in which the shutdown signals can
-- be caught and the order is known, and every process has a command, a name without white space,
-- settings that parse, no rewriting of a signal that gopherd keeps for itself, and no edge to a
-- service that is scheduled; and one that is scheduled has a cron expression that parses and no
-- exit action, backoff or edge.
pub unmarshal-IsValid :
    (w : Answers) (text : Text) → Yields (IsValid w.parse_duration) (unmarshal w text)
unfolding unmarshal
unmarshal-IsValid w text =
    let Q : Config → Type 0 = IsValid w.parse_duration in
    Yields-from Q (root_of (parse text)) _ λ n e.
      Yields-bind (IsRead w.parse_duration) Q (read_config w (some n)) _
        (read_config-IsRead w (some n)) λ c h. settle_config-IsValid w c h
