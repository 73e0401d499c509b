-- ===== src/Config/Shutdown.antt =====
-- The signals that shut gopherd down (ShutdownSignals of internal/yml/config.go), in a configuration
-- that is loaded, and the rewriting of signals for its services.
use gopherd.Config.{Answers, Config}
use gopherd.Config.Accepted.{IsAccepted}
use gopherd.Config.Kept.{Every, Every-map}
use gopherd.Config.Load.{unmarshal}
use gopherd.Config.Valid.{IsValid, AreCatchable, unmarshal-IsValid}
use gopherd.Config.Validate.{shutdown_signals, named_signals, add_signal, reserved}
use gopherd.Prelude.Maps.{Map, lookup}
use gopherd.Prelude.Outcome.{Yields, Yields-map}
use gopherd.Prelude.{
  ℕ, ◌<◌, Text, codes, ◌==◌, eq→==, text_discrete, true, none, List, [], ◌∷◌, contains, length, map,
  ◌≡◌, ◌≢◌, ◌⊎◌, refl, sym, ap, subst, arith, inl, inr,
}
use gopherd.Service.Signals.{signal_name, rewrite_signal}

abbrev pub IsMember : ℕ → List ℕ → Type 0
IsMember sig [] = ⊥
IsMember sig (s ∷ sigs) = (s ≡ sig) ⊎ IsMember sig sigs

-- Neither SIGKILL nor SIGSTOP.
abbrev pub CanBeCaught : ℕ → Type 0
CanBeCaught sig = (sig ≢ 9) × (sig ≢ 19)

named_signals-CanBeCaught :
    (names : List Text)
    → AreCatchable names
    → (sig : ℕ) → IsMember sig (named_signals names)
    → CanBeCaught sig
unfolding named_signals
named_signals-CanBeCaught [] h sig m = absurd m
named_signals-CanBeCaught (name ∷ names) ((s, e, ok), h) sig m =
    elim (subst (λ o. IsMember sig (add_signal o (named_signals names))) e m) [
      | inl same ↦ (λ k. ground (arith, ok, same, k), λ k. ground (arith, ok, same, k))
      | inr later ↦ named_signals-CanBeCaught names h sig later
    ]

-- Some signal shuts gopherd down, and each of them can be caught.
abbrev pub CanStop : Config → Type 0
CanStop c =
    (0 < length (shutdown_signals c.init_stop_signal))
    × ((sig : ℕ) → IsMember sig (shutdown_signals c.init_stop_signal) → CanBeCaught sig)

signals-CanStop :
    (names : List Text)
    → AreCatchable names
    → (0 < length (shutdown_signals names))
      × ((sig : ℕ) → IsMember sig (shutdown_signals names) → CanBeCaught sig)
unfolding shutdown_signals named_signals
signals-CanStop [] h = (
  omega arith,
  λ sig m. elim m [
    | inl same ↦ (λ k. omega (arith, same, k), λ k. omega (arith, same, k))
    | inr later ↦ elim later [
      | inl same ↦ (λ k. omega (arith, same, k), λ k. omega (arith, same, k))
      | inr nowhere ↦ absurd nowhere
    ]
  ],
)
signals-CanStop (name ∷ names) ((s, e, ok), h) = (
  subst (λ o. 0 < length (add_signal o (named_signals names))) (sym e) (omega arith),
  named_signals-CanBeCaught (name ∷ names) ((s, e, ok), h),
)

-- In a configuration that Unmarshal accepts, at least one signal shuts gopherd down, and none of
-- those that do is SIGKILL or SIGSTOP.
pub shutdown_signals-CanStop : (w : Answers) (text : Text) → Yields CanStop (unmarshal w text)
shutdown_signals-CanStop w text =
    Yields-map (IsValid w.parse_duration) CanStop (unmarshal w text)
      (λ c h. signals-CanStop c.init_stop_signal h.signals) (unmarshal-IsValid w text)

-- A signal that gopherd handles itself: SIGHUP, or one that shuts it down.
abbrev pub IsOwn : Config → ℕ → Type 0
IsOwn c sig = (sig ≡ 1) ⊎ IsMember sig (shutdown_signals c.init_stop_signal)

contains-map :
    (sig : ℕ) (sigs : List ℕ)
    → IsMember sig sigs
    → contains (map signal_name sigs) (signal_name sig) ≡ true
unfolding contains
contains-map sig [] m = absurd m
contains-map sig (s ∷ sigs) (inl same) =
    rw (eq→== (signal_name s) (signal_name sig) (ap signal_name same)) refl
contains-map sig (s ∷ sigs) (inr later) = ground (arith, contains-map sig sigs later)

hup_name : (codes "SIGHUP" == signal_name 1) ≡ true
unfolding signal_name text_discrete
hup_name = refl

own_is_reserved :
    (c : Config) (sig : ℕ)
    → IsOwn c sig
    → contains (reserved (shutdown_signals c.init_stop_signal)) (signal_name sig) ≡ true
unfolding reserved contains
own_is_reserved c sig (inl hup) = rw (hup) (ground (arith, hup_name))
own_is_reserved c sig (inr m) =
    ground (arith, contains-map sig (shutdown_signals c.init_stop_signal) m)

-- No service of the configuration gets such a signal forwarded.
abbrev pub KeepsOwn : Config → Type 0
KeepsOwn c =
    (sig : ℕ) → IsOwn c sig → Every (λ p. rewrite_signal p.signal_rewrite sig ≡ none) c.processes

rewrites_none :
    (rewrites : Map Text) (sig : ℕ)
    → lookup (signal_name sig) rewrites ≡ none
    → rewrite_signal rewrites sig ≡ none
unfolding rewrite_signal
rewrites_none rewrites sig e = rw (e) refl

-- In a configuration that Unmarshal accepts, a signal that gopherd handles itself, SIGHUP or one that
-- shuts it down, is never forwarded to a service: RewriteSignal gives nothing for it, for every one
-- of the services, however its signal-rewrite names signals.
pub rewrite_signal-KeepsOwn : (w : Answers) (text : Text) → Yields KeepsOwn (unmarshal w text)
rewrite_signal-KeepsOwn w text =
    Yields-map (IsValid w.parse_duration) KeepsOwn (unmarshal w text)
      (λ c h sig own.
        Every-map (IsAccepted w.parse_duration (shutdown_signals c.init_stop_signal) _)
          (λ p. rewrite_signal p.signal_rewrite sig ≡ none) c.processes
          (λ p a.
            rewrites_none p.signal_rewrite sig
              (a.signal_rewrite (signal_name sig) (own_is_reserved c sig own)))
          h.accepted)
      (unmarshal-IsValid w text)
