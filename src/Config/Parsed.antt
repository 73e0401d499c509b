-- ===== src/Config/Parsed.antt =====
-- parseProcess of internal/yml/config.go: what is known of a process that is read.
use gopherd.Config.{Answers, ConfigError, process_error, bad_startup}
use gopherd.Config.ParseProcess.{
  is_startup, startup_of, fields_of, accept_startup, expanded_or, settled, label_of, is_relative,
  is_same_path, is_not_mapping, check_env_keys, exit_codes, canonical, is_unread,
  is_positive_finite, backoff_of, complete, filled_in, parse_process,
}
use gopherd.Prelude.Int.{ℤ}
use gopherd.Prelude.Maps.{Map, insert}
use gopherd.Prelude.Outcome.{
  Outcome, accept, ◌>>=◌, need, Yields, Yields-bind, Yields-from, Yields-unless,
}
use gopherd.Prelude.Strings.{trim_space}
use gopherd.Prelude.{
  not-false, ℕ, Text, codes, ◌==◌, true, false, not, Option, none, some, [], ◌∷◌, ◌≡◌, refl, ◌⊎◌,
  inl, inr, Bool-cases,
}
use gopherd.Service.Process.{Process, proc_name}
use gopherd.Service.Signals.{parse_signal, signal_name, parse_umask, parsed_name}
use gopherd.Service.Templates.{expand_refs}
use gopherd.Yml.Node.{Node, get, string, string_map}

-- The name of a signal as SignalName writes it.
abbrev pub IsCanonical : Text → Type 0
IsCanonical name = (sig : ℕ) × (name ≡ signal_name sig) × (parse_signal name ≡ some sig)

-- A map from such names to such names.
abbrev pub AreCanonical : Map Text → Type 0
AreCanonical [] = Unit {0}
AreCanonical ((k, v) ∷ m) = IsCanonical k × IsCanonical v × AreCanonical m

pub record IsParsed (parse_duration : Text → Option ℤ) (p : Process) : Type 0 where
  pub startup : is_startup p.startup ≡ true
  pub exists : is_relative p.condition_file_exists ≡ false
  pub missing : is_relative p.condition_file_missing ≡ false
  pub different : is_same_path p.condition_file_exists p.condition_file_missing ≡ false
  pub umask : is_unread parse_umask p.umask ≡ false
  pub parent_death_signal : is_unread parse_signal p.parent_death_signal ≡ false
  pub sd_notify_timeout : is_unread parse_duration p.sd_notify_timeout ≡ false
  pub backoff_factor : (p.backoff_factor ≡ 0) ⊎ (is_positive_finite p.backoff_factor ≡ true)
  pub signal_rewrite : AreCanonical p.signal_rewrite

signal_name-IsCanonical :
    (text : Text) (sig : ℕ) → parse_signal text ≡ some sig → IsCanonical (signal_name sig)
signal_name-IsCanonical text sig h = (sig, refl, parsed_name text sig h)

insert-AreCanonical :
    (k v : Text) (m : Map Text)
    → IsCanonical k
    → IsCanonical v
    → AreCanonical m
    → AreCanonical (insert k v m)
unfolding insert
insert-AreCanonical k v [] hk hv h = (hk, hv, tt)
insert-AreCanonical k v ((j, w) ∷ m) hk hv (hj, hw, h) = elim (Bool-cases (j == k)) [
  | inl same ↦ rw (same) (hj, hv, h)
  | inr differ ↦ rw (differ) (hj, hw, insert-AreCanonical k v m hk hv h)
]

Yields-need :
    {A B : Type 0} (Q : B → Type 0) (o : Option A) (e : ConfigError) (f : A → Outcome ConfigError B)
    → ((a : A) → o ≡ some a → Yields Q (f a))
    → Yields Q (need o e >>= f)
Yields-need Q none e f k = tt
Yields-need Q (some a) e f k = k a refl

canonical-AreCanonical :
    (label : Text) (m acc : Map Text)
    → AreCanonical acc
    → Yields AreCanonical (canonical label m acc)
unfolding canonical
canonical-AreCanonical label [] acc h = h
canonical-AreCanonical label ((k, v) ∷ m) acc h =
    Yields-need AreCanonical (parse_signal k) _ _ λ source from.
      Yields-need AreCanonical (parse_signal v) _ _ λ target to.
        canonical-AreCanonical label m (insert (signal_name source) (signal_name target) acc) (
          insert-AreCanonical _ _ acc (signal_name-IsCanonical k source from)
            (signal_name-IsCanonical v target to) h)

-- The factor of the delays: none, or a finite number above 0.
abbrev pub IsFactor : ℕ → Type 0
IsFactor bits = (bits ≡ 0) ⊎ (is_positive_finite bits ≡ true)

backoff_of-IsFactor :
    (parse_float : Text → Option ℕ) (label raw : Text)
    → Yields IsFactor (backoff_of parse_float label raw)
unfolding backoff_of
backoff_of-IsFactor parse_float label [] = inl refl
backoff_of-IsFactor parse_float label (c ∷ s) =
    Yields-need IsFactor (parse_float (c ∷ s)) _ _ λ bits e.
      Yields-unless IsFactor (not (is_positive_finite bits)) _ (accept bits)
        λ good. inr (not-false _ good)

abbrev HasStartup : Text → Type 0
HasStartup s = is_startup s ≡ true

accept_startup-HasStartup : (label s : Text) → Yields HasStartup (accept_startup label s)
accept_startup-HasStartup label s =
    Yields-unless HasStartup (not (is_startup s)) (process_error label bad_startup) (accept s)
      (not-false _)

startup_of-HasStartup :
    (w : Answers) (env : Map Text) (n : Option Node) → Yields HasStartup (startup_of w.read env n)
unfolding startup_of
startup_of-HasStartup w env n =
    Yields-from HasStartup
      (expanded_or (label_of n) (expand_refs w.read env (string (get (codes "startup") n)))) _
      λ s e.
        accept_startup-HasStartup (label_of n)
          (settled (string (get (codes "startup") n)) (trim_space s))

complete-IsParsed :
    (w : Answers) (n : Option Node) (p : Process)
    → is_startup p.startup ≡ true
    → Yields (IsParsed w.parse_duration) (complete w n p)
unfolding complete
complete-IsParsed w n p startup =
    let Q : Process → Type 0 = IsParsed w.parse_duration in
    Yields-unless Q (is_relative p.condition_file_exists) _ _ λ exists.
      Yields-unless Q (is_relative p.condition_file_missing) _ _ λ missing.
        Yields-unless Q (is_same_path p.condition_file_exists p.condition_file_missing) _ _
          λ different.
            Yields-unless Q (is_not_mapping (get (codes "condition-env-equals") n)) _ _ λ table.
              Yields-from Q
                (check_env_keys (proc_name p) (string_map (get (codes "condition-env-equals") n))) _
                λ keys e.
                  Yields-unless Q (is_not_mapping (get (codes "exit-code-map") n)) _ _ λ table'.
                    Yields-from Q
                      (exit_codes (proc_name p) (string_map (get (codes "exit-code-map") n)) []) _
                      λ exits e'.
                        Yields-bind AreCanonical Q (canonical (proc_name p) p.signal_rewrite []) _
                          (canonical-AreCanonical (proc_name p) p.signal_rewrite [] tt)
                          λ rewrites named.
                            Yields-unless Q (is_unread parse_umask p.umask) _ _ λ umask.
                              Yields-unless Q (is_unread parse_signal p.parent_death_signal) _ _
                                λ death.
                                  Yields-unless Q (is_unread w.parse_duration p.sd_notify_timeout) _
                                    _
                                    λ timeout.
                                      Yields-bind IsFactor Q
                                        (backoff_of w.parse_float (proc_name p)
                                          (string (get (codes "backoff-factor") n)))
                                        (λ factor. accept (filled_in p exits rewrites factor))
                                        (backoff_of-IsFactor w.parse_float _ _)
                                        λ bits factor. record {
                                          startup = startup;
                                          exists = exists;
                                          missing = missing;
                                          different = different;
                                          umask = umask;
                                          parent_death_signal = death;
                                          sd_notify_timeout = timeout;
                                          backoff_factor = factor;
                                          signal_rewrite = named;
                                        }

-- A process that is read has one of the five modes of startup, absolute and different condition paths,
-- a umask, a signal and a timeout that parse where they are given, a factor that is finite and above
-- 0 where it is given, and canonical names in signal-rewrite.
pub parse_process-IsParsed :
    (w : Answers) (env : Map Text) (n : Option Node)
    → Yields (IsParsed w.parse_duration) (parse_process w env n)
unfolding parse_process fields_of
parse_process-IsParsed w env n =
    Yields-bind HasStartup (IsParsed w.parse_duration) (startup_of w.read env n) _
      (startup_of-HasStartup w env n) λ startup h. complete-IsParsed w n (fields_of n startup) h
