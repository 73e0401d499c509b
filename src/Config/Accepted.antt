-- ===== src/Config/Accepted.antt =====
-- The checks of internal/yml/config.go on a process, and what is known of one that passes them.
use gopherd.Config.{ConfigError, process_error, bad_check_action, reserved_signal, after_scheduled}
use gopherd.Config.ParseProcess.{is_unread}
use gopherd.Config.Validate.{
  is_nil, is_scheduled, has_space, check_failure_actions, reserved, validate_signal_rewrite,
  read_schedule, scheduled_contract, not_after, validate_scheduled, validate,
}
use gopherd.Cron.{Schedule, Parsed, done, failed, parse as parse_cron}
use gopherd.ExitAction.{validate_exit_action}
use gopherd.Prelude.Int.{ℤ}
use gopherd.Prelude.Maps.{Map, lookup}
use gopherd.Prelude.Outcome.{Outcome, accept, Yields, Yields-unless}
use gopherd.Prelude.{
  not-false, ℕ, Text, ◌==◌, ==→eq, Bool, true, false, ◌||◌, not, Option, none, List, [], ◌∷◌,
  contains, ◌≡◌, refl, sym, ap, ◌∙◌, arith, Bool-cases, inl, inr,
}
use gopherd.Service.Sound.{IsEntry}
use gopherd.Service.Process.{Process, proc_name}
use gopherd.Service.Signals.{parse_signal}

-- What a scheduled service must have and must not have.
pub record IsContract (parse_duration : Text → Option ℤ) (p : Process) : Type 0 where
  pub given : is_nil p.schedule ≡ false
  pub parsed : (s : Schedule) × (parse_cron p.schedule ≡ done s)
  pub on_success : is_nil p.on_success ≡ true
  pub on_failure : is_nil p.on_failure ≡ true
  pub backoff_delay : is_nil p.backoff_delay ≡ true
  pub backoff_limit : is_nil p.backoff_limit ≡ true
  pub after : is_nil p.after ≡ true
  pub before : is_nil p.before ≡ true
  pub requires : is_nil p.requires ≡ true
  pub timeout : is_unread parse_duration p.startup_timeout ≡ false

-- No edge of the list leads to a scheduled service.
abbrev pub Avoids : (scheduled deps : List Text) → Type 0
Avoids scheduled deps = (d : Text) → contains deps d ≡ true → contains scheduled d ≡ false

-- A process that passed: `shutdown` are the signals that gopherd keeps for itself.
pub record IsAccepted (parse_duration : Text → Option ℤ) (shutdown : List ℕ) (scheduled : List Text)
    (p : Process) : Type 0 where
  pub command : is_nil p.command ≡ false
  pub name : has_space (proc_name p) ≡ false
  pub on_success : validate_exit_action p.on_success ≡ true
  pub on_failure : validate_exit_action p.on_failure ≡ true
  pub stop_signal : is_unread parse_signal p.stop_signal ≡ false
  pub on_check_failure :
      (check action : Text)
      → IsEntry check action p.on_check_failure
      → validate_exit_action action ≡ true
  pub signal_rewrite :
      (key : Text) → contains (reserved shutdown) key ≡ true → lookup key p.signal_rewrite ≡ none
  pub schedule : is_scheduled p ≡ true → IsContract parse_duration p
  pub stray : is_scheduled p ≡ false → is_nil p.schedule ≡ true
  pub after : Avoids scheduled p.after
  pub before : Avoids scheduled p.before
  pub requires : Avoids scheduled p.requires

left_false : (a b : Bool) → (a || b) ≡ false → a ≡ false
left_false a b h = ground arith

right_false : (a b : Bool) → (a || b) ≡ false → b ≡ false
right_false a b h = ground arith

module _ (Q : Process → Type 0) (label : Text) (more : Outcome ConfigError Process) where
  Yields-check_failure_actions :
      (m : Map Text)
      → (((check action : Text) → IsEntry check action m → validate_exit_action action ≡ true)
          → Yields Q more)
      → Yields Q (check_failure_actions label m more)
  unfolding check_failure_actions
  Yields-check_failure_actions [] k = k (λ c a e. absurd e)
  Yields-check_failure_actions ((check, action) ∷ m) k =
      Yields-unless Q (not (validate_exit_action action))
        (process_error label (bad_check_action check)) (check_failure_actions label m more)
        λ good. Yields-check_failure_actions m λ rest. k λ c a entry. elim entry [
          | inl same ↦ sym (ap validate_exit_action same.1) ∙ not-false _ good
          | inr later ↦ rest c a later
        ]

  Yields-validate_signal_rewrite :
      (m : Map Text) (shutdown : List ℕ)
      → (((key : Text) → contains (reserved shutdown) key ≡ true → lookup key m ≡ none)
          → Yields Q more)
      → Yields Q (validate_signal_rewrite label m shutdown more)
  unfolding validate_signal_rewrite lookup
  Yields-validate_signal_rewrite [] shutdown k = k (λ key r. refl)
  Yields-validate_signal_rewrite ((key, target) ∷ m) shutdown k =
      Yields-unless Q (contains (reserved shutdown) key) (process_error label (reserved_signal key))
        (validate_signal_rewrite label m shutdown more)
        λ free. Yields-validate_signal_rewrite m shutdown λ rest. k λ other r.
          elim (Bool-cases (key == other)) [
            | inl same ↦
                absurd (
                  ground (arith, r, free, ap (contains (reserved shutdown)) (==→eq key other same)))
            | inr differ ↦ ground (arith, differ, rest other r)
          ]

  Yields-not_after :
      (scheduled deps : List Text)
      → (Avoids scheduled deps → Yields Q more)
      → Yields Q (not_after label scheduled deps more)
  unfolding contains
  Yields-not_after scheduled [] k = k (λ d h. absurd (ground (arith, h)))
  Yields-not_after scheduled (x ∷ deps) k =
      Yields-unless Q (contains scheduled x) (process_error label (after_scheduled x))
        (not_after label scheduled deps more)
        λ free. Yields-not_after scheduled deps λ rest. k λ d h. elim (Bool-cases (x == d)) [
          | inl same ↦ sym (ap (contains scheduled) (==→eq x d same)) ∙ free
          | inr differ ↦ rest d (ground (arith, h, differ))
        ]

  Yields-read_schedule :
      (s : Parsed Schedule)
      → ((a : Schedule) → s ≡ done a → Yields Q more)
      → Yields Q (read_schedule label s more)
  Yields-read_schedule (done a) k = k a refl
  Yields-read_schedule (failed e) k = tt

module _ (dur : Text → Option ℤ) (p : Process) where
  Yields-scheduled_contract :
      (Q : Process → Type 0) (label : Text) (more : Outcome ConfigError Process)
      → (IsContract dur p → Yields Q more)
      → Yields Q (scheduled_contract dur label p more)
  Yields-scheduled_contract Q label more k = Yields-unless Q (is_nil p.schedule) _ _ λ given.
      Yields-read_schedule Q label _ (parse_cron p.schedule) λ s parsed.
        Yields-unless Q (not (is_nil p.on_success)) _ _ λ success.
          Yields-unless Q (not (is_nil p.on_failure)) _ _ λ failure.
            Yields-unless Q (not (is_nil p.backoff_delay) || not (is_nil p.backoff_limit)) _ _
              λ backoff.
                Yields-unless Q
                  (not (is_nil p.after) || (not (is_nil p.before) || not (is_nil p.requires))) _ _
                  λ order. Yields-unless Q (is_unread dur p.startup_timeout) _ _ λ timeout.
                    k record {
                      given = given;
                      parsed = (s, parsed);
                      on_success = not-false _ success;
                      on_failure = not-false _ failure;
                      backoff_delay = not-false _ (left_false _ _ backoff);
                      backoff_limit = not-false _ (right_false _ _ backoff);
                      after = not-false _ (left_false _ _ order);
                      before = not-false _ (left_false _ _ (right_false _ _ order));
                      requires = not-false _ (right_false _ _ (right_false _ _ order));
                      timeout = timeout;
                    }

  Yields-validate_scheduled :
      (Q : Process → Type 0) (label : Text) (scheduled : List Text)
      (more : Outcome ConfigError Process)
      → ((is_scheduled p ≡ true → IsContract dur p)
          → (is_scheduled p ≡ false → is_nil p.schedule ≡ true)
          → Avoids scheduled p.after
          → Avoids scheduled p.before
          → Avoids scheduled p.requires
          → Yields Q more)
      → Yields Q (validate_scheduled dur label p scheduled more)
  unfolding validate_scheduled
  Yields-validate_scheduled Q label scheduled more k =
      let edges : (is_scheduled p ≡ true → IsContract dur p)
          → (is_scheduled p ≡ false → is_nil p.schedule ≡ true)
          → Yields Q (
              not_after label scheduled p.after
                (not_after label scheduled p.before (not_after label scheduled p.requires more))) =
        λ contract stray. Yields-not_after Q label _ scheduled p.after λ after.
          Yields-not_after Q label _ scheduled p.before λ before.
            Yields-not_after Q label more scheduled p.requires
              λ requires. k contract stray after before requires in
      elim (Bool-cases (is_scheduled p)) [
        | inl on ↦ rw (on) (
            Yields-scheduled_contract Q label _
              λ contract. edges (λ e. contract) (λ off. absurd (ground (arith, on, off))))
        | inr off ↦ rw (off) (
            Yields-unless Q (not (is_nil p.schedule)) _ _
              λ stray. edges (λ on. absurd (ground (arith, on, off))) (λ e. not-false _ stray))
      ]

  -- A process that passes the checks satisfies all of them.
  pub validate-IsAccepted :
      (shutdown : List ℕ) (scheduled : List Text)
      → Yields (λ q. IsAccepted dur shutdown scheduled p) (validate dur shutdown scheduled p)
  unfolding validate
  validate-IsAccepted shutdown scheduled =
      let Q : Process → Type 0 = λ q. IsAccepted dur shutdown scheduled p in
      let label = proc_name p in
      Yields-unless Q (is_nil p.command) _ _ λ command.
        Yields-unless Q (has_space label) _ _ λ name.
          Yields-unless Q (not (validate_exit_action p.on_success)) _ _ λ success.
            Yields-unless Q (not (validate_exit_action p.on_failure)) _ _ λ failure.
              Yields-unless Q (is_unread parse_signal p.stop_signal) _ _ λ signal.
                Yields-check_failure_actions Q label _ p.on_check_failure λ actions.
                  Yields-validate_signal_rewrite Q label _ p.signal_rewrite shutdown λ rewrite.
                    Yields-validate_scheduled Q label scheduled (accept p)
                      λ contract stray after before requires. record {
                        command = command;
                        name = name;
                        on_success = not-false _ success;
                        on_failure = not-false _ failure;
                        stop_signal = signal;
                        on_check_failure = actions;
                        signal_rewrite = rewrite;
                        schedule = contract;
                        stray = stray;
                        after = after;
                        before = before;
                        requires = requires;
                      }
