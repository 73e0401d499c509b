-- ===== src/Service/Sound.antt =====
-- service/service.go: what New makes of a configuration, and why it refuses one.
use gopherd.Prelude.Int.{ℤ, pos, negsuc}
use gopherd.Prelude.Maps.{Map, insert, lookup, lookup-insert}
use gopherd.Prelude.{
  ==→eq, eq→==, ◌↔◌, some_inj, subst, sym, Bool-cases, Option-cases, ◌⊎◌, ap, ◌∙◌, ℕ, Text, codes,
  ◌==◌, Bool, true, false, not, Option, none, some, [], ◌∷◌, ◌≡◌, refl, arith, inl, inr,
}
use gopherd.ExitAction.{
  ExitAction, restart, shutdown, success_shutdown, failure_shutdown, ignore, name_of, action_of,
  parse_exit_action, validate_exit_action, parse_exit_action-validate,
}
use gopherd.Cron.{Schedule, Parsed, done, failed, CronError, parse as parse_cron}
use gopherd.Service.Process.{Process, proc_name}
use gopherd.Service.Signals.{parse_signal}
use gopherd.Service.New.{
  NewService, NewError, bad_schedule, bad_stop_signal, bad_kill_delay, negative_kill_delay,
  bad_backoff_delay, bad_backoff_limit, bad_on_success, bad_on_failure, bad_check_action, New, made,
  refused, demand, default_kill_delay, duration_or, accept_delay, with_schedule, action_or,
  check_actions, resolved, new,
}

-- What an exit action of the configuration means: the action of that name, or the default for an empty
-- text.
abbrev pub IsMeant : Text → (default a : ExitAction) → Type 0
IsMeant s default a = (s ≡ name_of a) ⊎ ((s ≡ []) × (a ≡ default))

-- What a duration of the configuration means: what the text parses to, or the default for an empty one.
abbrev pub IsDuration : (parse_duration : Text → Option ℤ) → Text → (default d : ℤ) → Type 0
IsDuration dur s default d = ((s ≡ []) × (d ≡ default)) ⊎ (¬ (s ≡ []) × (dur s ≡ some d))

-- The schedule that the text of a scheduled process means; other processes have none.
abbrev pub IsTimed : Text → Bool → Option Schedule → Type 0
IsTimed s false o = o ≡ none
IsTimed s true o = (t : Schedule) × (o ≡ some t) × (parse_cron s ≡ done t)

-- The entry is one of the map.
abbrev pub IsEntry : (check action : Text) → Map Text → Type 0
IsEntry check action [] = ⊥
IsEntry check action ((c, a) ∷ m) = ((c ≡ check) × (a ≡ action)) ⊎ IsEntry check action m

-- An action that a check has in the table is one that the configuration gives it.
abbrev pub IsGiven : Map Text → Map ExitAction → Type 0
IsGiven actions acc =
    (check : Text) (a : ExitAction)
    → lookup check acc ≡ some a
    → (s : Text) × IsEntry check s actions × IsMeant s restart a

-- Every check of the configuration has an action, but for those that are still to be read.
abbrev pub IsCovered : (actions left : Map Text) → Map ExitAction → Type 0
IsCovered actions left acc =
    (check s : Text)
    → IsEntry check s actions
    → IsEntry check s left ⊎ ((a : ExitAction) × (lookup check acc ≡ some a))

-- What is asked of a service with that configuration.
pub record IsSound (dur : Text → Option ℤ) (p : Process) (s : NewService) : Type 0 where
  pub process : s.proc ≡ p
  pub named : s.name ≡ proc_name p
  pub disabled : (s.enabled ≡ false) ↔ (p.startup ≡ codes "disabled")
  pub once : (s.oneshot ≡ true) ↔ (p.startup ≡ codes "oneshot")
  pub timed : (s.scheduled ≡ true) ↔ (p.startup ≡ codes "scheduled")
  pub schedule : IsTimed p.schedule s.scheduled s.schedule
  pub signal : parse_signal p.stop_signal ≡ some s.stop_signal
  pub delay : IsDuration dur p.kill_delay default_kill_delay s.kill_delay
  pub positive : (n : ℕ) × (s.kill_delay ≡ pos n)
  pub backoff_delay : IsDuration dur p.backoff_delay (pos 0) s.backoff_delay
  pub backoff_limit : IsDuration dur p.backoff_limit (pos 0) s.backoff_limit
  pub success : IsMeant p.on_success shutdown s.on_success
  pub failure : IsMeant p.on_failure shutdown s.on_failure
  pub requires : s.requires ≡ p.requires
  pub given : IsGiven p.on_check_failure s.on_check_failure
  pub covered : IsCovered p.on_check_failure [] s.on_check_failure
  pub captured : (s.log_capture ≡ true) ↔ (p.log_capture ≡ some true)

-- What each error says of the configuration.
abbrev pub IsReason : (parse_duration : Text → Option ℤ) → Process → NewError → Type 0
IsReason dur p (bad_schedule e) =
    ((p.startup == codes "scheduled") ≡ true) × (parse_cron p.schedule ≡ failed e)
IsReason dur p bad_stop_signal = parse_signal p.stop_signal ≡ none
IsReason dur p bad_kill_delay = duration_or dur default_kill_delay p.kill_delay ≡ none
IsReason dur p negative_kill_delay =
    (n : ℕ) × (duration_or dur default_kill_delay p.kill_delay ≡ some (negsuc n))
IsReason dur p bad_backoff_delay = duration_or dur (pos 0) p.backoff_delay ≡ none
IsReason dur p bad_backoff_limit = duration_or dur (pos 0) p.backoff_limit ≡ none
IsReason dur p bad_on_success = validate_exit_action p.on_success ≡ false
IsReason dur p bad_on_failure = validate_exit_action p.on_failure ≡ false
IsReason dur p (bad_check_action check) =
    (action : Text) × IsEntry check action p.on_check_failure
    × (validate_exit_action action ≡ false)

abbrev pub Makes : (parse_duration : Text → Option ℤ) → Process → New → Type 0
Makes dur p (made s) = IsSound dur p s
Makes dur p (refused e) = IsReason dur p e

-- The schedule that came out of the parser, for a scheduled process.
abbrev Read : Parsed Schedule → Bool → Option Schedule → Type 0
Read s false o = o ≡ none
Read s true o = (t : Schedule) × (o ≡ some t) × (s ≡ done t)

Read-IsTimed : (s : Text) (b : Bool) (o : Option Schedule) → Read (parse_cron s) b o → IsTimed s b o
Read-IsTimed s false o h = h
Read-IsTimed s true o h = h

module _ (dur : Text → Option ℤ) (p : Process) where
  demand-Makes :
      {A : Type 0} (o : Option A) (e : NewError) (more : A → New)
      → (o ≡ none → IsReason dur p e)
      → ((a : A) → o ≡ some a → Makes dur p (more a))
      → Makes dur p (demand o e more)
  demand-Makes none e more r h = r refl
  demand-Makes (some a) e more r h = h a refl

  with_schedule-Makes :
      (scheduled : Bool) (s : Parsed Schedule) (more : Option Schedule → New)
      → ((e : CronError) → scheduled ≡ true → s ≡ failed e → IsReason dur p (bad_schedule e))
      → ((o : Option Schedule) → Read s scheduled o → Makes dur p (more o))
      → Makes dur p (with_schedule scheduled s more)
  with_schedule-Makes false s more r h = h none refl
  with_schedule-Makes true (done s) more r h = h (some s) (s, refl, refl)
  with_schedule-Makes true (failed e) more r h = r e refl refl

  accept_delay-Makes :
      (d : ℤ) (more : ℤ → New)
      → ((n : ℕ) → d ≡ negsuc n → IsReason dur p negative_kill_delay)
      → ((n : ℕ) → d ≡ pos n → Makes dur p (more (pos n)))
      → Makes dur p (accept_delay d more)
  accept_delay-Makes (pos n) more r h = h n refl
  accept_delay-Makes (negsuc n) more r h = r n refl

  action_or-Makes :
      (e : NewError) (a : ExitAction) (b : Bool) (more : ExitAction → New)
      → (b ≡ true → IsReason dur p e)
      → (b ≡ false → Makes dur p (more a))
      → Makes dur p (action_or e (a, b) more)
  action_or-Makes e a false more r h = h refl
  action_or-Makes e a true more r h = r refl

rejected :
    (s : Text) (default : ExitAction)
    → (parse_exit_action s default).1 ≡ true
    → validate_exit_action s ≡ false
rejected s default h = elim (parse_exit_action-validate s default) [
  | inl good ↦ absurd (ground (arith, good.1, h))
  | inr bad ↦ bad.0
]

action_of-name_of : (s : Text) (a : ExitAction) → action_of s ≡ some a → s ≡ name_of a
unfolding action_of
action_of-name_of s a h = elim (Bool-cases (s == name_of a)) [
  | inl same ↦ ==→eq s (name_of a) same
  | inr other ↦ absurd (differs a h other)
]
  where
    differs : (a : ExitAction) → action_of s ≡ some a → (s == name_of a) ≡ false → ⊥
    differs restart h k = ground (arith, h, k)
    differs shutdown h k = ground (arith, h, k)
    differs success_shutdown h k = ground (arith, h, k)
    differs failure_shutdown h k = ground (arith, h, k)
    differs ignore h k = ground (arith, h, k)

meant :
    (s : Text) (default : ExitAction)
    → (parse_exit_action s default).1 ≡ false
    → IsMeant s default (parse_exit_action s default).0
unfolding parse_exit_action
meant s default h = elim (Option-cases (action_of s)) [
  | inl e ↦ inr (==→eq s [] (ground (arith, h, e)), ground (arith, h, e))
  | inr (a, e) ↦ inl (action_of-name_of s a e ∙ ap name_of (ground (arith, e)))
]

duration_or-IsDuration :
    (dur : Text → Option ℤ) (default : ℤ) (s : Text) (d : ℤ)
    → duration_or dur default s ≡ some d
    → IsDuration dur s default d
duration_or-IsDuration dur default [] d h = inl (refl, sym (some_inj h))
duration_or-IsDuration dur default (c ∷ s) d h = inr (λ e. absurd (cc), h)

check_actions-Makes :
    (dur : Text → Option ℤ) (p : Process) (acc : Map ExitAction) (actions : Map Text)
    (more : Map ExitAction → New)
    → ((check action : Text)
        → IsEntry check action actions
        → IsEntry check action p.on_check_failure)
    → IsGiven p.on_check_failure acc
    → IsCovered p.on_check_failure actions acc
    → ((acc : Map ExitAction)
        → IsGiven p.on_check_failure acc
        → IsCovered p.on_check_failure [] acc
        → Makes dur p (more acc))
    → Makes dur p (check_actions actions acc more)
check_actions-Makes dur p acc [] more sub g c h = h acc g c
check_actions-Makes dur p acc ((check, action) ∷ actions) more sub g c h =
    action_or-Makes dur p (bad_check_action check) r.0 r.1
      (λ a. check_actions actions (insert check a acc) more)
      (λ bad. (action, sub check action (inl (refl, refl)), rejected action restart bad))
      (λ e.
        check_actions-Makes dur p (insert check r.0 acc) actions more (λ c a m. sub c a (inr m))
          (given e) covered h)
  where
    r : ExitAction × Bool
    r = parse_exit_action action restart

    given : r.1 ≡ false → IsGiven p.on_check_failure (insert check r.0 acc)
    given e other a found = elim (Bool-cases (check == other)) [
      | inl same ↦
          let value : r.0 ≡ a =
            some_inj (ground (arith, same, found, lookup-insert check other r.0 acc)) in
          (
            action,
            sub other action (inl (==→eq check other same, refl)),
            subst (λ b. IsMeant action restart b) value (meant action restart e),
          )
      | inr differ ↦ g other a (ground (arith, differ, found, lookup-insert check other r.0 acc))
    ]

    covered : IsCovered p.on_check_failure actions (insert check r.0 acc)
    covered other s m = elim (Bool-cases (check == other)) [
      | inl same ↦ inr (r.0, lookup-insert check other r.0 acc ∙ rw (same) refl)
      | inr differ ↦ kept (c other s m) differ
    ]
      where
        kept :
            IsEntry other s ((check, action) ∷ actions)
              ⊎ ((a : ExitAction) × (lookup other acc ≡ some a))
            → (check == other) ≡ false
            → IsEntry other s actions
              ⊎ ((a : ExitAction) × (lookup other (insert check r.0 acc) ≡ some a))
        kept (inl (inl (same, e))) differ = absurd (ground (arith, eq→== check other same, differ))
        kept (inl (inr later)) differ = inl later
        kept (inr (a, e)) differ = inr (a, lookup-insert check other r.0 acc ∙ rw (differ) e)

startup_is : (s t : Text) → ((s == t) ≡ true) ↔ (s ≡ t)
startup_is s t = (==→eq s t, eq→== s t)

startup_is_not : (s t : Text) → (not (s == t) ≡ false) ↔ (s ≡ t)
startup_is_not s t = (λ h. ==→eq s t (ground (arith, h)), λ e. ground (arith, eq→== s t e))

resolved-true : (o : Option Bool) → (resolved o ≡ true) ↔ (o ≡ some true)
resolved-true none = (λ h. absurd (cc), λ h. absurd (cc))
resolved-true (some b) = (λ h. ap some h, λ h. some_inj h)

-- Whatever the configuration of a process is, New returns a service that says what the configuration
-- says: its name, whether it is disabled, runs once or is scheduled, its schedule, stop signal, requires
-- and log capture, the kill and backoff delays, with their defaults, the former not negative, the exit
-- actions, the default of which is to shut down, and an action for exactly the checks that have one,
-- by default to restart. Or it returns an error, and then the part of the configuration that the error
-- names is indeed invalid.
pub new-IsSound :
    (parse_duration : Text → Option ℤ) (p : Process) (global_prefix : Text)
    → Makes parse_duration p (new parse_duration p global_prefix)
unfolding new
new-IsSound dur p global_prefix =
    let success = parse_exit_action p.on_success shutdown in
    let failure = parse_exit_action p.on_failure shutdown in
    with_schedule-Makes dur p (p.startup == codes "scheduled") (parse_cron p.schedule) _
      (λ e s f. (s, f))
      λ schedule has.
        demand-Makes dur p (parse_signal p.stop_signal) bad_stop_signal _ (λ e. e)
          λ sig named.
            demand-Makes dur p (duration_or dur default_kill_delay p.kill_delay) bad_kill_delay _
              (λ e. e)
              λ delay e.
                accept_delay-Makes dur p delay _ (λ n q. (n, e ∙ ap some q))
                  λ kill_delay k.
                    demand-Makes dur p (duration_or dur (pos 0) p.backoff_delay) bad_backoff_delay _
                      (λ e. e)
                      λ bd e'.
                        demand-Makes dur p (duration_or dur (pos 0) p.backoff_limit)
                          bad_backoff_limit _ (λ e. e)
                          λ bl e''.
                            check_actions-Makes dur p [] p.on_check_failure _ (λ c a m. m)
                              (λ c a h. absurd (ground (arith, h))) (λ c s m. inl m)
                              λ actions given covered.
                                action_or-Makes dur p bad_on_success success.0 success.1 _
                                  (rejected p.on_success shutdown)
                                  λ s.
                                    action_or-Makes dur p bad_on_failure failure.0 failure.1 _
                                      (rejected p.on_failure shutdown)
                                      λ f. record {
                                        process = refl;
                                        named = refl;
                                        disabled = startup_is_not p.startup (codes "disabled");
                                        once = startup_is p.startup (codes "oneshot");
                                        timed = startup_is p.startup (codes "scheduled");
                                        schedule = Read-IsTimed p.schedule _ schedule has;
                                        signal = named;
                                        delay =
                                            duration_or-IsDuration dur default_kill_delay
                                              p.kill_delay (pos kill_delay) (e ∙ ap some k);
                                        positive = (kill_delay, refl);
                                        backoff_delay =
                                            duration_or-IsDuration dur (pos 0) p.backoff_delay bd
                                              e';
                                        backoff_limit =
                                            duration_or-IsDuration dur (pos 0) p.backoff_limit bl
                                              e'';
                                        success = meant p.on_success shutdown s;
                                        failure = meant p.on_failure shutdown f;
                                        requires = refl;
                                        given = given;
                                        covered = covered;
                                        captured = resolved-true p.log_capture;
                                      }
