-- ===== src/Daemon/DryRun.antt =====
-- reload of daemon.go: why buildServices cannot fail once the dry run of service.New has passed, and
-- what can still fail for a configuration that Unmarshal accepts.
use gopherd.Config.{Answers, Config}
use gopherd.Config.Accepted.{IsAccepted}
use gopherd.Config.Kept.{Every}
use gopherd.Config.Load.{unmarshal}
use gopherd.Config.ParseProcess.{is_unread, is_none}
use gopherd.Config.Valid.{IsValid, unmarshal-IsValid}
use gopherd.Config.Validate.{shutdown_signals, scheduled_set, is_scheduled}
use gopherd.Cron.{Schedule, Parsed, done, failed, parse as parse_cron}
use gopherd.Daemon.Build.{Target, effective, Built, made_or, build_from, build_services, dry_run}
use gopherd.ExitAction.{ExitAction, restart, shutdown, parse_exit_action}
use gopherd.Metrics.{Metrics}
use gopherd.Prelude.Int.{ℤ, pos, negsuc}
use gopherd.Prelude.Maps.{Map, insert}
use gopherd.Prelude.Outcome.{Outcome, accept, reject, ◌>>=◌, Yields, Yields-map}
use gopherd.Prelude.{
  ℕ, Text, codes, ◌==◌, Bool, true, false, Option, none, some, List, [], ◌∷◌, ◌≡◌, ◌⊎◌, refl, arith,
  inl, inr,
}
use gopherd.Service.New.{
  NewService, NewError, bad_schedule, bad_stop_signal, bad_kill_delay, negative_kill_delay,
  bad_backoff_delay, bad_backoff_limit, bad_on_success, bad_on_failure, bad_check_action, New, made,
  refused, demand, duration_or, default_kill_delay, accept_delay, with_schedule, action_or,
  check_actions, new,
}
use gopherd.Service.Sound.{IsReason, Makes, new-IsSound}
use gopherd.Service.Process.{Process, proc_name}
use gopherd.Service.Signals.{parse_signal}

-- Both make a service, or both refuse for the same reason.
abbrev Same : New → New → Type 0
Same (made s) (made t) = Unit {0}
Same (refused e) (refused f) = e ≡ f
Same (made s) (refused f) = ⊥
Same (refused e) (made t) = ⊥

demand-Same :
    {A : Type 0} (o : Option A) (e : NewError) (f g : A → New)
    → ((a : A) → Same (f a) (g a))
    → Same (demand o e f) (demand o e g)
demand-Same none e f g h = refl
demand-Same (some a) e f g h = h a

with_schedule-Same :
    (scheduled : Bool) (s : Parsed Schedule) (f g : Option Schedule → New)
    → ((o : Option Schedule) → Same (f o) (g o))
    → Same (with_schedule scheduled s f) (with_schedule scheduled s g)
with_schedule-Same false s f g h = h none
with_schedule-Same true (done s) f g h = h (some s)
with_schedule-Same true (failed e) f g h = refl

accept_delay-Same :
    (d : ℤ) (f g : ℤ → New)
    → ((a : ℤ) → Same (f a) (g a))
    → Same (accept_delay d f) (accept_delay d g)
accept_delay-Same (pos n) f g h = h (pos n)
accept_delay-Same (negsuc n) f g h = refl

action_or-Same :
    (e : NewError) (a : ExitAction) (b : Bool) (f g : ExitAction → New)
    → ((a : ExitAction) → Same (f a) (g a))
    → Same (action_or e (a, b) f) (action_or e (a, b) g)
action_or-Same e a false f g h = h a
action_or-Same e a true f g h = refl

check_actions-Same :
    (m : Map Text) (acc : Map ExitAction) (f g : Map ExitAction → New)
    → ((a : Map ExitAction) → Same (f a) (g a))
    → Same (check_actions m acc f) (check_actions m acc g)
check_actions-Same [] acc f g h = h acc
check_actions-Same ((check, action) ∷ m) acc f g h =
    let r = parse_exit_action action restart in
    action_or-Same (bad_check_action check) r.0 r.1 (λ a. check_actions m (insert check a acc) f)
      (λ a. check_actions m (insert check a acc) g)
      λ a. check_actions-Same m (insert check a acc) f g h

-- The arguments and the prefix of a process do not decide whether New takes it.
new-Same :
    (dur : Text → Option ℤ) (entrypoint : List Text) (prefix : Text) (p : Process)
    → Same (new dur p prefix) (new dur (effective entrypoint prefix p) prefix)
unfolding new proc_name
new-Same dur entrypoint prefix p =
    with_schedule-Same (p.startup == codes "scheduled") (parse_cron p.schedule) _ _ λ schedule.
      demand-Same (parse_signal p.stop_signal) bad_stop_signal _ _ λ stop_signal.
        demand-Same (duration_or dur default_kill_delay p.kill_delay) bad_kill_delay _ _ λ delay.
          accept_delay-Same delay _ _ λ kill_delay.
            demand-Same (duration_or dur (pos 0) p.backoff_delay) bad_backoff_delay _ _ λ bd.
              demand-Same (duration_or dur (pos 0) p.backoff_limit) bad_backoff_limit _ _ λ bl.
                check_actions-Same p.on_check_failure [] _ _ λ actions.
                  action_or-Same bad_on_success (parse_exit_action p.on_success shutdown).0
                    (parse_exit_action p.on_success shutdown).1 _ _
                    λ success.
                      action_or-Same bad_on_failure (parse_exit_action p.on_failure shutdown).0
                        (parse_exit_action p.on_failure shutdown).1 _ _ λ failure. tt

-- Both go through, or both stop for the same reason.
abbrev pub IsAlike : {A B : Type 0} → Outcome NewError A → Outcome NewError B → Type 0
IsAlike (accept a) (accept b) = Unit {0}
IsAlike (reject e) (reject f) = e ≡ f
IsAlike (accept a) (reject f) = ⊥
IsAlike (reject e) (accept b) = ⊥

both_made :
    {A B : Type 0} (r q : New) (f : NewService → Outcome NewError A)
    (g : NewService → Outcome NewError B)
    → Same r q
    → ((s t : NewService) → IsAlike (f s) (g t))
    → IsAlike (made_or r >>= f) (made_or q >>= g)
both_made (made s) (made t) f g same h = h s t
both_made (refused e) (refused e') f g same h = same
both_made (made s) (refused e) f g same h = absurd same
both_made (refused e) (made t) f g same h = absurd same

one_more :
    {B : Type 0} (s : NewService) (m : Outcome NewError (List NewService)) (n : Outcome NewError B)
    → IsAlike m n
    → IsAlike (m >>= λ rest. accept (s ∷ rest)) n
one_more s (accept rest) (accept b) h = tt
one_more s (reject e) (reject f) h = h
one_more s (accept rest) (reject f) h = absurd h
one_more s (reject e) (accept b) h = absurd h

dry_run-build_from :
    (dur : Text → Option ℤ) (entrypoint : List Text) (prefix : Text) (ts : List Target)
    (ps : List Process) (b : Built)
    → IsAlike (dry_run dur prefix ps) (build_from dur entrypoint prefix ts ps b)
unfolding dry_run build_from
dry_run-build_from dur entrypoint prefix ts [] b = tt
dry_run-build_from dur entrypoint prefix ts (p ∷ ps) b =
    both_made (new dur p prefix) (new dur (effective entrypoint prefix p) prefix) _ _
      (new-Same dur entrypoint prefix p)
      λ s t. one_more s (dry_run dur prefix ps) _ (dry_run-build_from dur entrypoint prefix ts ps _)

-- Once the dry run of New over the processes of a configuration has passed, buildServices does not
-- fail, whatever the arguments of the entry point, the log targets and the metrics are; and if the dry
-- run fails, buildServices would fail with the same error.
pub dry_run-build_services :
    (parse_duration : Text → Option ℤ) (entrypoint_args : List Text) (ts : List Target) (c : Config)
    (m : Metrics)
    → IsAlike
        (dry_run parse_duration c.prefix c.processes)
        (build_services parse_duration entrypoint_args ts c m)
unfolding build_services
dry_run-build_services dur entrypoint ts c m =
    dry_run-build_from dur entrypoint c.prefix ts c.processes _

-- A duration of the process that does not parse, or a kill delay below 0.
abbrev pub HasBadDuration : (parse_duration : Text → Option ℤ) → NewError → Process → Type 0
HasBadDuration dur bad_kill_delay p = IsReason dur p bad_kill_delay
HasBadDuration dur negative_kill_delay p = IsReason dur p negative_kill_delay
HasBadDuration dur bad_backoff_delay p = IsReason dur p bad_backoff_delay
HasBadDuration dur bad_backoff_limit p = IsReason dur p bad_backoff_limit
HasBadDuration dur _ p = ⊥

abbrev pub SomeProcess : (Process → Type 0) → List Process → Type 0
SomeProcess P [] = ⊥
SomeProcess P (p ∷ ps) = P p ⊎ SomeProcess P ps

-- What a dry run may refuse.
abbrev pub BlamesDuration :
    (parse_duration : Text → Option ℤ) → List Process → Outcome NewError (List NewService) → Type 0
BlamesDuration dur ps (accept ss) = Unit {0}
BlamesDuration dur ps (reject e) = SomeProcess (HasBadDuration dur e) ps

not_missing : (o : Option ℕ) → is_none o ≡ false → o ≡ none → ⊥
not_missing none h e = absurd (ground (arith, h))
not_missing (some n) h e = absurd (cc)

unread_only : (s : Text) → is_unread parse_signal s ≡ false → parse_signal s ≡ none → ⊥
unfolding parse_signal
unread_only [] h e = absurd (cc)
unread_only (c ∷ s) h e = not_missing (parse_signal (c ∷ s)) h e

scheduled_is : (p : Process) → (p.startup == codes "scheduled") ≡ true → is_scheduled p ≡ true
scheduled_is p h = ground (arith, h)

accepted_refusal :
    (dur : Text → Option ℤ) (sigs : List ℕ) (scheduled : List Text) (p : Process) (e : NewError)
    → IsAccepted dur sigs scheduled p
    → IsReason dur p e
    → HasBadDuration dur e p
accepted_refusal dur sigs scheduled p (bad_schedule e) h (on, e') =
    let (s, parsed) = (h.schedule (scheduled_is p on)).parsed in absurd (cc)
accepted_refusal dur sigs scheduled p bad_stop_signal h r =
    unread_only p.stop_signal h.stop_signal r
accepted_refusal dur sigs scheduled p bad_kill_delay h r = r
accepted_refusal dur sigs scheduled p negative_kill_delay h r = r
accepted_refusal dur sigs scheduled p bad_backoff_delay h r = r
accepted_refusal dur sigs scheduled p bad_backoff_limit h r = r
accepted_refusal dur sigs scheduled p bad_on_success h r = absurd (ground (arith, h.on_success, r))
accepted_refusal dur sigs scheduled p bad_on_failure h r = absurd (ground (arith, h.on_failure, r))
accepted_refusal dur sigs scheduled p (bad_check_action check) h (action, entry, r) =
    absurd (ground (arith, h.on_check_failure check action entry, r))

dry_run-BlamesDuration :
    (dur : Text → Option ℤ) (sigs : List ℕ) (scheduled : List Text) (prefix : Text)
    (ps : List Process)
    → Every (IsAccepted dur sigs scheduled) ps
    → BlamesDuration dur ps (dry_run dur prefix ps)
unfolding dry_run
dry_run-BlamesDuration dur sigs scheduled prefix [] h = tt
dry_run-BlamesDuration dur sigs scheduled prefix (p ∷ ps) (h, hs) =
    first (new dur p prefix) (new-IsSound dur p prefix) (dry_run dur prefix ps)
      (dry_run-BlamesDuration dur sigs scheduled prefix ps hs)
  where
    first :
        (r : New)
        → Makes dur p r
        → (m : Outcome NewError (List NewService)) → BlamesDuration dur ps m
        → BlamesDuration dur (p ∷ ps) (made_or r >>= λ s. m >>= λ rest. accept (s ∷ rest))
    first (made s) sound (accept rest) later = tt
    first (made s) sound (reject e) later = inr later
    first (refused e) reason m later = inl (accepted_refusal dur sigs scheduled p e h reason)

abbrev pub BuildsUpTo : (parse_duration : Text → Option ℤ) → Config → Type 0
BuildsUpTo dur c = BlamesDuration dur c.processes (dry_run dur c.prefix c.processes)

-- For a configuration that Unmarshal accepts, New takes every process; or it refuses one whose
-- kill-delay, backoff-delay or backoff-limit does not parse or whose kill-delay is negative, and for no
-- other reason: what Unmarshal has checked, New does not refuse.
pub dry_run-unmarshal :
    (w : Answers) (text : Text) → Yields (BuildsUpTo w.parse_duration) (unmarshal w text)
dry_run-unmarshal w text =
    Yields-map (IsValid w.parse_duration) (BuildsUpTo w.parse_duration) (unmarshal w text)
      (λ c h.
        dry_run-BlamesDuration w.parse_duration (shutdown_signals c.init_stop_signal)
          (scheduled_set c.processes) c.prefix c.processes h.accepted)
      (unmarshal-IsValid w text)
