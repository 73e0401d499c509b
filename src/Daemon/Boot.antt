-- ===== src/Daemon/Boot.antt =====
-- run.go: the oneshots of a layer at boot, from where all of them have ended or timed out.
use gopherd.Prelude.Int.{ℤ, pos, is_zero}
use gopherd.Prelude.{
  ℕ, Text, Bool, true, false, Option, none, some, List, [], ◌∷◌, if◌then◌else◌, ◌≡◌, refl, sym,
  subst, ◌∙◌, arith,
}
use gopherd.ExitAction.{ExitAction, ignore}
use gopherd.Metrics.{service_exited}
use gopherd.Service.{Service, mark_exited, remap_exit_code}
use gopherd.Daemon.{Daemon, write}

-- What comes over the channel of results, with the instance under that name.
pub record OneshotResult : Type 0 where
  pub name : Text
  pub service : ℕ
  -- The wait failed, mostly by the startup timeout.
  pub wait_failed : Bool
  pub code : ℤ

-- fatalErr: what the boot ends with.
pub data Fatal : Type 0 where
  no_result : (name : Text) → Fatal
  bad_code : (name : Text) → (code : ℤ) → Fatal

unfoldable pub first : Option Fatal → Fatal → Option Fatal
first none f = some f
first (some f) g = some f

abbrev is_ignore : ExitAction → Bool
is_ignore ignore = true
is_ignore _ = false

-- A pass of the loop over the results.
unfoldable pub settle_oneshot : ℕ → OneshotResult → Daemon → Option Fatal → Daemon × Option Fatal
unfolding mark_exited remap_exit_code service_exited first
settle_oneshot now r d fatal =
    if r.wait_failed
    then (
      record d { metrics = service_exited r.name (pos 1) d.metrics },
      first fatal (no_result r.name),
    )
    else let s = d.heap r.service in
      let code = remap_exit_code s r.code in
      let e : Daemon = record d {
        heap = write r.service (mark_exited now s).0 d.heap;
        metrics = service_exited r.name code d.metrics;
      } in
      (
        e,
        (if is_zero code
            then fatal
            else if is_ignore s.on_failure
            then fatal
            else first fatal (bad_code r.name code)),
      )

unfoldable pub settle_oneshots :
    ℕ → List OneshotResult → Daemon → Option Fatal → Daemon × Option Fatal
unfolding settle_oneshot
settle_oneshots now [] d fatal = (d, fatal)
settle_oneshots now (r ∷ rs) d fatal =
    let (e, fatal') = settle_oneshot now r d fatal in settle_oneshots now rs e fatal'

-- What is wrong with a result, by the configuration of its service.
abbrev pub failure : Service → OneshotResult → Option Fatal
failure s r =
    if r.wait_failed
    then some (no_result r.name)
    else if is_zero (remap_exit_code s r.code)
    then none
    else if is_ignore s.on_failure
    then none
    else some (bad_code r.name (remap_exit_code s r.code))

-- The first failure among the results.
abbrev pub first_failure : (ℕ → Service) → List OneshotResult → Option Fatal
first_failure heap [] = none
first_failure heap (r ∷ rs) = elim (failure (heap r.service) r) [
  | some f ↦ some f
  | none ↦ first_failure heap rs
]

-- The parts of the configuration that judge a result.
abbrev SameRules : (ℕ → Service) → (ℕ → Service) → Type 0
SameRules h k =
    (j : ℕ) → ((k j).on_failure ≡ (h j).on_failure) × ((k j).exit_code_map ≡ (h j).exit_code_map)

first_failure_same :
    (h k : ℕ → Service) (rs : List OneshotResult)
    → SameRules h k
    → first_failure k rs ≡ first_failure h rs
unfolding remap_exit_code
first_failure_same h k [] same = refl
first_failure_same h k (r ∷ rs) same =
    ground (arith, same r.service, first_failure_same h k rs same)

settle_oneshot-SameRules :
    (now : ℕ) (r : OneshotResult) (d : Daemon) (fatal : Option Fatal)
    → SameRules d.heap (settle_oneshot now r d fatal).0.heap
unfolding settle_oneshot mark_exited
settle_oneshot-SameRules now r d fatal j = ground arith

settle_oneshot_first :
    (now : ℕ) (r : OneshotResult) (d : Daemon) (fatal : Option Fatal)
    → (settle_oneshot now r d fatal).1
      ≡ elim fatal [ some f ↦ some f | none ↦ failure (d.heap r.service) r ]
unfolding settle_oneshot first
settle_oneshot_first now r d none = ground arith
settle_oneshot_first now r d (some f) = ground arith

settled_failure :
    (now : ℕ) (rs : List OneshotResult) (d : Daemon) (f : Fatal)
    → (settle_oneshots now rs d (some f)).1 ≡ some f
unfolding settle_oneshots
settled_failure now [] d f = refl
settled_failure now (r ∷ rs) d f =
    subst (λ x. (settle_oneshots now rs (settle_oneshot now r d (some f)).0 x).1 ≡ some f)
      (sym (settle_oneshot_first now r d (some f)))
      (settled_failure now rs (settle_oneshot now r d (some f)).0 f)

-- The boot goes on after the oneshots of a layer exactly if none of the results is a failure, and
-- otherwise it ends with the first one: a failure is a wait without a result, or a mapped code that is
-- not 0 of a service that does not ignore failures.
pub settle_oneshots-first_failure :
    (now : ℕ) (rs : List OneshotResult) (d : Daemon)
    → (settle_oneshots now rs d none).1 ≡ first_failure d.heap rs
unfolding settle_oneshots
settle_oneshots-first_failure now [] d = refl
settle_oneshots-first_failure now (r ∷ rs) d =
    let e = (settle_oneshot now r d none).0 in
    go (settle_oneshot now r d none).1 (failure (d.heap r.service) r)
      (settle_oneshot_first now r d none)
      (settle_oneshots-first_failure now rs e
        ∙ first_failure_same d.heap e.heap rs (settle_oneshot-SameRules now r d none))
  where
    go :
        (x y : Option Fatal)
        → x ≡ y
        → (settle_oneshots now rs (settle_oneshot now r d none).0 none).1 ≡ first_failure d.heap rs
        → (settle_oneshots now rs (settle_oneshot now r d none).0 x).1
          ≡ elim y [ some f ↦ some f | none ↦ first_failure d.heap rs ]
    go x none h i =
        subst
          (λ z.
            (settle_oneshots now rs (settle_oneshot now r d none).0 z).1 ≡ first_failure d.heap rs)
          (sym h) i
    go x (some f) h i =
        subst (λ z. (settle_oneshots now rs (settle_oneshot now r d none).0 z).1 ≡ some f) (sym h)
          (settled_failure now rs (settle_oneshot now r d none).0 f)
