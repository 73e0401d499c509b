-- ===== src/Daemon/Requirers.antt =====
-- run.go: what the reap of one service changes in the others.
use gopherd.Prelude.Int.{ℤ, is_zero}
use gopherd.Prelude.{
  ℕ, eqb, Text, Bool, true, false, ◌&&◌, ◌||◌, not, List, [], ◌∷◌, if◌then◌else◌, contains, ◌≡◌,
  refl, sym, ap, ◌∙◌, subst, arith, ◌⊎◌, Bool-cases, inl, inr,
}
use gopherd.ExitAction.{ExitAction, restart, shutdown, success_shutdown, failure_shutdown, ignore}
use gopherd.Service.{Service, mark_exited}
use gopherd.Daemon.{Daemon, stop_service, take_restart_pending}
use gopherd.Daemon.Reap.{
  Drawn, choose, fails_hard, stop_dependents, act, plan_restart, record_exit, is_restart,
  after_exit, dependents,
}
use gopherd.Daemon.Shutdown.{enqueue_restart}
use gopherd.Daemon.Dependents.{HasGroup, holds, stops, stop_dependents_exactly}
use gopherd.Daemon.Policy.{booked, booked_table}

-- Whether the exit of the service with that name stops an instance: it was a failure, and the instance is
-- of a service of the map that requires it and runs.
abbrev pub brings_down : (name : Text) (code : ℤ) → Daemon → ℕ → Bool
brings_down name code d j = not (is_zero code) && (holds j d.services && stops d name j)

-- The instances but `id`, after the exit of that one.
pub record StopsRequirers (id : ℕ) (code : ℤ) (d e : Daemon) : Type 0 where
  pub stopped :
      (j : ℕ)
      → ¬ (j ≡ id)
      → (e.heap j).stopped ≡ ((d.heap j).stopped || brings_down (d.heap id).name code d j)
  pub unmoved :
      (j : ℕ) → ¬ (j ≡ id) → (e.heap j ≡ d.heap j) ⊎ (brings_down (d.heap id).name code d j ≡ true)

-- The loop over the services changes only those that it stops.
stop_dependents_unmoved :
    (now : ℕ) (name : Text) (m : List (Text × ℕ)) (d : Daemon) (j : ℕ)
    → ((stop_dependents now name m d).heap j ≡ d.heap j) ⊎ ((holds j m && stops d name j) ≡ true)
unfolding stop_dependents stop_service
stop_dependents_unmoved now name [] d j = inl refl
stop_dependents_unmoved now name ((other, id) ∷ m) d j =
    step (λ e. stop_dependents_unmoved now name m e j) (stops d name id) refl
  where
    later :
        ((stop_dependents now name m d).heap j ≡ d.heap j) ⊎ ((holds j m && stops d name j) ≡ true)
        → ((stop_dependents now name m d).heap j ≡ d.heap j)
          ⊎ ((holds j ((other, id) ∷ m) && stops d name j) ≡ true)
    later (inl h) = inl h
    later (inr h) = inr (ground (arith, h))

    found :
        stops d name id ≡ true
        → eqb id j ≡ true
        → (holds j ((other, id) ∷ m) && stops d name j) ≡ true
    found on here = ground (arith, on, here)

    moved :
        eqb id j ≡ false
        → ((stop_dependents now name m (stop_service now id d)).heap j
            ≡ (stop_service now id d).heap j)
          ⊎ ((holds j m && stops (stop_service now id d) name j) ≡ true)
        → ((stop_dependents now name m (stop_service now id d)).heap j ≡ d.heap j)
          ⊎ ((holds j ((other, id) ∷ m) && stops d name j) ≡ true)
    moved there (inl h) = inl (h ∙ ground (arith, there))
    moved there (inr h) = inr (ground (arith, h, there))

    step :
        ((e : Daemon)
          → ((stop_dependents now name m e).heap j ≡ e.heap j)
            ⊎ ((holds j m && stops e name j) ≡ true))
        → (b : Bool) → stops d name id ≡ b
        → let e = if b then stop_service now id d else d in
          ((stop_dependents now name m e).heap j ≡ d.heap j)
          ⊎ ((holds j ((other, id) ∷ m) && stops d name j) ≡ true)
    step rest false off = later (rest d)
    step rest true on = elim (Bool-cases (eqb id j)) [
      | inl here ↦ inr (found on here)
      | inr there ↦ moved there (rest (stop_service now id d))
    ]

-- What follows touches the instance that has ended, and no other.
act_unmoved :
    (drawn : Drawn) (duration id : ℕ) (code : ℤ) (a : ExitAction) (e : Daemon) (j : ℕ)
    → ¬ (j ≡ id)
    → (act drawn duration id code a e).heap j ≡ e.heap j
unfolding act plan_restart enqueue_restart
act_unmoved drawn duration id code restart e j h = ground (arith, h)
act_unmoved drawn duration id code shutdown e j h = refl
act_unmoved drawn duration id code failure_shutdown e j h = refl
act_unmoved drawn duration id code success_shutdown e j h = refl
act_unmoved drawn duration id code ignore e j h = refl

after_exit_heap :
    (now : ℕ) (drawn : Drawn) (duration id : ℕ) (s : Service) (code : ℤ) (down consumed : Bool)
    (e : Daemon) (j : ℕ)
    → down ≡ false
    → ¬ (j ≡ id)
    → (after_exit now drawn duration id s code down consumed e).heap j
      ≡ (dependents now s code (fails_hard s code) e).heap j
unfolding after_exit record_exit
after_exit_heap now drawn duration id s code true consumed e j h k = absurd (cc)
after_exit_heap now drawn duration id s code false consumed e j h k =
    let f = dependents now s code (fails_hard s code) e in
    let g = record_exit (consumed || is_restart (choose s code)) s.name code f in
    act_unmoved drawn duration id code (choose s code) g j k
    ∙ noted (consumed || is_restart (choose s code)) f
  where
    noted : (b : Bool) (f : Daemon) → (record_exit b s.name code f).heap j ≡ f.heap j
    noted true f = refl
    noted false f = refl

dependents-Stops :
    (now : ℕ) (s : Service) (code : ℤ) (b : Bool) (e : Daemon) (j : ℕ)
    → HasGroup e
    → let f = dependents now s code b e in
      ((f.heap j).stopped ≡ ((e.heap j).stopped || (b && (holds j e.services && stops e s.name j))))
      × ((f.heap j ≡ e.heap j) ⊎ ((b && (holds j e.services && stops e s.name j)) ≡ true))
dependents-Stops now s code true e j g = (
  stop_dependents_exactly now s.name e.services e j g,
  stop_dependents_unmoved now s.name e.services e j,
)
dependents-Stops now s code false e j g = (ground arith, inl refl)

booked-HasGroup : (now pid id : ℕ) (d : Daemon) → HasGroup d → HasGroup (booked now pid id d).0
unfolding take_restart_pending mark_exited
booked-HasGroup now pid id d g i = ground (arith, g i)

-- The instance as it was before the bookkeeping.
carried :
    (name : Text) (code : ℤ) (d b f : Daemon) (j : ℕ) (hard : Bool)
    → hard ≡ not (is_zero code)
    → b.services ≡ d.services
    → b.heap j ≡ d.heap j
    → ((f.heap j).stopped
        ≡ ((b.heap j).stopped || (hard && (holds j b.services && stops b name j))))
    → ((f.heap j ≡ b.heap j) ⊎ ((hard && (holds j b.services && stops b name j)) ≡ true))
    → ((f.heap j).stopped ≡ ((d.heap j).stopped || brings_down name code d j))
      × ((f.heap j ≡ d.heap j) ⊎ (brings_down name code d j ≡ true))
carried name code d b f j hard h services heap flag moved =
    let same : (hard && (holds j b.services && stops b name j)) ≡ brings_down name code d j =
      ap (λ x. x && (holds j b.services && stops b name j)) h
      ∙ ap (λ m. not (is_zero code) && (holds j m && stops b name j)) services
      ∙ ap
          (λ (t : Service).
            not (is_zero code) && (holds j d.services && (contains t.requires name && t.running)))
          heap in
    (
      flag
          ∙ ap (λ (t : Service). t.stopped || (hard && (holds j b.services && stops b name j))) heap
          ∙ ap (λ x. (d.heap j).stopped || x) same,
      elim moved [ inl k ↦ inl (k ∙ heap) | inr k ↦ inr (sym same ∙ k) ],
    )

-- The other instances, after the reap of a service whose failure counts as one.
pub after_exit-StopsRequirers :
    (now : ℕ) (drawn : Drawn) (duration pid id : ℕ) (s : Service) (code : ℤ) (down consumed : Bool)
    (d : Daemon)
    → down ≡ false
    → fails_hard s code ≡ not (is_zero code)
    → s.name ≡ (d.heap id).name
    → HasGroup d
    → StopsRequirers id code d
        (after_exit now drawn duration id s code down consumed (booked now pid id d).0)
after_exit-StopsRequirers now drawn duration pid id s code down consumed d off hard named g =
    record {
      stopped = λ j k. ap (λ (t : Service). t.stopped) (heap j k) ∙ (other j k).0;
      unmoved = λ j k. elim ((other j k).1) [ inl e ↦ inl (heap j k ∙ e) | inr e ↦ inr e ];
    }
  where
    b : Daemon
    b = (booked now pid id d).0

    f : Daemon
    f = dependents now s code (fails_hard s code) b

    heap :
        (j : ℕ)
        → ¬ (j ≡ id)
        → (after_exit now drawn duration id s code down consumed b).heap j ≡ f.heap j
    heap j k = after_exit_heap now drawn duration id s code down consumed b j off k

    other :
        (j : ℕ)
        → ¬ (j ≡ id)
        → ((f.heap j).stopped ≡ ((d.heap j).stopped || brings_down (d.heap id).name code d j))
          × ((f.heap j ≡ d.heap j) ⊎ (brings_down (d.heap id).name code d j ≡ true))
    other j k =
        let r =
          dependents-Stops now s code (fails_hard s code) b j (booked-HasGroup now pid id d g) in
        let t = booked_table now pid id d in
        subst
          (λ name.
            ((f.heap j).stopped ≡ ((d.heap j).stopped || brings_down name code d j))
            × ((f.heap j ≡ d.heap j) ⊎ (brings_down name code d j ≡ true)))
          named (carried s.name code d b f j (fails_hard s code) hard t.2 (t.3 j k) r.0 r.1)
