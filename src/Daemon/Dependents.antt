-- ===== src/Daemon/Dependents.antt =====
-- run.go: the failure of a hard dependency stops exactly the services that require it and run.
use gopherd.Prelude.{
  ℕ, eqb, Text, Bool, true, false, ◌&&◌, ◌||◌, List, [], ◌∷◌, if◌then◌else◌, contains, ◌≡◌, refl,
  arith,
}
use gopherd.Service.{stop}
use gopherd.Daemon.{Daemon, stop_service}
use gopherd.Daemon.Reap.{stop_dependents}

-- The service map holds the instance.
abbrev pub holds : ℕ → List (Text × ℕ) → Bool
holds id [] = false
holds id ((name, j) ∷ m) = eqb j id || holds id m

-- An instance has a process group to signal.
abbrev pub HasGroup : Daemon → Type 0
HasGroup d =
    (id : ℕ)
    → (d.heap id).running ≡ true
    → ((d.heap id).has_cmd ≡ true) × (eqb (d.heap id).pid 0 ≡ false)

abbrev pub stops : Daemon → Text → ℕ → Bool
stops d name id = contains (d.heap id).requires name && (d.heap id).running

one :
    (now : ℕ) (id j : ℕ) (b : Bool) (d : Daemon)
    → HasGroup d
    → (b ≡ true → (d.heap id).running ≡ true)
    → let e = if b then stop_service now id d else d in
      ((e.heap j).stopped ≡ ((d.heap j).stopped || (b && eqb id j)))
      × ((e.heap j).requires ≡ (d.heap j).requires)
      × ((e.heap j).running ≡ (d.heap j).running)
      × ((e.heap j).has_cmd ≡ (d.heap j).has_cmd)
      × ((e.heap j).pid ≡ (d.heap j).pid)
unfolding stop_service stop
one now id j true d g r =
    (ground (arith, g id, r refl), ground arith, ground arith, ground arith, ground arith)
one now id j false d g r = (ground arith, refl, refl, refl, refl)

-- After the failure of the hard dependency `name`, where each running instance has a process group,
-- an instance has its stop flag exactly if it had it before, or if the service map holds it, it
-- requires `name` and it runs.
pub stop_dependents_exactly :
    (now : ℕ) (name : Text) (m : List (Text × ℕ)) (d : Daemon) (j : ℕ)
    → HasGroup d
    → ((stop_dependents now name m d).heap j).stopped
      ≡ ((d.heap j).stopped || (holds j m && stops d name j))
unfolding stop_dependents
stop_dependents_exactly now name [] d j g = ground arith
stop_dependents_exactly now name ((other, id) ∷ m) d j g =
    let b = stops d name id in
    let e = if b then stop_service now id d else d in
    let s = one now id in
    ground (
      arith,
      s j b d g (λ h. ground arith),
      stop_dependents_exactly now name m e j
          (λ i h. ground (arith, s i b d g (λ h. ground arith), g i)),
    )
