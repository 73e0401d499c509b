-- ===== src/Daemon/Preserve.antt =====
-- reload of daemon.go: a running service whose process a reload does not change keeps its instance
-- through the whole exchange.
use gopherd.Config.{Config}
use gopherd.Daemon.{Daemon, stop_service}
use gopherd.Daemon.Reconcile.{IsAbsent, IsApart, absent_found}
use gopherd.Daemon.Reload.{
  Supervisor, ignore_exit, update_made, without_targets, remove_service, stop_if, remove_gone,
  clear_all, add_instance, add_instances,
}
use gopherd.Daemon.Swap.{cleared}
use gopherd.Prelude.Int.{ℤ}
use gopherd.Prelude.Maps.{Map, lookup, lookup-insert}
use gopherd.Prelude.{
  ℕ, ◌<◌, eqb, Text, ◌==◌, ==→eq, Bool, true, false, Option, none, some, some_inj, List, [], ◌∷◌,
  contains, map, ◌≡◌, refl, ap, ◌∙◌, subst, arith, Bool-cases, inl, inr,
}
use gopherd.Service.New.{NewService}
use gopherd.Service.Process.{proc_name}

-- What the first steps leave of an instance.
pub record IsSpared (id : ℕ) (u v : Supervisor) : Type 0 where
  pub heap : v.daemon.heap id ≡ u.daemon.heap id
  pub proc : (v.made id).proc ≡ (u.made id).proc
  pub next : v.next_id ≡ u.next_id

IsSpared-refl : (id : ℕ) (u : Supervisor) → IsSpared id u u
IsSpared-refl id u = record { heap = refl; proc = refl; next = refl }

IsSpared-trans : (id : ℕ) (u v w : Supervisor) → IsSpared id u v → IsSpared id v w → IsSpared id u w
IsSpared-trans id u v w h k = record {
  heap = k.heap ∙ h.heap;
  proc = k.proc ∙ h.proc;
  next = k.next ∙ h.next;
}

-- Taking away targets does not touch a process, of whatever instance.
without_targets_proc :
    (i id : ℕ) (made : ℕ → NewService)
    → (update_made i (without_targets (made i)) made id).proc ≡ (made id).proc
without_targets_proc i id made = elim (Bool-cases (eqb id i)) [
  | inl same ↦ rw (same) (same_proc (ground (arith, same)))
  | inr differ ↦ rw (differ) refl
]
  where
    same_proc : i ≡ id → (made i).proc ≡ (made id).proc
    same_proc e = ap (λ j. (made j).proc) e

stop_if_heap :
    (running : Bool) (now i id : ℕ) (d : Daemon)
    → eqb id i ≡ false
    → (stop_if running now i (ignore_exit i d)).heap id ≡ d.heap id
unfolding stop_service
stop_if_heap true now i id d differ = rw (differ) refl
stop_if_heap false now i id d differ = rw (differ) refl

remove_service-IsSpared :
    (now : ℕ) (name : Text) (i id : ℕ) (u : Supervisor)
    → eqb id i ≡ false
    → IsSpared id u (remove_service now name i u)
remove_service-IsSpared now name i id u differ = record {
  heap = stop_if_heap (u.daemon.heap i).running now i id u.daemon differ;
  proc = without_targets_proc i id u.made;
  next = refl;
}

-- The entries that the new configuration does not have are of other instances.
abbrev Spares : ℕ → (names : List Text) → Map ℕ → Type 0
Spares id names [] = Unit {0}
Spares id names ((n, i) ∷ m) = (contains names n ≡ false → eqb id i ≡ false) × Spares id names m

remove_gone-IsSpared :
    (now id : ℕ) (names : List Text) (m : Map ℕ) (u : Supervisor)
    → Spares id names m
    → IsSpared id u (remove_gone now names m u)
unfolding remove_gone
remove_gone-IsSpared now id names [] u h = IsSpared-refl id u
remove_gone-IsSpared now id names ((n, i) ∷ m) u (first, h) = elim (Bool-cases (contains names n)) [
  | inl there ↦ rw (there) (remove_gone-IsSpared now id names m u h)
  | inr gone ↦ rw (gone) (
      IsSpared-trans id u (remove_service now n i u) _
        (remove_service-IsSpared now n i id u (first gone))
        (remove_gone-IsSpared now id names m (remove_service now n i u) h))
]

clear_all-IsSpared : (id : ℕ) (m : Map ℕ) (u : Supervisor) → IsSpared id u (clear_all m u)
clear_all-IsSpared id [] u = IsSpared-refl id u
clear_all-IsSpared id ((n, i) ∷ m) u =
    IsSpared-trans id u (record u { made = update_made i (without_targets (u.made i)) u.made }) _
      (record { heap = refl; proc = without_targets_proc i id u.made; next = refl })
      (clear_all-IsSpared id m _)

Spares-absent :
    (n : Text) (id : ℕ) (names : List Text) (m : Map ℕ) → IsAbsent n id m → Spares id names m
Spares-absent n id names [] h = tt
Spares-absent n id names ((k, i) ∷ m) (a, b, h) = (λ gone. b, Spares-absent n id names m h)

Spares-found :
    (name : Text) (id : ℕ) (names : List Text) (m : Map ℕ)
    → contains names name ≡ true
    → IsApart m
    → lookup name m ≡ some id
    → Spares id names m
unfolding lookup
Spares-found name id names [] there apart found = tt
Spares-found name id names ((n, i) ∷ m) there (absent, apart) found =
    elim (Bool-cases (n == name)) [
      | inl mine ↦ (
        λ gone. absurd (ground (arith, there, gone, ap (contains names) (==→eq n name mine))),
        Spares-absent n id names m
            (subst (λ j. IsAbsent n j m) (some_inj (ground (arith, found, mine))) absent),
      )
      | inr foreign ↦
          let later : lookup name m ≡ some id = ground (arith, found, foreign) in
          (
            λ gone. absent_found n name i id m absent later,
            Spares-found name id names m there apart later,
          )
    ]

pub cleared-IsSpared :
    (now : ℕ) (c : Config) (name : Text) (id : ℕ) (u : Supervisor)
    → contains (map proc_name c.processes) name ≡ true
    → IsApart u.daemon.services
    → lookup name u.daemon.services ≡ some id
    → IsSpared id u (cleared now c u)
cleared-IsSpared now c name id u there apart found =
    let names = map proc_name c.processes in
    let v = remove_gone now names u.daemon.services u in
    IsSpared-trans id u v _
      (remove_gone-IsSpared now id names u.daemon.services u
        (Spares-found name id names u.daemon.services there apart found))
      (clear_all-IsSpared id v.daemon.services v)

-- The names of a map are different.
abbrev pub IsDistinct : Map NewService → Type 0
IsDistinct [] = Unit {0}
IsDistinct ((n, s) ∷ m) = (lookup n m ≡ none) × IsDistinct m

module _ (dur : Text → Option ℤ) where
  pub add_instances_old :
      (m : Map NewService) (u : Supervisor) (id : ℕ)
      → id < u.next_id
      → ((add_instances dur m u).daemon.heap id ≡ u.daemon.heap id)
        × ((add_instances dur m u).made id ≡ u.made id)
  unfolding add_instances
  add_instances_old [] u id h = (refl, refl)
  add_instances_old ((n, s) ∷ m) u id h =
      let differ : eqb id u.next_id ≡ false = ground (arith, h) in
      let rest = add_instances_old m (add_instance dur n s u) id (omega (arith, h)) in
      (rest.0 ∙ rw (differ) refl, rest.1 ∙ rw (differ) refl)

  pub add_instances_name :
      (m : Map NewService) (u : Supervisor) (name : Text)
      → lookup name m ≡ none
      → lookup name (add_instances dur m u).daemon.services ≡ lookup name u.daemon.services
  unfolding add_instances lookup
  add_instances_name [] u name h = refl
  add_instances_name ((n, s) ∷ m) u name h = elim (Bool-cases (n == name)) [
    | inl mine ↦ absurd (ground (arith, h, mine))
    | inr foreign ↦
        add_instances_name m (add_instance dur n s u) name (ground (arith, h, foreign))
        ∙ lookup-insert n name u.next_id u.daemon.services
        ∙ rw (foreign) refl
  ]
