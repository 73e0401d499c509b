-- ===== src/Daemon/Reconcile.antt =====
-- The reconciling loop of reload in daemon.go: a running service whose process is unchanged keeps its
-- instance.
use gopherd.Daemon.{stop_service}
use gopherd.Daemon.Reload.{
  Supervisor, with_policies, rewired, keep, retire, exchange, reconcile_with, reconcile_one,
  reconcile,
}
use gopherd.Prelude.Maps.{Map, lookup, lookup-insert}
use gopherd.Prelude.{
  ℕ, eqb, Text, ◌==◌, ==_refl, Bool, true, false, Option, none, some, [], ◌∷◌, ◌≡◌, refl, ap, ◌∙◌,
  arith, Bool-cases, inl, inr,
}

-- Neither the name nor the instance stands in the map.
abbrev pub IsAbsent : Text → ℕ → Map ℕ → Type 0
IsAbsent name id [] = Unit {0}
IsAbsent name id ((n, i) ∷ m) = ((n == name) ≡ false) × (eqb id i ≡ false) × IsAbsent name id m

-- Names and instances of the map are all different.
abbrev pub IsApart : Map ℕ → Type 0
IsApart [] = Unit {0}
IsApart ((n, i) ∷ m) = IsAbsent n i m × IsApart m

-- No instance of the map is `id`.
abbrev pub IsOther : ℕ → Map ℕ → Type 0
IsOther id [] = Unit {0}
IsOther id ((n, i) ∷ m) = (eqb id i ≡ false) × IsOther id m

-- What the services of `u` and `v` have in common at a name and at an instance.
abbrev SameName : Text → Supervisor → Supervisor → Type 0
SameName name u v = lookup name v.daemon.services ≡ lookup name u.daemon.services

pub record IsUnmoved (id : ℕ) (u v : Supervisor) : Type 0 where
  pub heap : v.daemon.heap id ≡ u.daemon.heap id
  pub made : v.made id ≡ u.made id
  pub targets : v.targets ≡ u.targets
  pub conditions : v.conditions id ≡ u.conditions id

IsUnmoved-refl : (id : ℕ) (u : Supervisor) → IsUnmoved id u u
IsUnmoved-refl id u = record { heap = refl; made = refl; targets = refl; conditions = refl }

IsUnmoved-trans :
    (id : ℕ) (u v w : Supervisor) → IsUnmoved id u v → IsUnmoved id v w → IsUnmoved id u w
IsUnmoved-trans id u v w h k = record {
  heap = k.heap ∙ h.heap;
  made = k.made ∙ h.made;
  targets = k.targets ∙ h.targets;
  conditions = k.conditions ∙ h.conditions;
}

retire-IsUnmoved :
    (now i id : ℕ) (u : Supervisor) → eqb id i ≡ false → IsUnmoved id u (retire now i u)
unfolding stop_service
retire-IsUnmoved now i id u differ = record {
  heap = rw (differ) refl;
  made = refl;
  targets = refl;
  conditions = refl;
}

keep-IsUnmoved :
    (name : Text) (i new id : ℕ) (u : Supervisor)
    → eqb id i ≡ false
    → IsUnmoved id u (keep name i new u)
keep-IsUnmoved name i new id u differ = record {
  heap = rw (differ) refl;
  made = rw (differ) refl;
  targets = refl;
  conditions = rw (differ) refl;
}

module _ (now : ℕ) (name : Text) (i : ℕ) (u : Supervisor) where
  exchange-IsUnmoved :
      (id new : ℕ) (running changed : Bool)
      → eqb id i ≡ false
      → IsUnmoved id u (exchange now name i new u running changed).0
  exchange-IsUnmoved id new false changed differ = IsUnmoved-refl id u
  exchange-IsUnmoved id new true true differ = retire-IsUnmoved now i id u differ
  exchange-IsUnmoved id new true false differ = keep-IsUnmoved name i new id u differ

  pub with-IsUnmoved :
      (id : ℕ) (o : Option ℕ) → eqb id i ≡ false → IsUnmoved id u (reconcile_with now name i u o).0
  with-IsUnmoved id none differ = IsUnmoved-refl id u
  with-IsUnmoved id (some new) differ = exchange-IsUnmoved id new _ _ differ

  exchange-SameName :
      (other : Text) (new : ℕ) (running changed : Bool)
      → (name == other) ≡ false
      → SameName other u (exchange now name i new u running changed).0
  unfolding stop_service
  exchange-SameName other new false changed differ = refl
  exchange-SameName other new true true differ = refl
  exchange-SameName other new true false differ =
      lookup-insert name other i u.daemon.services ∙ rw (differ) refl

  pub with-SameName :
      (other : Text) (o : Option ℕ)
      → (name == other) ≡ false
      → SameName other u (reconcile_with now name i u o).0
  with-SameName other none differ = refl
  with-SameName other (some new) differ = exchange-SameName other new _ _ differ

-- The loop over the other services.
pub reconcile-IsUnmoved :
    (now id : ℕ) (old : Map ℕ) (u : Supervisor)
    → IsOther id old
    → IsUnmoved id u (reconcile now old u).0
unfolding reconcile reconcile_one
reconcile-IsUnmoved now id [] u h = IsUnmoved-refl id u
reconcile-IsUnmoved now id ((n, i) ∷ old) u (differ, h) =
    let v = (reconcile_one now n i u).0 in
    IsUnmoved-trans id u v _ (with-IsUnmoved now n i u id (lookup n u.daemon.services) differ)
      (reconcile-IsUnmoved now id old v h)

pub absent-IsOther : (name : Text) (id : ℕ) (m : Map ℕ) → IsAbsent name id m → IsOther id m
absent-IsOther name id [] h = tt
absent-IsOther name id ((n, i) ∷ m) (a, b, h) = (b, absent-IsOther name id m h)

pub reconcile-SameName :
    (now : ℕ) (name : Text) (id : ℕ) (old : Map ℕ) (u : Supervisor)
    → IsAbsent name id old
    → SameName name u (reconcile now old u).0
unfolding reconcile reconcile_one
reconcile-SameName now name id [] u h = refl
reconcile-SameName now name id ((n, i) ∷ old) u (differ, other, h) =
    let v = (reconcile_one now n i u).0 in
    reconcile-SameName now name id old v h
    ∙ with-SameName now n i u name (lookup n u.daemon.services) differ

-- What has become of an instance that is kept: the name leads to it, and it is as it was, but for its
-- policies and the targets of its writers.
pub record IsKept (name : Text) (id new : ℕ) (u v : Supervisor) : Type 0 where
  pub current : lookup name v.daemon.services ≡ some id
  pub heap : v.daemon.heap id ≡ with_policies (u.daemon.heap new) (u.daemon.heap id)
  pub made : v.made id ≡ rewired u.targets (u.made new) (u.made id)
  pub conditions :
      v.conditions id
      ≡ some ((u.made new).proc.condition_file_exists, (u.made new).proc.condition_file_missing)

pub IsKept-after :
    (name : Text) (id new : ℕ) (u v w : Supervisor)
    → IsUnmoved id u v
    → IsUnmoved new u v
    → IsKept name id new v w
    → IsKept name id new u w
IsKept-after name id new u v w a b k = record {
  current = k.current;
  heap =
      k.heap
      ∙ ap (λ n. with_policies n (v.daemon.heap id)) b.heap
      ∙ ap (with_policies (u.daemon.heap new)) a.heap;
  made =
      k.made
      ∙ ap (λ ts. rewired ts (v.made new) (v.made id)) a.targets
      ∙ ap (λ n. rewired u.targets n (v.made id)) b.made
      ∙ ap (rewired u.targets (u.made new)) a.made;
  conditions =
      k.conditions
      ∙ ap (λ n. some (n.proc.condition_file_exists, n.proc.condition_file_missing)) b.made;
}

pub IsKept-through :
    (name : Text) (id new : ℕ) (u v w : Supervisor)
    → IsKept name id new u v
    → SameName name v w
    → IsUnmoved id v w
    → IsKept name id new u w
IsKept-through name id new u v w k same h = record {
  current = same ∙ k.current;
  heap = h.heap ∙ k.heap;
  made = h.made ∙ k.made;
  conditions = h.conditions ∙ k.conditions;
}

pub eqb_refl : (n : ℕ) → eqb n n ≡ true
eqb_refl n = ground arith

pub keep-IsKept :
    (name : Text) (id new : ℕ) (u : Supervisor) → IsKept name id new u (keep name id new u)
keep-IsKept name id new u = record {
  current = lookup-insert name name id u.daemon.services ∙ rw (==_refl name) refl;
  heap = rw (eqb_refl id) refl;
  made = rw (eqb_refl id) refl;
  conditions = rw (eqb_refl id) refl;
}

pub absent_found :
    (name other : Text) (id i : ℕ) (m : Map ℕ)
    → IsAbsent name id m
    → lookup other m ≡ some i
    → eqb i id ≡ false
unfolding lookup
absent_found name other id i [] h e = absurd (cc)
absent_found name other id i ((n, j) ∷ m) (a, b, h) e = elim (Bool-cases (n == other)) [
  | inl same ↦ ground (arith, b, e, same)
  | inr differ ↦ absent_found name other id i m h (ground (arith, e, differ))
]
