-- ===== src/Daemon/Ordered.antt =====
-- dependentClosure of lifecycle.go: it always ends, with exactly the services that require the name,
-- themselves or by way of others.
use gopherd.Prelude.{
  ℕ, zero, suc, ◌+◌, ◌≤◌, Text, ◌==◌, ==→eq, eq→==, true, Option, some, List, [], ◌∷◌, contains,
  length, ◌≡◌, refl, sym, subst, arith, Bool-cases, ◌⊎◌, inl, inr, ◌↔◌,
}
use gopherd.Service.{Service}
use gopherd.Daemon.Lifecycle.{visit, closure_loop, dependent_closure}
use gopherd.Daemon.Closure.{
  Among, Requires, Joined, Needs, direct, chain, fresh, fresh-le, visit_grows, visit_waits,
  visit_new, visit_covers, visit_origin, visit_waiting, visit_measure,
}

module _ (services : List Service) (name : Text) where
  -- The closure holds only what is needed. What it and the name itself pull in is in it, but for the
  -- names on the frontier, which are still to be looked at.
  record Underway (closure frontier : List Text) : Type 0 where
    needed : (n : Text) → contains closure n ≡ true → Needs services name n
    front : (n : Text) → contains frontier n ≡ true → (n ≡ name) ⊎ Needs services name n
    covered :
        (n : Text)
        → (n ≡ name) ⊎ (contains closure n ≡ true)
        → (contains frontier n ≡ true)
          ⊎ ((s : Service) → Among s services → Requires name n s → contains closure s.name ≡ true)

  Joined-Needs :
      (cur : Text)
      → (cur ≡ name) ⊎ Needs services name cur
      → (n : Text) → Joined name cur services n
      → Needs services name n
  Joined-Needs cur (inl e) n (s, m, r, q) =
      subst (λ x. Needs services name x) q (direct s m (subst (λ c. Requires name c s) e r))
  Joined-Needs cur (inr c) n (s, m, r, q) = subst (λ x. Needs services name x) q (chain cur s c m r)

  start : Underway [] (name ∷ [])
  unfolding contains
  start = record {
    needed = λ n h. absurd (ground arith);
    front = λ n h. inl (sym (==→eq name n (ground arith)));
    covered = λ n o. inl (ground (arith, eq→== name n));
  }

  round :
      (cur : Text) (closure frontier : List Text)
      → Underway closure (cur ∷ frontier)
      → Underway
          (visit name cur services closure frontier).0
          (visit name cur services closure frontier).1
  unfolding contains
  round cur closure frontier u = record { needed = needed; front = front; covered = covered }
    where
      here : (cur ≡ name) ⊎ Needs services name cur
      here = u.front cur (ground (arith, eq→== cur cur refl))

      needed :
          (n : Text)
          → contains (visit name cur services closure frontier).0 n ≡ true
          → Needs services name n
      needed n h = elim (visit_origin name cur services closure frontier n h) [
        | inl old ↦ u.needed n old
        | inr new ↦ Joined-Needs cur here n new
      ]

      front :
          (n : Text)
          → contains (visit name cur services closure frontier).1 n ≡ true
          → (n ≡ name) ⊎ Needs services name n
      front n h = elim (visit_waiting name cur services closure frontier n h) [
        | inl old ↦ u.front n (ground arith)
        | inr new ↦ inr (needed n new)
      ]

      looked_at :
          (n : Text)
          → (contains (cur ∷ frontier) n ≡ true)
            ⊎ ((s : Service)
                → Among s services
                → Requires name n s
                → contains closure s.name ≡ true)
          → (contains (visit name cur services closure frontier).1 n ≡ true)
            ⊎ ((s : Service)
                → Among s services
                → Requires name n s
                → contains (visit name cur services closure frontier).0 s.name ≡ true)
      looked_at n (inr all) =
          inr (λ s m r. visit_grows name cur services closure frontier s.name (all s m r))
      looked_at n (inl c) = elim (Bool-cases (cur == n)) [
        | inl e ↦ inr (λ s m r.
            visit_covers name cur services closure frontier s m
              (subst (λ x. Requires name x s) (sym (==→eq cur n e)) r))
        | inr e ↦ inl (visit_waits name cur services closure frontier n (ground arith))
      ]

      covered :
          (n : Text)
          → (n ≡ name) ⊎ (contains (visit name cur services closure frontier).0 n ≡ true)
          → (contains (visit name cur services closure frontier).1 n ≡ true)
            ⊎ ((s : Service)
                → Among s services
                → Requires name n s
                → contains (visit name cur services closure frontier).0 s.name ≡ true)
      covered n (inl e) = looked_at n (u.covered n (inl e))
      covered n (inr c) = elim (visit_new name cur services closure frontier n c) [
        | inl old ↦ looked_at n (u.covered n (inr old))
        | inr waits ↦ inl waits
      ]

  -- A frontier that is empty is all that was left to look at.
  finished :
      (closure : List Text)
      → Underway closure []
      → (n : Text) → Needs services name n
      → contains closure n ≡ true
  unfolding contains
  finished closure u _ (direct s m r) = elim (u.covered name (inl refl)) [
    | inl h ↦ absurd (ground arith)
    | inr all ↦ all s m r
  ]
  finished closure u _ (chain cur s c m r) = elim (u.covered cur (inr (finished closure u cur c))) [
    | inl h ↦ absurd (ground arith)
    | inr all ↦ all s m r
  ]

  abbrev pub IsExact : Option (List Text) → Type 0
  IsExact o =
      (closure : List Text) × (o ≡ some closure)
      × ((n : Text) → (contains closure n ≡ true) ↔ Needs services name n)

  closure_loop-IsExact :
      (fuel : ℕ) (closure frontier : List Text)
      → length frontier + fresh closure services ≤ fuel
      → Underway closure frontier
      → IsExact (closure_loop fuel name services closure frontier)
  unfolding closure_loop
  closure_loop-IsExact fuel closure [] h u =
      (closure, refl, λ n. (u.needed n, finished closure u n))
  closure_loop-IsExact zero closure (cur ∷ frontier) h u = absurd (omega arith)
  closure_loop-IsExact (suc fuel) closure (cur ∷ frontier) h u =
      closure_loop-IsExact fuel _ _
        (omega (arith, visit_measure name cur services services closure frontier (λ s m. m)))
        (round cur closure frontier u)

-- The loop always ends, and the closure holds exactly the services apart from the name that require
-- it, themselves or by way of others.
pub dependent_closure-IsExact :
    (services : List Service) (name : Text)
    → IsExact services name (dependent_closure services name)
unfolding dependent_closure
dependent_closure-IsExact services name =
    closure_loop-IsExact services name (suc (length services)) [] (name ∷ [])
      (omega (arith, fresh-le [] services)) (start services name)
