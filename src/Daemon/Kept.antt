-- ===== src/Daemon/Kept.antt =====
-- reload of daemon.go: the exchange of the services, seen from one that runs and is unchanged.
use gopherd.Daemon.Reconcile.{
  IsAbsent, IsApart, IsOther, IsUnmoved, IsKept, with-IsUnmoved, with-SameName, reconcile-IsUnmoved,
  reconcile-SameName, absent-IsOther, absent_found, IsKept-after, IsKept-through, keep-IsKept,
}
use gopherd.Daemon.Reload.{Supervisor, exchange, reconcile_with, reconcile_one, reconcile}
use gopherd.Prelude.Maps.{Map, lookup}
use gopherd.Prelude.{
  ℕ, eqb, Text, ◌==◌, ==→eq, true, false, some, some_inj, [], ◌∷◌, if◌then◌else◌, ◌≡◌, refl, sym,
  ap, ◌∙◌, subst, arith, Bool-cases, inl, inr,
}
use gopherd.Service.Process.{process_config_changed}

reconcile_one-IsKept :
    (now : ℕ) (name : Text) (id new : ℕ) (u : Supervisor)
    → lookup name u.daemon.services ≡ some new
    → (u.daemon.heap id).running ≡ true
    → process_config_changed (u.made id).proc (u.made new).proc ≡ false
    → IsKept name id new u (reconcile_one now name id u).0
unfolding reconcile_one
reconcile_one-IsKept now name id new u there running same =
    let changed = process_config_changed (u.made id).proc (u.made new).proc in
    subst (λ o. IsKept name id new u (reconcile_with now name id u o).0) (sym there)
      (subst (λ r. IsKept name id new u (exchange now name id new u r changed).0) (sym running)
        (subst (λ b. IsKept name id new u (exchange now name id new u true b).0) (sym same)
          (keep-IsKept name id new u)))

eqb_to : (a b : ℕ) → a ≡ b → eqb a b ≡ true
eqb_to a b h = ground (arith, h)

-- The loop keeps the instance of a service that runs and is the same in both configurations.
pub reconcile-IsKept :
    (now : ℕ) (name : Text) (id new : ℕ) (old : Map ℕ) (u : Supervisor)
    → IsApart old
    → lookup name old ≡ some id
    → IsOther new old
    → lookup name u.daemon.services ≡ some new
    → (u.daemon.heap id).running ≡ true
    → process_config_changed (u.made id).proc (u.made new).proc ≡ false
    → IsKept name id new u (reconcile now old u).0
unfolding lookup reconcile
reconcile-IsKept now name id new [] u apart found other there running same = absurd (cc)
reconcile-IsKept now name id new ((n, i) ∷ old) u (absent, apart) found (differ, other) there
      running same =
    elim (Bool-cases (n == name)) [
      | inl mine ↦ here (==→eq n name mine) (some_inj (sym (rewrite_if mine) ∙ found))
      | inr foreign ↦
          let later : lookup name old ≡ some id = sym (rewrite_else foreign) ∙ found in
          let apart_id : eqb id i ≡ false = absent_found n name i id old absent later in
          let v = (reconcile_one now n i u).0 in
          let a : IsUnmoved id u v = moved id apart_id in
          let b : IsUnmoved new u v = moved new differ in
          IsKept-after name id new u v _ a b (
            reconcile-IsKept now name id new old v apart later other (same_name foreign ∙ there)
              (ap (λ s. s.running) a.heap ∙ running)
              (ap (λ s. process_config_changed s.proc (v.made new).proc) a.made
                ∙ ap (λ s. process_config_changed (u.made id).proc s.proc) b.made
                ∙ same))
    ]
  where
    rewrite_if : (n == name) ≡ true → (if n == name then some i else lookup name old) ≡ some i
    rewrite_if e = rw (e) refl

    rewrite_else :
        (n == name) ≡ false → (if n == name then some i else lookup name old) ≡ lookup name old
    rewrite_else e = rw (e) refl

    moved : (j : ℕ) → eqb j i ≡ false → IsUnmoved j u (reconcile_one now n i u).0
    moved j e = with-IsUnmoved now n i u j (lookup n u.daemon.services) e

    same_name :
        (n == name) ≡ false
        → lookup name (reconcile_one now n i u).0.daemon.services ≡ lookup name u.daemon.services
    same_name e = with-SameName now n i u name (lookup n u.daemon.services) e

    here :
        n ≡ name → i ≡ id → IsKept name id new u (reconcile now old (reconcile_one now n i u).0).0
    here e f =
        subst (λ m. IsKept name id new u (reconcile now old (reconcile_one now m i u).0).0) (sym e)
          (subst (λ j. IsKept name id new u (reconcile now old (reconcile_one now name j u).0).0)
            (sym f)
            (let v = (reconcile_one now name id u).0 in
              let gone : IsAbsent name id old =
                subst (λ j. IsAbsent name j old) f (subst (λ m. IsAbsent m i old) e absent) in
              IsKept-through name id new u v _
                (reconcile_one-IsKept now name id new u there running same)
                (reconcile-SameName now name id old v gone)
                (reconcile-IsUnmoved now id old v (absent-IsOther name id old gone))))
