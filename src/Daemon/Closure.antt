-- ===== src/Daemon/Closure.antt =====
-- The inner loop of dependentClosure of lifecycle.go: who joins the closure and the frontier.
use gopherd.Prelude.{
  ℕ, suc, ◌+◌, ◌≤◌, Text, ◌==◌, ==→eq, eq→==, Bool, true, false, List, [], ◌∷◌, ◌++◌, if◌then◌else◌,
  contains, length, length-append, ◌≡◌, refl, sym, subst, ap, arith, Bool-cases, ◌⊎◌, inl, inr,
}
use gopherd.Service.{Service}
use gopherd.Daemon.Lifecycle.{joins, visit}

abbrev pub Among : Service → List Service → Type 0
Among s [] = ⊥
Among s (t ∷ ts) = (t ≡ s) ⊎ Among s ts

-- The service `s` requires `cur` and is not the one that is restarted.
abbrev pub Requires : (name cur : Text) → Service → Type 0
Requires name cur s = (contains s.requires cur ≡ true) × ((s.name == name) ≡ false)

-- The services that require `name`, themselves or by way of others, apart from `name`.
pub data Needs (services : List Service) (name : Text) : Text → Type 0 where
  direct : (s : Service) → Among s services → Requires name name s → Needs services name s.name
  chain :
      (cur : Text) (s : Service)
      → Needs services name cur
      → Among s services
      → Requires name cur s
      → Needs services name s.name

contains_append_left :
    (xs ys : List Text) (n : Text) → contains xs n ≡ true → contains (xs ++ ys) n ≡ true
unfolding contains
contains_append_left [] ys n h = absurd (ground arith)
contains_append_left (x ∷ xs) ys n h = ground (arith, contains_append_left xs ys n)

contains_append_last : (xs : List Text) (y : Text) → contains (xs ++ y ∷ []) y ≡ true
unfolding contains
contains_append_last [] y = ground (arith, eq→== y y refl)
contains_append_last (x ∷ xs) y = ground (arith, contains_append_last xs y)

contains_append_cases :
    (xs : List Text) (y n : Text)
    → contains (xs ++ y ∷ []) n ≡ true
    → (contains xs n ≡ true) ⊎ (y ≡ n)
unfolding contains
contains_append_cases [] y n h = inr (==→eq y n (ground arith))
contains_append_cases (x ∷ xs) y n h = ground (arith, contains_append_cases xs y n)

module _ (name cur : Text) where
  -- What joins, and nothing else, is in both results in addition.
  pub visit_grows :
      (services : List Service) (closure frontier : List Text) (n : Text)
      → contains closure n ≡ true
      → contains (visit name cur services closure frontier).0 n ≡ true
  unfolding visit contains
  visit_grows [] closure frontier n h = h
  visit_grows (other ∷ services) closure frontier n h = ground (
    arith,
    visit_grows services closure frontier n h,
    visit_grows services (other.name ∷ closure) (frontier ++ other.name ∷ []) n,
  )

  pub visit_waits :
      (services : List Service) (closure frontier : List Text) (n : Text)
      → contains frontier n ≡ true
      → contains (visit name cur services closure frontier).1 n ≡ true
  unfolding visit
  visit_waits [] closure frontier n h = h
  visit_waits (other ∷ services) closure frontier n h = ground (
    arith,
    visit_waits services closure frontier n h,
    visit_waits services (other.name ∷ closure) (frontier ++ other.name ∷ []) n,
    contains_append_left frontier (other.name ∷ []) n h,
  )

  pub visit_new :
      (services : List Service) (closure frontier : List Text) (n : Text)
      → contains (visit name cur services closure frontier).0 n ≡ true
      → (contains closure n ≡ true)
        ⊎ (contains (visit name cur services closure frontier).1 n ≡ true)
  unfolding visit contains
  visit_new [] closure frontier n h = inl h
  visit_new (other ∷ services) closure frontier n h = ground (
    arith,
    visit_new services closure frontier n,
    visit_new services (other.name ∷ closure) (frontier ++ other.name ∷ []) n,
    visit_waits services (other.name ∷ closure) (frontier ++ other.name ∷ []) other.name
        (contains_append_last frontier other.name),
    ==→eq other.name n,
  )

  visit_takes :
      (other : Service) (services : List Service) (closure frontier : List Text)
      → Requires name cur other
      → contains (visit name cur (other ∷ services) closure frontier).0 other.name ≡ true
  unfolding visit contains
  visit_takes other services closure frontier (r, e) = ground (
    arith,
    eq→== other.name other.name refl,
    visit_grows services closure frontier other.name,
    visit_grows services (other.name ∷ closure) (frontier ++ other.name ∷ []) other.name,
  )

  pub visit_covers :
      (services : List Service) (closure frontier : List Text) (s : Service)
      → Among s services
      → Requires name cur s
      → contains (visit name cur services closure frontier).0 s.name ≡ true
  unfolding visit contains
  visit_covers (other ∷ services) closure frontier s (inl e) r =
      subst (λ x. contains (visit name cur (other ∷ services) closure frontier).0 x.name ≡ true) e
        (visit_takes other services closure frontier (subst (λ x. Requires name cur x) (sym e) r))
  visit_covers (other ∷ services) closure frontier s (inr m) r = ground (
    arith,
    visit_covers services closure frontier s m r,
    visit_covers services (other.name ∷ closure) (frontier ++ other.name ∷ []) s m r,
  )
  visit_covers [] closure frontier s m r = absurd m

  -- A name that joins is that of a service which requires `cur`.
  abbrev pub Joined : List Service → Text → Type 0
  Joined services n = (s : Service) × Among s services × Requires name cur s × (s.name ≡ n)

  pub visit_origin :
      (services : List Service) (closure frontier : List Text) (n : Text)
      → contains (visit name cur services closure frontier).0 n ≡ true
      → (contains closure n ≡ true) ⊎ Joined services n
  unfolding visit contains
  visit_origin [] closure frontier n h = inl h
  visit_origin (other ∷ services) closure frontier n h =
      split (joins name cur closure other) refl h (visit_origin services closure frontier n)
        (visit_origin services (other.name ∷ closure) (frontier ++ other.name ∷ []) n)
    where
      taken :
          joins name cur closure other ≡ true
          → (contains (other.name ∷ closure) n ≡ true) ⊎ Joined services n
          → (contains closure n ≡ true) ⊎ Joined (other ∷ services) n
      taken j (inr (s, m, r, e)) = inr (s, inr m, r, e)
      taken j (inl c) = elim (Bool-cases (other.name == n)) [
        | inl e ↦ inr (other, inl refl, (ground arith, ground arith), ==→eq other.name n e)
        | inr e ↦ inl (ground arith)
      ]

      kept :
          (contains closure n ≡ true) ⊎ Joined services n
          → (contains closure n ≡ true) ⊎ Joined (other ∷ services) n
      kept (inl c) = inl c
      kept (inr (s, m, r, e)) = inr (s, inr m, r, e)

      split :
          (b : Bool)
          → joins name cur closure other ≡ b
          → contains
              (if b
                then visit name cur services (other.name ∷ closure) (frontier ++ other.name ∷ [])
                else visit name cur services closure frontier).0
              n
            ≡ true
          → (contains (visit name cur services closure frontier).0 n ≡ true
              → (contains closure n ≡ true) ⊎ Joined services n)
          → (contains
                  (visit name cur services (other.name ∷ closure) (frontier ++ other.name ∷ [])).0
                  n
                ≡ true
              → (contains (other.name ∷ closure) n ≡ true) ⊎ Joined services n)
          → (contains closure n ≡ true) ⊎ Joined (other ∷ services) n
      split true j h without with' = taken j (with' h)
      split false j h without with' = kept (without h)

  -- What waits did so before or is in the closure.
  pub visit_waiting :
      (services : List Service) (closure frontier : List Text) (n : Text)
      → contains (visit name cur services closure frontier).1 n ≡ true
      → (contains frontier n ≡ true)
        ⊎ (contains (visit name cur services closure frontier).0 n ≡ true)
  unfolding visit contains
  visit_waiting [] closure frontier n h = inl h
  visit_waiting (other ∷ services) closure frontier n h = ground (
    arith,
    visit_waiting services closure frontier n,
    visit_waiting services (other.name ∷ closure) (frontier ++ other.name ∷ []) n,
    contains_append_cases frontier other.name n,
    visit_grows services (other.name ∷ closure) (frontier ++ other.name ∷ []) n,
    eq→== other.name n,
  )

-- The services that are in no closure yet: each that joins makes them fewer by one.
unfoldable pub fresh : List Text → List Service → ℕ
fresh closure [] = 0
fresh closure (s ∷ ss) = (if contains closure s.name then 0 else 1) + fresh closure ss

pub fresh-le : (closure : List Text) (ss : List Service) → fresh closure ss ≤ length ss
unfolding fresh
fresh-le closure [] = omega arith
fresh-le closure (s ∷ ss) = ground (arith, fresh-le closure ss)

fresh_mono :
    (x : Text) (closure : List Text) (ss : List Service) → fresh (x ∷ closure) ss ≤ fresh closure ss
unfolding fresh contains
fresh_mono x closure [] = omega arith
fresh_mono x closure (s ∷ ss) = ground (arith, fresh_mono x closure ss)

fresh_drop :
    (s : Service) (closure : List Text) (ss : List Service)
    → Among s ss
    → contains closure s.name ≡ false
    → suc (fresh (s.name ∷ closure) ss) ≤ fresh closure ss
unfolding fresh contains
fresh_drop s closure [] m h = absurd m
fresh_drop s closure (t ∷ ts) (inl e) h =
    let same : t.name ≡ s.name = ap (λ x. x.name) e in
    ground (arith, fresh_mono s.name closure ts, same, eq→== s.name s.name refl)
fresh_drop s closure (t ∷ ts) (inr m) h =
    ground (arith, fresh_drop s closure ts m h, fresh_mono s.name closure (t ∷ []))

pub visit_measure :
    (name cur : Text) (all services : List Service) (closure frontier : List Text)
    → ((s : Service) → Among s services → Among s all)
    → length (visit name cur services closure frontier).1
        + fresh (visit name cur services closure frontier).0 all
      ≤ length frontier + fresh closure all
unfolding visit
visit_measure name cur all [] closure frontier sub = omega arith
visit_measure name cur all (other ∷ services) closure frontier sub = ground (
  arith,
  visit_measure name cur all services closure frontier (λ s m. sub s (inr m)),
  visit_measure name cur all services (other.name ∷ closure) (frontier ++ other.name ∷ [])
      (λ s m. sub s (inr m)),
  fresh_drop other closure all (sub other (inl refl)),
  length-append frontier (other.name ∷ []),
)
