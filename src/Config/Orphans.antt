-- ===== src/Config/Orphans.antt =====
-- excludeOrphanedChecks of internal/yml/config.go: which checks are dropped.
use gopherd.Config.{CheckConfig}
use gopherd.Config.Conditions.{
  keys, checks_of, ready_checks, append_user, add_user, add_users, users_of, skip_same, compact,
  is_kept, any_kept, Dropping, visit_check, or_nobody, visit_checks, exclude_orphaned_checks,
}
use gopherd.Prelude.Maps.{Map, lookup, lookup-insert, lookup-remove}
use gopherd.Prelude.{
  Text, ◌==◌, ==→eq, Bool, true, false, ◌&&◌, ◌||◌, not, Option, none, some, List, [], ◌∷◌, ◌++◌,
  contains, sort, any, any-append, any-sort, contains-count, count-sort, if◌then◌else◌, ◌≡◌, refl,
  sym, ap, ◌∙◌, arith, Bool-cases, inl, inr,
}
use gopherd.Service.Process.{Process, proc_name}

-- The process names the check in on-check-failure, or as its ready-check.
abbrev is_ready_check : (ready_check check : Text) → Bool
is_ready_check [] check = false
is_ready_check (c ∷ s) check = (c ∷ s) == check

abbrev pub names_check : Process → (check : Text) → Bool
names_check p check = contains (keys p.on_check_failure) check || is_ready_check p.ready_check check

-- Some process names the check; some process that is not excluded names it.
abbrev pub is_used : (check : Text) → List Process → Bool
is_used check [] = false
is_used check (p ∷ ps) = names_check p check || is_used check ps

abbrev pub is_used_by_kept : (excluded : List Text) → (check : Text) → List Process → Bool
is_used_by_kept excluded check [] = false
is_used_by_kept excluded check (p ∷ ps) =
    (names_check p check && is_kept excluded (proc_name p)) || is_used_by_kept excluded check ps

append-contains :
    (xs ys : List Text) (x : Text) → contains (xs ++ ys) x ≡ (contains xs x || contains ys x)
unfolding contains
append-contains [] ys x = refl
append-contains (y ∷ xs) ys x = ground (arith, append-contains xs ys x)

ready_checks-contains :
    (ready_check check : Text)
    → contains (ready_checks ready_check) check ≡ is_ready_check ready_check check
unfolding contains
ready_checks-contains [] check = refl
ready_checks-contains (c ∷ s) check = ground arith

checks_of-contains :
    (p : Process) (check : Text) → contains (checks_of p) check ≡ names_check p check
checks_of-contains p check =
    append-contains (keys p.on_check_failure) (ready_checks p.ready_check) check
    ∙ ap (λ b. contains (keys p.on_check_failure) check || b)
        (ready_checks-contains p.ready_check check)

abbrev is_some : {A : Type 0} → Option A → Bool
is_some none = false
is_some (some a) = true

any_kept-append_user :
    (excluded : List Text) (o : Option (List Text)) (name : Text)
    → any_kept excluded (append_user o name)
      ≡ (any_kept excluded (or_nobody o) || is_kept excluded name)
any_kept-append_user excluded none name = ground arith
any_kept-append_user excluded (some names) name =
    ground (arith, any-append (is_kept excluded) names (name ∷ []))

-- What a process adds to the users of a check.
add_user_kept :
    (excluded : List Text) (check name other : Text) (m : Map (List Text))
    → any_kept excluded (or_nobody (lookup other (add_user check name m))) ≡ (
        any_kept excluded (or_nobody (lookup other m)) || (check == other && is_kept excluded name))
add_user_kept excluded check name other m =
    rw (lookup-insert check other (append_user (lookup check m) name) m)
      (split (check == other) refl)
  where
    split :
        (b : Bool)
        → (check == other) ≡ b
        → any_kept excluded
            (or_nobody (if b then some (append_user (lookup check m) name) else lookup other m))
          ≡ (any_kept excluded (or_nobody (lookup other m)) || (b && is_kept excluded name))
    split true same =
        rw (sym (==→eq check other same)) (any_kept-append_user excluded (lookup check m) name)
    split false differ = ground arith

add_users_kept :
    (excluded : List Text) (cs : List Text) (name other : Text) (m : Map (List Text))
    → any_kept excluded (or_nobody (lookup other (add_users cs name m))) ≡ (
        any_kept excluded (or_nobody (lookup other m))
        || (contains cs other && is_kept excluded name))
unfolding contains
add_users_kept excluded [] name other m = ground arith
add_users_kept excluded (c ∷ cs) name other m = ground (
  arith,
  add_users_kept excluded cs name other (add_user c name m),
  add_user_kept excluded c name other m,
)

users_of_kept :
    (excluded : List Text) (check : Text) (ps : List Process) (m : Map (List Text))
    → any_kept excluded (or_nobody (lookup check (users_of ps m)))
      ≡ (any_kept excluded (or_nobody (lookup check m)) || is_used_by_kept excluded check ps)
unfolding users_of
users_of_kept excluded check [] m = ground arith
users_of_kept excluded check (p ∷ ps) m = ground (
  arith,
  users_of_kept excluded check ps (add_users (checks_of p) (proc_name p) m),
  add_users_kept excluded (checks_of p) (proc_name p) check m,
  checks_of-contains p check,
)

add_users_some :
    (cs : List Text) (name other : Text) (m : Map (List Text))
    → is_some (lookup other (add_users cs name m)) ≡ (is_some (lookup other m) || contains cs other)
unfolding contains
add_users_some [] name other m = ground arith
add_users_some (c ∷ cs) name other m = ground (
  arith,
  add_users_some cs name other (add_user c name m),
  lookup-insert c other (append_user (lookup c m) name) m,
)

users_of_some :
    (check : Text) (ps : List Process) (m : Map (List Text))
    → is_some (lookup check (users_of ps m)) ≡ (is_some (lookup check m) || is_used check ps)
unfolding users_of
users_of_some check [] m = ground arith
users_of_some check (p ∷ ps) m = ground (
  arith,
  users_of_some check ps (add_users (checks_of p) (proc_name p) m),
  add_users_some (checks_of p) (proc_name p) check m,
  checks_of-contains p check,
)

keys_some : {V : Type 0} (m : Map V) (k : Text) → contains (keys m) k ≡ is_some (lookup k m)
unfolding contains lookup
keys_some [] k = refl
keys_some ((j, v) ∷ m) k = ground (arith, keys_some m k)

sort-contains : (xs : List Text) (x : Text) → contains (sort xs) x ≡ contains xs x
sort-contains xs x =
    ground (arith, contains-count xs x, contains-count (sort xs) x, count-sort x xs)

any-skip_same :
    (p : Text → Bool) (x : Text) (ys : List Text)
    → (p x || any p (skip_same x ys)) ≡ (p x || any p ys)
any-skip_same p x [] = refl
any-skip_same p x (y ∷ ys) = elim (Bool-cases (x == y)) [
  | inl same ↦ ground (arith, any-skip_same p x ys, ap p (==→eq x y same))
  | inr differ ↦ ground (arith, any-skip_same p y ys)
]

compact_keeps : (p : Text → Bool) (xs : List Text) → any p (compact xs) ≡ any p xs
unfolding compact
compact_keeps p [] = refl
compact_keeps p (x ∷ xs) = any-skip_same p x xs

-- What is left of a check by the loop over the names.
lookup-visit_check :
    (excluded : List Text) (name check : Text) (users : List Text) (o : Option CheckConfig)
    (d : Dropping)
    → lookup name d.0 ≡ o
    → lookup check (visit_check excluded name users o d).0
      ≡ (if name == check && not (any_kept excluded users) then none else lookup check d.0)
lookup-visit_check excluded name check users none d e = elim (Bool-cases (name == check)) [
  | inl same ↦ missing (ap (λ k. lookup k d.0) (sym (==→eq name check same)) ∙ e)
  | inr differ ↦ ground (arith, differ)
]
  where
    missing :
        lookup check d.0 ≡ none
        → lookup check d.0
          ≡ (if name == check && not (any_kept excluded users) then none else lookup check d.0)
    missing gone = ground (arith, gone)
lookup-visit_check excluded name check users (some c) d e =
    ground (arith, lookup-remove name check d.0)

lookup-visit_checks :
    (excluded : List Text) (users : Map (List Text)) (names : List Text) (check : Text)
    (d : Dropping)
    → lookup check (visit_checks excluded users names d).0 ≡ (
        if contains names check && not (any_kept excluded (or_nobody (lookup check users)))
        then none
        else lookup check d.0)
unfolding visit_checks contains
lookup-visit_checks excluded users [] check d = refl
lookup-visit_checks excluded users (name ∷ names) check d =
    let mine = compact (sort (or_nobody (lookup name users))) in
    let rest =
      lookup-visit_checks excluded users names check
        (visit_check excluded name mine (lookup name d.0) d) in
    let here = lookup-visit_check excluded name check mine (lookup name d.0) d refl in
    elim (Bool-cases (name == check)) [
      | inl same ↦ ground (arith, rest, here, same, kept (==→eq name check same))
      | inr differ ↦ ground (arith, rest, here, differ)
    ]
  where
    kept :
        name ≡ check
        → any_kept excluded (compact (sort (or_nobody (lookup name users))))
          ≡ any_kept excluded (or_nobody (lookup check users))
    kept same =
        compact_keeps (is_kept excluded) (sort (or_nobody (lookup name users)))
        ∙ any-sort (is_kept excluded) (or_nobody (lookup name users))
        ∙ ap (λ k. any_kept excluded (or_nobody (lookup k users))) same

-- A check is dropped exactly if some process names it, in on-check-failure or as its ready-check, and
-- every process that names it is excluded; every other check stays as it was.
pub exclude_orphaned_checks-dropped :
    (ps : List Process) (checks : Map CheckConfig) (excluded : List Text) (check : Text)
    → lookup check (exclude_orphaned_checks ps checks excluded).0 ≡ (
        if is_used check ps && not (is_used_by_kept excluded check ps)
        then none
        else lookup check checks)
unfolding exclude_orphaned_checks
exclude_orphaned_checks-dropped ps checks excluded check =
    let users = users_of ps [] in
    ground (
      arith,
      lookup-visit_checks excluded users (sort (keys users)) check (checks, []),
      sort-contains (keys users) check,
      keys_some users check,
      users_of_some check ps [],
      users_of_kept excluded check ps [],
    )
