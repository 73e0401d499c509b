-- ===== src/Config/Conditions.antt =====
-- conditionEnvUnmet and excludeOrphanedChecks of internal/yml/config.go. A reason is what it names,
-- without the rendered text.
use gopherd.Config.{CheckConfig, Exclusion, DroppedCheck}
use gopherd.Prelude.Maps.{Map, lookup, insert, remove}
use gopherd.Prelude.{
  Text, ◌==◌, text_discrete, Bool, not, Option, none, some, List, [], ◌∷◌, ◌++◌, if◌then◌else◌,
  contains, sort, any,
}
use gopherd.Service.Process.{Process, proc_name}

abbrev pub keys : {V : Type 0} → Map V → List Text
keys [] = []
keys ((k, v) ∷ m) = k ∷ keys m

abbrev pub or_empty : Option Text → Text
or_empty none = []
or_empty (some v) = v

-- The first key, in order, whose variable does not have the value that is wanted.
unfoldable pub first_unmet :
    (env : Map Text) → (wanted : Map Text) → (name : Text) → List Text → Option Exclusion
unfolding lookup
first_unmet env wanted name [] = none
first_unmet env wanted name (k ∷ ks) =
    let rest = first_unmet env wanted name ks in
    let want = or_empty (lookup k wanted) in
    if or_empty (lookup k env) == want
    then rest
    else some (record { name = name; variable = k; wanted = want })

unfoldable pub condition_env_unmet :
    (env : Map Text) → (wanted : Map Text) → (name : Text) → Option Exclusion
unfolding first_unmet sort
condition_env_unmet env wanted name = first_unmet env wanted name (sort (keys wanted))

-- users[check] = append(users[check], name)
abbrev pub append_user : Option (List Text) → Text → List Text
append_user none name = name ∷ []
append_user (some names) name = names ++ name ∷ []

abbrev pub add_user : (check name : Text) → Map (List Text) → Map (List Text)
add_user check name m = insert check (append_user (lookup check m) name) m

-- What a process names in on-check-failure, and its ready-check.
abbrev pub add_users : List Text → (name : Text) → Map (List Text) → Map (List Text)
add_users [] name m = m
add_users (c ∷ cs) name m = add_users cs name (add_user c name m)

abbrev pub ready_checks : (ready_check : Text) → List Text
ready_checks [] = []
ready_checks (c ∷ s) = (c ∷ s) ∷ []

abbrev pub checks_of : Process → List Text
checks_of p = keys p.on_check_failure ++ ready_checks p.ready_check

unfoldable pub users_of : List Process → Map (List Text) → Map (List Text)
unfolding lookup insert proc_name
users_of [] m = m
users_of (p ∷ ps) m = users_of ps (add_users (checks_of p) (proc_name p) m)

-- slices.Compact
abbrev pub skip_same : Text → List Text → List Text
skip_same x [] = []
skip_same x (y ∷ ys) =
    let rest = skip_same x ys in let other = y ∷ skip_same y ys in if x == y then rest else other

unfoldable pub compact : List Text → List Text
unfolding text_discrete
compact [] = []
compact (x ∷ xs) = x ∷ skip_same x xs

-- slices.ContainsFunc(procs, func(p string) bool { return !excluded[p] })
abbrev pub is_kept : (excluded : List Text) → Text → Bool
is_kept excluded p = not (contains excluded p)

abbrev pub any_kept : (excluded : List Text) → List Text → Bool
any_kept excluded ps = any (is_kept excluded) ps

-- What the loop knows: the checks that are left, and those that it dropped, in order.
abbrev pub Dropping : Type 0
Dropping = Map CheckConfig × List DroppedCheck

abbrev pub drop_check : (name : Text) → (users : List Text) → Dropping → Dropping
drop_check name users (checks, dropped) =
    (remove name checks, dropped ++ record { name = name; users = users } ∷ [])

abbrev pub visit_check :
    (excluded : List Text)
    → (name : Text) → (users : List Text) → Option CheckConfig
    → Dropping
    → Dropping
visit_check excluded name users none d = d
visit_check excluded name users (some c) d =
    let dropped = drop_check name users d in if any_kept excluded users then d else dropped

abbrev pub or_nobody : Option (List Text) → List Text
or_nobody none = []
or_nobody (some names) = names

unfoldable pub visit_checks :
    (excluded : List Text) → (users : Map (List Text)) → (names : List Text) → Dropping → Dropping
unfolding lookup remove sort compact contains
visit_checks excluded users [] d = d
visit_checks excluded users (name ∷ names) d =
    visit_checks excluded users names (
      visit_check excluded name (compact (sort (or_nobody (lookup name users)))) (lookup name d.0)
        d)

unfoldable pub exclude_orphaned_checks :
    List Process → Map CheckConfig → (excluded : List Text) → Dropping
unfolding users_of visit_checks sort
exclude_orphaned_checks ps checks excluded =
    let users = users_of ps [] in visit_checks excluded users (sort (keys users)) (checks, [])
