-- ===== src/ExitAction.antt =====
-- service/service.go: what to do when a process exits, and the reading of its name.
use gopherd.Prelude.{
  Text, codes, ◌==◌, text_discrete, Bool, true, false, Option, none, some, [], if◌then◌else◌, ◌≡◌,
  refl, arith, ◌⊎◌, Option-cases, inl, inr,
}

pub data ExitAction : Type 0 where
  restart shutdown success_shutdown failure_shutdown ignore : ExitAction

-- The string constants.
abbrev pub name_of : ExitAction → Text
name_of restart = codes "restart"
name_of shutdown = codes "shutdown"
name_of success_shutdown = codes "success-shutdown"
name_of failure_shutdown = codes "failure-shutdown"
name_of ignore = codes "ignore"

-- The cases of the switch that name an action.
unfoldable pub action_of : Text → Option ExitAction
unfolding text_discrete
action_of s =
    if s == name_of restart
    then some restart
    else if s == name_of shutdown
    then some shutdown
    else if s == name_of success_shutdown
    then some success_shutdown
    else if s == name_of failure_shutdown
    then some failure_shutdown
    else if s == name_of ignore
    then some ignore
    else none

-- The action, and whether an error comes with it.
unfoldable pub parse_exit_action : Text → ExitAction → ExitAction × Bool
unfolding action_of
parse_exit_action s default = elim (action_of s) [
  | some a ↦ (a, false)
  | none ↦ if s == [] then (default, false) else (default, true)
]

-- Whether the name is accepted.
unfoldable pub validate_exit_action : Text → Bool
unfolding action_of
validate_exit_action s = elim (action_of s) [ some a ↦ true | none ↦ s == [] ]

-- Each constant is read back as itself, whatever the default.
pub parse_exit_action-name_of :
    (a default : ExitAction) → parse_exit_action (name_of a) default ≡ (a, false)
unfolding parse_exit_action
parse_exit_action-name_of restart default = refl
parse_exit_action-name_of shutdown default = refl
parse_exit_action-name_of success_shutdown default = refl
parse_exit_action-name_of failure_shutdown default = refl
parse_exit_action-name_of ignore default = refl

-- Reading a name fails exactly if validation rejects it, and then gives the default.
pub parse_exit_action-validate :
    (s : Text) (default : ExitAction)
    → (validate_exit_action s ≡ true) × ((parse_exit_action s default).1 ≡ false)
      ⊎ (validate_exit_action s ≡ false) × (parse_exit_action s default ≡ (default, true))
unfolding parse_exit_action validate_exit_action
parse_exit_action-validate s default = elim (Option-cases (action_of s)) [
  | inl e ↦ rw (e, parse_exit_action, validate_exit_action) (ground arith)
  | inr (a, e) ↦ rw (e, parse_exit_action, validate_exit_action) (inl (refl, refl))
]
