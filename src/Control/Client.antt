-- ===== src/Control/Client.antt =====
-- control/client.go: the command that the client sends for its arguments. A refused argument is the
-- reason and the text in it.
use gopherd.Control.{ActionOptions, FlagError, Flags, flags, flag_error, wire, extract_wait_flags}
use gopherd.Prelude.Int.{ℤ}
use gopherd.Prelude.Outcome.{Outcome, accept, reject, ◌>>=◌, unless}
use gopherd.Prelude.Strings.{cut, join}
use gopherd.Prelude.{
  Text, codes, ◌==◌, text_discrete, Bool, true, false, ◌||◌, not, Option, none, some, List, [], ◌∷◌,
  ◌++◌, if◌then◌else◌, contains, ◌≡◌, refl,
}

pub data ClientError : Type 0 where
  unknown_format unknown_action : (text : Text) → ClientError
  bad_wait : FlagError → ClientError
  wait_not_valid usage : ClientError

abbrev service_actions : List Text
service_actions = codes "start" ∷ codes "stop" ∷ codes "restart" ∷ codes "status" ∷ []

abbrev client_commands : List Text
client_commands =
    codes "start"
    ∷ codes "stop"
    ∷ codes "restart"
    ∷ codes "status"
    ∷ codes "signal"
    ∷ codes "logs"
    ∷ codes "reload"
    ∷ []

abbrev acts_on_service : List Text → Bool
acts_on_service [] = false
acts_on_service (action ∷ args) = contains service_actions action

-- IsClientCommand
unfoldable pub is_client_command : List Text → Bool
unfolding contains text_discrete
is_client_command [] = false
is_client_command (arg ∷ args) = contains client_commands arg || acts_on_service args

-- extractOutputFlag: the other arguments, and whether the output is JSON.
unfoldable pub extract_output_flag : List Text → Outcome ClientError (List Text × Bool)
unfolding text_discrete
extract_output_flag [] = accept ([], false)
extract_output_flag (a ∷ []) = accept (a ∷ [], false)
extract_output_flag (a ∷ b ∷ args) =
    let later = extract_output_flag (b ∷ args) in
    if a == codes "-o"
    then unless (not (b == codes "json")) (unknown_format b) (accept (args, true))
    else (later >>= λ rest. accept (a ∷ rest.0, rest.1))

abbrev words : List Text → Text
words ws = join (codes " ") ws

-- The command of an action and a service, in either order.
abbrev action_command : (action name : Text) → Outcome ClientError Text
action_command action name =
    unless (not (contains service_actions action)) (unknown_action action)
      (accept (words (action ∷ name ∷ [])))

abbrev of_two : (first second : Text) → Outcome ClientError Text
of_two first second =
    if contains service_actions first
    then action_command first second
    else action_command second first

unfoldable pub build_positional_command : List Text → Outcome ClientError Text
unfolding contains join text_discrete
build_positional_command [] = reject usage
build_positional_command (a ∷ []) =
    if a == codes "status" || a == codes "reload" then accept a else reject usage
build_positional_command (a ∷ b ∷ []) =
    if a == codes "logs" then accept (words (a ∷ b ∷ [])) else of_two a b
build_positional_command (a ∷ b ∷ c ∷ []) =
    if a == codes "signal" || a == codes "logs"
    then accept (words (a ∷ b ∷ c ∷ []))
    else reject usage
build_positional_command (a ∷ b ∷ c ∷ d ∷ args) =
    if a == codes "logs" then accept (words (a ∷ b ∷ c ∷ d ∷ args)) else reject usage

abbrev before_space : Text → Option (Text × Text) → Text
before_space cmd none = cmd
before_space cmd (some (action, rest)) = action

-- waitableCommand
unfoldable pub waitable_command : Text → Bool
unfolding cut text_discrete
waitable_command cmd =
    let action = before_space cmd (cut b' ' cmd) in
    action == codes "start" || (action == codes "stop" || action == codes "restart")

abbrev with_output : (json : Bool) → Text → Text
with_output false cmd = cmd
with_output true cmd = cmd ++ codes " -o json"

abbrev with_wait : (print : ℤ → Text) → ActionOptions → Text → Outcome ClientError Text
with_wait print opts cmd =
    if opts.wait
    then unless (not (waitable_command cmd)) wait_not_valid
        (accept (cmd ++ codes " " ++ words (wire print opts)))
    else accept cmd

abbrev split_flags : Flags → Outcome ClientError (List Text × ActionOptions)
split_flags (flags rest opts) = accept (rest, opts)
split_flags (flag_error e) = reject (bad_wait e)

unfoldable pub build_client_command :
    (print : ℤ → Text) → (parse : Text → Option ℤ) → List Text → Outcome ClientError Text
unfolding extract_output_flag extract_wait_flags build_positional_command waitable_command wire join
build_client_command print parse args = extract_output_flag args >>= λ o.
    split_flags (extract_wait_flags parse o.0) >>= λ f. build_positional_command f.0 >>= λ cmd.
    with_wait print f.1 cmd >>= λ waiting. accept (with_output o.1 waiting)

-- Either order of the action and the service gives the same command.
either_order :
    (build_positional_command (codes "web" ∷ codes "start" ∷ [])
      ≡ build_positional_command (codes "start" ∷ codes "web" ∷ []))
    × (build_client_command
          (λ z. [])
          (λ s. none)
          (codes "web" ∷ codes "status" ∷ codes "-o" ∷ codes "json" ∷ [])
        ≡ accept (codes "status web -o json"))
unfolding build_positional_command build_client_command text_discrete
either_order = (refl, refl)
