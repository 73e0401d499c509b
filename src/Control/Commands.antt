-- ===== src/Control/Commands.antt =====
-- control/server.go: the dispatch of a command to the callbacks of the server.
use gopherd.Prelude.Int.{ℤ, pos, is_positive, exceeds}
use gopherd.Prelude.{
  Text, codes, ◌==◌, text_discrete, Bool, true, false, not, Option, none, some, List, [], ◌∷◌,
  if◌then◌else◌, ◌≡◌, arith, ◌⊎◌,
}
use gopherd.Control.{
  ActionOptions, FlagError, Flags, flags, flag_error, wire, extract_wait_flags, max_wait_timeout,
  extract_wait_flags-wire,
}

-- parseStatusArgs: the service, if any, and whether the format is json.
pub data StatusArgs : Type 0 where
  status_args : (service : Text) (json : Bool) → StatusArgs
  no_format extra_name unknown_format : StatusArgs

unfoldable pub parse_status_args : List Text → (service : Text) → (json : Bool) → StatusArgs
unfolding text_discrete
parse_status_args [] service json = status_args service json
parse_status_args (arg ∷ []) service json =
    if arg == codes "-o"
    then no_format
    else if not (service == [])
    then extra_name
    else status_args arg json
parse_status_args (arg ∷ value ∷ args) service json =
    let formatted = parse_status_args args service true in
    let named = parse_status_args (value ∷ args) arg json in
    if arg == codes "-o"
    then (if not (value == codes "json") then unknown_format else formatted)
    else if not (service == [])
    then extra_name
    else named

-- Which callbacks of the server are set.
pub record Callbacks : Type 0 where
  pub stats : Bool
  pub stats_json : Bool
  pub status : Bool
  pub status_json : Bool
  pub start : Bool
  pub stop : Bool
  pub restart : Bool
  pub signal : Bool
  pub reload : Bool

pub data Action : Type 0 where
  start stop restart : Action

-- What a command comes to: the call of a callback, or an error reply.
pub data Dispatch : Type 0 where
  overview overview_json reload : Dispatch
  status status_json : (service : Text) → Dispatch
  act : Action → (service : Text) → ActionOptions → Dispatch
  signal : (service name : Text) → Dispatch
  empty_command no_service no_signal not_supported unknown_command bad_status : Dispatch
  unexpected_argument : Text → Dispatch
  bad_flags : FlagError → Dispatch

abbrev supported : Bool → Dispatch → Dispatch
supported b d = if b then d else not_supported

abbrev status_of : Callbacks → StatusArgs → Dispatch
status_of fs (status_args service json) =
    if service == []
    then (if json then supported fs.stats_json overview_json else supported fs.stats overview)
    else if json
    then supported fs.status_json (status_json service)
    else supported fs.status (status service)
status_of fs _ = bad_status

abbrev pub is_set : Callbacks → Action → Bool
is_set fs start = fs.start
is_set fs stop = fs.stop
is_set fs restart = fs.restart

abbrev act_of : Callbacks → Action → Text → Flags → Dispatch
act_of fs a name (flag_error e) = bad_flags e
act_of fs a name (flags (extra ∷ rest) opts) = unexpected_argument extra
act_of fs a name (flags [] opts) = supported (is_set fs a) (act a name opts)

abbrev action_of : Text → Option Action
action_of cmd =
    if cmd == codes "start"
    then some start
    else if cmd == codes "stop"
    then some stop
    else if cmd == codes "restart"
    then some restart
    else none

abbrev on_action : (Text → Option ℤ) → Callbacks → Action → List Text → Dispatch
on_action parse fs a [] = no_service
on_action parse fs a (name ∷ args) = act_of fs a name (extract_wait_flags parse args)

abbrev on_signal : Callbacks → List Text → Dispatch
on_signal fs (name ∷ sig ∷ args) = supported fs.signal (signal name sig)
on_signal fs _ = no_signal

-- handleCommand
unfoldable pub handle_command : (Text → Option ℤ) → Callbacks → List Text → Dispatch
unfolding parse_status_args extract_wait_flags text_discrete
handle_command parse fs [] = empty_command
handle_command parse fs (cmd ∷ args) =
    if cmd == codes "status"
    then status_of fs (parse_status_args args [] false)
    else elim (action_of cmd) [
      | some a ↦ on_action parse fs a args
      | none ↦
          if cmd == codes "signal"
          then on_signal fs args
          else if cmd == codes "reload"
          then supported fs.reload reload
          else unknown_command
    ]

-- The name of an action, as a client sends it.
abbrev pub name_of : Action → Text
name_of start = codes "start"
name_of stop = codes "stop"
name_of restart = codes "restart"

-- A client's `start`, `stop` or `restart` of a service, with its options on the wire, reaches the
-- callback of that action with that service and these options, if the callback is set, the daemon
-- reads a duration as it was written, and the options wait, for no time or a time within the limit.
pub handle_command-wire :
    (print : ℤ → Text) (parse : Text → Option ℤ) (fs : Callbacks) (a : Action) (name : Text)
    (o : ActionOptions)
    → ((d : ℤ) → is_positive d ≡ true → parse (print d) ≡ some d)
    → o.wait ≡ true
    → (o.timeout ≡ pos 0)
      ⊎ (is_positive o.timeout ≡ true) × (exceeds o.timeout max_wait_timeout ≡ false)
    → is_set fs a ≡ true
    → handle_command parse fs (name_of a ∷ name ∷ wire print o) ≡ act a name o
unfolding handle_command
handle_command-wire print parse fs start name o reads w ok set =
    ground (arith, extract_wait_flags-wire print parse o reads w ok)
handle_command-wire print parse fs stop name o reads w ok set =
    ground (arith, extract_wait_flags-wire print parse o reads w ok)
handle_command-wire print parse fs restart name o reads w ok set =
    ground (arith, extract_wait_flags-wire print parse o reads w ok)
