-- ===== src/Control.antt =====
-- control/options.go: the flags of a command.
-- ParseDuration and String of Go's time.Duration are parameters; a duration is in nanoseconds.
pub mod Client
pub mod Commands
mod Samples
use gopherd.Prelude.Int.{ℤ, pos, negsuc, is_positive, exceeds}
use gopherd.Prelude.{
  ℕ, zero, suc, ◌*◌, ◌≤◌, ◌<◌, Text, codes, ◌==◌, text_discrete, Bool, true, false, ◌&&◌, not,
  Option, none, some, List, [], ◌∷◌, ◌++◌, if◌then◌else◌, ◌≡◌, refl, arith, ◌⊎◌, inl, inr,
  Option-cases, Bool-cases,
}

-- MaxWaitTimeout
abbrev pub max_wait_timeout : ℕ
max_wait_timeout = 300000000000

pub record ActionOptions : Type 0 where
  pub timeout : ℤ
  pub wait : Bool

abbrev no_options : ActionOptions
no_options = record { timeout = pos 0; wait = false }

-- The tokens of the result of `wire`.
unfoldable pub wire : (ℤ → Text) → ActionOptions → List Text
wire print o =
    if not o.wait
    then []
    else if is_positive o.timeout
    then codes "--wait" ∷ codes "--timeout" ∷ print o.timeout ∷ []
    else codes "--wait" ∷ []

pub data FlagError : Type 0 where
  no_duration not_positive too_long needs_wait : FlagError
  bad_duration : Text → FlagError

pub data Flags : Type 0 where
  flags : (positional : List Text) → ActionOptions → Flags
  flag_error : FlagError → Flags

-- A duration that the flag accepts.
unfoldable pub check_timeout : (Text → Option ℤ) → Text → ℤ ⊎ FlagError
check_timeout parse arg = elim (parse arg) [
  | none ↦ inr (bad_duration arg)
  | some d ↦
      if not (is_positive d)
      then inr not_positive
      else if exceeds d max_wait_timeout
      then inr too_long
      else inl d
]

-- The loop of extractWaitFlags.
unfoldable pub extract_from : (Text → Option ℤ) → List Text → List Text → ActionOptions → Flags
unfolding check_timeout text_discrete
extract_from parse [] positional opts =
    if is_positive opts.timeout && not opts.wait
    then flag_error needs_wait
    else flags positional opts
extract_from parse (arg ∷ []) positional opts =
    if arg == codes "--wait"
    then extract_from parse [] positional (record opts { wait = true })
    else if arg == codes "--timeout"
    then flag_error no_duration
    else extract_from parse [] (positional ++ arg ∷ []) opts
extract_from parse (arg ∷ value ∷ args) positional opts =
    if arg == codes "--wait"
    then extract_from parse (value ∷ args) positional (record opts { wait = true })
    else if arg == codes "--timeout"
    then elim (check_timeout parse value) [
      | inr e ↦ flag_error e
      | inl d ↦ extract_from parse args positional (record opts { timeout = d })
    ]
    else extract_from parse (value ∷ args) (positional ++ arg ∷ []) opts

unfoldable pub extract_wait_flags : (Text → Option ℤ) → List Text → Flags
unfolding extract_from
extract_wait_flags parse args = extract_from parse args [] no_options

-- What the options of a client look like: a timeout within the limits, only together with the wait.
abbrev pub IsWithin : ActionOptions → Type 0
IsWithin o =
    ((o.timeout ≡ pos 0)
      ⊎ (is_positive o.timeout ≡ true) × (exceeds o.timeout max_wait_timeout ≡ false))
    × (is_positive o.timeout ≡ true → o.wait ≡ true)

-- The options that the extraction accepts, on any words, are within the limits.
extract_from-IsWithin :
    (parse : Text → Option ℤ) (args positional : List Text) (opts : ActionOptions)
    → (opts.timeout ≡ pos 0)
      ⊎ (is_positive opts.timeout ≡ true) × (exceeds opts.timeout max_wait_timeout ≡ false)
    → (rest : List Text) (o : ActionOptions)
    → extract_from parse args positional opts ≡ flags rest o
    → IsWithin o
unfolding extract_from check_timeout
extract_from-IsWithin parse [] positional opts ok rest o h = ground arith
extract_from-IsWithin parse (arg ∷ []) positional opts ok rest o h = ground (
  arith,
  extract_from-IsWithin parse [] positional (record opts { wait = true }) ok rest o,
  extract_from-IsWithin parse [] (positional ++ arg ∷ []) opts ok rest o,
)
extract_from-IsWithin parse (arg ∷ value ∷ args) positional opts ok rest o h =
    let waits =
      extract_from-IsWithin parse (value ∷ args) positional (record opts { wait = true }) ok rest
        o in
    let skips =
      extract_from-IsWithin parse (value ∷ args) (positional ++ arg ∷ []) opts ok rest o in
    elim (Option-cases (parse value)) [
      | inl e ↦ ground (arith, waits, skips)
      | inr (d, e) ↦ elim (Bool-cases (is_positive d)) [
        | inr n ↦ ground (arith, waits, skips)
        | inl p ↦ elim (Bool-cases (exceeds d max_wait_timeout)) [
          | inl x ↦ ground (arith, waits, skips)
          | inr x ↦ ground (
            arith,
            waits,
            skips,
            extract_from-IsWithin parse args positional (record opts { timeout = d }) (inr (p, x))
                rest o,
          )
        ]
      ]
    ]

-- Whatever the words of a command are and however durations are read: options that are accepted have
-- no timeout, or one that is positive, within the limit, and together with the wait.
pub extract_wait_flags-IsWithin :
    (parse : Text → Option ℤ) (args rest : List Text) (o : ActionOptions)
    → extract_wait_flags parse args ≡ flags rest o
    → IsWithin o
unfolding extract_wait_flags
extract_wait_flags-IsWithin parse args rest o h =
    extract_from-IsWithin parse args [] no_options (inl refl) rest o h

-- The options that a client sends arrive as they are, if the daemon reads a duration as it was
-- written.
pub extract_wait_flags-wire :
    (print : ℤ → Text) (parse : Text → Option ℤ) (o : ActionOptions)
    → ((d : ℤ) → is_positive d ≡ true → parse (print d) ≡ some d)
    → o.wait ≡ true
    → (o.timeout ≡ pos 0)
      ⊎ (is_positive o.timeout ≡ true) × (exceeds o.timeout max_wait_timeout ≡ false)
    → extract_wait_flags parse (wire print o) ≡ flags [] o
unfolding extract_wait_flags extract_from check_timeout wire
extract_wait_flags-wire print parse o reads w ok = ground (arith, reads o.timeout)
