-- ===== src/Control/Samples.antt =====
-- Runs of control/options.go and control/server.go, where a duration is written in unary.
use gopherd.Prelude.Int.{ℤ, pos, negsuc, is_positive}
use gopherd.Prelude.{Text, codes, true, Option, none, some, [], ◌∷◌, ◌≡◌, refl, inr}
use gopherd.Control.{ActionOptions, wire}
use gopherd.Control.Commands.{Callbacks, handle_command, act, restart, name_of, handle_command-wire}

-- A way to write and read durations.
abbrev print : ℤ → Text
print (pos n) = n ∷ []
print (negsuc n) = []

abbrev parse : Text → Option ℤ
parse (n ∷ []) = some (pos n)
parse _ = none

parse-print : (d : ℤ) → is_positive d ≡ true → parse (print d) ≡ some d
parse-print (pos n) h = refl
parse-print (negsuc n) h = absurd (cc)

abbrev patient : ActionOptions
patient = record { timeout = pos 15000000000; wait = true }

abbrev all_set : Callbacks
all_set = record {
  stats = true;
  stats_json = true;
  status = true;
  status_json = true;
  start = true;
  stop = true;
  restart = true;
  signal = true;
  reload = true;
}

handle_command-wire_example :
    handle_command parse all_set (name_of restart ∷ codes "web" ∷ wire print patient)
    ≡ act restart (codes "web") patient
handle_command-wire_example =
    handle_command-wire print parse all_set restart (codes "web") patient parse-print refl
      (inr (refl, refl)) refl
