-- ===== src/Daemon/Actions.antt =====
-- run.go: the actions that the configuration names for an exit, and what they leave behind.
use gopherd.Prelude.Int.{ℤ, pos, is_zero}
use gopherd.Prelude.{ℕ, true, [], ◌∷◌, ◌++◌, if◌then◌else◌, ◌≡◌}
use gopherd.ExitAction.{ExitAction, restart, shutdown, success_shutdown, failure_shutdown, ignore}
use gopherd.Service.{Service, is_closed}
use gopherd.Daemon.{Daemon, RestartReq, store}
use gopherd.Daemon.Requirers.{StopsRequirers}

-- The action that the configuration names for an exit of a service that runs until it ends.
abbrev pub configured : Service → ℤ → ExitAction
configured s code = if is_zero code then s.on_success else s.on_failure

-- A request for a restart of the instance `id` is queued behind the others; its wait is over.
abbrev Queued : ℕ → Daemon → Daemon → RestartReq → Type 0
Queued id d e r =
    (e.restarts ≡ d.restarts ++ r ∷ [])
    × (r.service ≡ id)
    × (is_closed (e.heap id) r.done ≡ true)
    × (e.tail ≡ d.tail)
    × (e.shutdowns ≡ d.shutdowns)

-- What an action leaves behind, in a daemon whose last reap left the loop going.
abbrev pub Acted : ℕ → ExitAction → ℤ → Daemon → Daemon → Type 0
Acted id restart code d e = (r : RestartReq) × Queued id d e r
Acted id shutdown code d e =
    (e.restarts ≡ d.restarts) × (e.tail ≡ store code) × (e.shutdowns ≡ d.shutdowns)
Acted id failure_shutdown code d e =
    (e.restarts ≡ d.restarts) × (e.tail ≡ store code) × (e.shutdowns ≡ d.shutdowns)
Acted id success_shutdown code d e =
    (e.restarts ≡ d.restarts) × (e.tail ≡ d.tail) × (e.shutdowns ≡ d.shutdowns ++ pos 0 ∷ [])
Acted id ignore code d e =
    (e.restarts ≡ d.restarts) × (e.tail ≡ d.tail) × (e.shutdowns ≡ d.shutdowns)

-- The requests, the shutdowns and what is left to the loop are the same.
abbrev SamePlans : Daemon → Daemon → Type 0
SamePlans d e =
    (e.restarts ≡ d.restarts)
    × (e.tail ≡ d.tail)
    × (e.shutdowns ≡ d.shutdowns)
    × ((j : ℕ) → (e.heap j).done ≡ (d.heap j).done)

-- What a reap of a service that ended by itself leaves behind.
pub record IsApplied (id : ℕ) (a : ExitAction) (code : ℤ) (d e : Daemon) : Type 0 where
  pub acted : Acted id a code d e
  pub others : StopsRequirers id code d e
