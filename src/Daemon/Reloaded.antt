-- ===== src/Daemon/Reloaded.antt =====
-- reload of daemon.go: what the exchange of the services gives for one that runs and is unchanged.
use gopherd.Config.{Config}
use gopherd.Daemon.Build.{Target, Built}
use gopherd.Daemon.Reload.{Supervisor, instance_of}
use gopherd.Daemon.Swap.{cleared}
use gopherd.Prelude.Int.{ℤ}
use gopherd.Prelude.Maps.{Map, lookup}
use gopherd.Prelude.{ℕ, ◌<◌, ◌≤◌, Text, Option, some, List, [], ◌∷◌, ◌≡◌}
use gopherd.Service.New.{NewService}
use gopherd.Service.Process.{Process}

module _ (dur : Text → Option ℤ) where
  -- The instance that a name leads to, and that it is the one which was made.
  abbrev Added : Text → NewService → (u v : Supervisor) → Type 0
  Added name s u v =
      (new : ℕ) × (lookup name v.daemon.services ≡ some new)
      × (v.daemon.heap new ≡ instance_of dur s)
      × (v.made new ≡ s)
      × (u.next_id ≤ new)

-- Every instance of the map is below a number.
abbrev pub IsBelow : ℕ → Map ℕ → Type 0
IsBelow k [] = Unit {0}
IsBelow k ((n, i) ∷ m) = (i < k) × IsBelow k m

-- An instance after a reload that keeps it: what it was, but for the policies and the conditions, which
-- are those of the new configuration.
pub record IsRenewed (s : NewService) (id : ℕ) (u v : Supervisor) : Type 0 where
  pub service : v.daemon.heap id ≡ record (u.daemon.heap id) {
    on_success = s.on_success;
    on_failure = s.on_failure;
    on_check_failure = s.on_check_failure;
    requires = s.requires;
    exit_code_map = s.proc.exit_code_map;
    restart_with_dependents = s.proc.restart_with_dependents;
  }
  pub process : (v.made id).proc ≡ record (u.made id).proc {
    exit_code_map = s.proc.exit_code_map;
    signal_rewrite = s.proc.signal_rewrite;
    restart_with_dependents = s.proc.restart_with_dependents;
  }
  pub conditions :
      v.conditions id ≡ some (s.proc.condition_file_exists, s.proc.condition_file_missing)

-- What the loop starts from: the services are cleared, and the new configuration is in place.
abbrev emptied : (now : ℕ) → Config → List Target → Built → Supervisor → Supervisor
emptied now c ts built u =
    let w = cleared now c u in
    record w {
      daemon = record w.daemon { services = []; metrics = built.metrics };
      config = c;
      targets = ts;
      checkers = [];
      schedulers = [];
    }
