-- ===== src/Daemon/ReloadSamples.antt =====
-- Runs of reload of daemon.go on one service.
use gopherd.Config.{Config}
use gopherd.Config.ParseProcess.{fields_of}
use gopherd.Daemon.{continue}
use gopherd.Daemon.Build.{Built}
use gopherd.Daemon.Reload.{Supervisor, instance_of}
use gopherd.Daemon.Swap.{swap}
use gopherd.ExitAction.{restart, shutdown, ignore}
use gopherd.Logger.Writer.{new_prefix_writer}
use gopherd.Metrics.{new}
use gopherd.Prelude.Int.{ℤ, pos}
use gopherd.Prelude.{Text, codes, true, false, Option, none, [], ◌∷◌, ◌≡◌, refl}
use gopherd.Service.{Service}
use gopherd.Service.New.{NewService}
use gopherd.Service.Process.{Process}

abbrev web : Text
web = codes "web"

abbrev process : Process
process = record (fields_of none []) { name = web; command = codes "/bin/web" }

-- What New makes of it, with an action of its own for a failure.
abbrev service : NewService
service = record {
  proc = process;
  name = web;
  enabled = true;
  oneshot = false;
  scheduled = false;
  schedule = none;
  stop_signal = 15;
  kill_delay = pos 10;
  on_success = shutdown;
  on_failure = restart;
  backoff_delay = pos 0;
  backoff_limit = pos 0;
  requires = [];
  on_check_failure = [];
  log_capture = false;
  stdout = new_prefix_writer web [];
  stderr = new_prefix_writer web [];
}

abbrev no_duration : Text → Option ℤ
no_duration s = none

abbrev running : Service
running = record (instance_of no_duration service) {
  on_failure = ignore;
  has_cmd = true;
  running = true;
  pid = 7;
}

abbrev config : Config
config = record {
  checks = [];
  log_targets = [];
  excluded = [];
  excluded_checks = [];
  prefix = [];
  pass_env = none;
  log_capture = none;
  export_socket = none;
  shutdown_order = [];
  init_stop_signal = [];
  control = record { socket_path = []; socket_mode = 0 };
  processes = process ∷ [];
  no_logo = false;
  subreaper = false;
}

abbrev supervisor : Supervisor
supervisor = record {
  daemon = record {
    heap = λ i. running;
    services = (web, 0) ∷ [];
    pid_map = (7, 0) ∷ [];
    restart_pending = λ n. false;
    restarts = [];
    pending_restarts = pos 0;
    shutting_down = false;
    exit_code = pos 0;
    shutdowns = [];
    code_stores = [];
    legs = 0;
    shutdown_mode = [];
    shutdown_seq = web ∷ [];
    tail = continue;
    metrics = new;
    effects = [];
  };
  made = λ i. service;
  conditions = λ i. none;
  next_id = 1;
  config = config;
  targets = [];
  checkers = [];
  schedulers = [];
  entrypoint_args = [];
  started = true;
}

abbrev built : Built
built = record { services = (web, service) ∷ []; metrics = new }

-- The failure action is new, the pid is the old one.
abbrev reloaded : Service
reloaded = (swap no_duration 5 config (web ∷ []) [] built supervisor).0.daemon.heap 0

policies_changed : (reloaded.on_failure ≡ restart) × (reloaded.pid ≡ 7)
unfolding swap fields_of
policies_changed = (refl, refl)
