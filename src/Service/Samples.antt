-- ===== src/Service/Samples.antt =====
-- Runs of service/service.go on one process.
use gopherd.Prelude.{codes, true, false, none, some, [], ◌∷◌, ◌≡◌, refl, arith, ◌+◌}
use gopherd.Prelude.Int.{pos}
use gopherd.Service.Process.{Process, process_config_changed, parse_exit_code}
use gopherd.Prelude.{Bool, Option}
use gopherd.Prelude.Outcome.{accept}
use gopherd.Service.Environment.{OpenFile}
use gopherd.Service.Templates.{text_of, expand_refs}
use gopherd.Service.New.{New, made, refused, new}
use gopherd.Service.Sound.{Makes, new-IsSound}
use gopherd.Prelude.{text_discrete, Text, List}
use gopherd.Prelude.Maps.{Map}
use gopherd.Service.Signals.{rewrite_signal, parse_umask}
use gopherd.ExitAction.{restart, ignore}
use gopherd.Service.{Service, KillTimer, kill, stop, sigkill, fire_kill_timer, signal, mark_exited}
use gopherd.Service.Lifetime.{stop_escalates}

abbrev database : Service
database = record {
  name = codes "db";
  on_success = ignore;
  on_failure = restart;
  on_check_failure = [];
  requires = [];
  proc_on_failure = [];
  exit_code_map = [];
  restart_with_dependents = false;
  startup_timeout = 0;
  enabled = true;
  oneshot = false;
  scheduled = false;
  sd_notify = false;
  log_capture = false;
  stop_signal = 15;
  kill_delay = 10;
  backoff = record { attempt = 0; at_limit = false; limit = 60 };
  has_cmd = true;
  running = true;
  stopped = false;
  pid = 7;
  done = some 0;
  starts = 1;
  listener = false;
  capture = false;
  started_at = 0;
  kill_timer = none;
  kill_pgid = 0;
  kill_deadline = 0;
}

stop_escalates_example :
    let stopped = stop 100 database in
    let gone = (mark_exited 101 stopped.0).0 in
    (stopped.1 ≡ kill 7 15 ∷ [])
    × ((t : KillTimer) × (gone.kill_timer ≡ some t)
        × (t.fires_at ≡ 100 + 10)
        × (fire_kill_timer true t ≡ kill 7 sigkill ∷ [])
        × (fire_kill_timer false t ≡ []))
    × ((stop 101 gone).1 ≡ [])
    × (signal 1 gone ≡ [])
stop_escalates_example = stop_escalates 100 101 1 database refl refl (omega arith) (omega arith)

-- A reload that arrives as SIGHUP is handed on as SIGUSR2.
handed_on : rewrite_signal ((codes "SIGHUP", codes " usr2") ∷ []) 1 ≡ some 12
unfolding rewrite_signal
handed_on = refl

mask : parse_umask (codes "0027") ≡ some 23
unfolding parse_umask
mask = refl

abbrev process : Text → List Text → Process
process name requires = record {
  user_id = none;
  group_id = none;
  environment = [];
  on_check_failure = [];
  pass_env = none;
  log_capture = none;
  export_socket = none;
  name = name;
  command = codes "/bin/run";
  working_dir = [];
  user = [];
  group = [];
  startup = [];
  stop_signal = [];
  kill_delay = [];
  on_success = [];
  on_failure = [];
  backoff_delay = [];
  backoff_limit = [];
  ready_check = [];
  ready_timeout = [];
  startup_timeout = [];
  schedule = [];
  condition_file_exists = [];
  condition_file_missing = [];
  umask = [];
  dot_env = [];
  prefix = [];
  sd_notify_timeout = [];
  parent_death_signal = [];
  exit_code_map = [];
  signal_rewrite = [];
  args = [];
  after = [];
  before = [];
  requires = requires;
  remove_env = [];
  backoff_factor = 0;
  use_entrypoint_args = false;
  sd_notify = false;
  strict_groups = false;
  dot_env_follow = false;
  restart_with_dependents = false;
}

abbrev processes : List Process
processes = process (codes "db") [] ∷ process (codes "web") (codes "db" ∷ codes "dns" ∷ []) ∷ []

-- A service whose user is set anew has to be restarted.
changed :
    process_config_changed (process [] []) (record (process [] []) { user_id = some (pos 7) })
    ≡ true
unfolding process_config_changed
changed = refl

by_name : parse_exit_code (codes " TERM") ≡ some (pos 143)
unfolding parse_exit_code
by_name = refl

new-IsSound_example :
    Makes (λ s. none) (process (codes "db") []) (new (λ s. none) (process (codes "db") []) [])
new-IsSound_example = new-IsSound (λ s. none) (process (codes "db") []) []

abbrev is_made : New → Bool
is_made (made s) = true
is_made (refused e) = false

-- A configuration without durations is accepted, one whose kill delay does not parse is not.
makes_service :
    (is_made (new (λ s. none) (process (codes "db") []) []) ≡ true)
    × (is_made (new (λ s. none) (record (process (codes "db") []) { kill_delay = codes "soon" }) [])
        ≡ false)
unfolding new
makes_service = (refl, refl)

-- A .env file of root with two entries and a comment.
abbrev env_file : Text → Option OpenFile
env_file path = some (record {
  regular = true;
  mode = 420;
  uid = 0;
  content = some (codes "# for both\nA=1\nB='2 # 3'\n");
})

abbrev file_entries : Map Text
file_entries = (codes "A", codes "1") ∷ (codes "B", codes "2 # 3") ∷ []

abbrev secret : Text
secret = codes "key={{file \"/k\" trim}} {{.MODE:-dev}}"

-- A file that holds a placeholder is put in as it is.
expanded :
    expand_refs (λ path follow. text_of (codes "{{.MODE}}\n")) [] secret
    ≡ accept (codes "key={{.MODE}} dev")
unfolding expand_refs text_discrete
expanded = refl
