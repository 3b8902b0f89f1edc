-- ===== src/Launch/Tests.antt =====
-- The start of a frontend on concrete arguments.
use fe_gem.Common.{
  ◌≤◌, ◌≢◌, ◌≡◌, refl, true, false, some, none, [], ◌∷◌, ◌++◌, Bytes, codes, replicate,
}
use fe_gem.Hosts.Registry.{AllowedHosts}
use fe_gem.Server.State.{unknown, handle_begin_run, ok, undefined}
use fe_gem.Server.Commands.{atoi}
use fe_gem.Supervisor.Ports.{fresh}
use fe_gem.Supervisor.Workers.{build_frontend_name}
use fe_gem.Frontend.State.{Frontend}
use fe_gem.Frontend.Connections.{IsReady, here, next, begun}
use fe_gem.Launch.Arguments.{
  Options, parse_arguments, parse_arguments_named, default_options, frontend_name,
}
use fe_gem.Launch.SettingsPath.{settings_path}
use fe_gem.Launch.Worker.{allocated, new_worker, init_worker, Settings, RunInfo}
use fe_gem.Launch.Status.{clear_statuses}
use fe_gem.Launch.Start.{Environment, start, start_worker, start-IsReady}

parse_arguments_named_example :
    (parse_arguments
        (codes "feGEM.exe")
        (codes "--client" ∷ codes "lab" ∷ codes "--max_event_size" ∷ codes "20000" ∷ [])
      ≡ ok (record { supervisor_mode = false; client = codes "lab"; max_event_size = 20_000 }))
    × (parse_arguments
          (codes "feGEM.exe")
          (codes "--client" ∷ codes "lab" ∷ codes "--max_event_size" ∷ [])
        ≡ undefined)
unfolding atoi
parse_arguments_named_example =
    parse_arguments_named (codes "feGEM.exe") (codes "lab") (codes "20000") 20_000 refl refl refl
      refl refl

negative_run : (atoi (codes " -5") ≡ ok 4_294_967_291) × (atoi (codes "-0") ≡ ok 0)
unfolding atoi
negative_run = (refl, refl)

name_run : frontend_name default_options ≡ codes "feGEM"
unfolding frontend_name
name_run = refl

-- A directory is what stands before the last slash.
path_run :
    settings_path (codes "/opt/bin/feGEM.exe" ++ replicate 200 0)
    ≡ some (codes "/opt/bin/SettingsDatabase")
unfolding settings_path
path_run = refl

statuses_run :
    clear_statuses (codes "lab" ∷ [])
    ≡ (codes "Equipment/feGEM_lab/Common/Status", codes "feGEM thread not running")
      ∷ (codes "Equipment/feGEM_lab/Common/Status color", codes "mgray")
      ∷ []
unfolding clear_statuses build_frontend_name
statuses_run = refl

abbrev no_hosts : AllowedHosts
no_hosts = record {
  allowed_hosts = [];
  questionable_hosts = [];
  banned_hosts = [];
  allow_self_registration = false;
  odb_calls = [];
}

abbrev last_run : RunInfo
last_run = record { run_number = 7; start_time = 1; stop_time = 2 }

abbrev defaults : Settings
defaults = record {
  settings_cache_path = none;
  odb_event_size = some 10_000;
  elog_post_size_limit = none;
  elog_hostname = none;
}

abbrev exe : Bytes
exe = codes "/opt/bin/feGEM.exe" ++ replicate 200 0

abbrev environment : Environment
environment = record {
  supervisor_port = some 12_346;
  settings = defaults;
  run = last_run;
  hosts = no_hosts;
  workers = fresh 12_345;
  this_hostname = codes "midas";
  exe = exe;
  behind = [];
  garbage = 0;
  unset = record {
    run_status = unknown;
    runno = 0;
    run_start_t = 0;
    run_stop_t = 0;
    last_event_size = 0;
  };
  bound = true;
}

abbrev options : Options
options = record { supervisor_mode = false; client = codes "lab"; max_event_size = 20_000 }

abbrev lab_thread : Frontend
lab_thread = elim (start_worker options environment) [
  | ok s ↦ s
  | _ ↦ new_worker [] no_hosts [] [] [] 0 last_run (fresh 1) 0
]

lab_started : start options environment ≡ ok lab_thread
unfolding start start_worker init_worker
lab_started = refl

abbrev running_thread : Frontend
running_thread = record lab_thread { server = handle_begin_run 8 3 lab_thread.server }

start-IsReady_example :
    IsReady running_thread
    × (lab_thread.server.event_size ≤ running_thread.server.event_size)
    × (options.max_event_size ≢ 0 → lab_thread.server.event_size ≡ options.max_event_size)
start-IsReady_example =
    start-IsReady {s = lab_thread} {t = running_thread} options environment lab_started
      (next here (begun 8 3))

lab_thread_run :
    (lab_thread.buffer_size ≡ 20_000)
    × (lab_thread.settings_database ≡ some (codes "/opt/bin/SettingsDatabase"))
unfolding start_worker init_worker new_worker settings_path allocated
lab_thread_run = (refl, refl)
