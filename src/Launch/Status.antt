-- ===== src/Launch/Status.antt =====
-- The constructor and Init of src/feGEMSupervisor.cxx.
use fe_gem.Common.{ℕ, Bool, Option, none, List, [], ◌∷◌, ◌++◌, Bytes, codes, ◌==◌, if◌then◌else◌}
use fe_gem.History.Logger.{new_logger}
use fe_gem.Hosts.Registry.{AllowedHosts}
use fe_gem.Message.Queue.{empty_handler}
use fe_gem.Periodicity.Manager.{initial}
use fe_gem.Server.State.{supervisor, RunStatus, Run, aborted, exited}
use fe_gem.Supervisor.Workers.{Supervisor, build_frontend_name}
use fe_gem.Frontend.State.{Frontend}
use fe_gem.Launch.Worker.{allocated, or_default}

-- The writes for the hosts of the worker list: no frontend is running yet.
unfoldable pub clear_statuses : List Bytes → List (Bytes × Bytes)
clear_statuses [] = []
clear_statuses (host ∷ hosts) =
    let odb_path = codes "Equipment/" ++ (build_frontend_name host ++ codes "/Common/Status") in
    (odb_path, codes "feGEM thread not running")
    ∷ (odb_path ++ codes " color", codes "mgray")
    ∷ clear_statuses hosts

-- What the constructor leaves as the memory had it.
pub record Unset : Type 0 where
  pub run_status : RunStatus
  pub runno : ℕ
  pub run_start_t : ℕ
  pub run_stop_t : ℕ
  pub last_event_size : ℕ

-- The supervisor's thread, with the worker list in the ODB.
unfoldable pub new_supervisor : Bytes → AllowedHosts → Bytes → Supervisor → Unset → Frontend
new_supervisor eq_name hosts this_hostname workers unset = record {
  server = record {
    class_type = supervisor;
    event_size = 10_000;
    debug_mode = 0;
    this_hostname = this_hostname;
    run_status = unset.run_status;
    runno = unset.runno;
    run_start_t = unset.run_start_t;
    run_stop_t = unset.run_stop_t;
    allowed = hosts;
    message = empty_handler;
    workers = workers;
    effects = [];
  };
  logger = new_logger eq_name [];
  periodicity = initial;
  elog_host = [];
  max_elog_post_size = none;
  settings_database = none;
  last_event_size = unset.last_event_size;
  buffer_size = 0;
  last_status_update = 0;
  calls = [];
}

-- Init, with what the ODB holds for event_size and whether the port could be bound; it gives the
-- status writes as well.
unfoldable pub init_supervisor : Option ℕ → Bool → Frontend → Run (Frontend × List (Bytes × Bytes))
unfolding clear_statuses allocated
init_supervisor odb_event_size bound s =
    let event_size = or_default odb_event_size s.server.event_size in
    let t : Frontend = record s {
      server = record s.server { event_size = event_size };
      buffer_size = event_size;
    } in
    if s.server.workers.f_port == 0
    then aborted
    else if bound
    then allocated event_size (t, clear_statuses s.server.workers.host_names)
    else exited
