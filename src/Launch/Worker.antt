-- ===== src/Launch/Worker.antt =====
-- The constructor and Init of src/feGEMWorker.cxx: a thread as it is when its first connection comes.
use fe_gem.Common.{
  ltb, ◌^◌, ◌≡◌, ℕ, refl, Bool, Option, none, some, [], ◌∷◌, ◌++◌, arith, Bytes, codes, ◌==◌,
  if◌then◌else◌, inl,
}
use fe_gem.History.Logger.{new_logger, set_client_hostname}
use fe_gem.Hosts.Registry.{AllowedHosts}
use fe_gem.Message.Queue.{empty_handler}
use fe_gem.Periodicity.Manager.{initial}
use fe_gem.Server.State.{
  worker, unknown, info, Run, ok, aborted, undefined, defined, exited, ◌>>=◌, effect, set_fe_status,
}
use fe_gem.Server.Settled.{Ensures, Ensures-if}
use fe_gem.Frontend.Handlers.{then_Ensures}
use fe_gem.Supervisor.Workers.{Supervisor}
use fe_gem.Frontend.State.{Frontend, write_string, write_number}
use fe_gem.Frontend.Connections.{IsClean, IsReady}
use fe_gem.Launch.SettingsPath.{settings_path}

-- What the ODB says of the last run.
pub record RunInfo : Type 0 where
  pub run_number : ℕ
  pub start_time : ℕ
  pub stop_time : ℕ

-- The worker for a client; `behind` is the memory behind the name of the client, `idle_workers` the
-- part of the supervisor, which a worker has not, and `garbage` what lastEventSize holds.
unfoldable pub new_worker :
    Bytes → AllowedHosts → Bytes → Bytes → Bytes → ℕ → RunInfo → Supervisor → ℕ → Frontend
unfolding set_fe_status
new_worker eq_name hosts this_hostname client_hostname behind debug_mode run idle_workers garbage =
    record {
      server = set_fe_status (some 0) (record {
        class_type = worker;
        event_size = 10_000;
        debug_mode = debug_mode;
        this_hostname = this_hostname;
        run_status = unknown;
        runno = run.run_number;
        run_start_t = run.start_time;
        run_stop_t = run.stop_time;
        allowed = hosts;
        message = empty_handler;
        workers = idle_workers;
        effects = [];
      });
      logger = set_client_hostname client_hostname behind (new_logger eq_name []);
      periodicity = initial;
      elog_host = [];
      max_elog_post_size = some 1_000_000;
      settings_database = none;
      last_event_size = garbage;
      buffer_size = 0;
      last_status_update = 0;
      calls = [];
    }

-- What the ODB holds when Init reads it, the event size as the bit pattern of an int; `none` keeps the
-- default.
pub record Settings : Type 0 where
  pub settings_cache_path : Option Bytes
  pub odb_event_size : Option ℕ
  pub elog_post_size_limit : Option ℕ
  pub elog_hostname : Option Bytes

-- fEventBuf = malloc(fEventSize): a negative size is too large as a size_t, malloc fails, and the thread
-- reads into no buffer.
unfoldable pub allocated {ℓ} : {A : Type ℓ} → ℕ → A → Run A
allocated event_size a = if ltb event_size (2 ^ 31) then ok a else undefined

abbrev pub or_default {ℓ} : {A : Type ℓ} → Option A → A → A
or_default none d = d
or_default (some a) d = a

-- Init behind the path that it proposes, which the ODB may replace.
unfoldable pub init_at : Bytes → Settings → ℕ → Bool → Frontend → Run Frontend
unfolding set_fe_status
init_at path settings port bound s =
    let event_size = or_default settings.odb_event_size s.server.event_size in
    let server =
      record (effect (info (codes "Initialising " ++ (s.logger.eq_name ++ codes "..."))) s.server) {
        event_size = event_size;
      } in
    let t : Frontend = record s {
      server = set_fe_status (some 0) server;
      elog_host = or_default settings.elog_hostname s.elog_host;
      max_elog_post_size = elim settings.elog_post_size_limit [
        | none ↦ s.max_elog_post_size
        | some limit ↦ some limit
      ];
      settings_database = some (or_default settings.settings_cache_path path);
      last_event_size = event_size;
      buffer_size = event_size;
      calls =
          s.calls
          ++ write_string (codes "feVariables") (codes "No variables logged yet...")
            ∷ write_number (codes "DateAdded") 0
            ∷ [];
    } in
    if port == 0 then aborted else if bound then allocated event_size t else exited

-- `exe` is the memory of buf and behind it, `bound` whether the port could be bound.
unfoldable pub init_worker : Bytes → Settings → ℕ → Bool → Frontend → Run Frontend
unfolding settings_path init_at
init_worker exe settings port bound s = do
  path ← defined (settings_path exe)
  init_at path settings port bound s

pub allocated-Ensures :
    {A : Type 0} (P : A → Type 0) (event_size : ℕ) (a : A)
    → P a
    → Ensures P (allocated event_size a)
unfolding allocated
allocated-Ensures P event_size a p = Ensures-if P (ltb event_size (2 ^ 31)) (ok a) undefined p tt

pub init_worker-Ensures :
    (P : Frontend → Type 0) (exe : Bytes) (settings : Settings) (port : ℕ) (bound : Bool)
    (s : Frontend)
    → ((path : Bytes) → Ensures P (init_at path settings port bound s))
    → Ensures P (init_worker exe settings port bound s)
unfolding init_worker
init_worker-Ensures P exe settings port bound s h =
    then_Ensures P (defined (settings_path exe)) (λ path. init_at path settings port bound s) h

-- The event size is what the ODB holds.
pub init_worker-sized :
    (exe : Bytes) (settings : Settings) (port : ℕ) (bound : Bool) (s : Frontend) (n : ℕ)
    → settings.odb_event_size ≡ some n
    → Ensures (λ t. t.server.event_size ≡ n) (init_worker exe settings port bound s)
unfolding init_at set_fe_status
init_worker-sized exe settings port bound s n held =
    let sized : or_default settings.odb_event_size s.server.event_size ≡ n = rw held refl in
    init_worker-Ensures (λ t. t.server.event_size ≡ n) exe settings port bound s
      (λ path.
        Ensures-if (λ t. t.server.event_size ≡ n) (port == 0) aborted _ tt
          (Ensures-if (λ t. t.server.event_size ≡ n) bound _ exited
            (allocated-Ensures (λ t. t.server.event_size ≡ n)
              (or_default settings.odb_event_size s.server.event_size) _ sized)
            tt))

pub init_worker-IsReady :
    (exe : Bytes) (settings : Settings) (port : ℕ) (bound : Bool) (s : Frontend)
    → IsClean s
    → Ensures IsReady (init_worker exe settings port bound s)
unfolding init_at set_fe_status
init_worker-IsReady exe settings port bound s clean =
    init_worker-Ensures IsReady exe settings port bound s (λ path.
      Ensures-if IsReady (port == 0) aborted _ tt (
        Ensures-if IsReady bound _ exited
          (allocated-Ensures IsReady (or_default settings.odb_event_size s.server.event_size) _
            (clean, (omega arith, inl refl)))
          tt))

pub new_worker-IsClean :
    (eq_name : Bytes) (hosts : AllowedHosts) (this_hostname client_hostname behind : Bytes)
    (debug_mode : ℕ) (run : RunInfo) (idle_workers : Supervisor) (garbage : ℕ)
    → IsClean (
        new_worker eq_name hosts this_hostname client_hostname behind debug_mode run idle_workers
          garbage)
unfolding new_worker set_fe_status empty_handler
new_worker-IsClean eq_name hosts this_hostname client_hostname behind debug_mode run idle_workers
      garbage =
    (refl, refl)
