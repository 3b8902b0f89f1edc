-- ===== src/Frontend/Samples.antt =====
-- A client, a bank of one number and a thread that is ready for it (src/feGEMClass.cxx).
use fe_gem.Common.{
  ◌+◌, ◌-◌, ◌≡◌, refl, false, some, none, [], ◌∷◌, ◌++◌, Bytes, codes, length, replicate,
}
use fe_gem.Bank.Layout.{
  gem_bank, gem_bank_at, field, get_data_entry, get_last_data_entry, get_category_name,
  get_variable_name, get_entries, get_total_size,
}
use fe_gem.Bank.Time.{be_bytes, le_value, unix_offset, get_unix_timestamp}
use fe_gem.History.Variable.{is_too_early, described, last_time, update_variable, new_variable}
use fe_gem.History.Logger.{HistoryLogger, find_variable, update}
use fe_gem.Hosts.Registry.{new_host}
use fe_gem.Periodicity.Manager.{
  PeriodicityManager, initial, log_periodic_with_data, add_banks_processed,
  write_gem_bank_statistics,
}
use fe_gem.Server.State.{worker, unknown}
use fe_gem.Server.Reading.{bytes}
use fe_gem.Supervisor.Arrays.{odb}
use fe_gem.Supervisor.Ports.{fresh}
use fe_gem.Frontend.State.{Frontend, World}
use fe_gem.Frontend.Serve.{connection, Visit}

-- A bank with one entry, sent at a Unix time.
abbrev pub bank_memory : Bytes → Bytes → Bytes → Bytes → Bytes
bank_memory datatype category name contents =
    codes "GEB1"
    ++ datatype
    ++ category
    ++ replicate (16 - length category) 0
    ++ name
    ++ replicate (16 - length name) 0
    ++ replicate 32 0
    ++ (0 ∷ 0 ∷ 10 ∷ 0 ∷ 0 ∷ 0 ∷ 0 ∷ 0 ∷ (length contents + 16) ∷ 0 ∷ 0 ∷ 0 ∷ 1 ∷ 0 ∷ 0 ∷ 0 ∷ [])
    ++ be_bytes 8 (1_600_000_000 + unix_offset)
    ++ replicate 8 0
    ++ contents

abbrev pub magnet : Bytes
magnet = bank_memory (codes "DBL" ++ 0 ∷ []) (codes "Magnet") (codes "Current") (replicate 8 7)

abbrev pub world : World
world = record {
  odb = odb;
  memory = replicate 40 0;
  default_period = 10;
  md5 = λ contents. [];
  disk = record { scandir = λ d. []; file = λ f. none };
  unixtime = codes "1600000000";
  now = λ i. 0;
  time = λ i. [];
}

abbrev pub logger : HistoryLogger
logger = record {
  eq_name = codes "feGEM_lab";
  host_memory = codes "lab" ++ replicate 40 0;
  variables = [];
  calls = [];
}

abbrev pub thread : Frontend
thread = record {
  server = record {
    class_type = worker;
    event_size = 10_000;
    debug_mode = 0;
    this_hostname = codes "midas";
    run_status = unknown;
    runno = 7;
    run_start_t = 1;
    run_stop_t = 2;
    allowed = record {
      allowed_hosts = new_host (codes "lab") 0 ∷ [];
      questionable_hosts = [];
      banned_hosts = [];
      allow_self_registration = false;
      odb_calls = [];
    };
    message = record {
      json_message_queue = [];
      json_error_queue = [];
      total_text = 0;
      alarms = [];
    };
    workers = fresh 12_345;
    effects = [];
  };
  logger = logger;
  periodicity = initial;
  elog_host = codes "elog";
  max_elog_post_size = some 1_000_000;
  settings_database = some (codes "/db");
  last_event_size = 10_000;
  buffer_size = 10_000;
  last_status_update = 0;
  calls = [];
}

abbrev pub visit : Visit
visit = record {
  timer_start = 1;
  contact = 1;
  data_time = 1;
  statistics_time = 1;
  handling_time = codes "0.5";
  offset = 100;
  incoming = connection (codes "lab") magnet (bytes 112 ∷ []);
}

abbrev pub updated : HistoryLogger × Bytes
updated = elim (update world.memory 10 8 magnet logger) [ none ↦ (logger, []) | some r ↦ r ]

pub updated_run : update world.memory 10 8 magnet logger ≡ some updated
unfolding update get_category_name gem_bank_at gem_bank field get_variable_name new_variable
    le_value get_unix_timestamp update_variable get_data_entry is_too_early be_bytes last_time
    described get_last_data_entry get_entries find_variable
updated_run = refl

pub size_run : get_total_size (gem_bank_at magnet) ≡ 112
unfolding get_total_size gem_bank_at gem_bank field le_value be_bytes
size_run = refl

pub block_run : (gem_bank_at magnet).block_size ≡ 24
unfolding gem_bank_at gem_bank field le_value be_bytes
block_run = refl

-- The statistics of the thread behind the visit.
abbrev pub looks : PeriodicityManager
looks = elim (log_periodic_with_data 1 1 initial) [ none ↦ initial | some m ↦ m ]

pub looks_run : log_periodic_with_data 1 1 initial ≡ some looks
unfolding log_periodic_with_data write_gem_bank_statistics
looks_run = refl

abbrev pub counted_banks : PeriodicityManager
counted_banks = elim (add_banks_processed 1 looks) [ none ↦ initial | some m ↦ m ]

pub counted_run :
    add_banks_processed (gem_bank_at updated.1).number_of_entries looks ≡ some counted_banks
unfolding log_periodic_with_data write_gem_bank_statistics add_banks_processed update
    update_variable gem_bank_at gem_bank field le_value be_bytes get_data_entry get_category_name
    get_variable_name new_variable get_last_data_entry described is_too_early last_time
    get_unix_timestamp get_entries
counted_run = refl
