-- ===== src/Server/Tests.antt =====
-- A frontend thread at concrete commands and messages.
use fe_gem.Common.{
  ◌≤◌, ◌≡◌, refl, false, some, none, [], ◌∷◌, ◌++◌, arith, Bytes, codes, length, select, replicate,
  map,
}
use fe_gem.Bank.Layout.{gem_bank, gem_bank_at, field, get_total_size}
use fe_gem.Bank.Time.{le_value}
use fe_gem.Message.Queue.{empty_handler}
use fe_gem.Server.State.{
  worker, unknown, Server, write_event_size, set_status, fe_status, handle_begin_run,
  handle_end_run,
}
use fe_gem.Server.Commands.{Command, tests, is_command, first_match, resize}
use fe_gem.Server.Prefixes.{tests_exclusive}
use fe_gem.Server.Reading.{bytes, receive, header_timeout, bank_received}
use fe_gem.Server.Arrival.{split_header, whole_bank}
use fe_gem.Supervisor.Ports.{fresh}

tests_exclusive_example : length (select (is_command (codes "GET_RUNNO")) tests) ≤ 1
tests_exclusive_example = tests_exclusive (codes "GET_RUNNO")

-- ALLOW_HOST has ten letters and is compared on fourteen: it is no prefix but the whole name.
first_match_runs :
    (first_match (codes "GET_RUNNO now") tests ≡ some Command.get_runno)
    × (first_match (codes "ALLOW_HOST") tests ≡ some Command.allow_host)
    × (first_match (codes "ALLOW_HOSTS") tests ≡ none)
unfolding first_match tests is_command
first_match_runs = (refl, refl, refl)

abbrev thread : Server
thread = record {
  class_type = worker;
  event_size = 10_000;
  debug_mode = 0;
  this_hostname = codes "midas";
  run_status = unknown;
  runno = 7;
  run_start_t = 1;
  run_stop_t = 2;
  allowed = record {
    allowed_hosts = [];
    questionable_hosts = [];
    banned_hosts = [];
    allow_self_registration = false;
    odb_calls = [];
  };
  message = empty_handler;
  workers = fresh 12_345;
  effects = [];
}

resize_run :
    (resize 20_000 thread).effects
    ≡ write_event_size 20_000
      ∷ set_status (codes "Rate limit set: 20KiB/s") (codes "greenLight")
      ∷ []
unfolding resize
resize_run = refl

status_run :
    fe_status 10_000 (some 7200)
    ≡ (codes "Rate limit set: 10KiB/s [No data for ~2 hours]", codes "redLight")
unfolding fe_status
status_run = refl

begin_run : (handle_end_run 8 3 4 (handle_begin_run 8 3 thread)).run_stop_t ≡ 4
unfolding handle_begin_run handle_end_run
begin_run = refl

-- The header of a bank with one block of 100 bytes.
abbrev header : Bytes
header = codes "GEB1" ++ replicate 76 0 ++ (100 ∷ 0 ∷ 0 ∷ 0 ∷ 1 ∷ 0 ∷ 0 ∷ 0 ∷ [])

total_run : get_total_size (gem_bank_at header) ≡ 188
unfolding get_total_size gem_bank_at gem_bank field le_value
total_run = refl

split_header_example : receive 9_000 10_000 header (map bytes (60 ∷ 60 ∷ 68 ∷ [])) ≡ header_timeout
split_header_example =
    split_header 9_000 10_000 header 60 (60 ∷ 68 ∷ []) (omega arith) (omega arith) (omega arith)
      (omega arith, (omega arith, (omega arith, tt)))

whole_bank_example :
    receive 10_000 10_000 header (map bytes (100 ∷ 50 ∷ 38 ∷ []))
    ≡ bank_received (get_total_size (gem_bank_at header))
whole_bank_example =
    whole_bank 10_000 10_000 header 100 (50 ∷ 38 ∷ []) refl (omega (arith, total_run)) (omega arith)
      (omega arith) (omega (arith, total_run)) (omega (arith, total_run))
      (omega arith, (omega arith, tt)) (omega (arith, total_run)) (omega arith)
