-- ===== src/Periodicity/Manager.antt =====
-- Class PeriodicityManager of src/PeriodicityManager.cxx and include/PeriodicityManager.h. times_of are
-- in microseconds; what the source compares as double is compared exactly. Messages and ODB writes
-- are recorded in order.
use fe_gem.Common.{
  ◌^◌, leb, ℕ, ◌+◌, ◌-◌, ◌*◌, ◌/◌, ◌%◌, min, Bool, true, false, ◌&&◌, ◌||◌, Option, none, some,
  List, [], ◌∷◌, ◌++◌, Bytes, codes, ltb, ◌==◌, if◌then◌else◌, take, drop, c_str, strncmp_eq,
  bytes_eq,
}
use fe_gem.Bank.Title.{◌>>=◌}
use fe_gem.Bank.Layout.{u32, sub_u32}

pub data Report : Type 0 where
  -- fMfe->Msg(MTALK, ..., "Restart of program %s detected")
  restart : Bytes → Report
  -- "periodic tasks are very busy" and the numbers behind it
  busy : ℕ → ℕ → ℕ → Report
  -- fOdbStatistics->WI
  write_int : Bytes → ℕ → Report
  -- fOdbStatistics->WD("GEM Banks per sec."), as banks and elapsed time
  write_rate : ℕ → ℕ → Report

pub record PeriodicityManager : Type 0 where
  pub period : ℕ
  pub number_of_connections : ℕ
  pub remote_callers : List Bytes
  pub periodic_with_data : ℕ
  pub periodic_without_data : ℕ
  -- the bit pattern of the int fGEMBankEvents
  pub gem_bank_events : ℕ
  pub gem_stat_last_time : ℕ
  pub time_of_last_data : ℕ
  pub notices : List Report

abbrev pub initial : PeriodicityManager
initial = record {
  period = 500;
  number_of_connections = 0;
  remote_callers = [];
  periodic_with_data = 0;
  periodic_without_data = 0;
  gem_bank_events = 0;
  gem_stat_last_time = 0;
  time_of_last_data = 0;
  notices = [];
}

abbrev pub notify : List Report → PeriodicityManager → PeriodicityManager
notify more s = record s { notices = s.notices ++ more }

-- What stands behind the first "PROGRAM:".
unfoldable pub program_name : Bytes → Bytes
program_name [] = codes "Badly formatted string"
program_name (c ∷ cs) =
    let rest = program_name cs in
    if strncmp_eq 8 (c ∷ cs) (codes "PROGRAM:") then drop 8 (c ∷ cs) else rest

unfoldable pub is_caller : List Bytes → Bytes → Bool
is_caller [] prog = false
is_caller (item ∷ items) prog =
    let rest = is_caller items prog in if bytes_eq prog item then true else rest

-- ++ on an int; an overflow is undefined.
unfoldable pub next_int : ℕ → Option ℕ
next_int n = if ltb (n + 1) (2 ^ 31) then some (n + 1) else none

unfoldable pub add_remote_caller : Bytes → PeriodicityManager → Option PeriodicityManager
unfolding next_int
add_remote_caller prog s =
    if is_caller s.remote_callers prog
    then some (notify (restart (program_name prog) ∷ []) s)
    else (do
      n ← next_int s.number_of_connections
      some (record s { number_of_connections = n; remote_callers = s.remote_callers ++ prog ∷ [] }))

-- fPeriod > 1000. / (fNumberOfConnections + 1), and the quotient as an int
unfoldable pub update_periodicity : PeriodicityManager → PeriodicityManager
update_periodicity s =
    let n = s.number_of_connections + 1 in
    record s {
      period = if ltb 1000 (s.period * n) then 1000 / n else s.period;
      periodic_with_data = 0;
      periodic_without_data = 0;
    }

abbrev pub announces : Bytes → Bool
announces text =
    strncmp_eq 27 text (codes "New labview connection from")
    || strncmp_eq 26 text (codes "New python connection from")

-- The characters that snprintf leaves in ProgramName; none if it leaves the array as it was.
unfoldable pub caller_of : ℕ → Bytes → Option Bytes
caller_of block_size text =
    let name_length = min 1023 (sub_u32 block_size 16) in
    if name_length == 0 then none else some (take (name_length - 1) (c_str text))

-- `text` is the memory of the DATA of the bank's first entry; `none` is a read of an array that was
-- never written, or an overflow.
unfoldable pub process_message : ℕ → Bytes → PeriodicityManager → Option PeriodicityManager
process_message block_size text s =
    if announces text
    then (do
      prog ← caller_of block_size text
      s ← add_remote_caller prog s
      some (update_periodicity s))
    else some s

-- a + b on the bit patterns of ints; an overflow is undefined.
unfoldable pub add_ints : ℕ → ℕ → Option ℕ
add_ints a b =
    if ltb a (2 ^ 31) && ltb b (2 ^ 31) && leb (2 ^ 31) (a + b)
    then none
    else if leb (2 ^ 31) a && leb (2 ^ 31) b && ltb (a + b) (3 * 2 ^ 31)
    then none
    else some (u32 (a + b))

unfoldable pub add_banks_processed : ℕ → PeriodicityManager → Option PeriodicityManager
unfolding add_ints
add_banks_processed nbanks s = do
  n ← add_ints s.gem_bank_events nbanks
  some (record s { gem_bank_events = n })

unfoldable pub write_gem_bank_statistics : ℕ → PeriodicityManager → PeriodicityManager
write_gem_bank_statistics now s =
    let elapsed = now - s.gem_stat_last_time in
    if ltb 10_000_000 elapsed || s.gem_stat_last_time == 0
    then record s {
      gem_stat_last_time = now;
      gem_bank_events = 0;
      notices = s.notices ++ write_rate s.gem_bank_events elapsed ∷ [];
    }
    else s

-- with / without > connections * 1.1, where the quotient by 0 is infinite
unfoldable pub is_busy : ℕ → ℕ → ℕ → Bool
is_busy with_data without_data connections = ltb (11 * connections * without_data) (10 * with_data)

-- What LogPeriodicWithData reports when it has counted to `data_count`.
unfoldable pub reports : ℕ → PeriodicityManager → List Report
unfolding is_busy
reports data_count s =
    let idle = s.periodic_without_data in
    let n = s.number_of_connections in
    let check =
      if data_count % 1000 == 0 && is_busy data_count idle n
      then busy data_count idle n ∷ []
      else [] in
    check
    ++ write_int (codes "Periodicicity") s.period
      ∷ write_int (codes "Connections") n
      ∷ write_int (codes "PeriodicsWithData") data_count
      ∷ write_int (codes "SparePeriodics") idle
      ∷ []

unfoldable pub log_periodic_with_data : ℕ → ℕ → PeriodicityManager → Option PeriodicityManager
unfolding next_int reports
log_periodic_with_data now time s = do
  let s = write_gem_bank_statistics time (record s { time_of_last_data = now })
  data_count ← next_int s.periodic_with_data
  some (notify (reports data_count s) (record s { periodic_with_data = data_count }))

unfoldable pub log_periodic_without_data : PeriodicityManager → Option PeriodicityManager
unfolding next_int
log_periodic_without_data s = do
  n ← next_int s.periodic_without_data
  some (record s { periodic_without_data = n })
