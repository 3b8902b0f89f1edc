-- ===== src/History/Tests.antt =====
-- The history logger on concrete banks.
use fe_gem.Common.{ℕ, ◌+◌, ◌≡◌, refl, false, some, [], ◌∷◌, ◌++◌, arith, Bytes, codes, replicate}
use mathlib.Core.Option
use fe_gem.Bank.Layout.{
  gem_bank, gem_bank_at, field, get_data_entry, get_last_data_entry, get_category_name,
  get_variable_name, get_entries,
}
use fe_gem.Bank.Time.{be_bytes, le_value, unix_offset, get_unix_timestamp}
use fe_gem.Bank.Endian.{change_endian}
use fe_gem.History.Plot.{plot_labels, plot_variables}
use fe_gem.History.Variable.{
  has_time, has_values, HistoryVariable, variable_of, is_too_early, described, last_time,
  update_variable, set_equipment_type, new_variable, fe_variables, date_added, announce,
  write_values,
}
use fe_gem.History.Logger.{new_logger, set_client_hostname, HistoryLogger, update}
use fe_gem.History.Throttle.{written_times, Spaced, written_times-Spaced}

-- A bank with one entry of eight bytes, sent at a Unix time.
abbrev bank_memory : Bytes → Bytes → ℕ → Bytes
bank_memory category name time =
    codes "GEB1"
    ++ codes "DBL"
    ++ 0 ∷ []
    ++ category
    ++ name
    ++ replicate 32 0
    ++ (0 ∷ 0 ∷ 10 ∷ 0 ∷ 0 ∷ 0 ∷ 0 ∷ 0 ∷ 24 ∷ 0 ∷ 0 ∷ 0 ∷ 1 ∷ 0 ∷ 0 ∷ 0 ∷ [])
    ++ be_bytes 8 (time + unix_offset)
    ++ replicate 8 0
    ++ replicate 8 7

abbrev magnet : ℕ → Bytes
magnet = bank_memory (codes "Magnet" ++ replicate 10 0) (codes "Current" ++ replicate 9 0)

abbrev current : HistoryVariable
current =
    variable_of (codes "Magnet") (codes "Current") 10 (codes "Equipment/Magnet/Variables") false
      (replicate 31 0)

time_of : last_time (described current (magnet 1_600_000_000)) ≡ 1_600_000_000
unfolding last_time described get_last_data_entry get_data_entry gem_bank_at gem_bank field le_value
    get_unix_timestamp be_bytes change_endian
time_of = refl

later_time_of : last_time (described current (magnet 2_200_000_000)) ≡ 2_200_000_000
unfolding last_time described get_last_data_entry get_data_entry gem_bank_at gem_bank field le_value
    get_unix_timestamp be_bytes change_endian
later_time_of = refl

written_times-Spaced_example :
    Spaced 8 10 0 (written_times 8 current (magnet 1_600_000_000 ∷ magnet 1_600_000_000 ∷ []))
written_times-Spaced_example =
    written_times-Spaced 8 current (magnet 1_600_000_000 ∷ magnet 1_600_000_000 ∷ [])
      (λ e. omega (arith, e)) (omega arith) (omega (arith, time_of), (omega (arith, time_of), tt))

written_times_run :
    written_times 8 current (magnet 1_600_000_000 ∷ magnet 1_600_000_000 ∷ []) ≡ 1_600_000_000 ∷ []
unfolding written_times update_variable has_time has_values is_too_early last_time described
    get_last_data_entry get_data_entry gem_bank_at gem_bank field le_value get_unix_timestamp
    be_bytes change_endian get_entries
written_times_run = refl

abbrev logger : HistoryLogger
logger = record {
  eq_name = codes "feGEM_lab";
  host_memory = codes "lab" ++ replicate 40 0;
  variables = [];
  calls = [];
}

logger_run :
    set_client_hostname (codes "lab") (replicate 39 0) (new_logger (codes "feGEM_lab") []) ≡ logger
unfolding set_client_hostname new_logger
logger_run = refl

abbrev long_names : Bytes
long_names = bank_memory (codes "VacuumSystemRoom") (codes "PressureGauge001") 1_600_000_000

-- The sixteen letters of the category end in the letters of the name.
abbrev long_category : Bytes
long_category = codes "VacuumSystemRoomPressureGauge001"

set_equipment_run :
    (gem_bank_at (set_equipment_type (magnet 1_600_000_000) (codes "lab"))).name.equipment_type
    ≡ codes "lab" ++ replicate 29 0
unfolding gem_bank_at gem_bank field set_equipment_type be_bytes
set_equipment_run = refl

labels_run :
    plot_labels 3 ≡ codes "CPU 1 Load (%)" ∷ codes "CPU 2 Load (%)" ∷ codes "Memory Usage (%)" ∷ []
unfolding plot_labels
labels_run = refl

variables_run : plot_variables (codes "feGEM_lab") 1 ≡ codes "feGEM_lab/CPUMEM:CPUMEM[0]" ∷ []
unfolding plot_variables
variables_run = refl

-- The first bank of a variable: it is listed, dated, announced and written.
first_update_run :
    Option.map (λ r. r.0.calls) (update (replicate 40 0) 10 8 (magnet 1_600_000_000) logger)
    ≡ some (
        fe_variables 0 (codes "Magnet/Current")
        ∷ date_added 0 1_600_000_000
        ∷ announce (codes "Magnet") (codes "Current")
        ∷ write_values (codes "Equipment/Magnet/Variables") (codes "Current") (replicate 8 7)
        ∷ [])
unfolding update get_category_name gem_bank_at gem_bank field get_variable_name new_variable
    le_value get_unix_timestamp update_variable has_time has_values get_data_entry is_too_early
    be_bytes last_time described get_last_data_entry get_entries
first_update_run = refl
