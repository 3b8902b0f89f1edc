-- ===== src/Periodicity/Tests.antt =====
-- A PeriodicityManager at work on concrete announcements.
use fe_gem.Common.{◌≡◌, refl, true, false, some, none, ◌-◌, ◌^◌, List, [], ◌∷◌, Bytes, codes}
use fe_gem.Periodicity.Manager.{
  initial, program_name, caller_of, add_ints, log_periodic_without_data, write_gem_bank_statistics,
  is_busy,
}
use fe_gem.Periodicity.Events.{Event, message, with_data, without_data, banks}

abbrev hello : Bytes
hello = codes "New python connection from PROGRAM:monitor.py"

abbrev events : List Event
events = message 60 hello ∷ with_data 5 11_000_000 ∷ without_data ∷ banks 3 ∷ message 60 hello ∷ []

program_name_runs :
    (program_name hello ≡ codes "monitor.py")
    × (program_name (codes "hello") ≡ codes "Badly formatted string")
unfolding program_name
program_name_runs = (refl, refl)

-- A text that is sent without its NUL loses its last character.
caller_run : caller_of 61 hello ≡ some (codes "New python connection from PROGRAM:monitor.p")
unfolding caller_of
caller_run = refl

busy_runs : (is_busy 1000 0 3 ≡ true) × (is_busy 1000 500 3 ≡ false) × (is_busy 1000 300 3 ≡ true)
unfolding is_busy
busy_runs = (refl, refl, refl)

counter_runs :
    (add_ints (2 ^ 31 - 1) 1 ≡ none)
    × (add_ints 3 (2 ^ 32 - 1) ≡ some 2)
    × (log_periodic_without_data (record initial { periodic_without_data = 2 ^ 31 - 1 }) ≡ none)
    × ((write_gem_bank_statistics 20 (record initial { gem_bank_events = 3 })).gem_bank_events ≡ 0)
unfolding add_ints log_periodic_without_data write_gem_bank_statistics
counter_runs = (refl, refl, refl, refl)
