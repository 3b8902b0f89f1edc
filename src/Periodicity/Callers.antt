-- ===== src/Periodicity/Callers.antt =====
-- The callers that a PeriodicityManager counts, and the period that follows from their number.
use native.Mathlib.Nat.{}
use fe_gem.Common.{◌≤◌, ℕ, ◌≡◌, length}
use fe_gem.Periodicity.Manager.{PeriodicityManager}
use fe_gem.Periodicity.Periods.{Distinct, period_for}

abbrev pub Matched : PeriodicityManager → Type 0
Matched s =
    (s.number_of_connections ≡ length s.remote_callers)
    × Distinct s.remote_callers
    × (s.period ≡ period_for s.number_of_connections)

-- The counters are no larger than the number of events, and than their banks.
abbrev Within : ℕ → ℕ → PeriodicityManager → Type 0
Within events all s =
    (s.number_of_connections ≤ events)
    × (s.periodic_with_data ≤ events)
    × (s.periodic_without_data ≤ events)
    × (s.gem_bank_events ≤ all)
