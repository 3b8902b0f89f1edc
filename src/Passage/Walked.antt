-- ===== src/Passage/Walked.antt =====
-- HandleBankArray of src/feGEMClass.cxx changes the message while it walks over it: what it makes of
-- the banks is what they are as the client sent them.
use fe_gem.Common.{ℕ, zero, suc, ◌+◌, ◌≤◌, ◌≡◌, Option, none, some, Bytes, length, drop}
use fe_gem.Bank.Layout.{gem_bank_at, get_header_size, get_total_size, u32}
use fe_gem.Bank.Title.{◌>>=◌}
use fe_gem.History.Logger.{HistoryLogger, update}
use fe_gem.Frontend.State.{Frontend, World}
use fe_gem.Frontend.Kinds.{Kind, kind_of, element_size}
use fe_gem.Frontend.Values.{IsNumeric}

-- The specification: the history takes the banks one after the other, and the entries are counted.
abbrev pub size_for : Option Kind → ℕ
size_for none = 0
size_for (some k) = element_size k

abbrev pub log_next : World → Bytes → Option HistoryLogger → Option HistoryLogger
log_next w p none = none
log_next w p (some l) = do
  r ← update w.memory w.default_period (size_for (kind_of (gem_bank_at p).name.datatype)) p l
  some r.0

abbrev pub count_next : Bytes → ℕ → ℕ
count_next p n = n + (gem_bank_at p).number_of_entries

-- The banks that stand in the message: each is in memory, holds numbers and is small enough.
abbrev pub Loggable : ℕ → ℕ → Bytes → Type 0
Loggable event_size zero p = Unit
Loggable event_size (suc n) p =
    (get_header_size ≤ length p)
    × (u32 ((gem_bank_at p).block_size + get_header_size) ≤ event_size)
    × (72 ≤ get_total_size (gem_bank_at p))
    × ((k : Kind) × (kind_of (gem_bank_at p).name.datatype ≡ some k) × IsNumeric k)
    × Loggable event_size n (drop (get_total_size (gem_bank_at p)) p)
